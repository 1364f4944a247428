-- ===== src/Delegation/Limits.antt =====
-- The limits of depth and of children, for any sequence of spawns and completions.
use local_mind.Base.{
  ℕ, suc, ◌≤◌, ◌<◌, ◌≡◌, refl, sym, ◌∙◌, ap, subst, Bool, true, ◌&&◌, ◌⊎◌, inl, inr, List, [], ◌∷◌,
  none, some, arith, ◌==◌, fetchone, rowcount, update, updated, exists, All-update, Bool-cases,
}
use mathlib.Core.Option.{some-injective}
use local_mind.Delegation.{
  Delegation, JobRow, has_id, child_of, is_child, get_depth, get_tree_root, get_parent, Spawn,
  spawn_child_job, DelegationStatus, is_active, is_final, mark_completed, max_child_jobs_per_parent,
  max_delegation_depth,
}
use local_mind.Delegation.Depth.{Climbs, root, up, get_depth-Climbs}
use local_mind.Delegation.Bounds.{IsBounded, IsDeeper, spawn_child_job-Outcome, Outcome-IsBounded}

pub data Call : Type 0 where
  spawns : Spawn → (complete : Bool) → Call
  completes : (child_job_id : ℕ) → DelegationStatus → (now : ℕ) → Call

unfoldable pub step : Call → List JobRow × List Delegation → List JobRow × List Delegation
step (spawns s complete) (jobs, rows) =
    let r = spawn_child_job s complete (jobs, rows) in (r.1, r.2)
step (completes child status now) (jobs, rows) = (jobs, (mark_completed child status now rows).1)

unfoldable pub run : List Call → List JobRow × List Delegation → List JobRow × List Delegation
unfolding step
run [] state = state
run (c ∷ calls) state = run calls (step c state)

module _ (child : ℕ) (status : DelegationStatus) (now : ℕ) where
  abbrev hit : Delegation → Bool
  hit r = r.child_job_id == child && is_active r.status

  abbrev close : Delegation → Delegation
  close r = record r { status = status; completed_at = some now }

  updated-same :
      (r : Delegation)
      → ((updated hit close r).child_job_id ≡ r.child_job_id)
        × ((updated hit close r).parent_job_id ≡ r.parent_job_id)
  updated-same r = elim (Bool-cases (hit r)) [
    | inl t ↦ rw t (refl, refl)
    | inr f ↦ rw f (refl, refl)
  ]

  fetchone-close :
      (job : ℕ) (rows : List Delegation)
      → ((fetchone (is_child job) rows ≡ none)
          × (fetchone (is_child job) (update hit close rows) ≡ none))
        ⊎ ((r : Delegation) × (fetchone (is_child job) rows ≡ some r)
            × (fetchone (is_child job) (update hit close rows) ≡ some (updated hit close r)))
  fetchone-close job [] = inl (refl, refl)
  fetchone-close job (r ∷ rows) =
      let (same, _) = updated-same r in
      let agree : is_child job (updated hit close r) ≡ is_child job r = ap (λ x. x == job) same in
      elim (Bool-cases (is_child job r)) [
        | inl t ↦ rw (agree, t) (inr (r, refl, refl))
        | inr f ↦ rw (agree, f) (fetchone-close job rows)
      ]

  Climbs-close :
      (rows : List Delegation) (job d : ℕ)
      → Climbs rows job d
      → Climbs (update hit close rows) job d
  Climbs-close rows job d (root n) = elim (fetchone-close job rows) [
    | inl (_, e) ↦ root e
    | inr (r, h, e) ↦ absurd (ground arith)
  ]
  Climbs-close rows job (suc d) (up q h c) = elim (fetchone-close job rows) [
    | inl (n, e) ↦ absurd (ground arith)
    | inr (r, k, e) ↦
        let same : q ≡ r = some-injective _ _ (sym h ∙ k) in
        let parent : q.parent_job_id ≡ (updated hit close r).parent_job_id =
          ap (λ x. x.parent_job_id) same ∙ sym (updated-same r).1 in
        up (updated hit close r) e (
          subst (λ x. Climbs (update hit close rows) x d) parent
            (Climbs-close rows q.parent_job_id d c))
  ]

  rowcount-close :
      (job : ℕ) (rows : List Delegation)
      → rowcount (child_of job) (update hit close rows) ≡ rowcount (child_of job) rows
  rowcount-close job [] = refl
  rowcount-close job (r ∷ rows) =
      let agree : child_of job (updated hit close r) ≡ child_of job r =
        ap (λ x. x == job) (updated-same r).1 in
      ground (arith, agree, rowcount-close job rows)

  close-IsBounded :
      (jobs : List JobRow) (rows : List Delegation)
      → IsBounded jobs rows
      → IsBounded jobs (update hit close rows)
  close-IsBounded jobs rows before = record {
    known =
        All-update hit close
          (λ r.
            (exists (has_id r.child_job_id) jobs ≡ true)
            × (exists (has_id r.parent_job_id) jobs ≡ true))
          (λ r.
            (exists (has_id r.child_job_id) jobs ≡ true)
            × (exists (has_id r.parent_job_id) jobs ≡ true))
          rows
          (λ r (a, b). (
            ap (λ x. exists (has_id x) jobs) (updated-same r).0 ∙ a,
            ap (λ x. exists (has_id x) jobs) (updated-same r).1 ∙ b,
          ))
          before.known;
    shallow = λ job. let (d, c, lt) = before.shallow job in (d, Climbs-close rows job d c, lt);
    deeper =
        All-update hit close (IsDeeper rows) (IsDeeper (update hit close rows)) rows
          (λ r (d, a, b).
            let (same_child, same_parent) = updated-same r in
            (
              d,
              subst (λ x. Climbs (update hit close rows) x d) (sym same_parent)
                  (Climbs-close rows r.parent_job_id d a),
              subst (λ x. Climbs (update hit close rows) x (suc d)) (sym same_child)
                  (Climbs-close rows r.child_job_id (suc d) b),
            ))
          before.deeper;
    narrow = λ job. omega (arith, rowcount-close job rows, before.narrow job);
  }

step-IsBounded :
    (c : Call) (jobs : List JobRow) (rows : List Delegation)
    → IsBounded jobs rows
    → IsBounded (step c (jobs, rows)).0 (step c (jobs, rows)).1
unfolding step mark_completed
step-IsBounded (spawns s complete) jobs rows before =
    Outcome-IsBounded s complete jobs rows before (spawn_child_job-Outcome s complete jobs rows)
step-IsBounded (completes child status now) jobs rows before = elim (Bool-cases (is_final status)) [
  | inl t ↦ rw t (close-IsBounded child status now jobs rows before)
  | inr f ↦ rw f before
]

pub run-IsBounded :
    (calls : List Call) (state : List JobRow × List Delegation)
    → IsBounded state.0 state.1
    → IsBounded (run calls state).0 (run calls state).1
unfolding run
run-IsBounded [] state before = before
run-IsBounded (c ∷ calls) state before =
    run-IsBounded calls (step c state) (step-IsBounded c state.0 state.1 before)

pub empty-IsBounded : (jobs : List JobRow) → IsBounded jobs []
empty-IsBounded jobs = record {
  known = tt;
  shallow = λ job. (0, root refl, omega arith);
  deeper = tt;
  narrow = λ job. omega arith;
}

-- After any sequence of spawns and completions on an empty job_delegation, every job is less than
-- MAX_DELEGATION_DEPTH deep and has at most MAX_CHILD_JOBS_PER_PARENT children, and get_tree_root finds
-- a job without parent for it.
pub run_within_limits :
    (calls : List Call) (jobs : List JobRow) (job : ℕ)
    → let rows = (run calls (jobs, [])).1 in
      ((d : ℕ) × (get_depth job rows ≡ some d) × (d < max_delegation_depth))
      × ((top : ℕ) × (get_tree_root job rows ≡ some top) × (get_parent top rows ≡ none))
      × (rowcount (child_of job) rows ≤ max_child_jobs_per_parent)
unfolding get_parent
run_within_limits calls jobs job =
    let after = run-IsBounded calls (jobs, []) (empty-IsBounded jobs) in
    let (d, c, lt) = after.shallow job in
    let (depth, top) = get_depth-Climbs (run calls (jobs, [])).1 job d c in
    ((d, depth, lt), top, after.narrow job)

-- ===== src/Delegation/Bounds.antt =====
-- What the engine keeps of a delegation tree, and that a spawn keeps it.
use local_mind.Base.{
  ℕ, suc, ◌+◌, ◌≤◌, ◌<◌, ◌≡◌, ◌≢◌, refl, sym, ◌∙◌, ap, Bool, true, false, not, ◌||◌, List, [], ◌∷◌,
  none, some, Result, ok, err, inl, inr, arith, ◌==◌, leb, if◌then◌else◌, fetchone, rowcount,
  insert, exists, All, All-mem, All-both, All-append, All-mono, Option-cases, Bool-cases,
  fetchone-insert, fetchone-insert_hit, fetchone-insert_miss, fetchone-mem,
}
use local_mind.Delegation.{
  Delegation, JobRow, has_id, child_of, is_child, get_depth, Spawn, SpawnError, spawn_child_job,
  insert_child, child_job, delegation, max_child_jobs_per_parent, max_delegation_depth,
  clashes_with,
}
use local_mind.Delegation.Depth.{Climbs, root, up, get_depth-Climbs}

-- The child of a row is one step below its parent.
abbrev pub IsDeeper : List Delegation → Delegation → Type 0
IsDeeper rows r = (d : ℕ) × Climbs rows r.parent_job_id d × Climbs rows r.child_job_id (suc d)

-- What the engine keeps: the jobs that the rows name exist, every job is at most four steps below a
-- root, a child is one step below its parent, and no job has more than ten children.
pub record IsBounded (jobs : List JobRow) (rows : List Delegation) : Type 0 where
  pub known :
      All
        (λ r.
          (exists (has_id r.child_job_id) jobs ≡ true)
          × (exists (has_id r.parent_job_id) jobs ≡ true))
        rows
  pub shallow : (job : ℕ) → (d : ℕ) × Climbs rows job d × (d < max_delegation_depth)
  pub deeper : All (IsDeeper rows) rows
  pub narrow : (job : ℕ) → rowcount (child_of job) rows ≤ max_child_jobs_per_parent

exists-insert :
    (id : ℕ) (j : JobRow) (jobs : List JobRow)
    → exists (has_id id) (insert j jobs) ≡ exists (has_id id) jobs || has_id id j
exists-insert id j [] = ground arith
exists-insert id j (k ∷ jobs) = ground (arith, exists-insert id j jobs)

rowcount-insert :
    (job : ℕ) (r : Delegation) (rows : List Delegation)
    → rowcount (child_of job) (insert r rows)
      ≡ rowcount (child_of job) rows + (if child_of job r then 1 else 0)
rowcount-insert job r [] = ground arith
rowcount-insert job r (x ∷ rows) = ground (arith, rowcount-insert job r rows)

-- The row does not name the job.
abbrev IsFree : ℕ → Delegation → Type 0
IsFree job r = (r.parent_job_id ≢ job) × (r.child_job_id ≢ job)

-- A job that does not exist is in no row.
not_child :
    (jobs : List JobRow) (job : ℕ) (rows : List Delegation)
    → All
        (λ r.
          (exists (has_id r.child_job_id) jobs ≡ true)
          × (exists (has_id r.parent_job_id) jobs ≡ true))
        rows
    → exists (has_id job) jobs ≡ false
    → (fetchone (is_child job) rows ≡ none) × All (IsFree job) rows
not_child jobs job [] h n = (refl, tt)
not_child jobs job (r ∷ rows) h n =
    let (miss, others) = not_child jobs job rows h.1 n in
    let fresh : is_child job r ≡ false = elim (Bool-cases (is_child job r)) [
      | inr f ↦ f
      | inl t ↦
          let same : r.child_job_id ≡ job = ground arith in
          let taken = ap (λ x. exists (has_id x) jobs) (sym same) ∙ h.0.0 in absurd (ground arith)
    ] in
    (
      rw fresh miss,
      (
        (
          (λ same. let taken = ap (λ x. exists (has_id x) jobs) (sym same) ∙ h.0.1 in ground arith),
          (λ same. let taken = ap (λ x. exists (has_id x) jobs) (sym same) ∙ h.0.0 in ground arith),
        ),
        others,
      ),
    )

module _ (r : Delegation) (rows : List Delegation) (free : All (IsFree r.child_job_id) rows) where
  -- A new leaf does not change the depth of another job.
  Climbs-insert :
      (job d : ℕ) → Climbs rows job d → job ≢ r.child_job_id → Climbs (insert r rows) job d
  Climbs-insert job d (root n) ne =
      root (fetchone-insert_miss (is_child job) r rows (ground arith) ∙ n)
  Climbs-insert job (suc d) (up q e c) ne = up q (fetchone-insert_hit (is_child job) r q rows e) (
      Climbs-insert q.parent_job_id d c
        ((All-mem (IsFree r.child_job_id) rows free q (fetchone-mem (is_child job) rows q e)).0))

module _ (s : Spawn) (complete : Bool) (jobs : List JobRow) (rows : List Delegation) where
  -- What held where a child was spawned.
  pub record Accepted : Type 0 where
    pub parent_known : exists (has_id s.parent_job_id) jobs ≡ true
    pub child_fresh : exists (has_id s.child_job_id) jobs ≡ false
    pub room : rowcount (child_of s.parent_job_id) rows < max_child_jobs_per_parent
    pub depth : ℕ
    pub depth_of : get_depth s.parent_job_id rows ≡ some depth
    pub not_too_deep : depth + 1 < max_delegation_depth

  pub data Outcome : Result SpawnError Delegation × List JobRow × List Delegation → Type 0 where
    refused : (e : SpawnError) → Outcome (err e, jobs, rows)
    spawned :
        Accepted
        → Outcome (ok (delegation s), insert (child_job s) jobs, insert (delegation s) rows)

  pub spawn_child_job-Outcome : Outcome (spawn_child_job s complete (jobs, rows))
  unfolding spawn_child_job insert_child
  spawn_child_job-Outcome = elim (Bool-cases (exists (has_id s.parent_job_id) jobs)) [
    | inr f ↦ rw f (refused _)
    | inl p ↦
        elim (Bool-cases
          (leb max_child_jobs_per_parent (rowcount (child_of s.parent_job_id) rows))) [
            | inl t ↦ rw (p, t) (refused _)
            | inr room ↦ elim (Option-cases (get_depth s.parent_job_id rows)) [
              | inl n ↦ rw (p, room, n) (refused _)
              | inr (d, e) ↦ elim (Bool-cases (leb max_delegation_depth (d + 1))) [
                | inl t ↦ rw (p, room, e, t) (refused _)
                | inr shallow ↦
                    elim (Bool-cases (
                      not complete
                      || (exists (has_id s.child_job_id) jobs || exists (clashes_with s) rows))) [
                        | inl t ↦ rw (p, room, e, shallow, t) (refused _)
                        | inr free ↦
                            rw (p, room, e, shallow, free)
                              (spawned (record {
                                parent_known = p;
                                child_fresh = ground arith;
                                room = ground arith;
                                depth = d;
                                depth_of = e;
                                not_too_deep = ground arith;
                              }))
                      ]
              ]
            ]
          ]
  ]

  module _ (before : IsBounded jobs rows) (ok_to : Accepted) where
    -- The rows of a table that is accepted do not name the new job.
    fresh_child :
        (fetchone (is_child s.child_job_id) rows ≡ none) × All (IsFree s.child_job_id) rows
    fresh_child = not_child jobs s.child_job_id rows before.known ok_to.child_fresh

    parent_not_child : s.parent_job_id ≢ s.child_job_id
    parent_not_child same =
        let taken = ap (λ x. exists (has_id x) jobs) (sym same) ∙ ok_to.parent_known in
        let free = ok_to.child_fresh in absurd (ground arith)

    spawned-shallow :
        (job : ℕ) → (d : ℕ) × Climbs (insert (delegation s) rows) job d × (d < max_delegation_depth)
    unfolding delegation
    spawned-shallow job = elim (Bool-cases (job == s.child_job_id)) [
      | inr f ↦
          let (d, c, lt) = before.shallow job in
          (d, Climbs-insert (delegation s) rows fresh_child.1 job d c (ground arith), lt)
      | inl t ↦
          let (d, c, lt) = before.shallow s.parent_job_id in
          let same : some d ≡ some ok_to.depth =
            sym (get_depth-Climbs rows s.parent_job_id d c).0 ∙ ok_to.depth_of in
          let here : fetchone (is_child job) (insert (delegation s) rows) ≡ some (delegation s) =
            fetchone-insert (is_child job) (delegation s) rows
              (ap (λ x. fetchone (is_child x) rows) (ground arith) ∙ fresh_child.0)
              (ground arith) in
          (
            suc d,
            up (delegation s) here (
                Climbs-insert (delegation s) rows fresh_child.1 s.parent_job_id d c
                  parent_not_child),
            ground (arith, same, ok_to.not_too_deep),
          )
    ]

    -- The new child is one step below its parent.
    spawned-below :
        (d : ℕ)
        → Climbs rows s.parent_job_id d
        → Climbs (insert (delegation s) rows) s.parent_job_id d
          × Climbs (insert (delegation s) rows) s.child_job_id (suc d)
    unfolding delegation
    spawned-below d c =
        let parent =
          Climbs-insert (delegation s) rows fresh_child.1 s.parent_job_id d c parent_not_child in
        (
          parent,
          up (delegation s)
              (fetchone-insert (is_child s.child_job_id) (delegation s) rows fresh_child.0
                (ground arith))
              parent,
        )

    spawned-IsDeeper : All (IsDeeper (insert (delegation s) rows)) (insert (delegation s) rows)
    unfolding delegation
    spawned-IsDeeper =
        let grow = Climbs-insert (delegation s) rows fresh_child.1 in
        let (d, c, lt) = before.shallow s.parent_job_id in
        All-append (IsDeeper (insert (delegation s) rows)) rows (delegation s ∷ [])
          (All-mono _ _ rows
            (λ r ((e, a, b), n).
              (e, grow r.parent_job_id e a n.0, grow r.child_job_id (suc e) b n.1))
            (All-both (IsDeeper rows) (IsFree s.child_job_id) rows before.deeper fresh_child.1))
          ((d, (spawned-below d c).0, (spawned-below d c).1), tt)

    spawned-narrow :
        (job : ℕ) → rowcount (child_of job) (insert (delegation s) rows) ≤ max_child_jobs_per_parent
    unfolding delegation
    spawned-narrow job =
        let count = rowcount-insert job (delegation s) rows in
        elim (Bool-cases (s.parent_job_id == job)) [
          | inr f ↦ ground (arith, count, before.narrow job)
          | inl t ↦
              let same : rowcount (child_of s.parent_job_id) rows ≡ rowcount (child_of job) rows =
                ap (λ x. rowcount (child_of x) rows) (ground arith) in
              ground (arith, count, ok_to.room, same)
        ]

    spawned-known :
        All
          (λ r.
            (exists (has_id r.child_job_id) (insert (child_job s) jobs) ≡ true)
            × (exists (has_id r.parent_job_id) (insert (child_job s) jobs) ≡ true))
          (insert (delegation s) rows)
    unfolding delegation child_job
    spawned-known =
        let add = λ (id : ℕ). exists-insert id (child_job s) jobs in
        All-append _ rows (delegation s ∷ [])
          (All-mono _ _ rows
            (λ r (a, b). (add r.child_job_id ∙ ground arith, add r.parent_job_id ∙ ground arith))
            before.known)
          (
            (
              add s.child_job_id ∙ ground arith,
              add s.parent_job_id ∙ ground (arith, ok_to.parent_known),
            ),
            tt,
          )

  pub Outcome-IsBounded :
      {r : Result SpawnError Delegation × List JobRow × List Delegation}
      → IsBounded jobs rows
      → Outcome r
      → IsBounded r.1 r.2
  Outcome-IsBounded before (refused e) = before
  Outcome-IsBounded before (spawned ok_to) = record {
    known = spawned-known before ok_to;
    shallow = spawned-shallow before ok_to;
    deeper = spawned-IsDeeper before ok_to;
    narrow = spawned-narrow before ok_to;
  }

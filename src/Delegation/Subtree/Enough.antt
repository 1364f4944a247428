-- ===== src/Delegation/Subtree/Enough.antt =====
-- The fuel of the recursions is enough for every tree that the engine builds, and a cancelled tree is
-- complete.
use local_mind.Base.{
  ℕ, zero, suc, ◌+◌, ◌≤◌, ◌<◌, ◌≡◌, refl, sym, ◌∙◌, ap, subst, Bool, true, List, [], ◌∷◌, map, inl,
  inr, arith, leb, if◌then◌else◌, select, fetchone, fetchone-mem, fetchone-some, All, All-mem, Memᴰ,
  Bool-cases, Option-cases,
}
use local_mind.Delegation.{Delegation, JobRow, has_id, child_of, max_delegation_depth}
use local_mind.Delegation.Depth.{Climbs, Climbs-unique}
use local_mind.Delegation.Bounds.{IsBounded, IsDeeper}
use local_mind.Delegation.Limits.{Call, run, run-IsBounded, empty-IsBounded}
use local_mind.Delegation.Subtree.{
  is_terminal, child_ids, each, all_of, cancel_recursive, cancel_subtree, check_complete,
  is_tree_complete,
}
use local_mind.Delegation.Subtree.Reach.{
  Below, here, under, edges, IsEnded, cancel_recursive-IsEnded, cancel_recursive-edges,
  edges-cancel_delegation,
}

-- A level below a job is a level further from the root.
edge-Climbs :
    (rows tree : List Delegation) (job c d : ℕ)
    → All (IsDeeper rows) tree
    → Memᴰ (job, c) (edges tree)
    → Climbs rows job d
    → Climbs rows c (suc d)
edge-Climbs rows [] job c d h m b = elim m [ ]
edge-Climbs rows (r ∷ tree) job c d h (Memᴰ.head e) b =
    let (f, up_to, down_to) = h.0 in
    let same : d ≡ f =
      Climbs-unique rows b (subst (λ x. Climbs rows x f) (ap (λ p. p.0) (sym e)) up_to) in
    subst (λ x. Climbs rows c (suc x)) (sym same)
      (subst (λ x. Climbs rows x (suc f)) (ap (λ p. p.1) (sym e)) down_to)
edge-Climbs rows (r ∷ tree) job c d h (Memᴰ.tail m) b = edge-Climbs rows tree job c d h.1 m b

Below-Climbs :
    (rows : List Delegation) (x n job d : ℕ)
    → All (IsDeeper rows) rows
    → Below (edges rows) x n job
    → Climbs rows job d
    → Climbs rows x (d + n)
Below-Climbs rows x zero job d h here b = subst (Climbs rows x) (omega arith) b
Below-Climbs rows x (suc n) job d h (under c m below) b =
    subst (Climbs rows x) (omega arith)
      (Below-Climbs rows x n c (suc d) h below (edge-Climbs rows rows job c d h m b))

-- The recursion goes less than `max_delegation_depth` levels down.
pub Below-IsBounded :
    (jobs : List JobRow) (rows : List Delegation) (x n job : ℕ)
    → IsBounded jobs rows
    → Below (edges rows) x n job
    → n < max_delegation_depth
Below-IsBounded jobs rows x n job before below =
    let (d, c, _) = before.shallow job in
    let (e, b, lt) = before.shallow x in
    let same : d + n ≡ e =
      Climbs-unique rows (Below-Climbs rows x n job d before.deeper below c) b in
    omega arith

pub mem-edges :
    (job c : ℕ) (rows : List Delegation) → Memᴰ c (child_ids job rows) → Memᴰ (job, c) (edges rows)
mem-edges job c [] m = elim m [ ]
mem-edges job c (r ∷ rows) m = elim (Bool-cases (child_of job r)) [
  | inr f ↦ Memᴰ.tail (
      mem-edges job c rows (
        subst (Memᴰ c)
          (ap
            (λ b.
              map (λ x. x.child_job_id)
                (if b then r ∷ select (child_of job) rows else select (child_of job) rows))
            f)
          m))
  | inl t ↦
      found t
        (subst (Memᴰ c)
          (ap
            (λ b.
              map (λ x. x.child_job_id)
                (if b then r ∷ select (child_of job) rows else select (child_of job) rows))
            t)
          m)
        (mem-edges job c rows)
]
  where
    found :
        child_of job r ≡ true
        → Memᴰ c (r.child_job_id ∷ child_ids job rows)
        → (Memᴰ c (child_ids job rows) → Memᴰ (job, c) (edges rows))
        → Memᴰ (job, c) (edges (r ∷ rows))
    found t (Memᴰ.head e) again =
        let mine : job ≡ r.parent_job_id = ground arith in
        Memᴰ.head (ap (λ p. (p, c)) mine ∙ ap (λ x. (r.parent_job_id, x)) e)
    found t (Memᴰ.tail m) again = Memᴰ.tail (again m)

-- Each level below the job is within the fuel.
abbrev pub Within : List (ℕ × ℕ) → (fuel job : ℕ) → Type 0
Within tree fuel job = (x n : ℕ) → Below tree x n job → n < fuel

pub Within-child :
    (rows : List Delegation) (fuel job c : ℕ)
    → Within (edges rows) (suc fuel) job
    → Memᴰ c (child_ids job rows)
    → Within (edges rows) fuel c
Within-child rows fuel job c w m x n b =
    let lt = w x (suc n) (under c (mem-edges job c rows m) b) in omega arith

pub each-ext :
    {S : Type 0} (f g : ℕ → S → S) (I : S → Type 0) (cs : List ℕ) (state : S)
    → ((c : ℕ) → Memᴰ c cs → (s : S) → I s → f c s ≡ g c s)
    → ((c : ℕ) (s : S) → I s → I (g c s))
    → I state
    → each f cs state ≡ each g cs state
each-ext f g I [] state same keep i = refl
each-ext f g I (c ∷ cs) state same keep i =
    ap (each f cs) (same c (Memᴰ.head refl) state i)
    ∙ each-ext f g I cs (g c state) (λ d m. same d (Memᴰ.tail m)) keep (keep c state i)

-- One more unit of fuel than is needed changes nothing.
cancel_recursive-suc :
    (fuel now job : ℕ) (state : List JobRow × List Delegation)
    → Within (edges state.1) fuel job
    → cancel_recursive (suc fuel) now job state ≡ cancel_recursive fuel now job state
unfolding cancel_recursive
cancel_recursive-suc zero now job state w = absurd (let lt = w job 0 here in omega arith)
cancel_recursive-suc (suc fuel) now job state w =
    each-ext (cancel_recursive (suc fuel) now) (cancel_recursive fuel now)
      (λ s. edges s.1 ≡ edges state.1) (child_ids job state.1) _
      (λ c m s i.
        cancel_recursive-suc fuel now c s
          (subst (λ t. Within t fuel c) (sym i) (Within-child state.1 fuel job c w m)))
      (λ c s. cancel_recursive-edges fuel now c (edges state.1) s)
      (edges-cancel_delegation job now state.1)

cancel_recursive-more :
    (fuel more now job : ℕ) (state : List JobRow × List Delegation)
    → Within (edges state.1) fuel job
    → fuel ≤ more
    → cancel_recursive more now job state ≡ cancel_recursive fuel now job state
cancel_recursive-more fuel zero now job state w le =
    ap (λ f. cancel_recursive f now job state) (omega arith)
cancel_recursive-more fuel (suc more) now job state w le = elim (Bool-cases (leb fuel more)) [
  | inl t ↦
      cancel_recursive-suc more now job state (λ x n b. let lt = w x n b in ground arith)
      ∙ cancel_recursive-more fuel more now job state w (ground arith)
  | inr f ↦ ap (λ x. cancel_recursive x now job state) (ground arith)
]

all_of-true : (p : ℕ → Bool) (cs : List ℕ) → ((c : ℕ) → Memᴰ c cs → p c ≡ true) → all_of p cs ≡ true
all_of-true p [] h = refl
all_of-true p (c ∷ cs) h = rw (h c (Memᴰ.head refl)) (all_of-true p cs (λ d m. h d (Memᴰ.tail m)))

check_complete-true :
    (fuel job : ℕ) (jobs : List JobRow) (rows : List Delegation)
    → Within (edges rows) fuel job
    → ((x n : ℕ) → Below (edges rows) x n job → IsEnded x jobs)
    → check_complete fuel job jobs rows ≡ true
unfolding check_complete
check_complete-true zero job jobs rows w ended = absurd (let lt = w job 0 here in omega arith)
check_complete-true (suc fuel) job jobs rows w ended =
    let below =
      all_of-true (λ c. check_complete fuel c jobs rows) (child_ids job rows)
        (λ c m.
          check_complete-true fuel c jobs rows (Within-child rows fuel job c w m)
            (λ x n b. ended x (suc n) (under c (mem-edges job c rows m) b))) in
    elim (Option-cases (fetchone (has_id job) jobs)) [
      | inl n ↦ rw (n, check_complete) refl
      | inr (j, e) ↦
          let over = All-mem _ jobs (ended job 0 here) j (fetchone-mem (has_id job) jobs j e) in
          let mine = fetchone-some (has_id job) jobs j e in
          let terminal : is_terminal j.status ≡ true = ground arith in
          rw (e, check_complete) (rw terminal below)
    ]

-- In a tree that spawns and completions built, cancel_subtree gives every job at or below `job` a
-- terminal status, and is_tree_complete then holds of `job`. The levels that the recursion of the model
-- may go down are enough: with any more of them the outcome is the same.
pub cancel_subtree-is_tree_complete :
    (calls : List Call) (jobs : List JobRow) (now job x n more : ℕ)
    → Below (edges (run calls (jobs, [])).1) x n job
    → max_delegation_depth ≤ more
    → let after = cancel_subtree now job (run calls (jobs, [])) in
      IsEnded x after.0
      × (is_tree_complete job after.0 after.1 ≡ true)
      × (cancel_recursive more now job (run calls (jobs, [])) ≡ after)
unfolding cancel_subtree is_tree_complete
cancel_subtree-is_tree_complete calls jobs now job x n more b le =
    let state = run calls (jobs, []) in
    let bounded = run-IsBounded calls (jobs, []) (empty-IsBounded jobs) in
    let within : Within (edges state.1) max_delegation_depth job =
      λ y m c. Below-IsBounded state.0 state.1 y m job bounded c in
    let ended : (y m : ℕ)
        → Below (edges state.1) y m job
        → IsEnded y (cancel_subtree now job state).0 =
      λ y m c.
        cancel_recursive-IsEnded (edges state.1) y m job max_delegation_depth now state refl c
          (within y m c) in
    let same : edges (cancel_subtree now job state).1 ≡ edges state.1 =
      cancel_recursive-edges max_delegation_depth now job (edges state.1) state refl in
    (
      ended x n b,
      check_complete-true max_delegation_depth job _ _
          (subst (λ t. Within t max_delegation_depth job) (sym same) within)
          (λ y m c. ended y m (subst (λ t. Below t y m job) same c)),
      cancel_recursive-more max_delegation_depth more now job state within le,
    )

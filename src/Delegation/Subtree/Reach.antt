-- ===== src/Delegation/Subtree/Reach.antt =====
-- What the cancellation of a subtree reaches.
use local_mind.Base.{
  ℕ, zero, suc, ◌<◌, ◌≡◌, refl, sym, ◌∙◌, ap, subst, true, not, ◌&&◌, ◌||◌, List, [], ◌∷◌, map, inl,
  inr, arith, ◌==◌, ==_refl, All, All-update, All-update_always, Memᴰ, Bool-cases,
}
use local_mind.Jobs.{cancelled}
use local_mind.Delegation.{Delegation, JobRow, child_of, is_active}
use local_mind.Delegation.Subtree.{
  is_terminal, cancel_job, cancel_delegation, child_ids, each, cancel_recursive,
}

-- The parent and the child of each row.
abbrev pub edges : List Delegation → List (ℕ × ℕ)
edges rows = map (λ r. (r.parent_job_id, r.child_job_id)) rows

-- `x` is `n` levels below `job`.
pub data Below (tree : List (ℕ × ℕ)) (x : ℕ) : ℕ → ℕ → Type 0 where
  here : Below tree x 0 x
  under : {job n : ℕ} (c : ℕ) → Memᴰ (job, c) tree → Below tree x n c → Below tree x (suc n) job

-- Every row of the job `x` has a terminal status.
abbrev pub IsEnded : ℕ → List JobRow → Type 0
IsEnded x jobs = All (λ j. not (j.id == x) || is_terminal j.status ≡ true) jobs

module _ {S : Type 0} (body : ℕ → S → S) where
  pub each-keeps :
      (P : S → Type 0) (cs : List ℕ) (state : S)
      → ((c : ℕ) (s : S) → P s → P (body c s))
      → P state
      → P (each body cs state)
  each-keeps P [] state keep h = h
  each-keeps P (c ∷ cs) state keep h = each-keeps P cs (body c state) keep (keep c state h)

  pub each-reaches :
      (I P : S → Type 0) (c : ℕ) (cs : List ℕ) (state : S)
      → ((d : ℕ) (s : S) → I s → I (body d s))
      → ((d : ℕ) (s : S) → P s → P (body d s))
      → ((s : S) → I s → P (body c s))
      → Memᴰ c cs
      → I state
      → P (each body cs state)
  each-reaches I P c [] state inv keep hit m i = elim m [ ]
  each-reaches I P c (d ∷ cs) state inv keep hit (Memᴰ.head e) i =
      each-keeps P cs (body d state) keep (subst (λ x. P (body x state)) e (hit state i))
  each-reaches I P c (d ∷ cs) state inv keep hit (Memᴰ.tail m) i =
      each-reaches I P c cs (body d state) inv keep hit m (inv d state i)

pub edges-cancel_delegation :
    (job now : ℕ) (rows : List Delegation) → edges (cancel_delegation job now rows) ≡ edges rows
edges-cancel_delegation job now [] = refl
edges-cancel_delegation job now (r ∷ rows) =
    elim (Bool-cases (r.child_job_id == job && is_active r.status)) [
      | inl t ↦
          rw t (
            ap (λ es. (r.parent_job_id, r.child_job_id) ∷ es)
              (edges-cancel_delegation job now rows))
      | inr f ↦
          rw f (
            ap (λ es. (r.parent_job_id, r.child_job_id) ∷ es)
              (edges-cancel_delegation job now rows))
    ]

pub mem-child_ids :
    (job c : ℕ) (rows : List Delegation) → Memᴰ (job, c) (edges rows) → Memᴰ c (child_ids job rows)
mem-child_ids job c [] m = elim m [ ]
mem-child_ids job c (r ∷ rows) (Memᴰ.head e) =
    let mine : child_of job r ≡ true = ap (λ p. p.0 == job) (sym e) ∙ ==_refl job in
    rw mine (Memᴰ.head (ap (λ p. p.1) e))
mem-child_ids job c (r ∷ rows) (Memᴰ.tail m) = elim (Bool-cases (child_of job r)) [
  | inl t ↦ rw t (Memᴰ.tail (mem-child_ids job c rows m))
  | inr f ↦ rw f (mem-child_ids job c rows m)
]

cancel_job-IsEnded : (job : ℕ) (jobs : List JobRow) → IsEnded job (cancel_job job jobs)
cancel_job-IsEnded job jobs =
    All-update_always (λ j. not (j.id == job) || is_terminal j.status ≡ true)
      (λ j. j.id == job && not (is_terminal j.status)) (λ j. record j { status = cancelled }) jobs
      (λ j. ground arith)

cancel_job-keeps :
    (x job : ℕ) (jobs : List JobRow) → IsEnded x jobs → IsEnded x (cancel_job job jobs)
cancel_job-keeps x job jobs h =
    All-update (λ j. j.id == job && not (is_terminal j.status)) _
      (λ j. not (j.id == x) || is_terminal j.status ≡ true)
      (λ j. not (j.id == x) || is_terminal j.status ≡ true) jobs (λ j k. ground (arith, k)) h

-- No recursion changes the tree, or takes a job out of its terminal status.
pub cancel_recursive-edges :
    (fuel now job : ℕ) (tree : List (ℕ × ℕ)) (state : List JobRow × List Delegation)
    → edges state.1 ≡ tree
    → edges (cancel_recursive fuel now job state).1 ≡ tree
unfolding cancel_recursive
cancel_recursive-edges zero now job tree state h = h
cancel_recursive-edges (suc fuel) now job tree state h =
    each-keeps (cancel_recursive fuel now) (λ s. edges s.1 ≡ tree) (child_ids job state.1) _
      (λ c s. cancel_recursive-edges fuel now c tree s)
      (edges-cancel_delegation job now state.1 ∙ h)

cancel_recursive-keeps :
    (fuel now job x : ℕ) (state : List JobRow × List Delegation)
    → IsEnded x state.0
    → IsEnded x (cancel_recursive fuel now job state).0
unfolding cancel_recursive
cancel_recursive-keeps zero now job x state h = h
cancel_recursive-keeps (suc fuel) now job x state h =
    each-keeps (cancel_recursive fuel now) (λ s. IsEnded x s.0) (child_ids job state.1) _
      (λ c s. cancel_recursive-keeps fuel now c x s) (cancel_job-keeps x job state.0 h)

-- With fuel for its level, a job below is ended.
pub cancel_recursive-IsEnded :
    (tree : List (ℕ × ℕ)) (x n job fuel now : ℕ) (state : List JobRow × List Delegation)
    → edges state.1 ≡ tree
    → Below tree x n job
    → n < fuel
    → IsEnded x (cancel_recursive fuel now job state).0
unfolding cancel_recursive
cancel_recursive-IsEnded tree x n job zero now state e b lt = absurd (omega arith)
cancel_recursive-IsEnded tree x n job (suc fuel) now state e here lt =
    each-keeps (cancel_recursive fuel now) (λ s. IsEnded x s.0) (child_ids job state.1) _
      (λ c s. cancel_recursive-keeps fuel now c x s) (cancel_job-IsEnded x state.0)
cancel_recursive-IsEnded tree x (suc n) job (suc fuel) now state e (under c m b) lt =
    each-reaches (cancel_recursive fuel now) (λ s. edges s.1 ≡ tree) (λ s. IsEnded x s.0) c
      (child_ids job state.1) _ (λ d s. cancel_recursive-edges fuel now d tree s)
      (λ d s. cancel_recursive-keeps fuel now d x s)
      (λ s i. cancel_recursive-IsEnded tree x n c fuel now s i b (omega arith))
      (mem-child_ids job c state.1 (subst (Memᴰ (job, c)) (sym e) m))
      (edges-cancel_delegation job now state.1 ∙ e)

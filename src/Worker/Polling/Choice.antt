-- ===== src/Worker/Polling/Choice.antt =====
-- Which job the worker takes.
use local_mind.Base.{
  ℕ, ◌≤◌, ◌<◌, ◌≡◌, ◌⊎◌, refl, subst, sym, Bool, true, false, not, List, [], ◌∷◌, Option, none,
  some, inl, inr, arith, Memᴰ, All, All-mono, Bool-cases, Option-cases, select, rowcount, exists,
  ltb, ◌==◌, if◌then◌else◌,
}
use mathlib.Core.Option.{some-injective}
use local_mind.Jobs.{Job, pending, has_status}
use local_mind.Worker.Polling.{
  comes_first, first_of, first_job, select_pending, claim, dequeue_next_pending, is_claimable,
}

-- `j` has no lower priority than `k`, and is no younger where the priorities are equal.
abbrev pub Precedes : Job → Job → Type 0
Precedes j k = (k.priority < j.priority) ⊎ (k.priority ≡ j.priority) × (j.created_at ≤ k.created_at)

Precedes-refl : (j : Job) → Precedes j j
Precedes-refl j = inr (refl, omega arith)

comes_first-Precedes : (z k : Job) → comes_first z k ≡ true → Precedes z k
comes_first-Precedes z k t = elim (Bool-cases (ltb k.priority z.priority)) [
  | inl g ↦ inl (ground arith)
  | inr g ↦ inr (ground arith, ground arith)
]

-- What does not come after `z` does not come after a job that `z` is not before.
Precedes-over : (z k y : Job) → comes_first z k ≡ false → Precedes z y → Precedes k y
Precedes-over z k y f (inl lt) = inl (ground arith)
Precedes-over z k y f (inr (e, le)) = elim (Bool-cases (ltb z.priority k.priority)) [
  | inl t ↦ inl (ground arith)
  | inr g ↦ inr (ground arith, ground arith)
]

first_job-none : (jobs : List Job) → first_job jobs ≡ none → jobs ≡ []
first_job-none [] h = refl
first_job-none (j ∷ jobs) h = cc

first_job-Precedes :
    (jobs : List Job) (j : Job) → first_job jobs ≡ some j → All (Precedes j) jobs × Memᴰ j jobs
first_job-Precedes [] j h = cc
first_job-Precedes (k ∷ jobs) j h =
    subst (λ x. All (Precedes x) (k ∷ jobs) × Memᴰ x (k ∷ jobs)) (some-injective _ _ h)
      (elim (Option-cases (first_job jobs)) [
        | inl n ↦
            subst (λ o. All (Precedes (first_of k o)) (k ∷ jobs) × Memᴰ (first_of k o) (k ∷ jobs))
              (sym n)
              (
                (Precedes-refl k, subst (All (Precedes k)) (sym (first_job-none jobs n)) tt),
                Memᴰ.head refl,
              )
        | inr (z, e) ↦
            let (before, m) = first_job-Precedes jobs z e in
            subst (λ o. All (Precedes (first_of k o)) (k ∷ jobs) × Memᴰ (first_of k o) (k ∷ jobs))
              (sym e)
              (elim (Bool-cases (comes_first z k)) [
                | inl t ↦
                    subst
                      (λ b.
                        All (Precedes (if b then z else k)) (k ∷ jobs)
                        × Memᴰ (if b then z else k) (k ∷ jobs))
                      (sym t) ((comes_first-Precedes z k t, before), Memᴰ.tail m)
                | inr f ↦
                    subst
                      (λ b.
                        All (Precedes (if b then z else k)) (k ∷ jobs)
                        × Memᴰ (if b then z else k) (k ∷ jobs))
                      (sym f)
                      (
                        (
                          Precedes-refl k,
                          All-mono _ _ jobs (λ y p. Precedes-over z k y f p) before,
                        ),
                        Memᴰ.head refl,
                      )
              ])
      ])

select_pending_first :
    {o : Option Job} (jobs : List Job)
    → select_pending jobs ≡ o
    → first_job (select (λ j. has_status j.status pending) jobs) ≡ o
unfolding select_pending
select_pending_first jobs h = h

rowcount-exists {ℓ} :
    {R : Type ℓ} (p : R → Bool) (rows : List R) → not (rowcount p rows == 0) ≡ exists p rows
rowcount-exists p [] = refl
rowcount-exists p (r ∷ rows) = ground (arith, rowcount-exists p rows)

pub claim-exists :
    (job_id now : ℕ) (jobs : List Job)
    → (claim job_id now jobs).0 ≡ exists (is_claimable job_id) jobs
unfolding claim
claim-exists job_id now jobs = rowcount-exists (is_claimable job_id) jobs

-- A job that the worker takes was pending, no pending job of a higher priority was there, nor an older
-- one of the same priority, and it is taken only if it is pending still when the status is written.
-- The worker takes none only where none is pending, or where another process was faster.
pub dequeue_next_pending-exact :
    (now : ℕ) (between : List Job → List Job) (jobs : List Job)
    → let r = dequeue_next_pending now between jobs in
      let waiting = select (λ j. has_status j.status pending) jobs in
      ((r.0 ≡ none) × (waiting ≡ []))
      ⊎ ((j : Job) × Memᴰ j waiting
          × All (Precedes j) waiting
          × (r.1 ≡ (claim j.id now (between jobs)).1)
          × (((r.0 ≡ some j) × (exists (is_claimable j.id) (between jobs) ≡ true))
              ⊎ ((r.0 ≡ none) × (exists (is_claimable j.id) (between jobs) ≡ false))))
unfolding dequeue_next_pending
dequeue_next_pending-exact now between jobs =
    let waiting = select (λ j. has_status j.status pending) jobs in
    elim (Option-cases (select_pending jobs)) [
      | inl n ↦
          inl (
            rw (n, dequeue_next_pending) refl,
            first_job-none waiting (select_pending_first jobs n),
          )
      | inr (j, e) ↦
          let (before, m) = first_job-Precedes waiting j (select_pending_first jobs e) in
          let free = claim-exists j.id now (between jobs) in
          inr (
            j,
            m,
            before,
            rw (e, dequeue_next_pending) refl,
            elim (Bool-cases (exists (is_claimable j.id) (between jobs))) [
              | inl t ↦ inl (rw (e, dequeue_next_pending, free, t) refl, t)
              | inr f ↦ inr (rw (e, dequeue_next_pending, free, f) refl, f)
            ],
          )
    ]

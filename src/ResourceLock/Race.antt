-- ===== src/ResourceLock/Race.antt =====
-- The calls of two processes, each with its own connection, interleaved: the SELECTs of `acquire` and
-- its INSERT are separate steps, and other calls may run between them.
use local_mind.Base.{
  ℕ, ◌≡◌, ◌≢◌, refl, subst, Bool, true, false, ◌&&◌, List, [], ◌∷◌, ◌++◌, inl, inr, arith, ◌==◌,
  exists, All, All-mono, Pairwise, Pairwise-snoc, Pairwise-update, updated, Bool-cases,
}
use local_mind.ResourceLock.{
  exclusive, is_exclusive, ResourceLock, Request, free, look_up, insert_lock, new_lock, clashes,
  active, release, unreleased_with_id, set_released,
}
use local_mind.ResourceLock.Exclusion.{IsSafe, clash_at}

-- The table, and the requests whose SELECTs found the resource free and whose INSERT is still to run.
pub record Shared : Type 0 where
  pub locks : List ResourceLock
  pub cleared : List Request

pub data Step : Shared → Shared → Type 0 where
  looks :
      {locks : List ResourceLock} {cleared : List Request} (q : Request)
      → look_up q.resource_path q.job_id q.now q.lock_type locks ≡ free
      → Step
          (record { locks = locks; cleared = cleared })
          (record { locks = locks; cleared = q ∷ cleared })
  writes :
      {locks : List ResourceLock} (first : List Request) (q : Request) (rest : List Request)
      → Step
          (record { locks = locks; cleared = first ++ q ∷ rest })
          (record { locks = (insert_lock (new_lock q) locks).1; cleared = first ++ rest })
  releases :
      {locks : List ResourceLock} {cleared : List Request} (now lock_id : ℕ)
      → Step
          (record { locks = locks; cleared = cleared })
          (record { locks = (release now lock_id locks).1; cleared = cleared })

pub data Steps : Shared → Shared → Type 0 where
  stop : {s : Shared} → Steps s s
  then_step : {s t u : Shared} → Steps s t → Step t u → Steps s u

abbrev pub start : Shared
start = record { locks = []; cleared = [] }

-- No two rows are of one job on one path.
abbrev pub OnePerJob : List ResourceLock → Type 0
OnePerJob locks =
    Pairwise
      (λ a b. a.resource_path == b.resource_path && a.held_by_job_id == b.held_by_job_id ≡ false)
      locks

exists-none-All :
    (p : ResourceLock → Bool) (locks : List ResourceLock)
    → exists p locks ≡ false
    → All (λ l. p l ≡ false) locks
exists-none-All p [] h = tt
exists-none-All p (l ∷ locks) h = (ground arith, exists-none-All p locks (ground arith))

insert_lock-OnePerJob :
    (new : ResourceLock) (locks : List ResourceLock)
    → OnePerJob locks
    → OnePerJob (insert_lock new locks).1
unfolding insert_lock
insert_lock-OnePerJob new locks h = elim (Bool-cases (exists (clashes new) locks)) [
  | inl t ↦ rw t h
  | inr f ↦ rw f (
      Pairwise-snoc _ locks new h
        (All-mono _ _ locks (λ l k. ground arith) (exists-none-All (clashes new) locks f)))
]

Step-OnePerJob : {s t : Shared} → Step s t → OnePerJob s.locks → OnePerJob t.locks
unfolding release
Step-OnePerJob (looks q found) h = h
Step-OnePerJob (writes first q rest) h = insert_lock-OnePerJob (new_lock q) _ h
Step-OnePerJob (releases {locks = locks} now lock_id) h =
    Pairwise-update (unreleased_with_id lock_id) (set_released now) _ locks (λ a b k. kept a b k) h
  where
    kept :
        (a b : ResourceLock)
        → (a.resource_path == b.resource_path && a.held_by_job_id == b.held_by_job_id) ≡ false
        → ((updated (unreleased_with_id lock_id) (set_released now) a).resource_path
              == (updated (unreleased_with_id lock_id) (set_released now) b).resource_path
            && (updated (unreleased_with_id lock_id) (set_released now) a).held_by_job_id
              == (updated (unreleased_with_id lock_id) (set_released now) b).held_by_job_id)
          ≡ false
    kept a b k = elim (Bool-cases (unreleased_with_id lock_id a)) [
      | inl y ↦ elim (Bool-cases (unreleased_with_id lock_id b)) [
        | inl z ↦ rw (y, z) k
        | inr n ↦ rw (y, n) k
      ]
      | inr m ↦ elim (Bool-cases (unreleased_with_id lock_id b)) [
        | inl z ↦ rw (m, z) k
        | inr n ↦ rw (m, n) k
      ]
    ]

-- However the calls interleave, the constraint of the table leaves each job at most one row on a path.
pub Steps-OnePerJob : {s : Shared} → Steps start s → OnePerJob s.locks
Steps-OnePerJob stop = tt
Steps-OnePerJob (then_step before last) = Step-OnePerJob last (Steps-OnePerJob before)

look_up-empty : (q : Request) → look_up q.resource_path q.job_id q.now q.lock_type [] ≡ free
unfolding look_up
look_up-empty q = elim (Bool-cases (is_exclusive q.lock_type)) [
  | inl t ↦ rw t refl
  | inr f ↦ rw f refl
]

module _ (p q : Request) (t : ℕ) (same_path : p.resource_path ≡ q.resource_path)
    (two_jobs : p.job_id ≢ q.job_id) (two_ids : p.lock_id ≢ q.lock_id)
    (p_exclusive : p.lock_type ≡ exclusive) (q_exclusive : q.lock_type ≡ exclusive)
    (p_lives : active t (new_lock p) ≡ true) (q_lives : active t (new_lock q) ≡ true) where
  -- Both INSERTs succeed.
  both_inserted :
      (insert_lock (new_lock p) (insert_lock (new_lock q) []).1).1 ≡ new_lock q ∷ new_lock p ∷ []
  unfolding insert_lock new_lock
  both_inserted =
      let apart : exists (clashes (new_lock p)) (new_lock q ∷ []) ≡ false = ground arith in
      rw apart refl

  they_clash : clash_at t (new_lock q) (new_lock p) ≡ true
  unfolding new_lock
  they_clash = rw (p_exclusive, q_exclusive) (ground arith)

  -- Two processes that ask for one path at the same time, for different jobs and exclusively, can both
  -- be granted it: each one's SELECTs run before the other's INSERT. The locks are then both active at
  -- `t`, a time at which neither has expired.
  pub race_breaks_exclusion : (s : Shared) × Steps start s × (¬ IsSafe t s.locks)
  race_breaks_exclusion = (
    record { locks = (insert_lock (new_lock p) (insert_lock (new_lock q) []).1).1; cleared = [] },
    then_step
        (then_step
          (then_step (then_step stop (looks p (look_up-empty p))) (looks q (look_up-empty q)))
          (writes [] q (p ∷ [])))
        (writes [] p []),
    λ safe.
        let both = subst (IsSafe t) both_inserted safe in
        let apart = both.0.0 in let clash = they_clash in cc,
  )

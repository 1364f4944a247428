-- ===== src/ResourceLock/Exclusion.antt =====
-- Mutual exclusion: no history of calls gives two jobs locks that exclude one another.
use local_mind.Base.{
  ◌==◌, ◌&&◌, not, ℕ, ◌≤◌, ◌≡◌, refl, Bool, true, false, List, [], ◌∷◌, inl, inr, arith, Pairwise,
  Pairwise-snoc, Pairwise-mono, Pairwise-update, All, All-mono, All-both, update, exists,
  fetchone-none-All, Bool-cases, updated,
}
use local_mind.ResourceLock.Acquire.{
  acquire_existing, acquire_conflict, acquire_clash, acquire_inserts, look_up_misses,
}
use local_mind.ResourceLock.{
  LockType, exclusive, shared, ResourceLock, is_exclusive, active, Request, acquire, release,
  force_release, release_all, cleanup_expired, Found, existing, conflict, free, look_up, new_lock,
  clashes, held_by_job, exclusive_of_other, shared_of_other, set_released, unreleased_with_id,
  unreleased_of_job, expired_unreleased,
}

-- The pairs of types that exclude one another: an exclusive lock, with an exclusive or shared one.
abbrev pub excludes : LockType → LockType → Bool
excludes exclusive exclusive = true
excludes exclusive shared = true
excludes shared exclusive = true
excludes _ _ = false

-- Two locks that are active on one path, held by different jobs, and exclude one another.
abbrev pub clash_at : ℕ → ResourceLock → ResourceLock → Bool
clash_at now a b =
    active now a
    && (active now b
        && (a.resource_path == b.resource_path
            && (not (a.held_by_job_id == b.held_by_job_id) && excludes a.lock_type b.lock_type)))

abbrev pub Compatible : ℕ → ResourceLock → ResourceLock → Type 0
Compatible now a b = clash_at now a b ≡ false

abbrev pub IsSafe : ℕ → List ResourceLock → Type 0
IsSafe now locks = Pairwise (Compatible now) locks

-- Time alone only ends locks.
pub IsSafe-later :
    (now later : ℕ) (locks : List ResourceLock)
    → now ≤ later
    → IsSafe now locks
    → IsSafe later locks
unfolding active
IsSafe-later now later locks h =
    Pairwise-mono (Compatible now) (Compatible later) locks λ a b c. ground arith

released-Compatible :
    (now t : ℕ) (p : ResourceLock → Bool) (a b : ResourceLock)
    → Compatible now a b
    → Compatible now (updated p (set_released t) a) (updated p (set_released t) b)
unfolding active
released-Compatible now t p a b c = elim (Bool-cases (p a)) [
  | inl y ↦ rw y (ground arith)
  | inr n ↦ elim (Bool-cases (p b)) [ inl y ↦ rw (n, y) (ground arith) | inr m ↦ rw (n, m) c ]
]

not_in_the_way :
    (q : Request) (l : ResourceLock)
    → held_by_job q.resource_path q.job_id q.now l ≡ false
    → exclusive_of_other q.resource_path q.job_id q.now l ≡ false
    → (is_exclusive q.lock_type ≡ true → shared_of_other q.resource_path q.job_id q.now l ≡ false)
    → Compatible q.now l (new_lock q)
unfolding new_lock
not_in_the_way q l h e s = elim (Bool-cases (is_exclusive q.lock_type)) [
  | inl x ↦ ground (arith, s x)
  | inr n ↦ ground arith
]

-- Every row is compatible with the lock that `acquire` is about to insert.
look_up-free :
    (q : Request) (locks : List ResourceLock)
    → look_up q.resource_path q.job_id q.now q.lock_type locks ≡ free
    → All (λ l. Compatible q.now l (new_lock q)) locks
look_up-free q locks h =
    let (own, exclusives, shareds) = look_up_misses q locks h in
    let no_own = fetchone-none-All (held_by_job q.resource_path q.job_id q.now) locks own in
    let no_excl =
      fetchone-none-All (exclusive_of_other q.resource_path q.job_id q.now) locks exclusives in
    elim (Bool-cases (is_exclusive q.lock_type)) [
      | inl e ↦
          let no_shared =
            fetchone-none-All (shared_of_other q.resource_path q.job_id q.now) locks (shareds e) in
          All-mono _ _ locks (λ l (o, (x, s)). not_in_the_way q l o x (λ _. s))
            (All-both _ _ locks no_own (All-both _ _ locks no_excl no_shared))
      | inr n ↦
          All-mono _ _ locks (λ l (o, x). not_in_the_way q l o x (λ e. cc))
            (All-both _ _ locks no_own no_excl)
    ]

pub acquire-IsSafe :
    (q : Request) (locks : List ResourceLock)
    → IsSafe q.now locks
    → IsSafe q.now (acquire q locks).1
acquire-IsSafe q locks safe = go (look_up q.resource_path q.job_id q.now q.lock_type locks) refl
  where
    go :
        (f : Found)
        → look_up q.resource_path q.job_id q.now q.lock_type locks ≡ f
        → IsSafe q.now (acquire q locks).1
    go (existing l) e = rw (acquire_existing q locks l e) safe
    go (conflict l) e = rw (acquire_conflict q locks l e) safe
    go free e = elim (Bool-cases (exists (clashes (new_lock q)) locks)) [
      | inl c ↦ rw (acquire_clash q locks e c) safe
      | inr n ↦
          rw (acquire_inserts q locks e n)
            (Pairwise-snoc (Compatible q.now) locks (new_lock q) safe (look_up-free q locks e))
    ]

-- The calls of the manager that write to the table, with the time at which each reads the clock.
pub data Call : Type 0 where
  acquires : Request → Call
  releases force_releases releases_all : (now id : ℕ) → Call
  cleans : ℕ → Call

abbrev pub time_of : Call → ℕ
time_of (acquires q) = q.now
time_of (releases now _) = now
time_of (force_releases now _) = now
time_of (releases_all now _) = now
time_of (cleans now) = now

unfoldable pub step : Call → List ResourceLock → List ResourceLock
step (acquires q) locks = (acquire q locks).1
step (releases now lock_id) locks = (release now lock_id locks).1
step (force_releases now lock_id) locks = (force_release now lock_id locks).1
step (releases_all now job_id) locks = release_all now job_id locks
step (cleans now) locks = (cleanup_expired now locks).1

unfoldable pub run : List Call → List ResourceLock → List ResourceLock
run [] locks = locks
run (c ∷ calls) locks = run calls (step c locks)

-- The clock does not go back from one call to the next, between `from` and `to`.
abbrev pub IsClocked : (from to : ℕ) → List Call → Type 0
IsClocked from to [] = from ≤ to
IsClocked from to (c ∷ calls) = (from ≤ time_of c) × IsClocked (time_of c) to calls

released-IsSafe :
    (now t : ℕ) (p : ResourceLock → Bool) (locks : List ResourceLock)
    → IsSafe now locks
    → IsSafe now (update p (set_released t) locks)
released-IsSafe now t p locks =
    Pairwise-update p (set_released t) (Compatible now) locks (released-Compatible now t p)

step-IsSafe :
    (c : Call) (locks : List ResourceLock)
    → IsSafe (time_of c) locks
    → IsSafe (time_of c) (step c locks)
unfolding step release force_release release_all cleanup_expired
step-IsSafe (acquires q) locks h = acquire-IsSafe q locks h
step-IsSafe (releases now lock_id) locks h =
    released-IsSafe now now (unreleased_with_id lock_id) locks h
step-IsSafe (force_releases now lock_id) locks h =
    released-IsSafe now now (unreleased_with_id lock_id) locks h
step-IsSafe (releases_all now job_id) locks h =
    released-IsSafe now now (unreleased_of_job job_id) locks h
step-IsSafe (cleans now) locks h = released-IsSafe now now (expired_unreleased now) locks h

run_from-IsSafe :
    (calls : List Call) (from now : ℕ) (locks : List ResourceLock)
    → IsClocked from now calls
    → IsSafe from locks
    → IsSafe now (run calls locks)
unfolding run
run_from-IsSafe [] from now locks h safe = IsSafe-later from now locks h safe
run_from-IsSafe (c ∷ calls) from now locks (h, k) safe =
    run_from-IsSafe calls (time_of c) now (step c locks) k
      (step-IsSafe c locks (IsSafe-later from (time_of c) locks h safe))

-- After any sequence of calls on the empty table, one whole call at a time and under a clock that
-- does not go back, no two rows that are active on the same path belong to different jobs unless
-- their types are compatible: with an exclusive lock held, no other job holds a shared or
-- exclusive one.
pub run-IsSafe : (calls : List Call) (now : ℕ) → IsClocked 0 now calls → IsSafe now (run calls [])
run-IsSafe calls now h = run_from-IsSafe calls 0 now [] h tt

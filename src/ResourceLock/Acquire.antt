-- ===== src/ResourceLock/Acquire.antt =====
-- What `acquire` does on each branch: the SELECTs that find a lock, and the INSERT.
use local_mind.Base.{
  ℕ, ◌+◌, ◌*◌, ◌<◌, ◌≡◌, ◌≢◌, refl, true, false, List, none, some, inl, inr, arith, ok, err, ◌⊎◌,
  fetchone, exists, insert, fetchone-some, fetchone-insert, get_or, Memᴰ, fetchone-mem,
  exists_of_mem, Bool-cases, Result,
}
use mathlib.Core.Path.{subst}
use local_mind.ResourceLock.{
  ResourceLock, LockError, lock_conflict, integrity_error, is_exclusive, is_shared, active, Request,
  acquire, Found, existing, conflict, free, look_up, new_lock, clashes, held_by_job,
  exclusive_of_other, shared_of_other, second, resource_lock_ttl_sec,
}

module _ (q : Request) where
  -- What stands in the way of a request: an active lock of another job on the path, which is
  -- exclusive, or shared where the request is for an exclusive one.
  abbrev pub InTheWay : ResourceLock → Type 0
  InTheWay l =
      (l.resource_path ≡ q.resource_path)
      × (l.held_by_job_id ≢ q.job_id)
      × (active q.now l ≡ true)
      × ((is_exclusive l.lock_type ≡ true)
          ⊎ ((is_shared l.lock_type ≡ true) × (is_exclusive q.lock_type ≡ true)))

  -- The lock is the job's, on the path and active, and the job's own look-up finds it in the table.
  abbrev pub Granted : ResourceLock → List ResourceLock → Type 0
  Granted l after =
      (l.resource_path ≡ q.resource_path)
      × (l.held_by_job_id ≡ q.job_id)
      × (active q.now l ≡ true)
      × (fetchone (held_by_job q.resource_path q.job_id q.now) after ≡ some l)

module _ (q : Request) (locks : List ResourceLock) where
  abbrev found : Found
  found = look_up q.resource_path q.job_id q.now q.lock_type locks

  pub acquire_existing : (l : ResourceLock) → found ≡ existing l → acquire q locks ≡ (ok l, locks)
  unfolding acquire
  acquire_existing l e = rw (e, acquire)

  pub acquire_conflict :
      (l : ResourceLock)
      → found ≡ conflict l
      → acquire q locks ≡ (err (lock_conflict q.resource_path l.held_by_job_id), locks)
  unfolding acquire
  acquire_conflict l e = rw (e, acquire)

  pub acquire_clash :
      found ≡ free
      → exists (clashes (new_lock q)) locks ≡ true
      → acquire q locks ≡ (err integrity_error, locks)
  unfolding acquire
  acquire_clash e c = ground arith

  pub acquire_inserts :
      found ≡ free
      → exists (clashes (new_lock q)) locks ≡ false
      → acquire q locks ≡ (ok (new_lock q), insert (new_lock q) locks)
  unfolding acquire
  acquire_inserts e c = ground arith

  found_existing :
      (l : ResourceLock)
      → found ≡ existing l
      → fetchone (held_by_job q.resource_path q.job_id q.now) locks ≡ some l
  unfolding look_up
  found_existing l e = ground arith

  found_conflict : (l : ResourceLock) → found ≡ conflict l → Memᴰ l locks × InTheWay q l
  unfolding look_up
  found_conflict l e = elim (conflict_source l e) [
    | inl x ↦
        let fits = fetchone-some (exclusive_of_other q.resource_path q.job_id q.now) locks l x in
        (fetchone-mem _ locks l x, exclusive_facts l fits)
    | inr (x, ex) ↦
        let fits = fetchone-some (shared_of_other q.resource_path q.job_id q.now) locks l x in
        (fetchone-mem _ locks l x, shared_facts l ex fits)
  ]
    where
      conflict_source :
          (l : ResourceLock)
          → found ≡ conflict l
          → (fetchone (exclusive_of_other q.resource_path q.job_id q.now) locks ≡ some l)
            ⊎ ((fetchone (shared_of_other q.resource_path q.job_id q.now) locks ≡ some l)
                × (is_exclusive q.lock_type ≡ true))
      conflict_source l e = ground arith

      exclusive_facts :
          (l : ResourceLock)
          → exclusive_of_other q.resource_path q.job_id q.now l ≡ true
          → InTheWay q l
      exclusive_facts l h = ground arith

      shared_facts :
          (l : ResourceLock)
          → is_exclusive q.lock_type ≡ true
          → shared_of_other q.resource_path q.job_id q.now l ≡ true
          → InTheWay q l
      shared_facts l x h = ground arith

  pub look_up_misses :
      found ≡ free
      → (fetchone (held_by_job q.resource_path q.job_id q.now) locks ≡ none)
        × (fetchone (exclusive_of_other q.resource_path q.job_id q.now) locks ≡ none)
        × (is_exclusive q.lock_type ≡ true
            → fetchone (shared_of_other q.resource_path q.job_id q.now) locks ≡ none)
  unfolding look_up
  look_up_misses h = (ground arith, ground arith, λ e. ground arith)

  held_facts :
      (l : ResourceLock)
      → fetchone (held_by_job q.resource_path q.job_id q.now) locks ≡ some l
      → Granted q l locks
  held_facts l e =
      let fits = fetchone-some (held_by_job q.resource_path q.job_id q.now) locks l e in
      (ground arith, ground arith, ground arith, e)

  new_facts :
      q.now < q.later + get_or q.ttl_sec resource_lock_ttl_sec * second
      → found ≡ free
      → Granted q (new_lock q) (insert (new_lock q) locks)
  unfolding new_lock active
  new_facts live e = (
    refl,
    refl,
    ground arith,
    fetchone-insert (held_by_job q.resource_path q.job_id q.now) (new_lock q) locks
        (look_up_misses e).0 (ground arith),
  )

  -- The three ways in which `acquire` ends, with the table that it leaves.
  pub data Outcome : Result LockError ResourceLock × List ResourceLock → Type 0 where
    kept : (l : ResourceLock) → found ≡ existing l → Outcome (ok l, locks)
    refused :
        (l : ResourceLock)
        → found ≡ conflict l
        → Outcome (err (lock_conflict q.resource_path l.held_by_job_id), locks)
    clashed :
        found ≡ free
        → exists (clashes (new_lock q)) locks ≡ true
        → Outcome (err integrity_error, locks)
    inserted :
        found ≡ free
        → exists (clashes (new_lock q)) locks ≡ false
        → Outcome (ok (new_lock q), insert (new_lock q) locks)

  pub acquire-Outcome : Outcome (acquire q locks)
  acquire-Outcome = go found refl
    where
      go : (f : Found) → found ≡ f → Outcome (acquire q locks)
      go (existing l) e = rw (acquire_existing l e) (kept l e)
      go (conflict l) e = rw (acquire_conflict l e) (refused l e)
      go free e = elim (Bool-cases (exists (clashes (new_lock q)) locks)) [
        | inl c ↦ rw (acquire_clash e c) (clashed e c)
        | inr n ↦ rw (acquire_inserts e n) (inserted e n)
      ]

Outcome-ok :
    (q : Request) (locks : List ResourceLock) (l : ResourceLock)
    {r : Result LockError ResourceLock × List ResourceLock}
    → q.now < q.later + get_or q.ttl_sec resource_lock_ttl_sec * second
    → Outcome q locks r
    → r.0 ≡ ok l
    → Granted q l r.1
Outcome-ok q locks l live (kept m e) h =
    let same : m ≡ l = cc in
    subst (λ x. Granted q x locks) same (held_facts q locks m (found_existing q locks m e))
Outcome-ok q locks l live (refused m e) h = cc
Outcome-ok q locks l live (clashed e c) h = cc
Outcome-ok q locks l live (inserted e c) h =
    let same : new_lock q ≡ l = cc in
    subst (λ x. Granted q x (insert (new_lock q) locks)) same (new_facts q locks live e)

-- A lock that `acquire` returns is the job's, on the path and active, and the table that it leaves
-- holds it. The new lock's lifetime must not be over at once.
pub acquire-ok :
    (q : Request) (locks : List ResourceLock) (l : ResourceLock)
    → q.now < q.later + get_or q.ttl_sec resource_lock_ttl_sec * second
    → (acquire q locks).0 ≡ ok l
    → Granted q l (acquire q locks).1
acquire-ok q locks l live h = Outcome-ok q locks l live (acquire-Outcome q locks) h

Outcome-refused :
    (q : Request) (locks : List ResourceLock) (path holder : ℕ)
    {r : Result LockError ResourceLock × List ResourceLock}
    → Outcome q locks r
    → r.0 ≡ err (lock_conflict path holder)
    → (l : ResourceLock) × Memᴰ l locks
      × InTheWay q l
      × (l.held_by_job_id ≡ holder)
      × (path ≡ q.resource_path)
      × (r.1 ≡ locks)
Outcome-refused q locks path holder (kept m e) h = cc
Outcome-refused q locks path holder (refused m e) h =
    let (there, blocks) = found_conflict q locks m e in
    (m, there, blocks, ground arith, ground arith, refl)
Outcome-refused q locks path holder (clashed e c) h = cc
Outcome-refused q locks path holder (inserted e c) h = cc

-- LockConflictError names the path and a job that does hold a lock that is in the way: active, on
-- this path, of another job, and exclusive, or shared where an exclusive lock was requested. The
-- table is left as it was.
pub acquire-conflict :
    (q : Request) (locks : List ResourceLock) (path holder : ℕ)
    → (acquire q locks).0 ≡ err (lock_conflict path holder)
    → (l : ResourceLock) × Memᴰ l locks
      × InTheWay q l
      × (l.held_by_job_id ≡ holder)
      × (path ≡ q.resource_path)
      × ((acquire q locks).1 ≡ locks)
acquire-conflict q locks path holder h =
    Outcome-refused q locks path holder (acquire-Outcome q locks) h

same_owner :
    (q : Request) (old : ResourceLock)
    → old.resource_path ≡ q.resource_path
    → old.held_by_job_id ≡ q.job_id
    → clashes (new_lock q) old ≡ true
unfolding new_lock
same_owner q old p j = ground arith

Outcome-again :
    (q : Request) (locks : List ResourceLock) (old : ResourceLock)
    {r : Result LockError ResourceLock × List ResourceLock}
    → Memᴰ old locks
    → old.resource_path ≡ q.resource_path
    → old.held_by_job_id ≡ q.job_id
    → fetchone (held_by_job q.resource_path q.job_id q.now) locks ≡ none
    → Outcome q locks r
    → (e : LockError) × (r ≡ (err e, locks))
Outcome-again q locks old m p j none_held (kept l e) =
    absurd (ground (arith, found_existing q locks l e))
Outcome-again q locks old m p j none_held (refused l e) = (_, refl)
Outcome-again q locks old m p j none_held (clashed e c) = (_, refl)
Outcome-again q locks old m p j none_held (inserted e c) =
    let hit = exists_of_mem (clashes (new_lock q)) locks old m (same_owner q old p j) in
    absurd (ground arith)

-- Once the table has a row of the job on the path that is no longer active, `acquire` of that path
-- by that job always raises, and changes nothing: rows are never deleted, and the table allows one
-- for each path and job. A job cannot lock a resource again after it has released it.
pub acquire_again_fails :
    (q : Request) (locks : List ResourceLock) (old : ResourceLock)
    → Memᴰ old locks
    → old.resource_path ≡ q.resource_path
    → old.held_by_job_id ≡ q.job_id
    → fetchone (held_by_job q.resource_path q.job_id q.now) locks ≡ none
    → (e : LockError) × (acquire q locks ≡ (err e, locks))
acquire_again_fails q locks old m p j none_held =
    Outcome-again q locks old m p j none_held (acquire-Outcome q locks)

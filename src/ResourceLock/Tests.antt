-- ===== src/ResourceLock/Tests.antt =====
-- Runs of the lock manager, and its theorems at concrete inputs.
use local_mind.Base.{
  ◌==◌, ◌&&◌, is_none, ℕ, ◌≡◌, refl, false, List, [], ◌∷◌, some, none, arith, All, Memᴰ, ok, err,
}
use local_mind.ResourceLock.{
  LockType, exclusive, shared, ResourceLock, LockError, lock_conflict, active, Request, acquire,
  new_lock, look_up, release, force_release, release_all, cleanup_expired, get_locks_for_job,
  list_active, insert_lock,
}
use local_mind.ResourceLock.Acquire
use local_mind.ResourceLock.Acquire.{Granted, InTheWay}
use local_mind.ResourceLock.Lifecycle
use local_mind.ResourceLock.Race
use local_mind.ResourceLock.Race.{Shared, Steps, start, stop, then_step, looks, writes, OnePerJob}
use local_mind.ResourceLock.Exclusion
use local_mind.ResourceLock.Exclusion.{Call, acquires, releases, IsSafe, step, run}

abbrev request : (job now lock_id : ℕ) → LockType → Request
request job now lock_id type = record {
  resource_path = 7;
  job_id = job;
  node_id = none;
  lock_type = type;
  ttl_sec = some 1;
  now = now;
  later = now;
  lock_id = lock_id;
}

program : Unit {0}
unfolding acquire look_up insert_lock new_lock active release run step
program = tt

abbrev calls : List Call
calls =
    acquires (request 1 10 100 exclusive)
    ∷ acquires (request 2 20 101 shared)
    ∷ releases 30 100
    ∷ acquires (request 2 40 102 shared)
    ∷ []

abbrev held : List ResourceLock
held =
    record {
      id = 100;
      resource_path = 7;
      lock_type = exclusive;
      held_by_job_id = 1;
      held_by_node_id = none;
      acquired_at = 10;
      expires_at = 1000010;
      released_at = none;
    }
    ∷ []

first_call :
    acquire (request 1 10 100 exclusive) [] ≡ (ok (new_lock (request 1 10 100 exclusive)), held)
unfolding program
first_call = refl

second_refused : acquire (request 2 20 101 shared) held ≡ (err (lock_conflict 7 1), held)
unfolding program
second_refused = refl

run-IsSafe_example : IsSafe 50 (run calls [])
run-IsSafe_example = Exclusion.run-IsSafe calls 50 (omega arith)

acquire_grants :
    Granted
      (request 1 10 100 exclusive)
      (new_lock (request 1 10 100 exclusive))
      (acquire (request 1 10 100 exclusive) []).1
unfolding program
acquire_grants =
    Acquire.acquire-ok (request 1 10 100 exclusive) [] (new_lock (request 1 10 100 exclusive))
      (omega arith) refl

conflict_names_holder :
    (l : ResourceLock) × Memᴰ l held
    × InTheWay (request 2 20 101 shared) l
    × (l.held_by_job_id ≡ 1)
    × (7 ≡ (request 2 20 101 shared).resource_path)
    × ((acquire (request 2 20 101 shared) held).1 ≡ held)
unfolding program
conflict_names_holder = Acquire.acquire-conflict (request 2 20 101 shared) held 7 1 refl

-- The lock `held`, released at 30.
abbrev given_back : ResourceLock
given_back = record (new_lock (request 1 10 100 exclusive)) { released_at = some 30 }

acquire_again_fails_example :
    (e : LockError) × (acquire (request 1 40 103 exclusive) (given_back ∷ [])
      ≡ (err e, given_back ∷ []))
unfolding program
acquire_again_fails_example =
    Acquire.acquire_again_fails (request 1 40 103 exclusive) (given_back ∷ []) given_back
      (Memᴰ.head refl) refl refl refl

a_released_lock_stays_released :
    All (λ l. l.id == 100 && active 35 l ≡ false) (release 30 100 held).1
    × ((release 40 100 (release 30 100 held).1).0 ≡ false)
    × (force_release 30 100 held ≡ release 30 100 held)
a_released_lock_stays_released = Lifecycle.release_ends 30 40 100 35 held

released_of_the_job : get_locks_for_job 35 1 (release_all 30 1 held) ≡ []
released_of_the_job = Lifecycle.release_all_ends 30 1 35 held

the_cleanup_is_complete :
    (list_active 2000020 (cleanup_expired 2000000 held).1 ≡ list_active 2000020 held)
    × All (λ l. is_none l.released_at ≡ active 2000000 l) (cleanup_expired 2000000 held).1
    × ((cleanup_expired 2000000 (cleanup_expired 2000000 held).1).0 ≡ 0)
the_cleanup_is_complete = Lifecycle.cleanup_expired_exact 2000000 2000020 held (omega arith)

-- Two jobs look, and both write.
abbrev both_hold : Shared
both_hold = record {
  locks = new_lock (request 2 20 101 exclusive) ∷ new_lock (request 1 10 100 exclusive) ∷ [];
  cleared = [];
}

two_look_then_write : Steps start both_hold
unfolding program
two_look_then_write =
    then_step
      (then_step
        (then_step (then_step stop (looks (request 1 10 100 exclusive) refl))
          (looks (request 2 20 101 exclusive) refl))
        (writes [] (request 2 20 101 exclusive) (request 1 10 100 exclusive ∷ [])))
      (writes [] (request 1 10 100 exclusive) [])

one_row_for_each_job : OnePerJob both_hold.locks
one_row_for_each_job = Race.Steps-OnePerJob two_look_then_write

race_breaks_exclusion_example : (s : Shared) × Steps start s × (¬ IsSafe 30 s.locks)
unfolding program
race_breaks_exclusion_example =
    Race.race_breaks_exclusion (request 1 10 100 exclusive) (request 2 20 101 exclusive) 30 refl
      (omega arith) (omega arith) refl refl refl refl

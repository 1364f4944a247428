-- ===== src/ResourceLock/Lifecycle.antt =====
-- The calls that end locks: release, release_all and cleanup_expired.
use local_mind.Base.{
  ◌==◌, ◌&&◌, is_none, ℕ, ◌≤◌, ◌≡◌, refl, false, List, [], arith, All, All-update_always,
  rowcount-update, select-none, select-update_other,
}
use local_mind.ResourceLock.{
  ResourceLock, active, set_released, unreleased_with_id, unreleased_of_job, expired_unreleased,
  release, force_release, release_all, cleanup_expired, get_locks_for_job, list_active,
}

-- After `release`, no row with that id is active at any time, and a second `release` of it returns
-- False. `force_release` does the same.
pub release_ends :
    (now again lock_id t : ℕ) (locks : List ResourceLock)
    → All (λ l. l.id == lock_id && active t l ≡ false) (release now lock_id locks).1
      × ((release again lock_id (release now lock_id locks).1).0 ≡ false)
      × (force_release now lock_id locks ≡ release now lock_id locks)
unfolding release force_release active
release_ends now again lock_id t locks = (
  All-update_always _ (unreleased_with_id lock_id) (set_released now) locks (λ l. ground arith),
  rw (rowcount-update (unreleased_with_id lock_id) (set_released now) locks (λ l e. ground arith)),
  refl,
)

-- After `release_all` the job holds no active lock, at any time.
pub release_all_ends :
    (now job_id t : ℕ) (locks : List ResourceLock)
    → get_locks_for_job t job_id (release_all now job_id locks) ≡ []
unfolding release_all get_locks_for_job active
release_all_ends now job_id t locks =
    select-none _ _
      (All-update_always _ (unreleased_of_job job_id) (set_released now) locks (λ l. ground arith))

-- `cleanup_expired` releases every lock that has expired and no other: the locks that are active,
-- now or at any later time, are the same before and after, a row is
-- unreleased afterwards exactly if it is active now, and a second call at the same time finds nothing.
pub cleanup_expired_exact :
    (now t : ℕ) (locks : List ResourceLock)
    → now ≤ t
    → (list_active t (cleanup_expired now locks).1 ≡ list_active t locks)
      × All (λ l. is_none l.released_at ≡ active now l) (cleanup_expired now locks).1
      × ((cleanup_expired now (cleanup_expired now locks).1).0 ≡ 0)
unfolding cleanup_expired list_active active
cleanup_expired_exact now t locks later = (
  select-update_other (expired_unreleased now) (active t) (set_released now) locks
      (λ l e. (ground arith, ground arith)),
  All-update_always _ (expired_unreleased now) (set_released now) locks (λ l. ground arith),
  rowcount-update (expired_unreleased now) (set_released now) locks (λ l e. ground arith),
)

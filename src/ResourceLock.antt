-- ===== src/ResourceLock.antt =====
-- backend/swarm/resource_lock.py, with the ResourceLock of backend/swarm/models.py and the
-- constraints of the resource_locks table in backend/core/schema.py. A method takes the time that
-- `_utcnow` reads and the table, and returns its result with the new table. Times are microseconds.
pub mod Exclusion
pub mod Acquire
pub mod Lifecycle
pub mod Race
mod Tests
use local_mind.Base.{
  ℕ, ◌+◌, ◌*◌, Bool, true, false, not, ◌&&◌, ◌||◌, List, Option, none, some, Result, ok, err, ltb,
  leb, ◌==◌, is_none, if◌then◌else◌, select, fetchone, rowcount, update, insert, exists, get_or,
}

-- The text of the column `lock_type`: nothing checks it, so it may be any other text too.
pub data LockType : Type 0 where
  exclusive shared : LockType
  other : ℕ → LockType

pub record ResourceLock : Type 0 where
  pub id : ℕ
  pub resource_path : ℕ
  pub lock_type : LockType
  pub held_by_job_id : ℕ
  pub held_by_node_id : Option ℕ
  pub acquired_at : ℕ
  pub expires_at : ℕ
  pub released_at : Option ℕ

pub data LockError : Type 0 where
  lock_conflict : (resource_path held_by : ℕ) → LockError
  integrity_error : LockError

abbrev pub is_exclusive : LockType → Bool
is_exclusive exclusive = true
is_exclusive _ = false

abbrev pub is_shared : LockType → Bool
is_shared shared = true
is_shared _ = false

abbrev pub second : ℕ
second = 1000000

-- RESOURCE_LOCK_TTL_SEC, at its default
abbrev pub resource_lock_ttl_sec : ℕ
resource_lock_ttl_sec = 300

-- `_active_clause`
unfoldable pub active : ℕ → ResourceLock → Bool
active now l = is_none l.released_at && ltb now l.expires_at

-- `ResourceLock.is_expired`, where `now` is what `_now()` reads
unfoldable pub is_expired : ℕ → ResourceLock → Bool
is_expired now l = ltb l.expires_at now && is_none l.released_at

module _ (resource_path job_id now : ℕ) where
  -- The WHERE clauses of the three SELECTs of `acquire`.
  abbrev pub held_by_job : ResourceLock → Bool
  held_by_job l = l.resource_path == resource_path && (l.held_by_job_id == job_id && active now l)

  abbrev pub exclusive_of_other : ResourceLock → Bool
  exclusive_of_other l =
      l.resource_path == resource_path
      && (is_exclusive l.lock_type && (not (l.held_by_job_id == job_id) && active now l))

  abbrev pub shared_of_other : ResourceLock → Bool
  shared_of_other l =
      l.resource_path == resource_path
      && (is_shared l.lock_type && (not (l.held_by_job_id == job_id) && active now l))

-- PRIMARY KEY (id) and UNIQUE (resource_path, held_by_job_id)
abbrev pub clashes : ResourceLock → ResourceLock → Bool
clashes new l =
    l.id == new.id
    || (l.resource_path == new.resource_path && l.held_by_job_id == new.held_by_job_id)

-- The INSERT of `acquire`. If it violates a constraint nothing is committed.
unfoldable pub insert_lock :
    ResourceLock → List ResourceLock → Result LockError ResourceLock × List ResourceLock
insert_lock new locks =
    if exists (clashes new) locks then (err integrity_error, locks) else (ok new, insert new locks)

-- What the SELECTs of `acquire` find: the job's own lock, or one that is in the way.
pub data Found : Type 0 where
  existing : ResourceLock → Found
  conflict : ResourceLock → Found
  free : Found

unfoldable pub look_up : (resource_path job_id now : ℕ) → LockType → List ResourceLock → Found
look_up resource_path job_id now lock_type locks =
    elim (fetchone (held_by_job resource_path job_id now) locks) [
      | some l ↦ existing l
      | none ↦ elim (fetchone (exclusive_of_other resource_path job_id now) locks) [
        | some l ↦ conflict l
        | none ↦
            if is_exclusive lock_type
            then elim (fetchone (shared_of_other resource_path job_id now) locks) [
              | some l ↦ conflict l
              | none ↦ free
            ]
            else free
      ]
    ]

-- The arguments of a call, with what the call draws from outside: `now` and `later`, the clock's
-- two readings, and `lock_id`, the new uuid.
pub record Request : Type 0 where
  pub resource_path : ℕ
  pub job_id : ℕ
  pub node_id : Option ℕ
  pub lock_type : LockType
  pub ttl_sec : Option ℕ
  pub now : ℕ
  pub later : ℕ
  pub lock_id : ℕ

unfoldable pub new_lock : Request → ResourceLock
new_lock q = record {
  id = q.lock_id;
  resource_path = q.resource_path;
  lock_type = q.lock_type;
  held_by_job_id = q.job_id;
  held_by_node_id = q.node_id;
  acquired_at = q.now;
  expires_at = q.later + get_or q.ttl_sec resource_lock_ttl_sec * second;
  released_at = none;
}

unfoldable pub acquire :
    Request → List ResourceLock → Result LockError ResourceLock × List ResourceLock
unfolding look_up insert_lock new_lock
acquire q locks = elim (look_up q.resource_path q.job_id q.now q.lock_type locks) [
  | existing l ↦ (ok l, locks)
  | conflict l ↦ (err (lock_conflict q.resource_path l.held_by_job_id), locks)
  | free ↦ insert_lock (new_lock q) locks
]

abbrev pub set_released : ℕ → ResourceLock → ResourceLock
set_released now l = record l { released_at = some now }

abbrev pub unreleased_with_id : ℕ → ResourceLock → Bool
unreleased_with_id lock_id l = l.id == lock_id && is_none l.released_at

unfoldable pub release : (now lock_id : ℕ) → List ResourceLock → Bool × List ResourceLock
release now lock_id locks = (
  ltb 0 (rowcount (unreleased_with_id lock_id) locks),
  update (unreleased_with_id lock_id) (set_released now) locks,
)

-- `force_release` runs the same statement.
unfoldable pub force_release : (now lock_id : ℕ) → List ResourceLock → Bool × List ResourceLock
force_release now lock_id locks = (
  ltb 0 (rowcount (unreleased_with_id lock_id) locks),
  update (unreleased_with_id lock_id) (set_released now) locks,
)

abbrev pub unreleased_of_job : ℕ → ResourceLock → Bool
unreleased_of_job job_id l = l.held_by_job_id == job_id && is_none l.released_at

unfoldable pub release_all : (now job_id : ℕ) → List ResourceLock → List ResourceLock
release_all now job_id locks = update (unreleased_of_job job_id) (set_released now) locks

unfoldable pub is_locked : (now resource_path : ℕ) → List ResourceLock → Bool
unfolding active
is_locked now resource_path locks =
    not (is_none (fetchone (λ l. l.resource_path == resource_path && active now l) locks))

unfoldable pub get_lock_holder : (now resource_path : ℕ) → List ResourceLock → Option ResourceLock
get_lock_holder now resource_path locks =
    fetchone (λ l. l.resource_path == resource_path && (is_exclusive l.lock_type && active now l))
      locks

unfoldable pub get_locks_for_job : (now job_id : ℕ) → List ResourceLock → List ResourceLock
get_locks_for_job now job_id locks = select (λ l. l.held_by_job_id == job_id && active now l) locks

abbrev pub expired_unreleased : ℕ → ResourceLock → Bool
expired_unreleased now l = is_none l.released_at && leb l.expires_at now

unfoldable pub cleanup_expired : ℕ → List ResourceLock → ℕ × List ResourceLock
cleanup_expired now locks = (
  rowcount (expired_unreleased now) locks,
  update (expired_unreleased now) (set_released now) locks,
)

unfoldable pub list_active : ℕ → List ResourceLock → List ResourceLock
list_active now locks = select (active now) locks

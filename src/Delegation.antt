-- ===== src/Delegation.antt =====
-- backend/swarm/delegation.py, with the Delegation of backend/swarm/models.py: the tree of parent and
-- child jobs, over jobs and job_delegation. Of the jobs table it holds the columns that are used.
pub mod Depth
pub mod Bounds
pub mod Limits
pub mod Subtree
mod Tests
use local_mind.Base.{
  ℕ, zero, suc, ◌+◌, Bool, true, false, not, ◌&&◌, ◌||◌, List, [], ◌∷◌, Option, none, some, Result,
  ok, err, ltb, leb, ◌==◌, is_none, if◌then◌else◌, length, select, fetchone, rowcount, update,
  insert, exists, sort_by,
}
use local_mind.Jobs.{JobStatus, queued}

-- backend/config.py
abbrev pub max_child_jobs_per_parent : ℕ
max_child_jobs_per_parent = 10

abbrev pub max_delegation_depth : ℕ
max_delegation_depth = 5

pub data DelegationStatus : Type 0 where
  active completed failed cancelled : DelegationStatus
  invalid : ℕ → DelegationStatus

abbrev pub is_active : DelegationStatus → Bool
is_active active = true
is_active _ = false

pub record Delegation : Type 0 where
  pub id : ℕ
  pub parent_job_id : ℕ
  pub child_job_id : ℕ
  pub delegation_type : ℕ
  pub context_json : Option ℕ
  pub status : DelegationStatus
  pub created_at : ℕ
  pub completed_at : Option ℕ

pub record JobRow : Type 0 where
  pub id : ℕ
  pub title : ℕ
  pub description : ℕ
  pub status : JobStatus
  pub priority : ℕ
  pub created_at : ℕ

abbrev pub has_id : ℕ → JobRow → Bool
has_id job_id j = j.id == job_id

abbrev pub child_of : (parent_job_id : ℕ) → Delegation → Bool
child_of parent_job_id r = r.parent_job_id == parent_job_id

abbrev pub is_child : (child_job_id : ℕ) → Delegation → Bool
is_child child_job_id r = r.child_job_id == child_job_id

-- `current in visited`
abbrev pub visited_before : ℕ → List ℕ → Bool
visited_before current visited = exists (λ v. v == current) visited

-- The `while True` of get_tree_root and of get_depth, on fuel: the job where the walk up ends, and
-- how many steps it took. It ends at a job without parent, or at one that it visited before.
unfoldable pub walk :
    (fuel : ℕ) → (visited : List ℕ) → (current depth : ℕ) → List Delegation → Option (ℕ × ℕ)
walk zero visited current depth rows = none
walk (suc fuel) visited current depth rows =
    if visited_before current visited
    then some (current, depth)
    else elim (fetchone (is_child current) rows) [
      | none ↦ some (current, depth)
      | some r ↦ walk fuel (current ∷ visited) r.parent_job_id (depth + 1) rows
    ]

-- With a step for each row, and one more.
unfoldable pub walk_up : (job_id : ℕ) → List Delegation → Option (ℕ × ℕ)
walk_up job_id rows = walk (length rows + 1) [] job_id 0 rows

unfoldable pub get_tree_root : (job_id : ℕ) → List Delegation → Option ℕ
get_tree_root job_id rows = elim (walk_up job_id rows) [
  | none ↦ none
  | some (root, depth) ↦ some root
]

unfoldable pub get_depth : (job_id : ℕ) → List Delegation → Option ℕ
get_depth job_id rows = elim (walk_up job_id rows) [ none ↦ none | some (root, depth) ↦ some depth ]

unfoldable pub get_children : (job_id : ℕ) → List Delegation → List Delegation
get_children job_id rows = sort_by (λ r. r.created_at) (select (child_of job_id) rows)

unfoldable pub get_parent : (job_id : ℕ) → List Delegation → Option Delegation
get_parent job_id rows = fetchone (is_child job_id) rows

-- The arguments of spawn_child_job, with the clock's reading and the two uuids.
pub record Spawn : Type 0 where
  pub parent_job_id : ℕ
  pub title : ℕ
  pub description : ℕ
  pub delegation_type : ℕ
  pub context_json : Option ℕ
  pub priority : ℕ
  pub now : ℕ
  pub child_job_id : ℕ
  pub delegation_id : ℕ

-- `out_of_fuel` is no outcome of the code.
pub data SpawnError : Type 0 where
  no_parent : SpawnError
  too_many_children : (child_count : ℕ) → SpawnError
  too_deep : (depth : ℕ) → SpawnError
  integrity_error out_of_fuel : SpawnError

unfoldable pub child_job : Spawn → JobRow
child_job s = record {
  id = s.child_job_id;
  title = s.title;
  description = s.description;
  status = queued;
  priority = s.priority;
  created_at = s.now;
}

unfoldable pub delegation : Spawn → Delegation
delegation s = record {
  id = s.delegation_id;
  parent_job_id = s.parent_job_id;
  child_job_id = s.child_job_id;
  delegation_type = s.delegation_type;
  context_json = s.context_json;
  status = active;
  created_at = s.now;
  completed_at = none;
}

-- The constraints of job_delegation: PRIMARY KEY(id) and UNIQUE(parent_job_id, child_job_id).
abbrev pub clashes_with : Spawn → Delegation → Bool
clashes_with s r =
    r.id == s.delegation_id
    || (r.parent_job_id == s.parent_job_id && r.child_job_id == s.child_job_id)

-- The two INSERTs, of which either may raise; the transaction is then rolled back. `complete` says
-- whether the columns that the INSERT names are all that the table jobs asks for.
unfoldable pub insert_child :
    Spawn
    → (complete : Bool) → List JobRow × List Delegation
    → Result SpawnError Delegation × List JobRow × List Delegation
unfolding child_job delegation
insert_child s complete (jobs, rows) =
    if not complete || (exists (has_id s.child_job_id) jobs || exists (clashes_with s) rows)
    then (err integrity_error, jobs, rows)
    else (ok (delegation s), insert (child_job s) jobs, insert (delegation s) rows)

unfoldable pub spawn_child_job :
    Spawn
    → (complete : Bool) → List JobRow × List Delegation
    → Result SpawnError Delegation × List JobRow × List Delegation
unfolding insert_child
spawn_child_job s complete (jobs, rows) =
    let child_count = rowcount (child_of s.parent_job_id) rows in
    if not (exists (has_id s.parent_job_id) jobs)
    then (err no_parent, jobs, rows)
    else if leb max_child_jobs_per_parent child_count
    then (err (too_many_children child_count), jobs, rows)
    else elim (get_depth s.parent_job_id rows) [
      | none ↦ (err out_of_fuel, jobs, rows)
      | some depth ↦
          if leb max_delegation_depth (depth + 1)
          then (err (too_deep (depth + 1)), jobs, rows)
          else insert_child s complete (jobs, rows)
    ]

-- Whether the status is one of the three that mark_completed accepts.
abbrev pub is_final : DelegationStatus → Bool
is_final completed = true
is_final failed = true
is_final cancelled = true
is_final _ = false

-- `false` is the ValueError.
unfoldable pub mark_completed :
    (child_job_id : ℕ) → DelegationStatus → (now : ℕ) → List Delegation → Bool × List Delegation
mark_completed child_job_id status now rows =
    if is_final status
    then (
      true,
      update (λ r. r.child_job_id == child_job_id && is_active r.status)
          (λ r. record r { status = status; completed_at = some now }) rows,
    )
    else (false, rows)

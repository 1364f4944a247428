-- ===== src/Jobs.antt =====
-- The jobs table: Job and JobStatus of backend/jobs/models.py, and the statements on it that
-- backend/jobs/queue.py runs. A text is an opaque number; costs are counted in a unit small enough
-- to be whole.
pub mod Nodes
pub mod Queries
mod Tests
use local_mind.Base.{
  ℕ, ◌+◌, Bool, true, false, not, ◌&&◌, ◌||◌, List, [], ◌∷◌, Option, none, some, ltb, leb, ◌==◌,
  is_none, if◌then◌else◌, select, fetchone, rowcount, update, delete, insert, exists, sort_by,
}

-- The texts that the program writes to `jobs.status`: the eight of JobStatus, then 'running',
-- which execution.py tests for, 'queued' and 'completed' of delegation.py, and any other.
pub data JobStatus : Type 0 where
  pending planning executing reviewing done failed cancelled cancelling : JobStatus
  running queued completed : JobStatus
  other : ℕ → JobStatus

abbrev pub status_code : JobStatus → ℕ
status_code pending = 0
status_code planning = 1
status_code executing = 2
status_code reviewing = 3
status_code done = 4
status_code failed = 5
status_code cancelled = 6
status_code cancelling = 7
status_code running = 8
status_code queued = 9
status_code completed = 10
status_code (other n) = 11 + n

-- `status = ?`
abbrev pub has_status : JobStatus → JobStatus → Bool
has_status s t = status_code s == status_code t

pub record Job : Type 0 where
  pub id : ℕ
  pub workspace_id : ℕ
  pub title : ℕ
  pub description : Option ℕ
  pub source : ℕ
  pub source_ref : Option ℕ
  pub status : JobStatus
  pub priority : ℕ
  pub requester : Option ℕ
  pub mode : ℕ
  pub template_id : Option ℕ
  pub result_summary : Option ℕ
  pub review_count : ℕ
  pub max_reviews : ℕ
  pub error : Option ℕ
  pub cost_cents : ℕ
  pub created_at : ℕ
  pub updated_at : ℕ
  pub parent_job_id : Option ℕ
  pub tree_root_id : Option ℕ

abbrev pub with_id : ℕ → Job → Bool
with_id job_id j = j.id == job_id

-- The arguments of `create_job`.
pub record NewJob : Type 0 where
  pub workspace_id : ℕ
  pub title : ℕ
  pub description : Option ℕ
  pub source : ℕ
  pub requester : Option ℕ
  pub mode : ℕ
  pub template_id : Option ℕ
  pub priority : ℕ
  pub source_ref : Option ℕ
  pub parent_job_id : Option ℕ
  pub tree_root_id : Option ℕ

unfoldable pub new_job : NewJob → (job_id now : ℕ) → Job
new_job a job_id now = record {
  id = job_id;
  workspace_id = a.workspace_id;
  title = a.title;
  description = a.description;
  source = a.source;
  source_ref = a.source_ref;
  status = pending;
  priority = a.priority;
  requester = a.requester;
  mode = a.mode;
  template_id = a.template_id;
  result_summary = none;
  review_count = 0;
  max_reviews = 3;
  error = none;
  cost_cents = 0;
  created_at = now;
  updated_at = now;
  parent_job_id = a.parent_job_id;
  tree_root_id = a.tree_root_id;
}

-- With the delegation columns in place. `known` says whether the workspace, and the requester if
-- one is given, exist, which foreign keys ask for. `none` is an IntegrityError: of those, or of an id
-- that is taken.
unfoldable pub create_job :
    NewJob → (job_id now : ℕ) → (known : Bool) → List Job → Option Job × List Job
unfolding new_job
create_job a job_id now known jobs =
    if exists (with_id job_id) jobs || not known
    then (none, jobs)
    else (some (new_job a job_id now), insert (new_job a job_id now) jobs)

unfoldable pub get_job : ℕ → List Job → Option Job
get_job job_id jobs = fetchone (with_id job_id) jobs

-- `error` and `result_summary` are written even when they are not given.
unfoldable pub update_job_status :
    (job_id : ℕ) → JobStatus → (error result_summary : Option ℕ) → (now : ℕ) → List Job → List Job
update_job_status job_id status error result_summary now jobs =
    update (with_id job_id)
      (λ j. record j {
        status = status;
        error = error;
        result_summary = result_summary;
        updated_at = now;
      })
      jobs

unfoldable pub track_cost : (job_id cents now : ℕ) → List Job → List Job
track_cost job_id cents now jobs =
    update (with_id job_id) (λ j. record j { cost_cents = j.cost_cents + cents; updated_at = now })
      jobs

unfoldable pub increment_review_count : (job_id now : ℕ) → List Job → ℕ × List Job
increment_review_count job_id now jobs =
    let jobs' =
      update (with_id job_id)
        (λ j. record j { review_count = j.review_count + 1; updated_at = now }) jobs in
    (elim (fetchone (with_id job_id) jobs') [ none ↦ 0 | some j ↦ j.review_count ], jobs')

unfoldable pub get_interrupted_jobs : List Job → List Job
get_interrupted_jobs jobs =
    sort_by (λ j. j.created_at) (select (λ j. has_status j.status executing) jobs)

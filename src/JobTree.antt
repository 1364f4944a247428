-- ===== src/JobTree.antt =====
-- The methods of backend/jobs/queue.py that go through a tree of jobs: cancel_job with its cascade,
-- get_child_jobs and get_job_tree, over jobs and job_delegation. The recursions run on fuel, a unit for
-- each level.
pub mod Levels
pub mod Cascade
mod Tests
use local_mind.Base.{
  ℕ, zero, suc, Bool, true, false, ◌&&◌, List, [], ◌∷◌, ◌++◌, none, ◌==◌, if◌then◌else◌, select,
  exists, sort_by,
}
use local_mind.Jobs.{Job, cancelling, with_id, update_job_status}
use local_mind.Delegation.{Delegation, max_delegation_depth}
use local_mind.Delegation.Subtree.{child_ids, each}

-- `update_job_status(job_id, 'cancelling')`
abbrev pub set_cancelling : (job_id now : ℕ) → List Job → List Job
set_cancelling job_id now jobs = update_job_status job_id cancelling none none now jobs

-- With one reading of the clock for all levels. Without fuel it stops.
unfoldable pub cascade_cancel : (fuel now parent_id : ℕ) → List Delegation → List Job → List Job
cascade_cancel zero now parent_id rows jobs = jobs
cascade_cancel (suc fuel) now parent_id rows jobs =
    each
      (λ child_id state. cascade_cancel fuel now child_id rows (set_cancelling child_id now state))
      (child_ids parent_id rows) jobs

-- A tree has at most `max_delegation_depth` levels.
unfoldable pub cancel_job :
    (job_id : ℕ) → (cascade : Bool) → (now : ℕ) → List Delegation → List Job → List Job
cancel_job job_id cascade now rows jobs =
    let after = set_cancelling job_id now jobs in
    if cascade then cascade_cancel max_delegation_depth now job_id rows after else after

-- The JOIN, under UNIQUE(parent_job_id, child_job_id).
unfoldable pub get_child_jobs : (parent_job_id : ℕ) → List Delegation → List Job → List Job
get_child_jobs parent_job_id rows jobs =
    sort_by (λ j. j.created_at)
      (select (λ j. exists (λ d. d.parent_job_id == parent_job_id && d.child_job_id == j.id) rows)
        jobs)

abbrev pub all_child_ids : List ℕ → List Delegation → List ℕ
all_child_ids [] rows = []
all_child_ids (i ∷ ids) rows = child_ids i rows ++ all_child_ids ids rows

-- The recursive CTE: an id once for each way to it, level by level.
unfoldable pub tree_ids : (fuel : ℕ) → List ℕ → List Delegation → List ℕ
tree_ids zero ids rows = []
tree_ids (suc fuel) ids rows = ids ++ tree_ids fuel (all_child_ids ids rows) rows

-- `JOIN tree t ON j.id = t.job_id`
abbrev pub jobs_of : List ℕ → List Job → List Job
jobs_of [] jobs = []
jobs_of (i ∷ ids) jobs = select (with_id i) jobs ++ jobs_of ids jobs

-- As for the cascade, `max_delegation_depth` levels.
unfoldable pub get_job_tree : (root_job_id : ℕ) → List Delegation → List Job → List Job
get_job_tree root_job_id rows jobs =
    sort_by (λ j. j.created_at)
      (jobs_of (tree_ids max_delegation_depth (root_job_id ∷ []) rows) jobs)

-- ===== src/Execution/Cancellation.antt =====
-- CancellationManager of backend/core/execution.py, over the table jobs. The move of the job's
-- files to the recycle bin is left out.
pub mod Phases
use local_mind.Base.{
  ℕ, Bool, true, false, ◌&&◌, ◌||◌, List, Option, none, some, ◌==◌, if◌then◌else◌, fetchone, update,
}
use local_mind.Jobs.{Job, JobStatus, pending, running, cancelling, cancelled, has_status, with_id}

-- `status IN ('pending', 'running')`
abbrev pub can_cancel : Job → Bool
can_cancel j = has_status j.status pending || has_status j.status running

unfoldable pub request_cancellation : (job_id now : ℕ) → List Job → List Job
request_cancellation job_id now jobs =
    update (λ j. j.id == job_id && can_cancel j)
      (λ j. record j { status = cancelling; updated_at = now }) jobs

unfoldable pub is_cancelling : (job_id : ℕ) → List Job → Bool
is_cancelling job_id jobs = elim (fetchone (with_id job_id) jobs) [
  | none ↦ false
  | some j ↦ has_status j.status cancelling
]

unfoldable pub complete_cancellation : (job_id now : ℕ) → List Job → List Job
complete_cancellation job_id now jobs =
    update (with_id job_id) (λ j. record j { status = cancelled; updated_at = now }) jobs

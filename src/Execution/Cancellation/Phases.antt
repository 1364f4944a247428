-- ===== src/Execution/Cancellation/Phases.antt =====
-- The two phases of a cancellation.
use local_mind.Base.{ℕ, ◌≡◌, refl, false, ◌||◌, List, [], ◌∷◌, some, arith, if◌then◌else◌, ◌∙◌, sym}
use local_mind.Jobs.{Job, executing, cancelling, cancelled, has_status, get_job}
use local_mind.Execution.Cancellation.{
  can_cancel, request_cancellation, is_cancelling, complete_cancellation,
}

request-get_job :
    (job_id now : ℕ) (jobs : List Job) (j : Job)
    → get_job job_id jobs ≡ some j
    → get_job job_id (request_cancellation job_id now jobs)
      ≡ some (if can_cancel j then record j { status = cancelling; updated_at = now } else j)
unfolding get_job request_cancellation
request-get_job job_id now [] j h = cc
request-get_job job_id now (k ∷ jobs) j h = ground (arith, request-get_job job_id now jobs j)

complete-get_job :
    (job_id now : ℕ) (jobs : List Job) (j : Job)
    → get_job job_id jobs ≡ some j
    → get_job job_id (complete_cancellation job_id now jobs)
      ≡ some (record j { status = cancelled; updated_at = now })
unfolding get_job complete_cancellation
complete-get_job job_id now [] j h = cc
complete-get_job job_id now (k ∷ jobs) j h = ground (arith, complete-get_job job_id now jobs j)

is_cancelling-get_job :
    (job_id : ℕ) (jobs : List Job) (j : Job)
    → get_job job_id jobs ≡ some j
    → is_cancelling job_id jobs ≡ has_status j.status cancelling
unfolding get_job is_cancelling
is_cancelling-get_job job_id jobs j h = rw (h, is_cancelling) refl

-- After a request, the worker sees the job cancelling exactly if the request found it pending,
-- 'running' or cancelling already. Completing the cancellation makes the job cancelled, whatever its
-- status was, and the worker then no longer sees it cancelling.
pub request-is_cancelling :
    (job_id now later : ℕ) (jobs : List Job) (j : Job)
    → get_job job_id jobs ≡ some j
    → let requested = request_cancellation job_id now jobs in
      let completed = complete_cancellation job_id later requested in
      (is_cancelling job_id requested ≡ can_cancel j || has_status j.status cancelling)
      × ((k : Job) × (get_job job_id completed ≡ some k) × (k.status ≡ cancelled))
      × (is_cancelling job_id completed ≡ false)
request-is_cancelling job_id now later jobs j h =
    let r = request-get_job job_id now jobs j h in
    let c = complete-get_job job_id later (request_cancellation job_id now jobs) _ r in
    (
      is_cancelling-get_job job_id (request_cancellation job_id now jobs) _ r ∙ ground arith,
      (_, c, refl),
      is_cancelling-get_job job_id _ _ c,
    )

-- A request for a job that a worker executes, with the status 'executing' of JobStatus, changes
-- nothing of it: the worker never sees it cancelling.
pub executing_not_cancelled :
    (job_id now : ℕ) (jobs : List Job) (j : Job)
    → get_job job_id jobs ≡ some j
    → j.status ≡ executing
    → (get_job job_id (request_cancellation job_id now jobs) ≡ get_job job_id jobs)
      × (is_cancelling job_id (request_cancellation job_id now jobs) ≡ false)
executing_not_cancelled job_id now jobs j h e =
    let never : can_cancel j ≡ false = rw e refl in
    let r : get_job job_id (request_cancellation job_id now jobs) ≡ some j =
      request-get_job job_id now jobs j h ∙ rw never refl in
    (r ∙ sym h, is_cancelling-get_job job_id (request_cancellation job_id now jobs) j r ∙ rw e refl)

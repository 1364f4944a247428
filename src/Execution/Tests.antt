-- ===== src/Execution/Tests.antt =====
-- Runs of the execution managers, and their theorems at concrete inputs.
use local_mind.Base.{
  ℕ, ◌+◌, ◌≤◌, ◌≡◌, ◌⊎◌, refl, true, false, ◌||◌, List, [], ◌∷◌, map, none, some, ok, arith, ◌==◌,
  is_none, is_some_of, if◌then◌else◌, length, exists, fetchone, All, Pairwise, Memᴰ,
}
use local_mind.ErrorStrategy.{ErrorCategory}
use local_mind.Jobs.{Job, executing, pending, cancelling, cancelled, has_status, new_job, get_job}
use local_mind.Execution.Events.{record_event, same_event, mark_processed}
use local_mind.Execution.Events.Dedup
use local_mind.Execution.Events.Dedup.{Call, records, marks, run, accepted, step, accepts}
use local_mind.Execution.Attempts.{
  Attempt, failed, transient, text_of, fail_attempt, get_attempts, get_latest_attempt, new_attempt,
}
use local_mind.Execution.Attempts.Tracking
use local_mind.Execution.Invocations.{
  Invocation, success, completion, new_invocation, update_invocation, get_cached_result,
}
use local_mind.Execution.Invocations.Caching
use local_mind.Execution.Leases.{
  WorkerLease, new_lease, heartbeat, find_dead_workers, claim_orphaned_jobs, reset_job, mark_dead,
  job_of,
}
use local_mind.Execution.Leases.Reclaim
use local_mind.Execution.Leases.Reclaim.{contains, ended}
use local_mind.Execution.DeadLetters.{
  DeadLetter, new_dead_letter, retried, resolve, resolve_dead_letter, list_dead_letters,
}
use local_mind.Execution.DeadLetters.Resolved
use local_mind.Execution.Cancellation.{
  can_cancel, request_cancellation, is_cancelling, complete_cancellation,
}
use local_mind.Execution.Cancellation.Phases

program : Unit {0}
unfolding record_event run accepted step accepts get_attempts get_latest_attempt find_dead_workers
    get_job heartbeat claim_orphaned_jobs mark_dead reset_job job_of new_job mark_processed
program = tt

abbrev deliveries : List Call
deliveries =
    records 100 1 7 3 true ∷ marks 100 50 10 ∷ records 101 1 7 3 true ∷ records 102 2 7 3 true ∷ []

one_of_three : accepted 1 7 deliveries [] ≡ 1
unfolding program
one_of_three = refl

accepted_once_example :
    (accepted 1 7 deliveries [] ≤ 1)
    × (accepted 1 7 deliveries [] ≡ (if exists (same_event 1 7) (run deliveries []) then 1 else 0))
accepted_once_example = Dedup.accepted_once 1 7 deliveries

abbrev two_attempts : List Attempt
two_attempts = new_attempt 11 5 2 none none 20 ∷ new_attempt 10 5 1 none none 10 ∷ []

attempts_in_order :
    (map (λ a. a.id) (get_attempts 5 two_attempts) ≡ 10 ∷ 11 ∷ [])
    × (get_latest_attempt 5 two_attempts ≡ some (new_attempt 11 5 2 none none 20))
unfolding program
attempts_in_order = (refl, refl)

a_failed_attempt_has_its_text :
    (b : Attempt) × (fetchone
        (λ x. x.id == 10)
        (fail_attempt 10 9 (text_of ErrorCategory.injection_detected) 30 two_attempts)
      ≡ some b)
    × (b.status ≡ failed)
    × (b.error ≡ some 9)
    × ((b.error_category ≡ some (text_of ErrorCategory.injection_detected))
        ⊎ (ErrorCategory.injection_detected ≡ ErrorCategory.injection_detected)
          × (b.error_category ≡ some transient))
a_failed_attempt_has_its_text =
    Tracking.fail_attempt-text_of ErrorCategory.injection_detected 10 9 30 two_attempts
      (new_attempt 10 5 1 none none 10) refl

latest_attempt_is_read :
    Pairwise (λ a b. a.attempt_number ≤ b.attempt_number) (get_attempts 5 two_attempts)
    × ((get_latest_attempt 5 two_attempts ≡ none) × (get_attempts 5 two_attempts ≡ [])
        ⊎ ((a : Attempt) × (get_latest_attempt 5 two_attempts ≡ some a)
            × Memᴰ a two_attempts
            × (a.node_id ≡ 5)
            × All (λ b. b.attempt_number ≤ a.attempt_number) (get_attempts 5 two_attempts)))
latest_attempt_is_read = Tracking.get_latest_attempt-greatest 5 two_attempts

abbrev call : Invocation
call = new_invocation 20 10 1 2 (some 8) 40

a_success_is_cached :
    (j : Invocation) × (get_cached_result 8
        (update_invocation 20 77 success none none 45 (call ∷ []))
      ≡ some j)
    × (45 + 1 ≤ completion j)
    × (j.status ≡ success)
    × (is_some_of j.idempotency_key 8 ≡ true)
a_success_is_cached =
    Caching.update_invocation-get_cached_result 8 45 77 none none (call ∷ []) call refl refl

abbrev silent : WorkerLease
silent = record (new_lease 1 2 3 none 1000000) { current_job_id = some 30 }

abbrev leases : List WorkerLease
leases = silent ∷ new_lease 4 2 3 none 95000000 ∷ []

abbrev working_job : Job
working_job = record {
  id = 30;
  workspace_id = 3;
  title = 1;
  description = none;
  source = 2;
  source_ref = none;
  status = executing;
  priority = 5;
  requester = none;
  mode = 1;
  template_id = none;
  result_summary = none;
  review_count = 0;
  max_reviews = 3;
  error = none;
  cost_cents = 0;
  created_at = 1;
  updated_at = 2;
  parent_job_id = none;
  tree_root_id = none;
}

one_dead : find_dead_workers 90 100000000 leases ≡ 1 ∷ []
unfolding program
one_dead = refl

sweep_complete_example :
    (find_dead_workers 90 100000000
        (claim_orphaned_jobs
          (find_dead_workers 90 100000000 leases)
          100000000
          leases
          (working_job ∷ [])).1
      ≡ [])
    × ((claim_orphaned_jobs
          (find_dead_workers 90 100000000 leases)
          100000000
          leases
          (working_job ∷ [])).1
        ≡ map (λ l. ended (contains l.worker_id (find_dead_workers 90 100000000 leases)) l) leases)
sweep_complete_example = Reclaim.sweep_complete 90 100000000 leases (working_job ∷ [])

a_heartbeat_keeps_the_lease :
    contains 1 (find_dead_workers 90 100000000 (heartbeat 1 none none 50000000 leases)) ≡ false
a_heartbeat_keeps_the_lease =
    Reclaim.heartbeat-find_dead_workers 1 90 50000000 100000000 none none leases (omega arith)

executing_job_stays :
    ((rest : List ℕ) × ((claim_orphaned_jobs (1 ∷ []) 100000000 leases (working_job ∷ [])).0
        ≡ 30 ∷ rest))
    × (get_job 30 (claim_orphaned_jobs (1 ∷ []) 100000000 leases (working_job ∷ [])).2
        ≡ some working_job)
unfolding get_job job_of
executing_job_stays =
    Reclaim.executing_stays 1 [] 100000000 30 leases (working_job ∷ []) working_job refl refl refl

abbrev letter : DeadLetter
letter = new_dead_letter 60 30 none none 1 2 none 70

unresolved_letters_are_listed :
    All (λ d. is_none d.resolved_at ≡ false) (list_dead_letters true (letter ∷ []))
    × All (λ d. is_none d.resolved_at ≡ true) (list_dead_letters false (letter ∷ []))
    × (length (list_dead_letters true (letter ∷ []))
          + length (list_dead_letters false (letter ∷ []))
        ≡ 1)
unresolved_letters_are_listed = Resolved.list_dead_letters-exact (letter ∷ [])

a_resolved_letter_is_listed_no_more :
    ((resolve_dead_letter 60 9 retried true 80 (letter ∷ [])).0 ≡ ok tt)
    × All
        (λ x. x.id == 60 ≡ false)
        (list_dead_letters false (resolve_dead_letter 60 9 retried true 80 (letter ∷ [])).1)
    × Memᴰ
        (resolve 9 retried 80 letter)
        (list_dead_letters true (resolve_dead_letter 60 9 retried true 80 (letter ∷ [])).1)
a_resolved_letter_is_listed_no_more =
    Resolved.resolve-list_dead_letters 60 9 retried 80 (letter ∷ []) letter refl refl

abbrev waiting : Job
waiting = record working_job { status = pending }

a_request_is_seen :
    (is_cancelling 30 (request_cancellation 30 5 (waiting ∷ []))
      ≡ can_cancel waiting || has_status waiting.status cancelling)
    × ((k : Job) × (get_job 30
            (complete_cancellation 30 6 (request_cancellation 30 5 (waiting ∷ [])))
          ≡ some k)
        × (k.status ≡ cancelled))
    × (is_cancelling 30 (complete_cancellation 30 6 (request_cancellation 30 5 (waiting ∷ [])))
        ≡ false)
unfolding get_job
a_request_is_seen = Phases.request-is_cancelling 30 5 6 (waiting ∷ []) waiting refl

executing_job_is_not_cancelled :
    (get_job 30 (request_cancellation 30 5 (working_job ∷ [])) ≡ get_job 30 (working_job ∷ []))
    × (is_cancelling 30 (request_cancellation 30 5 (working_job ∷ [])) ≡ false)
unfolding get_job
executing_job_is_not_cancelled =
    Phases.executing_not_cancelled 30 5 (working_job ∷ []) working_job refl refl

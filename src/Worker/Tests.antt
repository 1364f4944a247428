-- ===== src/Worker/Tests.antt =====
-- Runs of the worker, and its theorems at concrete inputs.
use local_mind.Base.{
  ℕ, ◌+◌, ◌≡◌, ◌≢◌, ◌⊎◌, refl, Bool, true, false, List, [], ◌∷◌, map, none, some, inl, arith, ◌==◌,
  if◌then◌else◌, All, Pairwise, Memᴰ, select, exists,
}
use local_mind.Jobs.{
  Job, JobStatus, pending, cancelling, has_status, NewJob, new_job, create_job, get_job,
  update_job_status, increment_review_count,
}
use local_mind.Jobs.Nodes.{
  NodeDef, title_to_id, new_node, insert_nodes, create_nodes, get_nodes, get_next_pending_node,
  update_node,
}
use local_mind.JobRecords.{get_files}
use local_mind.Worker.{
  NodeRun, Services, World, handle_failure, is_cancelled, resolve_input, first_failed_node,
}
use local_mind.Worker.JobRow.{IsFair}
use local_mind.Worker.NodeLoop.{execute_nodes, out_of_fuel}
use local_mind.Worker.NodeLoop.Fuel
use local_mind.Worker.NodeLoop.Fuel.{pending_of}
use local_mind.Worker.Attempts.{
  reset_nodes_for_retry, re_plan, review_rejected, review_passed, run_review, after_nodes,
  fail_nodes, execute_and_review, cancel_run, attempt, attempts, run_plan, run_job,
}
use local_mind.Worker.Attempts.Ends
use local_mind.Worker.Polling.{
  cancelled_error, select_pending, claim, is_claimable, dequeue_next_pending, poll_and_execute,
  resume_job, resume_all, start,
}
use local_mind.Worker.Polling.Choice
use local_mind.Worker.Polling.Choice.{Precedes}
use local_mind.Worker.Polling.Claims
use local_mind.Worker.Polling.Claims.{Pool, Step, Steps}
use local_mind.Worker.Polling.Outcomes
use local_mind.Worker.Polling.Breaker
use local_mind.Worker.Polling.Breaker.{Counted}

program : Unit {0}
unfolding create_job new_job get_job update_job_status increment_review_count title_to_id new_node
    insert_nodes create_nodes get_nodes get_next_pending_node update_node get_files handle_failure
    is_cancelled resolve_input first_failed_node execute_nodes reset_nodes_for_retry re_plan
    review_rejected review_passed run_review after_nodes fail_nodes execute_and_review cancel_run
    attempt attempts run_plan run_job select_pending claim dequeue_next_pending poll_and_execute
    resume_job resume_all start
program = tt

abbrev order : (priority : ℕ) → NewJob
order priority = record {
  workspace_id = 1;
  title = 2;
  description = none;
  source = 3;
  requester = none;
  mode = 4;
  template_id = none;
  priority = priority;
  source_ref = none;
  parent_job_id = none;
  tree_root_id = none;
}

-- Job 11 is the younger one, and of the higher priority.
abbrev jobs : List Job
jobs = new_job (order 0) 10 100 ∷ new_job (order 5) 11 200 ∷ []

abbrev part : NodeDef
part = record {
  title = some 70;
  stripped_title = some 70;
  instructions = none;
  tools_allowed = 0;
  expected_output = none;
  input_schema_json = none;
  output_schema_json = none;
  retry_policy = 0;
  timeout_sec = none;
  depends_on = [];
}

-- A second goes by at each await; a plan has one node, which succeeds, and the review is `passes`.
abbrev services : (passes : Bool) → (outside : ℕ → List Job → List Job) → Services
services passes outside = record {
  now = λ t. 1000 + t;
  monotonic = λ t. 60 + t;
  task_cancelled = λ t. false;
  stopped = λ t. false;
  outside = outside;
  between = λ t js. js;
  plan = λ t j feedback files. some (part ∷ []);
  node_ids = λ t. (500 + t) ∷ [];
  execute_node = λ t n j input. NodeRun.finished true ((1, 2) ∷ []) none;
  review = λ t j nodes files. some (record { passed = passes; feedback = 9 });
  analysis_raises = λ t. false;
  has_children = λ t job_id. false;
  tree_complete = λ t job_id. some true;
  spawn = λ t j spec js. (none, js);
  delegate_of = λ output. none;
  dumps = λ items. 4;
  loads = λ text. none;
  text = λ reason. 6;
  input_type = 7;
  output_type = 8;
}

abbrev quiet : Bool → Services
quiet passes = services passes (λ t js. js)

quiet-IsFair : (passes : Bool) (job_id : ℕ) → IsFair (quiet passes) job_id
quiet-IsFair passes job_id =
    ((λ t js j h. (j, h, refl, inl refl)), (λ t job spec js j h. (j, h, refl, inl refl)))

abbrev world : World
world = record {
  running = true;
  consecutive_failures = 2;
  circuit_open_until = 0;
  jobs = jobs;
  nodes = [];
  files = [];
  audit = [];
  tick = 0;
  awaits = [];
}

statuses_after_success :
    map (λ j. j.status) (poll_and_execute (quiet true) world).1.jobs
    ≡ JobStatus.pending ∷ JobStatus.done ∷ []
unfolding program
statuses_after_success = refl

three_reviews_then_failed :
    map {B = JobStatus × ℕ}
      (λ j. (j.status, j.review_count))
      (poll_and_execute (quiet false) world).1.jobs
    ≡ (JobStatus.pending, 0) ∷ (JobStatus.failed, 3) ∷ []
unfolding program
three_reviews_then_failed = refl

-- The worker is shut down while the planner runs: the job stays as it is.
abbrev shut_down : Services
shut_down = record (quiet true) { task_cancelled = λ t. t == 1 }

shut_down_while_planning :
    ((poll_and_execute shut_down world).0 ≡ cancelled_error)
    × (map (λ j. j.status) (poll_and_execute shut_down world).1.jobs
        ≡ JobStatus.pending ∷ JobStatus.planning ∷ [])
unfolding program
shut_down_while_planning = (refl, refl)

third_failure_opens_circuit : Counted (quiet true) world (handle_failure (quiet true) 10 6 world)
third_failure_opens_circuit = Breaker.handle_failure-Counted (quiet true) 10 6 world

-- Someone asks for the cancellation of job 10 at the first await.
abbrev request : ℕ → List Job → List Job
request t js = if t == 0 then update_job_status 10 cancelling none none 900 js else js

abbrev cancelled_at_once : Services
cancelled_at_once = services true request

one_more_attempt_changes_nothing :
    attempts (quiet false) 3 0 3 (new_job (order 0) 10 100) world
    ≡ attempts (quiet false) 4 0 3 (new_job (order 0) 10 100) world
unfolding program
one_more_attempt_changes_nothing =
    Ends.attempts_enough (quiet false) (new_job (order 0) 10 100) (quiet-IsFair false 10) 0 3 2 3 0
      world (new_job (order 0) 10 100, refl, refl) (omega arith) (omega arith)

execute_nodes-ends_example :
    (execute_nodes (quiet true) 1 (new_job (order 0) 10 100) [] world).0 ≢ out_of_fuel
unfolding program
execute_nodes-ends_example =
    Fuel.execute_nodes-ends (quiet true) (new_job (order 0) 10 100) 1 [] world (omega arith)

dequeue_next_pending-exact_example :
    let r = dequeue_next_pending 300 (λ js. js) jobs in
    let waiting = select (λ j. has_status j.status pending) jobs in
    ((r.0 ≡ none) × (waiting ≡ []))
    ⊎ ((j : Job) × Memᴰ j waiting
        × All (Precedes j) waiting
        × (r.1 ≡ (claim j.id 300 jobs).1)
        × (((r.0 ≡ some j) × (exists (is_claimable j.id) jobs ≡ true))
            ⊎ ((r.0 ≡ none) × (exists (is_claimable j.id) jobs ≡ false))))
dequeue_next_pending-exact_example = Choice.dequeue_next_pending-exact 300 (λ js. js) jobs

-- Two workers read the same job before either takes it.
abbrev pool : Pool
pool = record { jobs = jobs; held = []; taken = [] }

abbrev read_once : Pool
read_once = record { jobs = jobs; held = (1, 11) ∷ []; taken = [] }

abbrev read_twice : Pool
read_twice = record { jobs = jobs; held = (2, 11) ∷ (1, 11) ∷ []; taken = [] }

abbrev taken_once : Pool
taken_once = record {
  jobs = (claim 11 300 jobs).1;
  held = (2, 11) ∷ (1, 11) ∷ [];
  taken = (1, 11) ∷ [];
}

race : Steps pool taken_once
unfolding program
race =
    Steps.next read_twice taken_once
      (Steps.next read_once read_twice
        (Steps.next pool read_once Steps.start (Step.reads 1 (new_job (order 5) 11 200) refl))
        (Step.reads 2 (new_job (order 5) 11 200) refl))
      (Step.takes 1 11 300 (Memᴰ.tail (Memᴰ.head refl)) refl)

Steps-Distinct_example : Pairwise (λ a b. a.1 ≢ b.1) taken_once.taken
Steps-Distinct_example = Claims.Steps-Distinct pool taken_once race refl

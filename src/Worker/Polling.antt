-- ===== src/Worker/Polling.antt =====
-- How the worker takes a job and sees it through: `_dequeue_next_pending`, `_poll_and_execute`,
-- `_resume_job`, and the resumption that `start` begins with.
pub mod Claims
pub mod Choice
pub mod Breaker
pub mod Outcomes
use local_mind.Base.{
  ℕ, suc, ◌+◌, Bool, true, false, not, ◌&&◌, ◌||◌, List, [], ◌∷◌, Option, none, some, ltb, leb,
  ◌==◌, if◌then◌else◌, select, fetchone, rowcount, update,
}
use local_mind.Jobs.{
  Job, JobStatus, pending, planning, has_status, with_id, get_job, get_interrupted_jobs,
}
use local_mind.Jobs.Nodes.{Node, NodeStatus, get_nodes}
use local_mind.Worker.{Reason, Action, Moment, Services, World, add_audit, await, fail_job}
use local_mind.Worker.NodeLoop.{set_node}
use local_mind.Worker.Attempts.{Exit, returned, uncaught, unfinished, run_job}

-- `ORDER BY priority DESC, created_at ASC`: whether `a` comes strictly before `b`.
abbrev pub comes_first : Job → Job → Bool
comes_first a b =
    ltb b.priority a.priority || (b.priority == a.priority && ltb a.created_at b.created_at)

abbrev pub first_of : Job → Option Job → Job
first_of j none = j
first_of j (some k) = if comes_first k j then k else j

-- `LIMIT 1` of that order
abbrev pub first_job : List Job → Option Job
first_job [] = none
first_job (j ∷ jobs) = some (first_of j (first_job jobs))

unfoldable pub select_pending : List Job → Option Job
select_pending jobs = first_job (select (λ j. has_status j.status pending) jobs)

abbrev pub is_claimable : (job_id : ℕ) → Job → Bool
is_claimable job_id j = with_id job_id j && has_status j.status pending

-- The UPDATE that takes the job, and whether it changed a row.
unfoldable pub claim : (job_id now : ℕ) → List Job → Bool × List Job
claim job_id now jobs = (
  not (rowcount (is_claimable job_id) jobs == 0),
  update (is_claimable job_id) (λ j. record j { status = planning; updated_at = now }) jobs,
)

-- `between` is what other processes do between the two statements.
unfoldable pub dequeue_next_pending :
    (now : ℕ) → (between : List Job → List Job) → List Job → Option Job × List Job
unfolding select_pending claim
dequeue_next_pending now between jobs = elim (select_pending jobs) [
  | none ↦ (none, jobs)
  | some j ↦
      let (claimed, jobs') = claim j.id now (between jobs) in
      (if claimed then some j else none, jobs')
]

-- How a poll ends: it returns, a CancelledError leaves it, or another exception does, or the model ran
-- out of fuel.
pub data PollExit : Type 0 where
  done cancelled_error raised out_of_fuel : PollExit

abbrev pub of_run : Exit → PollExit
of_run returned = done
of_run uncaught = raised
of_run unfinished = out_of_fuel

module _ (s : Services) where
  -- An exception that leaves `_run_job` fails the job.
  abbrev pub guard : Job → Exit → World → Exit × World
  guard job returned w = (returned, w)
  guard job uncaught w = (returned, fail_job s job.id Reason.unhandled w)
  guard job unfinished w = (unfinished, w)

  -- The worker stays as it was at the await where the CancelledError reached it.
  abbrev pub stay_at : Moment → World → World
  stay_at m w = record w {
    running = m.running;
    consecutive_failures = m.consecutive_failures;
    circuit_open_until = m.circuit_open_until;
    jobs = m.jobs;
    nodes = m.nodes;
    files = m.files;
    audit = m.audit;
    tick = suc m.tick;
  }

  -- A CancelledError is passed on, and whatever came after it is not done.
  abbrev pub pass_cancelled : Exit × World → PollExit × World
  pass_cancelled (exit, w) = elim (fetchone (λ m. s.task_cancelled m.tick) w.awaits) [
    | none ↦ (of_run exit, w)
    | some m ↦ (cancelled_error, stay_at m w)
  ]

  abbrev pub run_guarded : Job → World → PollExit × World
  run_guarded job w = let (exit, w') = run_job s job w in pass_cancelled (guard job exit w')

  abbrev pub run_dequeued : Option Job → World → PollExit × World
  run_dequeued none w = pass_cancelled (returned, w)
  run_dequeued (some job) w = run_guarded job w

  unfoldable pub poll_and_execute : World → PollExit × World
  poll_and_execute w =
      let (job, jobs) = dequeue_next_pending (s.now w.tick) (s.between w.tick) w.jobs in
      if ltb (s.monotonic w.tick) w.circuit_open_until
      then (done, w)
      else run_dequeued job (record w { jobs = jobs; awaits = [] })

  abbrev pub is_running : NodeStatus → Bool
  is_running NodeStatus.running = true
  is_running _ = false

  abbrev pub reset_node : (job_id : ℕ) → Node → World → World
  reset_node job_id n w =
      if is_running n.status
      then add_audit job_id (Action.node_reset_for_resume n.id)
          (set_node s n.id NodeStatus.pending none none none w)
      else w

  abbrev pub reset_nodes : (job_id : ℕ) → List Node → World → World
  reset_nodes job_id [] w = w
  reset_nodes job_id (n ∷ nodes) w = reset_nodes job_id nodes (reset_node job_id n w)

  unfoldable pub resume_job : Job → World → PollExit × World
  resume_job job w =
      let w' = await s (
        add_audit job.id Action.resuming
          (reset_nodes job.id (get_nodes job.id w.nodes) (record w { awaits = [] }))) in
      run_dequeued (get_job job.id w'.jobs) w'

  -- What is left to do after one job. An exit other than `done` ends the loop.
  abbrev pub and_then : (rest : World → PollExit × World) → PollExit → World → PollExit × World
  and_then rest done w = rest w
  and_then rest exit w = (exit, w)

  -- The jobs that a crash interrupted, while the worker is not stopped.
  unfoldable pub resume_all : List Job → World → PollExit × World
  resume_all [] w = (done, w)
  resume_all (job ∷ jobs) w =
      let (exit, w') = resume_job job w in
      let rest = and_then (resume_all jobs) exit w' in if w.running then rest else (done, w)

  unfoldable pub start : World → PollExit × World
  start w = resume_all (get_interrupted_jobs w.jobs) (record w { running = true })

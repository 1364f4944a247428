-- ===== src/Worker/Attempts.antt =====
-- `_run_job` of the worker: planning, then attempts to execute the nodes and have the job reviewed,
-- with `_wait_for_children`, `_build_retry_plan` and `_reset_nodes_for_retry`.
pub mod Steps
pub mod Turns
pub mod Ends
use local_mind.Base.{
  ℕ, zero, suc, ◌+◌, Bool, true, false, not, ◌||◌, List, [], ◌∷◌, Option, none, some, leb, is_none,
  if◌then◌else◌, length,
}
use local_mind.Jobs.{
  Job, JobStatus, planning, executing, reviewing, done, cancelled, get_job, increment_review_count,
}
use local_mind.Jobs.Nodes.{Node, NodeDef, NodeStatus, get_nodes, create_nodes}
use local_mind.Jobs.Nodes.Progress.{pending_nodes}
use local_mind.JobRecords.{get_files}
use local_mind.Worker.{
  Reason, Review, Action, Services, World, add_audit, await, set_status, handle_failure, fail_job,
  first_failed_node, is_cancelled, is_failed, absolute_max_reviews, max_job_timeout_sec,
}
use local_mind.Worker.NodeLoop.{
  NodesExit, all_succeeded, not_all, execute_nodes, set_node, completed_outputs,
}

-- How a call of `_run_job` ends: it returns, an exception leaves it, or the model ran out of fuel,
-- which is no outcome of the code.
pub data Exit : Type 0 where
  returned uncaught unfinished : Exit

-- What an attempt leads to.
pub data Outcome : Type 0 where
  ended : Exit → Outcome
  again : Outcome

pub data Children : Type 0 where
  complete timeout raises : Children

-- A `return` in the loop's body ends the loop.
abbrev pub proceed : (rest : World → Exit × World) → Outcome → World → Exit × World
proceed rest (ended exit) w = (exit, w)
proceed rest again w = rest w

abbrev pub max_polls : ℕ
max_polls = 300

abbrev pub is_cancelled_node : NodeStatus → Bool
is_cancelled_node NodeStatus.cancelled = true
is_cancelled_node _ = false

abbrev pub min : ℕ → ℕ → ℕ
min a b = if leb a b then a else b

module _ (s : Services) where
  -- A poll each two seconds, for `polls` times: until max_wait from the start, 300 times.
  abbrev pub wait_for_children : (polls : ℕ) → (job_id : ℕ) → World → Children × World
  wait_for_children zero job_id w = (timeout, w)
  wait_for_children (suc polls) job_id w = elim (s.tree_complete w.tick job_id) [
    | none ↦ (raises, w)
    | some true ↦ (complete, w)
    | some false ↦ wait_for_children polls job_id (await s w)
  ]

  abbrev pub cancel_node : Node → World → World
  cancel_node n w =
      if is_cancelled_node n.status
      then w
      else set_node s n.id NodeStatus.cancelled none none none w

  abbrev pub cancel_nodes : List Node → World → World
  cancel_nodes [] w = w
  cancel_nodes (n ∷ nodes) w = cancel_nodes nodes (cancel_node n w)

  -- `false` where create_nodes raises; the old nodes are then cancelled all the same.
  unfoldable pub reset_nodes_for_retry : Job → List NodeDef → World → Bool × World
  reset_nodes_for_retry job new_node_defs w =
      let existing_nodes = get_nodes job.id w.nodes in
      let w' =
        add_audit job.id
          (Action.nodes_reset_for_retry (length existing_nodes) (length new_node_defs))
          (cancel_nodes existing_nodes w) in
      let (created, nodes) =
        create_nodes job.id (s.now w'.tick) (s.node_ids w'.tick) new_node_defs
          (not (is_none (get_job job.id w'.jobs))) w'.nodes in
      (not (is_none created), record w' { nodes = nodes })

  -- With the new plan, if there is one, in place of the nodes.
  abbrev pub retry_with : Job → Option (List NodeDef) → World → Outcome × World
  retry_with job none w = (ended returned, fail_job s job.id Reason.re_planning_error w)
  retry_with job (some defs) w =
      let (fine, w') = reset_nodes_for_retry job defs w in
      if fine then (again, w') else (ended returned, fail_job s job.id Reason.re_planning_error w')

  -- A new plan that takes the feedback into account.
  unfoldable pub re_plan : Job → (feedback : ℕ) → World → Outcome × World
  re_plan job feedback w =
      retry_with job
        (s.plan w.tick job (some feedback) (get_files job.id (some s.input_type) w.files))
        (await s w)

  -- After a review that did not pass.
  unfoldable pub review_rejected :
      (max_reviews : ℕ) → Job → (feedback : ℕ) → World → Outcome × World
  review_rejected max_reviews job feedback w =
      let (review_count, jobs) = increment_review_count job.id (s.now w.tick) w.jobs in
      let w' = await s (record w { jobs = jobs }) in
      if leb max_reviews review_count
      then (if s.analysis_raises w.tick
          then (ended uncaught, w')
          else (ended returned, fail_job s job.id (Reason.review_failed review_count feedback) w'))
      else re_plan job feedback w'

  unfoldable pub review_passed : Job → (feedback : ℕ) → World → World
  review_passed job feedback w = await s (
      add_audit job.id Action.done
        (set_status s job.id done none (some feedback) (record w { consecutive_failures = 0 })))

  abbrev pub verdict :
      (max_reviews : ℕ) → Job → (passed : Bool) → (feedback : ℕ) → World → Outcome × World
  verdict max_reviews job true feedback w = (ended returned, review_passed job feedback w)
  verdict max_reviews job false feedback w = review_rejected max_reviews job feedback w

  -- What follows the reviewer's answer, if there is one.
  abbrev pub judge : (max_reviews : ℕ) → Job → Option Review → World → Outcome × World
  judge max_reviews job none w = (ended returned, fail_job s job.id Reason.review_error w)
  judge max_reviews job (some review) w =
      verdict max_reviews job review.passed review.feedback
        (await s (add_audit job.id (Action.review_result review.passed) w))

  -- The reviewer is shown the nodes as they were read before they were executed.
  unfoldable pub run_review : (max_reviews : ℕ) → Job → List Node → World → Outcome × World
  run_review max_reviews job nodes w =
      let w' =
        await s (add_audit job.id Action.reviewing (set_status s job.id reviewing none none w)) in
      judge max_reviews job
        (s.review w'.tick job nodes (get_files job.id (some s.output_type) w'.files)) (await s w')

  abbrev pub after_children :
      (max_reviews : ℕ) → Job → List Node → Children → World → Outcome × World
  after_children max_reviews job nodes complete w = run_review max_reviews job nodes w
  after_children max_reviews job nodes timeout w =
      (ended returned, fail_job s job.id Reason.children_timeout w)
  after_children max_reviews job nodes raises w = (ended uncaught, w)

  -- The delegated children, if any, are waited for before the review.
  unfoldable pub after_nodes : (max_reviews : ℕ) → Job → List Node → World → Outcome × World
  after_nodes max_reviews job nodes w =
      let (children, w') = wait_for_children max_polls job.id (await s w) in
      if s.has_children w.tick job.id
      then after_children max_reviews job nodes children w'
      else run_review max_reviews job nodes w

  -- With the failed node among the nodes as they were read before they were executed. Where it has no
  -- error, the status is written before `error[:2000]` raises.
  unfoldable pub fail_nodes : Job → (failed_node : Option Node) → World → Outcome × World
  fail_nodes job none w = (ended returned, fail_job s job.id Reason.nodes_failed w)
  fail_nodes job (some n) w = elim n.error [
    | none ↦ (ended uncaught, set_status s job.id JobStatus.failed none none w)
    | some error ↦ (ended returned, handle_failure s job.id error w)
  ]

  abbrev pub after_execution :
      (max_reviews : ℕ) → Job → List Node → NodesExit → World → Outcome × World
  after_execution max_reviews job nodes all_succeeded w = after_nodes max_reviews job nodes w
  after_execution max_reviews job nodes not_all w = fail_nodes job (first_failed_node nodes) w
  after_execution max_reviews job nodes NodesExit.out_of_fuel w = (ended unfinished, w)

  unfoldable pub execute_and_review : (max_reviews : ℕ) → Job → World → Outcome × World
  execute_and_review max_reviews job w =
      let w' =
        await s (add_audit job.id Action.executing (set_status s job.id executing none none w)) in
      let nodes = get_nodes job.id w'.nodes in
      let (exit, executed) =
        execute_nodes s (suc (pending_nodes nodes)) job (completed_outputs s nodes []) w' in
      after_execution max_reviews job nodes exit executed

  unfoldable pub cancel_run : Job → World → World
  cancel_run job w =
      await s (add_audit job.id Action.cancelled (set_status s job.id cancelled none none w))

  -- One turn of the loop over the attempts.
  unfoldable pub attempt : (job_start max_reviews : ℕ) → Job → World → Outcome × World
  attempt job_start max_reviews job w =
      if leb (job_start + max_job_timeout_sec) (s.monotonic w.tick)
      then (ended returned, fail_job s job.id Reason.job_timeout w)
      else if not w.running || is_cancelled job.id w.jobs
      then (ended returned, cancel_run job w)
      else execute_and_review max_reviews job w

  -- `for attempt in range(…)`, with as many attempts left, and what follows the loop.
  unfoldable pub attempts : (left job_start max_reviews : ℕ) → Job → World → Exit × World
  attempts zero job_start max_reviews job w = (returned, fail_job s job.id Reason.exceeded_cycles w)
  attempts (suc left) job_start max_reviews job w =
      let (outcome, w') = attempt job_start max_reviews job w in
      proceed (attempts left job_start max_reviews job) outcome w'

  abbrev pub after_creation :
      (job_start : ℕ) → Job → (created : Option (List Node)) → World → Exit × World
  after_creation job_start job none w = (returned, fail_job s job.id Reason.node_creation_error w)
  after_creation job_start job (some nodes) w =
      let max_reviews = min job.max_reviews absolute_max_reviews in
      attempts (suc max_reviews) job_start max_reviews job (await s w)

  -- The nodes of the plan are stored, and the attempts begin.
  unfoldable pub run_plan : (job_start : ℕ) → Job → List NodeDef → World → Exit × World
  run_plan job_start job node_defs w =
      let (created, nodes) =
        create_nodes job.id (s.now w.tick) (s.node_ids w.tick) node_defs
          (not (is_none (get_job job.id w.jobs))) w.nodes in
      after_creation job_start job created (record w { nodes = nodes })

  abbrev pub start_with : (job_start : ℕ) → Job → Option (List NodeDef) → World → Exit × World
  start_with job_start job none w = (returned, fail_job s job.id Reason.planning_error w)
  start_with job_start job (some []) w = (returned, fail_job s job.id Reason.no_nodes w)
  start_with job_start job (some (d ∷ defs)) w = run_plan job_start job (d ∷ defs) w

  unfoldable pub run_job : Job → World → Exit × World
  run_job job w =
      let w' =
        await s (add_audit job.id Action.planning (set_status s job.id planning none none w)) in
      start_with (s.monotonic w.tick) job
        (s.plan w'.tick job none (get_files job.id (some s.input_type) w'.files)) (await s w')

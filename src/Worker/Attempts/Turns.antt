-- ===== src/Worker/Attempts/Turns.antt =====
-- What an attempt leaves of the job.
use local_mind.Base.{
  ℕ, zero, suc, ◌+◌, ◌≢◌, refl, true, false, not, ◌||◌, List, [], Option, none, some, inl, inr,
  arith, Bool-cases, Option-cases, leb,
}
use local_mind.Jobs.{Job, JobStatus, executing, cancelled}
use local_mind.Jobs.Nodes.{Node, get_nodes}
use local_mind.Jobs.Nodes.Progress.{pending_nodes}
use local_mind.Worker.{
  Reason, Action, Services, World, add_audit, await, set_status, first_failed_node, is_cancelled,
  max_job_timeout_sec,
}
use local_mind.Worker.JobRow.{
  At, Settled, IsFair, At-await, At-update_job_status, Settled-await, Settled-update_job_status,
  handle_failure-Settled,
}
use local_mind.Worker.NodeLoop.{NodesExit, all_succeeded, not_all, execute_nodes, completed_outputs}
use local_mind.Worker.NodeLoop.Fuel.{execute_nodes-ends}
use local_mind.Worker.NodeLoop.Row.{execute_nodes-At}
use local_mind.Worker.Attempts.{
  Children, complete, timeout, raises, wait_for_children, max_polls, after_execution,
  after_children, after_nodes, fail_nodes, execute_and_review, cancel_run, attempt,
}
use local_mind.Worker.Attempts.Steps.{Goes, fail_job-Settled, announce-At, run_review-Goes}

module _ (s : Services) (job : Job) (fair : IsFair s job.id) (max_reviews c : ℕ) where
  wait_for_children-At :
      (polls : ℕ) (w : World)
      → At job.id c w.jobs
      → At job.id c (wait_for_children s polls job.id w).1.jobs
  wait_for_children-At zero w h = h
  wait_for_children-At (suc polls) w h = elim (Option-cases (s.tree_complete w.tick job.id)) [
    | inl e ↦ rw (e, wait_for_children) h
    | inr (true, e) ↦ rw (e, wait_for_children) h
    | inr (false, e) ↦
        rw (e, wait_for_children)
          (wait_for_children-At polls (await s w) (At-await s job.id fair c w h))
  ]

  after_children-Goes :
      (nodes : List Node) (children : Children) (w : World)
      → At job.id c w.jobs
      → Goes job.id c max_reviews
          (after_children s max_reviews job nodes children w).0
          (after_children s max_reviews job nodes children w).1
  after_children-Goes nodes complete w h = run_review-Goes s job fair max_reviews c nodes w h
  after_children-Goes nodes timeout w h = fail_job-Settled s job fair c Reason.children_timeout w h
  after_children-Goes nodes raises w h = (c, h)

  after_nodes-Goes :
      (nodes : List Node) (w : World)
      → At job.id c w.jobs
      → Goes job.id c max_reviews
          (after_nodes s max_reviews job nodes w).0
          (after_nodes s max_reviews job nodes w).1
  unfolding after_nodes
  after_nodes-Goes nodes w h = elim (Bool-cases (s.has_children w.tick job.id)) [
    | inr f ↦ rw f (run_review-Goes s job fair max_reviews c nodes w h)
    | inl t ↦
        let r = wait_for_children s max_polls job.id (await s w) in
        rw t (
          after_children-Goes nodes r.0 r.1
            (wait_for_children-At max_polls (await s w) (At-await s job.id fair c w h)))
  ]

  fail_nodes-Goes :
      (failed_node : Option Node) (w : World)
      → At job.id c w.jobs
      → Goes job.id c max_reviews
          (fail_nodes s job failed_node w).0
          (fail_nodes s job failed_node w).1
  unfolding fail_nodes
  fail_nodes-Goes none w h = fail_job-Settled s job fair c Reason.nodes_failed w h
  fail_nodes-Goes (some n) w h = elim (Option-cases n.error) [
    | inl e ↦
        rw e (c, At-update_job_status job.id JobStatus.failed none none (s.now w.tick) c w.jobs h)
    | inr (error, e) ↦ rw e (handle_failure-Settled s job.id fair c error w h)
  ]

  after_execution-Goes :
      (nodes : List Node) (exit : NodesExit) (w : World)
      → At job.id c w.jobs
      → exit ≢ NodesExit.out_of_fuel
      → Goes job.id c max_reviews
          (after_execution s max_reviews job nodes exit w).0
          (after_execution s max_reviews job nodes exit w).1
  after_execution-Goes nodes all_succeeded w h ne = after_nodes-Goes nodes w h
  after_execution-Goes nodes not_all w h ne = fail_nodes-Goes (first_failed_node nodes) w h
  after_execution-Goes nodes NodesExit.out_of_fuel w h ne = absurd (ne refl)

  execute_and_review-Goes :
      (w : World)
      → At job.id c w.jobs
      → Goes job.id c max_reviews
          (execute_and_review s max_reviews job w).0
          (execute_and_review s max_reviews job w).1
  unfolding execute_and_review
  execute_and_review-Goes w h =
      let w' =
        await s (add_audit job.id Action.executing (set_status s job.id executing none none w)) in
      let nodes = get_nodes job.id w'.nodes in
      let fuel = suc (pending_nodes nodes) in
      let outputs = completed_outputs s nodes [] in
      let r = execute_nodes s fuel job outputs w' in
      after_execution-Goes nodes r.0 r.1
        (execute_nodes-At s job fair c fuel outputs w'
          (announce-At s job fair c executing Action.executing w h))
        (execute_nodes-ends s job fuel outputs w' (omega arith))

  cancel_run-Settled : (w : World) → At job.id c w.jobs → Settled job.id (cancel_run s job w).jobs
  unfolding cancel_run
  cancel_run-Settled w h =
      Settled-await s job.id fair
        (add_audit job.id Action.cancelled (set_status s job.id cancelled none none w))
        (Settled-update_job_status job.id cancelled none none (s.now w.tick) c w.jobs refl h)

  pub attempt-Goes :
      (job_start : ℕ) (w : World)
      → At job.id c w.jobs
      → Goes job.id c max_reviews
          (attempt s job_start max_reviews job w).0
          (attempt s job_start max_reviews job w).1
  unfolding attempt
  attempt-Goes job_start w h =
      elim (Bool-cases (leb (job_start + max_job_timeout_sec) (s.monotonic w.tick))) [
        | inl t ↦ rw t (fail_job-Settled s job fair c Reason.job_timeout w h)
        | inr f ↦ elim (Bool-cases (not w.running || is_cancelled job.id w.jobs)) [
          | inl t ↦ rw (f, t) (cancel_run-Settled w h)
          | inr g ↦ rw (f, g) (execute_and_review-Goes w h)
        ]
      ]

-- ===== src/Worker/NodeLoop/Row.antt =====
-- The loop over the nodes leaves the job's row, but for a cancellation by others.
use local_mind.Base.{
  ℕ, zero, suc, true, false, not, ◌||◌, List, Option, none, some, inl, inr, Bool-cases,
  Option-cases, get_or,
}
use local_mind.Jobs.{Job}
use local_mind.Jobs.Nodes.{Node, NodeStatus, get_next_pending_node}
use local_mind.Worker.{
  Items, Reason, some_items, NodeRun, timed_out, raised, finished, DelegateSpec, Services, World,
  Action, node_started, node_completed, add_audit, await, is_cancelled, resolve_input, assign,
}
use local_mind.Worker.JobRow.{At, At-Keeps, At-await, IsFair}
use local_mind.Worker.NodeLoop.{
  execute_nodes, settle_node, run_node, fail_node, delegate, handle_delegation, set_node, dumps_opt,
}

module _ (s : Services) (job : Job) (fair : IsFair s job.id) (c : ℕ) where
  handle_delegation-At :
      (spec : DelegateSpec) (w : World)
      → At job.id c w.jobs
      → At job.id c (handle_delegation s job spec w).jobs
  handle_delegation-At spec w h =
      let r = s.spawn w.tick job spec w.jobs in
      let kept = At-Keeps job.id c w.jobs r.1 (fair.1 w.tick job spec w.jobs) h in
      elim (Option-cases r.0) [
        | inl e ↦ rw (e, handle_delegation) kept
        | inr (child, e) ↦
            rw (e, handle_delegation)
              (At-await s job.id fair c
                (add_audit job.id (Action.delegated_child child) (record w { jobs = r.1 })) kept)
      ]

  delegate-At :
      (output : Items) (w : World) → At job.id c w.jobs → At job.id c (delegate s job output w).jobs
  delegate-At output w h = elim (Option-cases (s.delegate_of output)) [
    | inl e ↦ rw (e, delegate) h
    | inr (spec, e) ↦ rw (e, delegate) (handle_delegation-At spec w h)
  ]

  -- A wait that follows any writes to other tables.
  fail_node-At :
      (n : Node) (output : Option ℕ) (error : ℕ) (w : World)
      → At job.id c w.jobs
      → At job.id c (fail_node s job n output error w).jobs
  fail_node-At n output error w h =
      At-await s job.id fair c
        (add_audit job.id (Action.node_failed n.id)
          (set_node s n.id NodeStatus.failed none output (some error) w))
        h

  settle_node-At :
      (n : Node) (run : NodeRun) (w : World)
      → At job.id c w.jobs
      → At job.id c (settle_node s job n run w).1.jobs
  settle_node-At n timed_out w h = fail_node-At n none (s.text Reason.node_timed_out) w h
  settle_node-At n raised w h = fail_node-At n none (s.text Reason.node_raised) w h
  settle_node-At n (finished false output error) w h =
      fail_node-At n (dumps_opt s (some_items output)) (get_or error (s.text Reason.node_reported))
        w h
  settle_node-At n (finished true output error) w h =
      let written =
        add_audit job.id (node_completed n.id)
          (set_node s n.id NodeStatus.completed none (some (s.dumps output)) none w) in
      delegate-At output (await s written) (At-await s job.id fair c written h)

  run_node-At :
      (n : Node) (input : Option Items) (w : World)
      → At job.id c w.jobs
      → At job.id c (run_node s job n input w).1.jobs
  run_node-At n input w h =
      let marked =
        add_audit job.id (node_started n.id)
          (set_node s n.id NodeStatus.running (dumps_opt s input) none none w) in
      settle_node-At n (s.execute_node (await s marked).tick n job input) (await s (await s marked))
        (At-await s job.id fair c (await s marked) (At-await s job.id fair c marked h))

  pub execute_nodes-At :
      (fuel : ℕ) (node_outputs : List (ℕ × Items)) (w : World)
      → At job.id c w.jobs
      → At job.id c (execute_nodes s fuel job node_outputs w).1.jobs
  unfolding execute_nodes
  execute_nodes-At zero node_outputs w h = h
  execute_nodes-At (suc fuel) node_outputs w h =
      elim (Bool-cases (not w.running || is_cancelled job.id w.jobs)) [
        | inl t ↦ rw t h
        | inr f ↦ elim (Option-cases (get_next_pending_node job.id w.nodes)) [
          | inl e ↦ rw (f, e) h
          | inr (n, e) ↦
              let input = resolve_input n node_outputs in
              let r = run_node s job n input w in
              elim (Option-cases r.0) [
                | inl g ↦ rw (f, e, g) (run_node-At n input w h)
                | inr (output, g) ↦
                    rw (f, e, g)
                      (execute_nodes-At fuel (assign n.id output node_outputs) r.1
                        (run_node-At n input w h))
              ]
        ]
      ]

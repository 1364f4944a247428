-- ===== src/Worker/NodeLoop.antt =====
-- The worker's loop over the nodes of a job: `_execute_nodes` and `_handle_delegation`.
pub mod Fuel
pub mod Row
use local_mind.Base.{
  ℕ, zero, suc, ◌+◌, Bool, true, false, not, ◌||◌, List, [], ◌∷◌, ◌++◌, Option, none, some, exists,
  if◌then◌else◌, get_or,
}
use local_mind.Jobs.{Job}
use local_mind.Jobs.Nodes.{
  Node, NodeStatus, is_completed, get_nodes, get_next_pending_node, update_node,
}
use local_mind.Worker.{
  Items, assign, some_items, Reason, NodeRun, timed_out, raised, finished, DelegateSpec, Action,
  node_started, node_completed, Services, World, add_audit, await, is_cancelled, resolve_input,
  is_failed,
}

-- `out_of_fuel` is no outcome of the code.
pub data NodesExit : Type 0 where
  all_succeeded not_all out_of_fuel : NodesExit

module _ (s : Services) where
  abbrev pub set_node :
      (node_id : ℕ) → NodeStatus → (input_json output_json error : Option ℕ) → World → World
  set_node node_id status input_json output_json error w = record w {
    nodes = update_node node_id (some status) input_json output_json error (s.now w.tick) w.nodes;
  }

  abbrev pub dumps_opt : Option Items → Option ℕ
  dumps_opt none = none
  dumps_opt (some items) = some (s.dumps items)

  -- The outputs of the nodes that are completed already.
  abbrev pub completed_outputs : List Node → List (ℕ × Items) → List (ℕ × Items)
  completed_outputs [] node_outputs = node_outputs
  completed_outputs (n ∷ nodes) node_outputs = elim n.output_json [
    | none ↦ completed_outputs nodes node_outputs
    | some output_json ↦ completed_outputs nodes (
        if is_completed n.status
        then assign n.id (get_or (s.loads output_json) []) node_outputs
        else node_outputs)
  ]

  -- The titles and descriptions that stand for missing ones are the engine's to tell.
  abbrev pub handle_delegation : Job → DelegateSpec → World → World
  handle_delegation job spec w =
      let (spawned, jobs) = s.spawn w.tick job spec w.jobs in
      elim spawned [
        | none ↦ record w { jobs = jobs }
        | some child ↦
            await s (add_audit job.id (Action.delegated_child child) (record w { jobs = jobs }))
      ]

  -- The node is marked running, and the progress emitted.
  abbrev pub start_node : Job → Node → Option Items → World → World
  start_node job n input_data w = await s (
      add_audit job.id (node_started n.id)
        (set_node n.id NodeStatus.running (dumps_opt input_data) none none w))

  abbrev pub fail_node : Job → Node → (output_json : Option ℕ) → (error : ℕ) → World → World
  fail_node job n output_json error w = await s (
      add_audit job.id (Action.node_failed n.id)
        (set_node n.id NodeStatus.failed none output_json (some error) w))

  abbrev pub delegate : Job → Items → World → World
  delegate job output w = elim (s.delegate_of output) [
    | none ↦ w
    | some spec ↦ handle_delegation job spec w
  ]

  -- With the two events after a node that succeeded, which are one place to wait.
  abbrev pub complete_node : Job → Node → (output : Items) → World → World
  complete_node job n output w = delegate job output (
      await s (
        add_audit job.id (node_completed n.id)
          (set_node n.id NodeStatus.completed none (some (s.dumps output)) none w)))

  -- What becomes of a node that ran: none if the loop ends there, or its output.
  abbrev pub settle_node : Job → Node → NodeRun → World → Option Items × World
  settle_node job n timed_out w = (none, fail_node job n none (s.text Reason.node_timed_out) w)
  settle_node job n raised w = (none, fail_node job n none (s.text Reason.node_raised) w)
  settle_node job n (finished true output error) w = (some output, complete_node job n output w)
  settle_node job n (finished false output error) w = (
    none,
    fail_node job n (dumps_opt (some_items output)) (get_or error (s.text Reason.node_reported)) w,
  )

  -- The node is started, run, and settled.
  abbrev pub run_node : Job → Node → Option Items → World → Option Items × World
  run_node job n input_data w =
      let w' = start_node job n input_data w in
      settle_node job n (s.execute_node w'.tick n job input_data) (await s w')

  unfoldable pub execute_nodes : (fuel : ℕ) → Job → List (ℕ × Items) → World → NodesExit × World
  execute_nodes zero job node_outputs w = (out_of_fuel, w)
  execute_nodes (suc fuel) job node_outputs w =
      if not w.running || is_cancelled job.id w.jobs
      then (not_all, w)
      else elim (get_next_pending_node job.id w.nodes) [
        | none ↦ (
          if exists (λ n. is_failed n.status) (get_nodes job.id w.nodes)
              then not_all
              else all_succeeded,
          w,
        )
        | some n ↦
            let (result, w') = run_node job n (resolve_input n node_outputs) w in
            elim result [
              | none ↦ (not_all, w')
              | some output ↦ execute_nodes fuel job (assign n.id output node_outputs) w'
            ]
      ]

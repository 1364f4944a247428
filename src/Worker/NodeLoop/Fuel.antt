-- ===== src/Worker/NodeLoop/Fuel.antt =====
-- The loop over the nodes ends: each turn leaves fewer pending nodes of the job.
use local_mind.Base.{
  ℕ, zero, suc, ◌≤◌, ◌<◌, ◌≡◌, ◌≢◌, refl, sym, ◌∙◌, ap, subst, true, false, not, ◌||◌, List, [],
  ◌∷◌, Memᴰ, Option, none, some, inl, inr, arith, ◌==◌, ==_refl, Bool-cases, Option-cases, update,
  exists,
}
use local_mind.Jobs.{Job}
use local_mind.Jobs.Nodes.{
  Node, NodeStatus, is_pending, get_nodes, get_next_pending_node, update_node, set_opt,
}
use local_mind.Jobs.Nodes.Progress.{pending_nodes, get_nodes-update, chosen-pending}
use local_mind.Worker.{
  Items, NodeRun, timed_out, raised, finished, Services, World, is_cancelled, is_failed,
  resolve_input, assign, await, add_audit, DelegateSpec, node_completed,
}
use local_mind.Worker.NodeLoop.{
  out_of_fuel, execute_nodes, run_node, settle_node, handle_delegation, delegate, start_node,
  set_node, dumps_opt,
}

module _ (node_id : ℕ) (f : Node → Node)
    (f-pending : (n : Node) → is_pending (f n).status ≡ false) where
  pending_nodes-update_le :
      (nodes : List Node)
      → pending_nodes (update (λ n. n.id == node_id) f nodes) ≤ pending_nodes nodes
  pending_nodes-update_le [] = omega arith
  pending_nodes-update_le (n ∷ nodes) = ground (arith, pending_nodes-update_le nodes, f-pending n)

  pending_nodes-update_lt :
      (nodes : List Node) (n : Node)
      → Memᴰ n nodes
      → (n.id == node_id) ≡ true
      → is_pending n.status ≡ true
      → pending_nodes (update (λ m. m.id == node_id) f nodes) < pending_nodes nodes
  pending_nodes-update_lt [] n m i e = elim m [ ]
  pending_nodes-update_lt (x ∷ nodes) n (Memᴰ.head s) i e =
      let here : (x.id == node_id) ≡ true = ap (λ y. y.id == node_id) (sym s) ∙ i in
      let ready : is_pending x.status ≡ true = ap (λ y. is_pending y.status) (sym s) ∙ e in
      ground (arith, pending_nodes-update_le nodes, f-pending x)
  pending_nodes-update_lt (x ∷ nodes) n (Memᴰ.tail m) i e =
      ground (arith, pending_nodes-update_lt nodes n m i e, f-pending x)

-- The pending nodes of a job.
abbrev pub pending_of : (job_id : ℕ) → List Node → ℕ
pending_of job_id rows = pending_nodes (get_nodes job_id rows)

module _ (job_id node_id now : ℕ) (status : NodeStatus) (input output error : Option ℕ)
    (settled : is_pending status ≡ false) where
  -- what update_node makes of a row
  abbrev written : Node → Node
  written n = record n {
    updated_at = now;
    status = status;
    input_json = set_opt input n.input_json;
    output_json = set_opt output n.output_json;
    error = set_opt error n.error;
  }

  update_node-pending_le :
      (rows : List Node)
      → pending_of job_id (update_node node_id (some status) input output error now rows)
        ≤ pending_of job_id rows
  unfolding update_node
  update_node-pending_le rows =
      rw (get_nodes-update (λ n. n.id == node_id) written (λ n. refl) job_id rows (λ n. refl))
        (pending_nodes-update_le node_id written (λ n. settled) (get_nodes job_id rows))

  update_node-pending_lt :
      (rows : List Node) (n : Node)
      → Memᴰ n (get_nodes job_id rows)
      → (n.id == node_id) ≡ true
      → is_pending n.status ≡ true
      → pending_of job_id (update_node node_id (some status) input output error now rows)
        < pending_of job_id rows
  unfolding update_node
  update_node-pending_lt rows n m i e =
      rw (get_nodes-update (λ x. x.id == node_id) written (λ x. refl) job_id rows (λ x. refl))
        (pending_nodes-update_lt node_id written (λ x. settled) (get_nodes job_id rows) n m i e)

module _ (s : Services) (job : Job) where
  handle_delegation-nodes :
      (spec : DelegateSpec) (w : World) → (handle_delegation s job spec w).nodes ≡ w.nodes
  handle_delegation-nodes spec w =
      let r = s.spawn w.tick job spec w.jobs in
      elim (Option-cases r.0) [
        | inl e ↦ rw (e, handle_delegation) refl
        | inr (child, e) ↦ rw (e, handle_delegation) refl
      ]

  delegate-nodes : (output : Items) (w : World) → (delegate s job output w).nodes ≡ w.nodes
  delegate-nodes output w = elim (Option-cases (s.delegate_of output)) [
    | inl e ↦ rw (e, delegate) refl
    | inr (spec, e) ↦ rw (e, delegate) (handle_delegation-nodes spec w)
  ]

  -- A pending node that is run and gives an output is pending no more.
  run_node-pending_lt :
      (n : Node) (run : NodeRun) (input : Option Items) (w : World) (output : Items)
      → Memᴰ n (get_nodes job.id w.nodes)
      → is_pending n.status ≡ true
      → (settle_node s job n run (await s (start_node s job n input w))).0 ≡ some output
      → pending_of job.id (settle_node s job n run (await s (start_node s job n input w))).1.nodes
        < pending_of job.id w.nodes
  run_node-pending_lt n timed_out input w output m ready h = cc
  run_node-pending_lt n raised input w output m ready h = cc
  run_node-pending_lt n (finished false out error) input w output m ready h = cc
  run_node-pending_lt n (finished true out error) input w output m ready h =
      let w' = await s (start_node s job n input w) in
      let started =
        update_node-pending_lt job.id n.id (s.now w.tick) NodeStatus.running (dumps_opt s input)
          none none refl w.nodes n m (==_refl n.id) ready in
      let done =
        update_node-pending_le job.id n.id (s.now w'.tick) NodeStatus.completed none
          (some (s.dumps out)) none refl w'.nodes in
      rw
        (delegate-nodes out (
          await s (
            add_audit job.id (node_completed n.id)
              (set_node s n.id NodeStatus.completed none (some (s.dumps out)) none w'))))
        (omega arith)

  -- With more fuel than there are pending nodes, the loop ends of itself.
  pub execute_nodes-ends :
      (fuel : ℕ) (node_outputs : List (ℕ × Items)) (w : World)
      → pending_of job.id w.nodes < fuel
      → (execute_nodes s fuel job node_outputs w).0 ≢ out_of_fuel
  unfolding execute_nodes
  execute_nodes-ends zero node_outputs w lt h = omega arith
  execute_nodes-ends (suc fuel) node_outputs w lt h =
      elim (Bool-cases (not w.running || is_cancelled job.id w.jobs)) [
        | inl t ↦ cc
        | inr f ↦ elim (Option-cases (get_next_pending_node job.id w.nodes)) [
          | inl e ↦
              elim (Bool-cases (exists (λ n. is_failed n.status) (get_nodes job.id w.nodes))) [
                | inl t ↦ cc
                | inr f' ↦ cc
              ]
          | inr (n, e) ↦
              let r = run_node s job n (resolve_input n node_outputs) w in
              elim (Option-cases r.0) [
                | inl none_left ↦ cc
                | inr (output, g) ↦
                    let (m, ready) = chosen-pending job.id w.nodes n e in
                    let fewer =
                      run_node-pending_lt n _ (resolve_input n node_outputs) w output m ready g in
                    execute_nodes-ends fuel (assign n.id output node_outputs) r.1 (omega arith)
                      (subst (λ x. x ≡ out_of_fuel) (rw (f, e, g) refl) h)
              ]
        ]
      ]

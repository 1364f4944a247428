-- ===== src/Scheduler/Tests.antt =====
-- Runs of the scheduler, and its theorems at concrete inputs.
use local_mind.Base.{ℕ, ◌≡◌, refl, List, [], ◌∷◌, none, some, Text, codes}
use mathlib.Core.Option
use local_mind.Jobs.{Job, executing}
use local_mind.Jobs.Nodes.{NodeStatus}
use local_mind.GpuManager.{GpuManager, init, can_fit}
use local_mind.Scheduler.{
  NodeRow, Candidate, Surroundings, join, fetch_pending_nodes, tier_of, is_review_node,
  pick_model_for_node, registered, estimate_vram,
}
use local_mind.Scheduler.Scores.{next_ws, score_candidate, score_candidates}
use local_mind.Scheduler.Decisions.{
  persist_state, advance_workspace_cursor, restore_state, choose, schedule_next, record_gpu_slot,
  release_gpu_slot, get_queue_depth,
}
use local_mind.Scheduler.Choice

program : Unit {0}
unfolding init can_fit join fetch_pending_nodes tier_of is_review_node pick_model_for_node
    registered estimate_vram next_ws score_candidate score_candidates persist_state
    advance_workspace_cursor restore_state choose schedule_next record_gpu_slot release_gpu_slot
    get_queue_depth
program = tt

abbrev env : Surroundings
env = record {
  lower = λ t. t;
  set_order = λ xs. xs;
  model_selector = none;
  model_registry = some [];
}

abbrev node : (id job_id sequence created_at : ℕ) → Text → NodeRow
node id job_id sequence created_at title = record {
  id = id;
  job_id = job_id;
  sequence = sequence;
  title = title;
  status = NodeStatus.pending;
  created_at = created_at;
}

abbrev job : (id workspace_id priority : ℕ) → Job
job id workspace_id priority = record {
  id = id;
  workspace_id = workspace_id;
  title = 0;
  description = none;
  source = 0;
  source_ref = none;
  status = executing;
  priority = priority;
  requester = none;
  mode = 0;
  template_id = none;
  result_summary = none;
  review_count = 0;
  max_reviews = 2;
  error = none;
  cost_cents = 0;
  created_at = 0;
  updated_at = 0;
  parent_job_id = none;
  tree_root_id = none;
}

-- Job 1 has a node to write and one to review; job 2 is of another workspace.
abbrev nodes : List NodeRow
nodes =
    node 10 1 0 1000000 (codes "write")
    ∷ node 11 1 1 1000000 (codes "review it")
    ∷ node 20 2 0 900000000 (codes "plan")
    ∷ []

abbrev jobs : List Job
jobs = job 1 7 3 ∷ job 2 8 5 ∷ []

abbrev gpu : GpuManager
gpu = init 10000

-- The review is scheduled before the node that it reviews.
review_first :
    let (result, s) = schedule_next env 500000000 gpu nodes jobs (restore_state none) in
    (Option.map (λ d. d.node_id) result ≡ some 11)
    × (get_queue_depth (some 7) nodes jobs ≡ 2)
    × (s.last_workspace_idx ≡ 0)
unfolding program
review_first = (refl, refl, refl)

abbrev hungry : Candidate
hungry = record {
  node_id = 10;
  job_id = 1;
  sequence = 0;
  title = codes "write";
  created_at = 1000000;
  workspace_id = 7;
  priority = 3;
}

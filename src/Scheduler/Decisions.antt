-- ===== src/Scheduler/Decisions.antt =====
-- What the scheduler decides, and what it stores: schedule_next with its cursor, gpu_slots, and the
-- depth of the queue, of backend/core/scheduler.py.
use local_mind.Base.{
  ℕ, ◌+◌, ◌%◌, Bool, false, not, ◌&&◌, List, [], ◌∷◌, map, Option, none, some, ◌==◌, if◌then◌else◌,
  length, fetchone, rowcount, delete, insert, exists, Text,
}
use local_mind.Jobs.{Job, with_id}
use local_mind.Jobs.Nodes.{is_pending}
use local_mind.GpuManager.{GpuManager, can_fit}
use local_mind.Scheduler.{
  NodeRow, Candidate, Scored, Surroundings, Scheduler, from_keys, index, fetch_pending_nodes,
  pick_model_for_node, estimate_vram,
}
use local_mind.Scheduler.Scores.{score_candidates, sort_scored}

unfoldable pub persist_state : Scheduler → Scheduler
persist_state s = record s { persisted = some s.last_workspace_idx }

unfoldable pub advance_workspace_cursor : (ws_id : ℕ) → List Candidate → Scheduler → Scheduler
advance_workspace_cursor ws_id candidates s =
    let workspace_ids = from_keys (map (λ c. c.workspace_id) candidates) in
    persist_state (elim (index ws_id workspace_ids) [
      | none ↦ record s { last_workspace_idx = 0 }
      | some idx ↦ record s { last_workspace_idx = (idx + 1) % length workspace_ids }
    ])

-- A missing or unreadable row leaves the cursor at 0.
unfoldable pub restore_state : (persisted : Option ℕ) → Scheduler
restore_state none = record { last_workspace_idx = 0; persisted = none }
restore_state (some idx) = record { last_workspace_idx = idx; persisted = some idx }

-- The dict that schedule_next returns.
pub record Decision : Type 0 where
  pub node_id : ℕ
  pub job_id : ℕ
  pub workspace_id : ℕ
  pub model_id : Text
  pub lora_id : Option Text
  pub vram_mb : ℕ
  pub priority : ℕ
  pub title : Text
  pub score : ℕ

-- `winner.get("model_id") or self._pick_model_for_node(winner)`
abbrev pub model_of : Surroundings → Scored → Text
model_of env w = elim w.model_id [ [] ↦ pick_model_for_node env w.candidate | c ∷ t ↦ c ∷ t ]

abbrev pub decision : Surroundings → Scored → Decision
decision env w = record {
  node_id = w.candidate.node_id;
  job_id = w.candidate.job_id;
  workspace_id = w.candidate.workspace_id;
  model_id = model_of env w;
  lora_id = none;
  vram_mb = estimate_vram env (model_of env w) none;
  priority = w.candidate.priority;
  title = w.candidate.title;
  score = w.score;
}

-- What happens to the sorted candidates.
unfoldable pub choose :
    Surroundings
    → GpuManager
    → List Candidate
    → List Scored
    → Scheduler
    → Option Decision × Scheduler
choose env gpu candidates [] s = (none, s)
choose env gpu candidates (winner ∷ others) s =
    if not (can_fit gpu (estimate_vram env (model_of env winner) none)) && not winner.starving
    then (none, s)
    else (
      some (decision env winner),
      advance_workspace_cursor winner.candidate.workspace_id candidates s,
    )

unfoldable pub schedule_next :
    Surroundings
    → (now : ℕ) → GpuManager
    → List NodeRow
    → List Job
    → Scheduler
    → Option Decision × Scheduler
schedule_next env now gpu nodes jobs s =
    let candidates = fetch_pending_nodes nodes jobs in
    choose env gpu candidates (sort_scored (score_candidates env now gpu s candidates)) s

-- gpu_slots
pub record GpuSlot : Type 0 where
  pub slot_id : ℕ
  pub worker_id : ℕ
  pub model_id : Text
  pub lora_id : Option Text
  pub vram_mb : ℕ
  pub acquired_at : ℕ
  pub job_id : Option ℕ
  pub node_id : Option ℕ
  pub priority : ℕ

-- The slot carries the uuid and the time; the worker is a foreign key.
unfoldable pub record_gpu_slot :
    (known_worker : Bool) → GpuSlot → List GpuSlot → Option ℕ × List GpuSlot
record_gpu_slot known_worker slot slots =
    if known_worker && not (exists (λ r. r.slot_id == slot.slot_id) slots)
    then (some slot.slot_id, insert slot slots)
    else (none, slots)

unfoldable pub release_gpu_slot : (slot_id : ℕ) → List GpuSlot → List GpuSlot
release_gpu_slot slot_id slots = delete (λ r. r.slot_id == slot_id) slots

-- `j.workspace_id = ?` of the JOIN.
abbrev pub in_workspace : (workspace_id : ℕ) → List Job → NodeRow → Bool
in_workspace workspace_id jobs n = elim (fetchone (with_id n.job_id) jobs) [
  | none ↦ false
  | some j ↦ j.workspace_id == workspace_id
]

unfoldable pub get_queue_depth : (workspace_id : Option ℕ) → List NodeRow → List Job → ℕ
get_queue_depth none nodes jobs = rowcount (λ n. is_pending n.status) nodes
get_queue_depth (some workspace_id) nodes jobs =
    rowcount (λ n. is_pending n.status && in_workspace workspace_id jobs n) nodes

-- ===== src/Worker.antt =====
-- The state of backend/jobs/worker.py, what it asks of others, and its small helpers. The worker runs
-- in an asyncio loop: others act only where it awaits, and `await` is the place where they do.
pub mod JobRow
pub mod NodeLoop
pub mod Attempts
pub mod Polling
mod Tests
use local_mind.Base.{
  ℕ, suc, ◌+◌, Bool, true, false, not, ◌&&◌, ◌||◌, List, [], ◌∷◌, ◌++◌, Option, none, some, ltb,
  leb, ◌==◌, is_none, if◌then◌else◌, fetchone, sort_by,
}
use local_mind.Jobs.{Job, JobStatus, cancelling, has_status, get_job, update_job_status}
use local_mind.Jobs.Nodes.{Node, NodeDef, NodeStatus}
use local_mind.JobRecords.{JobFile}

abbrev pub circuit_breaker_threshold : ℕ
circuit_breaker_threshold = 3

-- in seconds, as all of the worker's times
abbrev pub circuit_open_pause_sec : ℕ
circuit_open_pause_sec = 300

abbrev pub absolute_max_reviews : ℕ
absolute_max_reviews = 5

-- backend/config.py, where the environment does not set it
abbrev pub max_job_timeout_sec : ℕ
max_job_timeout_sec = 1800

-- A dict of a node's input or output: its items in the order of insertion.
abbrev pub Items : Type 0
Items = List (ℕ × ℕ)

-- `d[key] = value`
abbrev pub assign {ℓ} : {V : Type ℓ} → ℕ → V → List (ℕ × V) → List (ℕ × V)
assign key value [] = (key, value) ∷ []
assign key value ((k, v) ∷ items) =
    let rest = (k, v) ∷ assign key value items in if k == key then (k, value) ∷ items else rest

-- `d.get(key)`
abbrev pub find {ℓ} : {V : Type ℓ} → ℕ → List (ℕ × V) → Option V
find key [] = none
find key ((k, v) ∷ items) = if k == key then some v else find key items

-- `merged.update(d)`
abbrev pub merge : Items → Items → Items
merge merged [] = merged
merge merged ((k, v) ∷ items) = merge (assign k v merged) items

abbrev pub some_items : Items → Option Items
some_items [] = none
some_items (x ∷ items) = some (x ∷ items)

-- Why a job failed, and `text` of the services gives the message.
pub data Reason : Type 0 where
  planning_error no_nodes node_creation_error job_timeout : Reason
  nodes_failed children_timeout review_error re_planning_error exceeded_cycles : Reason
  node_timed_out node_raised node_reported : Reason
  review_failed : (review_count feedback : ℕ) → Reason
  unhandled : Reason

-- What the executor makes of a node. `finished success output error` is its NodeResult.
pub data NodeRun : Type 0 where
  timed_out raised : NodeRun
  finished : (success : Bool) → (output : Items) → (error : Option ℕ) → NodeRun

-- `passed` and `feedback` of a review.
pub record Review : Type 0 where
  pub passed : Bool
  pub feedback : ℕ

-- The keys that a node's output may give under "delegate".
pub record DelegateSpec : Type 0 where
  pub title : Option ℕ
  pub description : Option ℕ
  pub priority : Option ℕ

-- The audit entries that the worker writes.
pub data Action : Type 0 where
  planning executing reviewing done cancelled failed : Action
  node_started node_completed node_failed : (node_id : ℕ) → Action
  node_reset_for_resume : (node_id : ℕ) → Action
  review_result : Bool → Action
  delegated_child : (child_job_id : ℕ) → Action
  nodes_reset_for_retry : (old added : ℕ) → Action
  resuming : Action

-- What the worker does not decide itself. The first argument of each is the number of the await at
-- which it is asked. A function that may raise gives none.
pub record Services : Type 0 where
  pub now : ℕ → ℕ
  pub monotonic : ℕ → ℕ
  -- whether the asyncio task was cancelled when it waited there, and whether someone called stop()
  pub task_cancelled : ℕ → Bool
  pub stopped : ℕ → Bool
  -- the statements of others on the table jobs
  pub outside : ℕ → List Job → List Job
  -- and of other processes between the two statements that take a job
  pub between : ℕ → List Job → List Job
  pub plan : ℕ → Job → (feedback : Option ℕ) → List JobFile → Option (List NodeDef)
  pub node_ids : ℕ → List ℕ
  pub execute_node : ℕ → Node → Job → Option Items → NodeRun
  pub review : ℕ → Job → List Node → List JobFile → Option Review
  pub analysis_raises : ℕ → Bool
  -- the delegation engine; a failed spawn gives none
  pub has_children : ℕ → (job_id : ℕ) → Bool
  pub tree_complete : ℕ → (job_id : ℕ) → Option Bool
  pub spawn : ℕ → Job → DelegateSpec → List Job → Option ℕ × List Job
  pub delegate_of : Items → Option DelegateSpec
  pub dumps : Items → ℕ
  pub loads : ℕ → Option Items
  pub text : Reason → ℕ
  pub input_type : ℕ
  pub output_type : ℕ

-- What a World has, at an await.
pub record Moment : Type 0 where
  pub running : Bool
  pub consecutive_failures : ℕ
  pub circuit_open_until : ℕ
  pub jobs : List Job
  pub nodes : List Node
  pub files : List JobFile
  pub audit : List (ℕ × Action)
  pub tick : ℕ

-- The worker's attributes, the tables that it works on, how many awaits it has come to, and how things
-- were at each of those of the job in hand. A CancelledError that reaches the task at an await passes
-- all handlers of the job's run, so that things stay as they were there.
pub record World : Type 0 where
  pub running : Bool
  pub consecutive_failures : ℕ
  pub circuit_open_until : ℕ
  pub jobs : List Job
  pub nodes : List Node
  pub files : List JobFile
  pub audit : List (ℕ × Action)
  pub tick : ℕ
  pub awaits : List Moment

abbrev pub add_audit : (job_id : ℕ) → Action → World → World
add_audit job_id action w = record w { audit = w.audit ++ (job_id, action) ∷ [] }

module _ (s : Services) where
  abbrev pub moment : World → Moment
  moment w = record {
    running = w.running && not (s.stopped w.tick);
    consecutive_failures = w.consecutive_failures;
    circuit_open_until = w.circuit_open_until;
    jobs = s.outside w.tick w.jobs;
    nodes = w.nodes;
    files = w.files;
    audit = w.audit;
    tick = w.tick;
  }

  abbrev pub await : World → World
  await w = record w {
    running = w.running && not (s.stopped w.tick);
    jobs = s.outside w.tick w.jobs;
    tick = suc w.tick;
    awaits = w.awaits ++ moment w ∷ [];
  }

  abbrev pub set_status :
      (job_id : ℕ) → JobStatus → (error result_summary : Option ℕ) → World → World
  set_status job_id status error result_summary w = record w {
    jobs = update_job_status job_id status error result_summary (s.now w.tick) w.jobs;
  }

  -- `if self._consecutive_failures >= _CIRCUIT_BREAKER_THRESHOLD`, with the event that it emits
  abbrev pub open_circuit : World → World
  open_circuit w =
      if leb circuit_breaker_threshold w.consecutive_failures
      then await (record w { circuit_open_until = s.monotonic w.tick + circuit_open_pause_sec })
      else w

  -- The status, the audit entry, and `self._consecutive_failures += 1`.
  abbrev pub record_failure : (job_id error : ℕ) → World → World
  record_failure job_id error w =
      let told =
        add_audit job_id Action.failed (set_status job_id JobStatus.failed (some error) none w) in
      record told { consecutive_failures = suc told.consecutive_failures }

  unfoldable pub handle_failure : (job_id error : ℕ) → World → World
  handle_failure job_id error w = await (open_circuit (record_failure job_id error w))

  abbrev pub fail_job : (job_id : ℕ) → Reason → World → World
  fail_job job_id reason w = handle_failure job_id (s.text reason) w

abbrev pub is_cancel : JobStatus → Bool
is_cancel status = has_status status cancelling || has_status status JobStatus.cancelled

unfoldable pub is_cancelled : (job_id : ℕ) → List Job → Bool
is_cancelled job_id jobs = elim (get_job job_id jobs) [
  | none ↦ false
  | some fresh ↦ is_cancel fresh.status
]

-- The outputs of the dependencies, merged.
abbrev pub merged_outputs : (depends_on : List ℕ) → List (ℕ × Items) → Items → Items
merged_outputs [] node_outputs merged = merged
merged_outputs (dep_id ∷ depends_on) node_outputs merged = elim (find dep_id node_outputs) [
  | none ↦ merged_outputs depends_on node_outputs merged
  | some dep_output ↦ merged_outputs depends_on node_outputs (merge merged dep_output)
]

-- `list(node_outputs.values())[-1]`
abbrev pub last_output : List (ℕ × Items) → Items
last_output [] = []
last_output ((k, v) ∷ []) = v
last_output ((k, v) ∷ x ∷ node_outputs) = last_output (x ∷ node_outputs)

unfoldable pub resolve_input : Node → List (ℕ × Items) → Option Items
resolve_input n node_outputs = elim n.depends_on [
  | [] ↦ if ltb 1 n.sequence then some_items (last_output node_outputs) else none
  | dep_id ∷ deps ↦ some_items (merged_outputs (dep_id ∷ deps) node_outputs [])
]

abbrev pub is_failed : NodeStatus → Bool
is_failed NodeStatus.failed = true
is_failed _ = false

unfoldable pub first_failed_node : List Node → Option Node
first_failed_node nodes = fetchone (λ n. is_failed n.status) (sort_by (λ n. n.sequence) nodes)

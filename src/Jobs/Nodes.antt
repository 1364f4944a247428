-- ===== src/Jobs/Nodes.antt =====
-- The nodes of a job: Node and NodeStatus of backend/jobs/models.py, and the statements of
-- backend/jobs/queue.py on the table job_nodes.
pub mod Next
pub mod Creation
pub mod Progress
use local_mind.Base.{
  ℕ, ◌+◌, Bool, true, false, not, ◌&&◌, ◌||◌, List, [], ◌∷◌, map, Option, none, some, ◌==◌,
  is_some_of, get_or, is_none, if◌then◌else◌, select, fetchone, update, insert, exists, sort_by,
}

pub data NodeStatus : Type 0 where
  pending running completed failed cancelled awaiting_input skipped : NodeStatus

abbrev pub is_pending : NodeStatus → Bool
is_pending pending = true
is_pending _ = false

abbrev pub is_completed : NodeStatus → Bool
is_completed completed = true
is_completed _ = false

-- A title that the planner gives, or the default f"Node {seq}".
pub data Title : Type 0 where
  given : ℕ → Title
  numbered : ℕ → Title

pub record Node : Type 0 where
  pub id : ℕ
  pub job_id : ℕ
  pub sequence : ℕ
  pub title : Title
  pub instructions : Option ℕ
  pub tools_allowed : ℕ
  pub expected_output : Option ℕ
  pub status : NodeStatus
  pub input_json : Option ℕ
  pub output_json : Option ℕ
  pub error : Option ℕ
  pub auto_generated : Bool
  pub input_schema_json : Option ℕ
  pub output_schema_json : Option ℕ
  pub side_effects_json : Option ℕ
  pub retry_policy : ℕ
  pub timeout_sec : ℕ
  pub rollback_strategy : Option ℕ
  pub acceptance_tests_json : Option ℕ
  pub depends_on : List ℕ
  pub created_at : ℕ
  pub updated_at : ℕ

-- What `create_nodes` reads of one dict of the planner. `stripped_title` is the title without the
-- space around it, none if nothing is left; `tools_allowed` and `retry_policy` are the texts that are
-- stored; `depends_on` is the list that the entry stands for, read from JSON if it is a text.
pub record NodeDef : Type 0 where
  pub title : Option ℕ
  pub stripped_title : Option ℕ
  pub instructions : Option ℕ
  pub tools_allowed : ℕ
  pub expected_output : Option ℕ
  pub input_schema_json : Option ℕ
  pub output_schema_json : Option ℕ
  pub retry_policy : ℕ
  pub timeout_sec : Option ℕ
  pub depends_on : List ℕ

-- `title_to_id.get(dep)`: the dict is filled in order, so the last node with a title has it.
unfoldable pub title_to_id : (node_ids : List ℕ) → (nodes : List NodeDef) → (dep : ℕ) → Option ℕ
title_to_id [] nodes dep = none
title_to_id (nid ∷ node_ids) [] dep = none
title_to_id (nid ∷ node_ids) (d ∷ nodes) dep = elim (title_to_id node_ids nodes dep) [
  | some later ↦ some later
  | none ↦ if is_some_of d.stripped_title dep then some nid else none
]

-- `title_to_id.get(dep, dep)` for each dependency
abbrev pub resolved_deps : (dep_to_id : ℕ → Option ℕ) → List ℕ → List ℕ
resolved_deps dep_to_id deps = map (λ dep. get_or (dep_to_id dep) dep) deps

abbrev pub title_of : Option ℕ → ℕ → Title
title_of none seq = numbered seq
title_of (some t) seq = given t

unfoldable pub new_node : (dep_to_id : ℕ → Option ℕ) → (job_id seq node_id now : ℕ) → NodeDef → Node
new_node dep_to_id job_id seq node_id now d = record {
  id = node_id;
  job_id = job_id;
  sequence = seq;
  title = title_of d.title seq;
  instructions = d.instructions;
  tools_allowed = d.tools_allowed;
  expected_output = d.expected_output;
  status = pending;
  input_json = none;
  output_json = none;
  error = none;
  auto_generated = true;
  input_schema_json = d.input_schema_json;
  output_schema_json = d.output_schema_json;
  side_effects_json = none;
  retry_policy = d.retry_policy;
  timeout_sec = get_or d.timeout_sec 300;
  rollback_strategy = none;
  acceptance_tests_json = none;
  depends_on = resolved_deps dep_to_id d.depends_on;
  created_at = now;
  updated_at = now;
}

-- The loop of INSERTs from number `seq` on: the nodes created and the table, or none where an id is
-- taken.
unfoldable pub insert_nodes :
    (dep_to_id : ℕ → Option ℕ)
    → (job_id seq now : ℕ) → (node_ids : List ℕ) → (nodes : List NodeDef) → List Node
    → Option (List Node × List Node)
unfolding new_node
insert_nodes dep_to_id job_id seq now [] nodes rows = some ([], rows)
insert_nodes dep_to_id job_id seq now (nid ∷ node_ids) [] rows = some ([], rows)
insert_nodes dep_to_id job_id seq now (nid ∷ node_ids) (d ∷ nodes) rows =
    let row = new_node dep_to_id job_id seq nid now d in
    let rest = insert_nodes dep_to_id job_id (seq + 1) now node_ids nodes (insert row rows) in
    if exists (λ r. r.id == nid) rows
    then none
    else elim rest [ none ↦ none | some (created, rows') ↦ some (row ∷ created, rows') ]

-- An IntegrityError rolls the transaction back. `known_job` says whether the job exists, which the
-- foreign key asks for where a row is inserted.
unfoldable pub create_nodes :
    (job_id now : ℕ)
    → (node_ids : List ℕ) → (nodes : List NodeDef) → (known_job : Bool) → List Node
    → Option (List Node) × List Node
unfolding insert_nodes title_to_id
create_nodes job_id now node_ids [] known_job rows = (some [], rows)
create_nodes job_id now node_ids (d ∷ nodes) known_job rows =
    if known_job
    then elim (insert_nodes (title_to_id node_ids (d ∷ nodes)) job_id 1 now node_ids (d ∷ nodes)
        rows) [ none ↦ (none, rows) | some (created, rows') ↦ (some created, rows') ]
    else (none, rows)

unfoldable pub get_nodes : (job_id : ℕ) → List Node → List Node
get_nodes job_id rows = sort_by (λ n. n.sequence) (select (λ n. n.job_id == job_id) rows)

unfoldable pub get_node : (node_id : ℕ) → List Node → Option Node
get_node node_id rows = fetchone (λ n. n.id == node_id) rows

-- The value of an optional argument, where it is given.
abbrev pub set_if {ℓ} : {A : Type ℓ} → Option A → A → A
set_if none old = old
set_if (some new) old = new

abbrev pub set_opt : Option ℕ → Option ℕ → Option ℕ
set_opt none old = old
set_opt (some new) old = some new

unfoldable pub update_node :
    (node_id : ℕ)
    → Option NodeStatus
    → (input_json output_json error : Option ℕ) → (now : ℕ) → List Node
    → List Node
update_node node_id status input_json output_json error now rows =
    update (λ n. n.id == node_id)
      (λ n. record n {
        updated_at = now;
        status = set_if status n.status;
        input_json = set_opt input_json n.input_json;
        output_json = set_opt output_json n.output_json;
        error = set_opt error n.error;
      })
      rows

-- `status_by_id.get(dep_id) == 'completed'`; ids are unique, by the primary key.
abbrev pub dep_completed : List Node → ℕ → Bool
dep_completed rows dep_id = elim (fetchone (λ r. r.id == dep_id) rows) [
  | none ↦ false
  | some r ↦ is_completed r.status
]

abbrev pub all_completed : List Node → List ℕ → Bool
all_completed rows [] = true
all_completed rows (dep_id ∷ deps) = dep_completed rows dep_id && all_completed rows deps

-- A pending row all of whose dependencies are completed; one without dependencies is ready at once.
abbrev pub is_eligible : List Node → Node → Bool
is_eligible rows n = is_pending n.status && all_completed rows n.depends_on

unfoldable pub get_next_pending_node : (job_id : ℕ) → List Node → Option Node
unfolding get_nodes
get_next_pending_node job_id rows =
    let ordered = get_nodes job_id rows in fetchone (is_eligible ordered) ordered

-- ===== src/Scheduler.antt =====
-- backend/core/scheduler.py: which pending node is executed next, over job_nodes and jobs, with the GPU
-- manager of GpuManager, and the tables gpu_slots and scheduler_state. A text that is read is the list
-- of its code points. Timestamps are taken to be readable.
pub mod Scores
pub mod Decisions
pub mod Choice
mod Tests
use local_mind.Base.{
  ℕ, zero, suc, ◌+◌, ◌*◌, ◌%◌, Bool, true, false, not, ◌&&◌, ◌||◌, List, [], ◌∷◌, map, Option, none,
  some, ltb, leb, ◌==◌, is_none, if◌then◌else◌, length, get_elem?, select, fetchone, rowcount,
  delete, insert, exists, sort_by, sort_desc_by, Text, codes, eq_text, starts_with, before_colon,
  find,
}
use mathlib.Core.Option
use local_mind.Jobs.{Job, JobStatus, pending, executing, has_status, with_id}
use local_mind.Jobs.Nodes.{NodeStatus, is_pending}
use local_mind.GpuManager.{GpuManager, can_fit}

-- In microseconds.
abbrev pub max_gpu_wait : ℕ
max_gpu_wait = 600 * 1000000

abbrev pub vram_estimates : List (Text × ℕ)
vram_estimates =
    (codes "gemma3:4b", 2800)
    ∷ (codes "gemma4:e4b", 2800)
    ∷ (codes "gemma4:26b", 6000)
    ∷ (codes "gemma4:31b", 7000)
    ∷ (codes "qwen2.5-coder:7b", 4500)
    ∷ (codes "qwen2.5-coder:14b", 8500)
    ∷ (codes "qwen2.5-coder:32b", 18000)
    ∷ (codes "qwen2.5-coder:70b", 40000)
    ∷ (codes "llama3.3:70b", 40000)
    ∷ (codes "phi4-reasoning", 8000)
    ∷ []

abbrev pub lora_overhead_mb : ℕ
lora_overhead_mb = 256

abbrev pub review_priority_boost : ℕ
review_priority_boost = 50

abbrev pub review_keywords : List Text
review_keywords =
    codes "review"
    ∷ codes "qa"
    ∷ codes "quality"
    ∷ codes "check"
    ∷ codes "validate"
    ∷ codes "verify"
    ∷ codes "test"
    ∷ []

-- The columns of job_nodes that are used.
pub record NodeRow : Type 0 where
  pub id : ℕ
  pub job_id : ℕ
  pub sequence : ℕ
  pub title : Text
  pub status : NodeStatus
  pub created_at : ℕ

-- A row of the SELECT of _fetch_pending_nodes.
pub record Candidate : Type 0 where
  pub node_id : ℕ
  pub job_id : ℕ
  pub sequence : ℕ
  pub title : Text
  pub created_at : ℕ
  pub workspace_id : ℕ
  pub priority : ℕ

-- A candidate with the keys that _score_candidates adds.
pub record Scored : Type 0 where
  pub candidate : Candidate
  pub model_id : Text
  pub starving : Bool
  pub score : ℕ

-- A row of model_registry.
pub record ModelRow : Type 0 where
  pub model_id : Text
  pub vram_mb : Option ℕ
  pub is_active : Bool

-- `lower` of Python; the order in which Python lists the elements of a set; the model selector, if there
-- is one, none where it raises; and the rows of model_registry, none where they cannot be read.
pub record Surroundings : Type 0 where
  pub lower : Text → Text
  pub set_order : List ℕ → List ℕ
  pub model_selector : Option (Candidate → Option Text)
  pub model_registry : Option (List ModelRow)

-- The cursor, and the one in scheduler_state.
pub record Scheduler : Type 0 where
  pub last_workspace_idx : ℕ
  pub persisted : Option ℕ

-- `t in s`
abbrev pub has_text : (t s : Text) → Bool
has_text t [] = starts_with [] t
has_text t (c ∷ s) = starts_with (c ∷ s) t || has_text t s

unfoldable pub is_review_node : (lower : Text → Text) → (title : Text) → Bool
is_review_node lower title = exists (λ kw. has_text kw (lower title)) review_keywords

-- The elements in the order of their first occurrence: `dict.fromkeys`.
abbrev pub from_keys : List ℕ → List ℕ
from_keys [] = []
from_keys (x ∷ xs) = x ∷ delete (λ y. y == x) (from_keys xs)

-- `xs.index(x)`, none for the ValueError.
abbrev pub index : ℕ → List ℕ → Option ℕ
index x [] = none
index x (y ∷ ys) = let later = Option.map suc (index x ys) in if y == x then some 0 else later

-- `LIMIT n`
abbrev pub limit {ℓ} : {A : Type ℓ} → ℕ → List A → List A
limit zero xs = []
limit (suc n) [] = []
limit (suc n) (x ∷ xs) = x ∷ limit n xs

-- `j.status IN ('pending', 'executing')`
abbrev pub is_schedulable : JobStatus → Bool
is_schedulable status = has_status status pending || has_status status executing

abbrev pub candidate_of : NodeRow → Job → Candidate
candidate_of n j = record {
  node_id = n.id;
  job_id = n.job_id;
  sequence = n.sequence;
  title = n.title;
  created_at = n.created_at;
  workspace_id = j.workspace_id;
  priority = j.priority;
}

-- The JOIN, on a PRIMARY KEY, with the conditions on both tables.
unfoldable pub join : List NodeRow → List Job → List Candidate
join [] jobs = []
join (n ∷ nodes) jobs =
    let rest = join nodes jobs in
    elim (fetchone (with_id n.job_id) jobs) [
      | none ↦ rest
      | some j ↦
          if is_pending n.status && is_schedulable j.status then candidate_of n j ∷ rest else rest
    ]

unfoldable pub fetch_pending_nodes : List NodeRow → List Job → List Candidate
fetch_pending_nodes nodes jobs =
    limit 200 (sort_desc_by (λ c. c.priority) (sort_by (λ c. c.sequence) (join nodes jobs)))

-- MODEL_TIERS of backend/config.py
abbrev pub heavy : Text
heavy = codes "qwen2.5-coder:32b"

abbrev pub medium : Text
medium = codes "qwen2.5-coder:14b"

abbrev pub light : Text
light = codes "gemma4:e4b"

unfoldable pub tier_of : (lower : Text → Text) → Candidate → Text
tier_of lower c =
    if leb 8 c.priority
    then heavy
    else if leb 5 c.priority || is_review_node lower c.title
    then medium
    else light

unfoldable pub pick_model_for_node : Surroundings → Candidate → Text
pick_model_for_node env c = elim env.model_selector [
  | none ↦ tier_of env.lower c
  | some select_model ↦ elim (select_model c) [
    | none ↦ tier_of env.lower c
    | some model_id ↦ model_id
  ]
]

-- The built-in estimate.
abbrev pub static_estimate : Text → ℕ
static_estimate model_id = elim (find model_id vram_estimates) [ none ↦ 4000 | some mb ↦ mb ]

-- `if row and row["vram_mb"]`
abbrev pub base_mb : Option ModelRow → Text → ℕ
base_mb none model_id = static_estimate model_id
base_mb (some row) model_id = elim row.vram_mb [
  | none ↦ static_estimate model_id
  | some mb ↦ if mb == 0 then static_estimate model_id else mb
]

unfoldable pub registered : Text → Option (List ModelRow) → Option ModelRow
registered model_id none = none
registered model_id (some rows) = fetchone (λ r. eq_text r.model_id model_id && r.is_active) rows

unfoldable pub estimate_vram : Surroundings → Text → (lora_id : Option Text) → ℕ
estimate_vram env model_id lora_id =
    base_mb (registered model_id env.model_registry) model_id
    + (if is_none lora_id then 0 else lora_overhead_mb)

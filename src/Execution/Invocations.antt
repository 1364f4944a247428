-- ===== src/Execution/Invocations.antt =====
-- ToolInvocationLog of backend/core/execution.py, over the table tool_invocations.
pub mod Caching
use local_mind.Base.{
  ℕ, ◌+◌, Bool, true, false, ◌&&◌, List, [], ◌∷◌, Option, none, some, ◌==◌, is_some_of, get_or,
  if◌then◌else◌, select, update, insert, exists, sort_by, greatest, not, ◌||◌,
}

-- The statuses that the log writes or tests for, and any other that a caller gives.
pub data InvocationStatus : Type 0 where
  pending success : InvocationStatus
  other : ℕ → InvocationStatus

abbrev pub is_success : InvocationStatus → Bool
is_success success = true
is_success _ = false

pub record Invocation : Type 0 where
  pub id : ℕ
  pub attempt_id : ℕ
  pub tool_name : ℕ
  pub args_json : ℕ
  pub result_json : Option ℕ
  pub status : InvocationStatus
  pub policy_result : Option ℕ
  pub started_at : ℕ
  pub completed_at : Option ℕ
  pub duration_ms : Option ℕ
  pub idempotency_key : Option ℕ

abbrev pub new_invocation :
    (invocation_id attempt_id tool_name args_json : ℕ)
    → (idempotency_key : Option ℕ) → (now : ℕ) → Invocation
new_invocation invocation_id attempt_id tool_name args_json idempotency_key now = record {
  id = invocation_id;
  attempt_id = attempt_id;
  tool_name = tool_name;
  args_json = args_json;
  result_json = none;
  status = pending;
  policy_result = none;
  started_at = now;
  completed_at = none;
  duration_ms = none;
  idempotency_key = idempotency_key;
}

-- `known_attempt` says whether the attempt exists, which the foreign key asks for. `none` is the
-- IntegrityError.
unfoldable pub log_invocation :
    (invocation_id attempt_id tool_name args_json : ℕ)
    → (idempotency_key : Option ℕ) → (now : ℕ) → (known_attempt : Bool) → List Invocation
    → Option ℕ × List Invocation
log_invocation invocation_id attempt_id tool_name args_json idempotency_key now known_attempt log =
    if exists (λ i. i.id == invocation_id) log || not known_attempt then (none, log) else (
      some invocation_id,
      insert (new_invocation invocation_id attempt_id tool_name args_json idempotency_key now) log,
    )

abbrev pub with_result :
    (result_json : ℕ)
    → InvocationStatus
    → (policy_result duration_ms : Option ℕ) → (now : ℕ) → Invocation
    → Invocation
with_result result_json status policy_result duration_ms now i = record i {
  result_json = some result_json;
  status = status;
  policy_result = policy_result;
  completed_at = some now;
  duration_ms = duration_ms;
}

unfoldable pub update_invocation :
    (invocation_id result_json : ℕ)
    → InvocationStatus
    → (policy_result duration_ms : Option ℕ) → (now : ℕ) → List Invocation
    → List Invocation
update_invocation invocation_id result_json status policy_result duration_ms now log =
    update (λ i. i.id == invocation_id)
      (with_result result_json status policy_result duration_ms now) log

abbrev pub is_cached : ℕ → Invocation → Bool
is_cached idempotency_key i = is_some_of i.idempotency_key idempotency_key && is_success i.status

-- `ORDER BY completed_at DESC LIMIT 1`, in which NULL is less than every text.
abbrev pub completion : Invocation → ℕ
completion i = elim i.completed_at [ none ↦ 0 | some t ↦ t + 1 ]

unfoldable pub get_cached_result : (idempotency_key : ℕ) → List Invocation → Option Invocation
get_cached_result idempotency_key log = greatest completion (select (is_cached idempotency_key) log)

unfoldable pub get_invocations : (attempt_id : ℕ) → List Invocation → List Invocation
get_invocations attempt_id log =
    sort_by (λ i. i.started_at) (select (λ i. i.attempt_id == attempt_id) log)

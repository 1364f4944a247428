-- ===== src/Execution/Attempts.antt =====
-- NodeAttemptTracker of backend/core/execution.py, over the table node_attempts, which is
-- UNIQUE(node_id, attempt_number).
pub mod Tracking
use local_mind.Base.{
  ℕ, Bool, true, false, ◌&&◌, ◌||◌, List, [], ◌∷◌, Option, none, some, String, ◌==◌, if◌then◌else◌,
  select, fetchone, update, insert, exists, sort_by, greatest,
}
use local_mind.ErrorStrategy.{ErrorCategory}

pub data AttemptStatus : Type 0 where
  running completed failed : AttemptStatus

-- The texts that `fail_attempt` accepts as an error's category, and any other.
pub data CategoryText : Type 0 where
  transient permanent injection_detected timeout : CategoryText
  resource contract upstream model : CategoryText
  unknown : String → CategoryText

-- The value of a member of ErrorCategory, as `fail_attempt` reads it: "injection" is not one of
-- the texts that it accepts.
unfoldable pub text_of : ErrorCategory → CategoryText
text_of ErrorCategory.transient = transient
text_of ErrorCategory.permanent = permanent
text_of ErrorCategory.injection_detected = unknown "injection"
text_of ErrorCategory.timeout = timeout
text_of ErrorCategory.resource = resource
text_of ErrorCategory.contract = contract
text_of ErrorCategory.upstream = upstream
text_of ErrorCategory.model = model

pub record Attempt : Type 0 where
  pub id : ℕ
  pub node_id : ℕ
  pub attempt_number : ℕ
  pub status : AttemptStatus
  pub started_at : ℕ
  pub completed_at : Option ℕ
  pub input_json : Option ℕ
  pub output_json : Option ℕ
  pub error : Option ℕ
  pub error_category : Option CategoryText
  pub model_used : Option ℕ
  pub tokens_in : Option ℕ
  pub tokens_out : Option ℕ
  pub cost_cents : Option ℕ
  pub duration_ms : Option ℕ

abbrev pub numbered : (node_id attempt_number : ℕ) → Attempt → Bool
numbered node_id attempt_number a = a.node_id == node_id && a.attempt_number == attempt_number

abbrev pub new_attempt :
    (attempt_id node_id attempt_number : ℕ)
    → (input_json model_used : Option ℕ) → (now : ℕ) → Attempt
new_attempt attempt_id node_id attempt_number input_json model_used now = record {
  id = attempt_id;
  node_id = node_id;
  attempt_number = attempt_number;
  status = running;
  started_at = now;
  completed_at = none;
  input_json = input_json;
  output_json = none;
  error = none;
  error_category = none;
  model_used = model_used;
  tokens_in = none;
  tokens_out = none;
  cost_cents = none;
  duration_ms = none;
}

-- `none` is the IntegrityError of one of the two unique constraints.
unfoldable pub start_attempt :
    (attempt_id node_id attempt_number : ℕ)
    → (input_json model_used : Option ℕ) → (now : ℕ) → List Attempt
    → Option ℕ × List Attempt
start_attempt attempt_id node_id attempt_number input_json model_used now attempts =
    if exists (λ a. a.id == attempt_id || numbered node_id attempt_number a) attempts
    then (none, attempts)
    else (
      some attempt_id,
      insert (new_attempt attempt_id node_id attempt_number input_json model_used now) attempts,
    )

unfoldable pub complete_attempt :
    (attempt_id output_json tokens_in tokens_out cost_cents duration_ms now : ℕ)
    → List Attempt
    → List Attempt
complete_attempt attempt_id output_json tokens_in tokens_out cost_cents duration_ms now attempts =
    update (λ a. a.id == attempt_id)
      (λ a. record a {
        status = completed;
        completed_at = some now;
        output_json = some output_json;
        tokens_in = some tokens_in;
        tokens_out = some tokens_out;
        cost_cents = some cost_cents;
        duration_ms = some duration_ms;
      })
      attempts

-- A category outside `valid_categories` is stored as 'transient'.
unfoldable pub valid_category : CategoryText → CategoryText
valid_category (unknown _) = transient
valid_category c = c

unfoldable pub fail_attempt :
    (attempt_id error : ℕ) → CategoryText → (now : ℕ) → List Attempt → List Attempt
unfolding valid_category
fail_attempt attempt_id error error_category now attempts =
    update (λ a. a.id == attempt_id)
      (λ a. record a {
        status = failed;
        completed_at = some now;
        error = some error;
        error_category = some (valid_category error_category);
      })
      attempts

unfoldable pub get_attempts : (node_id : ℕ) → List Attempt → List Attempt
get_attempts node_id attempts =
    sort_by (λ a. a.attempt_number) (select (λ a. a.node_id == node_id) attempts)

unfoldable pub get_latest_attempt : (node_id : ℕ) → List Attempt → Option Attempt
get_latest_attempt node_id attempts =
    greatest (λ a. a.attempt_number) (select (λ a. a.node_id == node_id) attempts)

-- ===== src/ErrorStrategy.antt =====
-- backend/core/error_strategy.py: the category of an error, the policy table, and the cascade of
-- actions. Attempt indices are natural numbers; logging is left out.
pub mod Cascade
pub mod Classify
mod Tests
use local_mind.Base.{
  ℕ, ◌-◌, Bool, true, false, not, ◌&&◌, ◌||◌, List, [], ◌∷◌, Option, none, some, String, ltb,
  is_none, if◌then◌else◌, length, get_elem?, get_or,
}
use Prim.Native.Nat.{min}

pub data ErrorCategory : Type 0 where
  transient permanent injection_detected timeout resource contract upstream model : ErrorCategory

-- The value of each member of the enum: the text that is stored and shown.
unfoldable pub value : ErrorCategory → String
value transient = "transient"
value permanent = "permanent"
value injection_detected = "injection"
value timeout = "timeout"
value resource = "resource"
value contract = "contract"
value upstream = "upstream"
value model = "model"

pub data FallbackStrategy : Type 0 where
  fallback_model simplify_plan partial_delivery dead_letter halt_quarantine : FallbackStrategy

-- `user_notification`, a text for people, is left out.
pub record ErrorResponse : Type 0 where
  pub category : ErrorCategory
  pub should_retry : Bool
  pub max_retries : ℕ
  pub backoff_ms : List ℕ
  pub fallback_strategy : Option FallbackStrategy

-- ERROR_RESPONSES
unfoldable pub error_responses : ErrorCategory → ErrorResponse
error_responses transient = record {
  category = transient;
  should_retry = true;
  max_retries = 3;
  backoff_ms = 1000 ∷ 5000 ∷ 15000 ∷ [];
  fallback_strategy = some dead_letter;
}
error_responses permanent = record {
  category = permanent;
  should_retry = false;
  max_retries = 0;
  backoff_ms = [];
  fallback_strategy = none;
}
error_responses injection_detected = record {
  category = injection_detected;
  should_retry = false;
  max_retries = 0;
  backoff_ms = [];
  fallback_strategy = some halt_quarantine;
}
error_responses timeout = record {
  category = timeout;
  should_retry = true;
  max_retries = 1;
  backoff_ms = 0 ∷ [];
  fallback_strategy = some simplify_plan;
}
error_responses resource = record {
  category = resource;
  should_retry = true;
  max_retries = 2;
  backoff_ms = 10000 ∷ 30000 ∷ [];
  fallback_strategy = some fallback_model;
}
error_responses contract = record {
  category = contract;
  should_retry = true;
  max_retries = 1;
  backoff_ms = 0 ∷ [];
  fallback_strategy = some partial_delivery;
}
error_responses upstream = record {
  category = upstream;
  should_retry = false;
  max_retries = 0;
  backoff_ms = [];
  fallback_strategy = none;
}
error_responses model = record {
  category = model;
  should_retry = true;
  max_retries = 2;
  backoff_ms = 5000 ∷ 15000 ∷ [];
  fallback_strategy = some fallback_model;
}

-- The built-in exception classes that `classify_error` tests for.
pub data ExceptionClass : Type 0 where
  timeout_error asyncio_timeout_error connection_error memory_error : ExceptionClass
  file_not_found_error value_error type_error unicode_decode_error : ExceptionClass

-- What `classify_error` reads of an exception: `isinstance`, whether "httpx" occurs in the name of
-- its class's module, whether "Timeout" occurs in the class's name, and whether that name is one
-- of the five listed httpx ones.
pub record Exception : Type 0 where
  pub isinstance : ExceptionClass → Bool
  pub httpx_in_module : Bool
  pub timeout_in_name : Bool
  pub named_httpx_error : Bool

unfoldable pub classify_error : Exception → ErrorCategory
classify_error e =
    if e.isinstance timeout_error || e.isinstance asyncio_timeout_error
    then timeout
    else if e.httpx_in_module && e.timeout_in_name
    then timeout
    else if e.isinstance connection_error
    then transient
    else if e.httpx_in_module && e.named_httpx_error
    then transient
    else if e.isinstance memory_error
    then resource
    else if e.isinstance file_not_found_error
        || (e.isinstance value_error
            || (e.isinstance type_error || e.isinstance unicode_decode_error))
    then permanent
    else transient

pub data Action : Type 0 where
  retry fallback_model simplify partial_delivery dead_letter : Action

-- _CASCADE_ACTIONS
unfoldable pub cascade_actions : ErrorCategory → List Action
cascade_actions transient = retry ∷ retry ∷ retry ∷ Action.dead_letter ∷ []
cascade_actions permanent = Action.dead_letter ∷ []
cascade_actions injection_detected = Action.dead_letter ∷ []
cascade_actions timeout = retry ∷ simplify ∷ []
cascade_actions resource = retry ∷ retry ∷ Action.fallback_model ∷ []
cascade_actions contract = retry ∷ Action.partial_delivery ∷ []
cascade_actions upstream = Action.dead_letter ∷ []
cascade_actions model = retry ∷ retry ∷ Action.fallback_model ∷ []

-- DegradationCascade. `cascade[attempt]` is in range on its branch.
unfoldable pub get_response : ErrorCategory → ErrorResponse
unfolding error_responses
get_response category = error_responses category

unfoldable pub next_action : ErrorCategory → ℕ → Action
unfolding cascade_actions
next_action category attempt =
    let cascade = cascade_actions category in
    if ltb attempt (length cascade)
    then get_or (get_elem? cascade attempt) Action.dead_letter
    else Action.dead_letter

unfoldable pub backoff_for : ErrorCategory → ℕ → ℕ
unfolding error_responses
backoff_for category attempt =
    let response = error_responses category in
    elim response.backoff_ms [
      | [] ↦ 0
      | first ∷ rest ↦ get_or (get_elem? (first ∷ rest) (min attempt (length (first ∷ rest) - 1))) 0
    ]

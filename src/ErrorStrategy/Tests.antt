-- ===== src/ErrorStrategy/Tests.antt =====
-- Runs of the cascade, and its theorems at concrete inputs.
use local_mind.Base.{◌≤◌, ◌<◌, ◌≡◌, ◌⊎◌, ◌↔◌, refl, Bool, true, false, not, ◌&&◌, arith, ltb}
use local_mind.ErrorStrategy.{
  injection_detected, resource, timeout, permanent, transient, Action, retry, Exception,
  ExceptionClass, value_error, classify_error, get_response, next_action, backoff_for,
}
use local_mind.ErrorStrategy.Cascade
use local_mind.ErrorStrategy.Cascade.{carries_out}
use local_mind.ErrorStrategy.Classify
use local_mind.ErrorStrategy.Classify.{is_invalid_input, is_retryable_kind}

abbrev is_value_error : ExceptionClass → Bool
is_value_error value_error = true
is_value_error _ = false

abbrev bad_value : Exception
bad_value = record {
  isinstance = is_value_error;
  httpx_in_module = false;
  timeout_in_name = false;
  named_httpx_error = false;
}

docstring_examples :
    (next_action transient 0 ≡ retry)
    × (next_action transient 3 ≡ Action.dead_letter)
    × (classify_error bad_value ≡ permanent)
unfolding next_action classify_error
docstring_examples = (refl, refl, refl)

retries-exact_example :
    ((next_action resource 2 ≡ retry) ↔ (2 < (get_response resource).max_retries))
    × ((get_response resource).should_retry ≡ ltb 0 (get_response resource).max_retries)
retries-exact_example = Cascade.retries-exact resource 2

fallbacks_in_order :
    ((resource ≡ injection_detected)
      ⊎ (carries_out
            (get_response resource).fallback_strategy
            (next_action resource (get_response resource).max_retries)
          ≡ true))
    × (next_action injection_detected 4 ≡ Action.dead_letter)
    × ((4 ≤ (get_response resource).max_retries) ⊎ (next_action resource 4 ≡ Action.dead_letter))
fallbacks_in_order = Cascade.fallback-exact resource 4

waits_grow :
    (backoff_for resource 1 ≤ backoff_for resource 2)
    × (backoff_for resource 2 ≤ 30000)
    × ((1 < (get_response resource).max_retries)
        ⊎ (backoff_for resource 1 ≡ backoff_for resource 2))
    × (((get_response resource).should_retry ≡ true) ⊎ (backoff_for resource 2 ≡ 0))
waits_grow = Cascade.backoff_for_bounds resource 1 2 (omega arith)

classes_are_retried_alike :
    ((next_action (classify_error bad_value) 0 ≡ retry)
      ↔ (is_invalid_input bad_value && not (is_retryable_kind bad_value) ≡ false))
    × ((classify_error bad_value ≡ timeout)
        ⊎ (classify_error bad_value ≡ transient)
        ⊎ (classify_error bad_value ≡ resource)
        ⊎ (classify_error bad_value ≡ permanent))
classes_are_retried_alike = Classify.classify_error-retry bad_value

-- ===== src/ErrorStrategy/Classify.antt =====
-- What `classify_error` makes of an exception, in the order of its tests.
use local_mind.Base.{◌≡◌, ◌↔◌, ◌⊎◌, Bool, false, not, ◌&&◌, ◌||◌, arith}
use local_mind.ErrorStrategy.{
  transient, permanent, timeout, resource, Exception, timeout_error, asyncio_timeout_error,
  connection_error, memory_error, file_not_found_error, value_error, type_error,
  unicode_decode_error, classify_error, next_action, retry,
}

-- The tests that come before the one for invalid input.
abbrev pub is_retryable_kind : Exception → Bool
is_retryable_kind e =
    e.isinstance timeout_error
    || (e.isinstance asyncio_timeout_error
        || ((e.httpx_in_module && (e.timeout_in_name || e.named_httpx_error))
            || (e.isinstance connection_error || e.isinstance memory_error)))

abbrev pub is_invalid_input : Exception → Bool
is_invalid_input e =
    e.isinstance file_not_found_error
    || (e.isinstance value_error || (e.isinstance type_error || e.isinstance unicode_decode_error))

-- The pipeline retries at least once after every exception but those of invalid input
-- (FileNotFoundError, ValueError, TypeError, UnicodeDecodeError) that are neither a timeout, nor a
-- connection or memory error, nor a listed httpx error; no exception is classified as an
-- injection, a contract, an upstream or a model error.
pub classify_error-retry :
    (e : Exception)
    → ((next_action (classify_error e) 0 ≡ retry)
        ↔ (is_invalid_input e && not (is_retryable_kind e) ≡ false))
      × ((classify_error e ≡ timeout)
          ⊎ (classify_error e ≡ transient)
          ⊎ (classify_error e ≡ resource)
          ⊎ (classify_error e ≡ permanent))
unfolding classify_error next_action
classify_error-retry e = ground arith

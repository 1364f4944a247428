-- ===== src/ErrorStrategy/Cascade.antt =====
-- The cascade against the policy table: how often an error is retried, and how long it waits.
use local_mind.Base.{
  ℕ, zero, suc, ◌≤◌, ◌<◌, ◌≡◌, ◌↔◌, refl, Bool, true, false, ◌⊎◌, some, none, arith, ltb, Option,
}
use Prim.Native.Nat.{min}
use local_mind.ErrorStrategy.{
  ErrorCategory, transient, injection_detected, timeout, resource, contract, model,
  FallbackStrategy, Action, retry, get_response, next_action, backoff_for,
}

-- The cascade retries on exactly the first `max_retries` attempts, and only in the categories
-- whose policy says `should_retry`.
pub retries-exact :
    (c : ErrorCategory) (attempt : ℕ)
    → ((next_action c attempt ≡ retry) ↔ (attempt < (get_response c).max_retries))
      × ((get_response c).should_retry ≡ ltb 0 (get_response c).max_retries)
unfolding next_action get_response
retries-exact transient zero = ground arith
retries-exact c zero = ground arith
retries-exact c (suc zero) = ground arith
retries-exact c (suc (suc zero)) = ground arith
retries-exact c (suc (suc (suc zero))) = ground arith
retries-exact c (suc (suc (suc (suc n)))) = ground arith

-- The action that carries out a policy's fallback; no action halts and quarantines.
abbrev pub carries_out : Option FallbackStrategy → Action → Bool
carries_out none Action.dead_letter = true
carries_out (some FallbackStrategy.fallback_model) Action.fallback_model = true
carries_out (some FallbackStrategy.simplify_plan) Action.simplify = true
carries_out (some FallbackStrategy.partial_delivery) Action.partial_delivery = true
carries_out (some FallbackStrategy.dead_letter) Action.dead_letter = true
carries_out _ _ = false

-- When the retries are used up, the next action carries out the policy's fallback, in every
-- category but one: a detected injection, whose policy says to halt and quarantine, is sent to the
-- dead letters on every attempt. Past that the action is always the dead letter.
pub fallback-exact :
    (c : ErrorCategory) (attempt : ℕ)
    → ((c ≡ injection_detected)
        ⊎ (carries_out
              (get_response c).fallback_strategy
              (next_action c (get_response c).max_retries)
            ≡ true))
      × (next_action injection_detected attempt ≡ Action.dead_letter)
      × ((attempt ≤ (get_response c).max_retries) ⊎ (next_action c attempt ≡ Action.dead_letter))
unfolding next_action get_response
fallback-exact transient zero = ground arith
fallback-exact c zero = ground arith
fallback-exact c (suc zero) = ground arith
fallback-exact c (suc (suc zero)) = ground arith
fallback-exact c (suc (suc (suc zero))) = ground arith
fallback-exact c (suc (suc (suc (suc n)))) = ground arith

-- The waits of the policy table, written out.
abbrev wait_of : ErrorCategory → ℕ → ℕ
wait_of transient zero = 1000
wait_of transient (suc zero) = 5000
wait_of transient (suc (suc n)) = 15000
wait_of resource zero = 10000
wait_of resource (suc n) = 30000
wait_of model zero = 5000
wait_of model (suc n) = 15000
wait_of _ _ = 0

backoff_for-eq : (c : ErrorCategory) (n : ℕ) → backoff_for c n ≡ wait_of c n
unfolding backoff_for
backoff_for-eq transient zero = refl
backoff_for-eq transient (suc zero) = refl
backoff_for-eq transient (suc (suc n)) = let late : min (suc (suc n)) 2 ≡ 2 = omega arith in rw late
backoff_for-eq resource zero = refl
backoff_for-eq resource (suc n) = let late : min (suc n) 1 ≡ 1 = omega arith in rw late
backoff_for-eq model zero = refl
backoff_for-eq model (suc n) = let late : min (suc n) 1 ≡ 1 = omega arith in rw late
backoff_for-eq timeout n = let late : min n 0 ≡ 0 = omega arith in rw late
backoff_for-eq contract n = let late : min n 0 ≡ 0 = omega arith in rw late
backoff_for-eq c n = refl

-- The waits grow with the attempts, up to the 30 s of a resource error, and stay at the last
-- configured one once the retries are used up; a category that is not retried does not wait.
pub backoff_for_bounds :
    (c : ErrorCategory) (a b : ℕ)
    → a ≤ b
    → (backoff_for c a ≤ backoff_for c b)
      × (backoff_for c b ≤ 30000)
      × ((a < (get_response c).max_retries) ⊎ (backoff_for c a ≡ backoff_for c b))
      × (((get_response c).should_retry ≡ true) ⊎ (backoff_for c b ≡ 0))
unfolding backoff_for get_response
backoff_for_bounds c a b h = rw (backoff_for-eq c a, backoff_for-eq c b) (bounds c a b h)
  where
    bounds :
        (c : ErrorCategory) (a b : ℕ)
        → a ≤ b
        → (wait_of c a ≤ wait_of c b)
          × (wait_of c b ≤ 30000)
          × ((a < (get_response c).max_retries) ⊎ (wait_of c a ≡ wait_of c b))
          × (((get_response c).should_retry ≡ true) ⊎ (wait_of c b ≡ 0))
    bounds transient zero zero h = ground arith
    bounds c zero zero h = ground arith
    bounds c zero (suc zero) h = ground arith
    bounds c zero (suc (suc b)) h = ground arith
    bounds c (suc zero) (suc zero) h = ground arith
    bounds c (suc zero) (suc (suc b)) h = ground arith
    bounds c (suc (suc a)) (suc (suc b)) h = ground arith
    bounds c (suc (suc a)) (suc zero) h = absurd (omega arith)
    bounds c (suc a) zero h = absurd (omega arith)

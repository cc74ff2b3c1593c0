-- ===== src/Llm/CallRetries.antt =====
-- The reissuing of one model call: `_invoke_with_call_retries` of app/core/llm.py and the
-- classification of the provider's errors that it stands on.
pub mod Verdicts
use stockapp.Prelude.{
  ℕ, zero, suc, ◌+◌, ◌-◌, ◌*◌, ◌^◌, ◌≤◌, ◌<◌, ◌≡◌, refl, Bool, true, false, not, ◌||◌, ◌&&◌, List,
  [], ◌∷◌, arith, ltb, leb, ◌==◌, if◌then◌else◌, Bool-cases, inl, inr, Option, none, some, any, max,
  min, holds, ◌⊎◌,
}

-- What the classification asks of one exception of a chain: the first integer among `code`,
-- `status_code` and `response.status_code`, the delay that it names, and three class tests.
pub record Link : Type 0 where
  pub status_code : Option ℕ
  pub retry_after : Option ℕ
  pub is_certificate_error : Bool
  pub is_transport_error : Bool
  pub is_protocol_error : Bool

unfoldable pub provider_status_code : List Link → Option ℕ
provider_status_code [] = none
provider_status_code (e ∷ chain) = elim e.status_code [
  | none ↦ provider_status_code chain
  | some code ↦ some code
]

-- The first delay that the chain names, an hour at most.
unfoldable pub retry_after_seconds : List Link → Option ℕ
retry_after_seconds [] = none
retry_after_seconds (e ∷ chain) = elim e.retry_after [
  | none ↦ retry_after_seconds chain
  | some seconds ↦ some (min seconds 3600)
]

unfoldable pub is_rate_limited_provider_error : List Link → Bool
is_rate_limited_provider_error chain = holds (provider_status_code chain) 429

abbrev pub is_server_error : Option ℕ → Bool
is_server_error none = false
is_server_error (some code) = leb 500 code && leb code 599

unfoldable pub is_transient_provider_error : List Link → Bool
is_transient_provider_error chain =
    if is_server_error (provider_status_code chain)
    then true
    else if any (λ (e : Link). e.is_certificate_error) chain
    then false
    else any (λ (e : Link). e.is_transport_error && not e.is_protocol_error) chain

unfoldable pub is_retryable_provider_error : List Link → Bool
is_retryable_provider_error chain =
    is_rate_limited_provider_error chain || is_transient_provider_error chain

unfoldable pub is_configuration_provider_error : List Link → Bool
is_configuration_provider_error chain =
    holds (provider_status_code chain) 401
    || holds (provider_status_code chain) 403
    || holds (provider_status_code chain) 404

-- How one awaited call ends.
pub data Answer : Type 0 where
  replied : ℕ → Answer
  timed_out : Answer
  failed : List Link → Answer

-- How the method ends: it returns the reply or raises.
pub data Verdict : Type 0 where
  reply : ℕ → Verdict
  retries_exhausted : Verdict
  llm_timeout : Verdict
  retryable : Option ℕ → Verdict
  reraised : List Link → Verdict

-- The verdict of an attempt, `none` when the call is issued again.
unfoldable pub judge : Bool → Bool → Answer → Option Verdict
judge exhausted is_last (replied r) = some (reply r)
judge exhausted is_last timed_out = some (if exhausted then retries_exhausted else llm_timeout)
judge exhausted is_last (failed chain) =
    if not (is_retryable_provider_error chain)
    then some (reraised chain)
    else if exhausted
    then some retries_exhausted
    else if is_last || not (is_transient_provider_error chain)
    then some (retryable (retry_after_seconds chain))
    else none

-- What a run of the loop did: its verdict, the calls issued and the limiter slots claimed for them.
pub record Run : Type 0 where
  pub verdict : Verdict
  pub calls : ℕ
  pub acquired : ℕ

unfoldable pub settle : ℕ → Run → Option Verdict → Run
settle slot rest (some v) = record { verdict = v; calls = 1; acquired = slot }
settle slot rest none = record {
  verdict = rest.verdict;
  calls = suc rest.calls;
  acquired = slot + rest.acquired;
}

-- The attempts that are left, from `attempt` on; the answers are numbered from 1.
unfoldable pub attempts : Bool → (ℕ → Answer) → ℕ → ℕ → Run
unfolding judge settle
attempts exhausted answers attempt zero = record {
  verdict = retryable none;
  calls = 0;
  acquired = 0;
}
attempts exhausted answers attempt (suc left) =
    let rest = attempts exhausted answers (suc attempt) left in
    let slot = if ltb 1 attempt then 1 else 0 in
    settle slot rest (judge exhausted (left == 0) (answers attempt))

unfoldable pub invoke_with_call_retries : ℕ → Bool → (ℕ → Answer) → Run
invoke_with_call_retries max_attempts exhausted answers =
    attempts exhausted answers 1 (max 1 max_attempts)

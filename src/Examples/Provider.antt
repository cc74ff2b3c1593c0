-- ===== src/Examples/Provider.antt =====
-- The limits and retries of the model client, app/core/llm.py, on short histories.
use stockapp.Prelude.{
  ℕ, ◌<◌, ◌≤◌, ◌≡◌, refl, ◌+◌, true, false, List, [], ◌∷◌, map, arith, count, max, ◌==◌, none, some,
  if◌then◌else◌,
}
use stockapp.Llm.RateLimiter.{Limiter, fresh, drop_expired, wait_seconds, acquire_rounds}
use stockapp.Llm.RateLimiter.Share.{in_window, acquire-share, acquire-two_rounds}
use stockapp.Llm.TokenLimiter.{
  TokenLimiter, prune, reserve_round, reconcile, reconcile_live, TokenEvent, round, reconciled,
  token_step, token_history,
}
use stockapp.Llm.CallRetries.{Link, Answer, judge, invoke_with_call_retries}
use stockapp.Llm.CallRetries.Verdicts.{is_blip, invoke_with_call_retries_lem}
use stockapp.Llm.Circuit.{Circuit, closed, allow_request, Event, react, history, record_rejection}
use stockapp.Llm.Circuit.Opening.{RejectedSince, refused-rejected, half_open-admits}

acquire-share_example :
    count (in_window 60 1) (acquire_rounds 2 60 fresh (0 ∷ 1 ∷ 2 ∷ 61 ∷ [])).granted ≤ 2
acquire-share_example =
    acquire-share 2 60 (0 ∷ 1 ∷ 2 ∷ 61 ∷ []) 1
      (omega arith, (omega arith, (omega arith, (omega arith, tt))))

abbrev spent : Limiter
spent = record { request_times = 5 ∷ []; granted = 5 ∷ [] }

acquire-two_rounds_example : (acquire_rounds 1 60 spent (10 ∷ 65 ∷ [])).granted ≡ 5 ∷ 65 ∷ []
unfolding drop_expired wait_seconds
acquire-two_rounds_example =
    acquire-two_rounds 1 60 10 65 spent (omega arith) (omega arith) (omega arith) (omega arith)

abbrev server_error : Link
server_error = record {
  status_code = some 503;
  retry_after = none;
  is_certificate_error = false;
  is_transport_error = false;
  is_protocol_error = false;
}

-- The provider is down once and then replies.
abbrev down_once : ℕ → Answer
down_once attempt = if attempt == 1 then Answer.failed (server_error ∷ []) else Answer.replied 7

invoke_with_call_retries_lem_example :
    (1 ≤ (invoke_with_call_retries 3 false down_once).calls)
    × ((invoke_with_call_retries 3 false down_once).calls ≤ max 1 3)
    × ((invoke_with_call_retries 3 false down_once).acquired + 1
        ≡ (invoke_with_call_retries 3 false down_once).calls)
    × (judge false
          ((invoke_with_call_retries 3 false down_once).calls == max 1 3)
          (down_once (invoke_with_call_retries 3 false down_once).calls)
        ≡ some (invoke_with_call_retries 3 false down_once).verdict)
    × ((k : ℕ)
        → k + 1 < (invoke_with_call_retries 3 false down_once).calls
        → (is_blip (down_once (k + 1)) ≡ true) × (false ≡ false))
invoke_with_call_retries_lem_example = invoke_with_call_retries_lem false down_once 3

abbrev two_rejections : List Event
two_rejections = Event.rejected 10 ∷ Event.succeeded ∷ Event.rejected 20 ∷ Event.rejected 30 ∷ []

refused_at_40 : (allow_request 2 60 (history 2 60 closed two_rejections) 40).0 ≡ false
unfolding history react record_rejection allow_request
refused_at_40 = refl

refused-rejected_example : (t : ℕ) × RejectedSince t two_rejections × (40 < t + 60)
refused-rejected_example = refused-rejected 2 60 two_rejections 40 refused_at_40

abbrev three_times : List ℕ
three_times = 1 ∷ 2 ∷ 3 ∷ []

abbrev opened_at_30 : Circuit
opened_at_30 = record { consecutive_rejections = 2; opened_at = some 30 }

half_open-admits_example :
    ((allow_request 2 60 opened_at_30 90).0 ≡ true)
    × ((allow_request 2 60
          (history 2 60 opened_at_30 (Event.asked 90 ∷ map Event.asked (91 ∷ [])))
          92).0
        ≡ true)
    × ((react 2 60
          (history 2 60 opened_at_30 (Event.asked 90 ∷ map Event.asked (91 ∷ [])))
          (Event.rejected 95)).opened_at
        ≡ some 95)
half_open-admits_example =
    half_open-admits 2 60 opened_at_30 30 90 (91 ∷ []) 92 95 (omega arith) refl (omega arith)

abbrev half_reserved : TokenLimiter
half_reserved = record {
  reservations = record { ticket = 0; timestamp = 5; token_count = 50 } ∷ [];
  reserved_tokens = 50;
  next_ticket = 1;
}

-- The provider counted more tokens than the window has.
abbrev overrun : List TokenEvent
overrun = round 40 10 ∷ reconciled 1 (some 90) 12 ∷ reconciled 0 none 13 ∷ []

over_the_limit : (token_history 100 60 half_reserved overrun).reserved_tokens ≡ 140
unfolding token_history token_step reserve_round reconcile reconcile_live prune
over_the_limit = refl

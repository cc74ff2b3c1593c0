-- ===== src/Llm/RateLimiter.antt =====
-- AsyncSlidingWindowRateLimiter of app/core/llm.py. The lock lets one caller at a time into the
-- loop of `acquire`, so that a history of the limiter is a list of rounds, each at the time that
-- its clock reading gives.
pub mod Share
use stockapp.Prelude.{
  count, count-append, ℕ, ◌+◌, ◌-◌, ◌≤◌, ◌<◌, ◌≡◌, refl, sym, ap, ◌∙◌, Bool, ◌&&◌, List, [], ◌∷◌,
  ◌++◌, arith, leb, ltb, length, length-append, All, All-append, All-imp, if◌then◌else◌, ltb→lt,
  Bool-cases, inl, inr,
}
use mathlib.Core.List.{append_assoc}
use native.Mathlib.Nat.{le_refl}

-- The timestamps that are still counted, oldest first, and every time at which a request was let
-- through since the start.
pub record Limiter : Type 0 where
  pub request_times : List ℕ
  pub granted : List ℕ

abbrev pub fresh : Limiter
fresh = record { request_times = []; granted = [] }

-- while request_times and request_times[0] <= now - window: popleft()
unfoldable pub drop_expired : ℕ → ℕ → List ℕ → List ℕ
drop_expired window now [] = []
drop_expired window now (t ∷ ts) =
    let rest = drop_expired window now ts in if leb (t + window) now then rest else t ∷ ts

-- One round of the loop: the slot is claimed if there is one.
unfoldable pub acquire_round : ℕ → ℕ → Limiter → ℕ → Limiter
unfolding drop_expired
acquire_round requests window l now =
    let live = drop_expired window now l.request_times in
    if ltb (length live) requests
    then record { request_times = live ++ now ∷ []; granted = l.granted ++ now ∷ [] }
    else record { request_times = live; granted = l.granted }

-- max(request_times[0] + window - now, 0), the wait before the next round.
unfoldable pub wait_seconds : ℕ → ℕ → List ℕ → ℕ
wait_seconds window now [] = 0
wait_seconds window now (t ∷ ts) = t + window - now

-- The rounds at the given readings.
unfoldable pub acquire_rounds : ℕ → ℕ → Limiter → List ℕ → Limiter
acquire_rounds requests window l [] = l
acquire_rounds requests window l (now ∷ readings) =
    acquire_rounds requests window (acquire_round requests window l now) readings

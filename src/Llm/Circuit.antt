-- ===== src/Llm/Circuit.antt =====
-- LlmConfigurationErrorCircuit of app/core/llm.py. Calls run concurrently on one event loop, so
-- that questions, successes and rejections come in any order: a history is a list of them, each
-- with its clock reading. The threshold and the reset time are the two settings.
pub mod Opening
use stockapp.Prelude.{
  ℕ, zero, suc, ◌+◌, ◌-◌, ◌≤◌, ◌<◌, ◌≡◌, refl, Bool, true, false, ◌||◌, List, [], ◌∷◌, ◌++◌, arith,
  ltb, leb, is_some, if◌then◌else◌, Bool-cases, Option-cases, inl, inr, Option, none, some, ap, sym,
  ◌∙◌, subst, All, ◌⊎◌, ◌↔◌,
}

pub record Circuit : Type 0 where
  pub consecutive_rejections : ℕ
  pub opened_at : Option ℕ

abbrev pub closed : Circuit
closed = record { consecutive_rejections = 0; opened_at = none }

-- The clock has not run for `reset_seconds` since the opening.
abbrev pub is_cooling : ℕ → Option ℕ → ℕ → Bool
is_cooling reset none now = false
is_cooling reset (some opened) now = ltb (now - opened) reset

unfoldable pub allow_request : ℕ → ℕ → Circuit → ℕ → Bool × Circuit
allow_request threshold reset c now =
    if is_some c.opened_at
    then if is_cooling reset c.opened_at now
      then (false, c)
      else (true, record { consecutive_rejections = threshold - 1; opened_at = none })
    else (true, c)

pub record_success : Circuit → Circuit
record_success c = record { consecutive_rejections = 0; opened_at = none }

unfoldable pub record_rejection : ℕ → Circuit → ℕ → Bool × Circuit
record_rejection threshold c now =
    let rejections = suc c.consecutive_rejections in
    if is_some c.opened_at || ltb rejections threshold
    then (false, record { consecutive_rejections = rejections; opened_at = c.opened_at })
    else (true, record { consecutive_rejections = rejections; opened_at = some now })

-- What the client's calls do to the circuit that they share.
pub data Event : Type 0 where
  asked : ℕ → Event
  succeeded : Event
  rejected : ℕ → Event

unfoldable pub react : ℕ → ℕ → Circuit → Event → Circuit
unfolding allow_request record_success record_rejection
react threshold reset c (asked now) = (allow_request threshold reset c now).1
react threshold reset c succeeded = record_success c
react threshold reset c (rejected now) = (record_rejection threshold c now).1

unfoldable pub history : ℕ → ℕ → Circuit → List Event → Circuit
history threshold reset c [] = c
history threshold reset c (e ∷ events) = history threshold reset (react threshold reset c e) events

-- ===== src/Llm/TokenLimiter.antt =====
-- AsyncSlidingWindowTokenLimiter of app/core/llm.py: the rounds of `acquire`, and `reconcile`. Token
-- counts to acquire are positive and no greater than the window's, since `acquire` raises otherwise.
-- A reservation is an object that its caller keeps: `ticket` is which one, in the order of creation.
pub mod Share
use stockapp.Prelude.{
  ℕ, ◌+◌, ◌-◌, ◌==◌, Bool, true, false, Option, none, some, List, [], ◌∷◌, ◌++◌, leb, if◌then◌else◌,
}
use stockapp.Queue.Table.{find, update_where}

pub record TokenReservation : Type 0 where
  pub ticket : ℕ
  pub timestamp : ℕ
  pub token_count : ℕ

pub record TokenLimiter : Type 0 where
  pub reservations : List TokenReservation
  pub reserved_tokens : ℕ
  pub next_ticket : ℕ

-- while reservations and reservations[0].timestamp <= now - window: popleft and give back
unfoldable pub prune : ℕ → ℕ → ℕ → List TokenReservation → ℕ → TokenLimiter
prune window now next [] reserved = record {
  reservations = [];
  reserved_tokens = reserved;
  next_ticket = next;
}
prune window now next (r ∷ reservations) reserved =
    let rest = prune window now next reservations (reserved - r.token_count) in
    if leb (r.timestamp + window) now
    then rest
    else record { reservations = r ∷ reservations; reserved_tokens = reserved; next_ticket = next }

-- One round of the loop: whether the tokens are reserved, and the limiter after it.
unfoldable pub reserve_round : ℕ → ℕ → ℕ → TokenLimiter → ℕ → Bool × TokenLimiter
unfolding prune
reserve_round tokens_per_window window token_count l now =
    let live = prune window now l.next_ticket l.reservations l.reserved_tokens in
    if leb (live.reserved_tokens + token_count) tokens_per_window
    then (
      true,
      record {
        reservations =
            live.reservations
            ++ record { ticket = live.next_ticket; timestamp = now; token_count = token_count }
              ∷ [];
        reserved_tokens = live.reserved_tokens + token_count;
        next_ticket = live.next_ticket + 1;
      },
    )
    else (false, live)

abbrev pub is_ticket : ℕ → TokenReservation → Bool
is_ticket ticket r = r.ticket == ticket

-- reservation.token_count = actual
abbrev pub recount : ℕ → TokenReservation → TokenReservation
recount actual r = record { ticket = r.ticket; timestamp = r.timestamp; token_count = actual }

-- The test `in` compares by value; a live reservation and one that is gone never have the same
-- timestamp on a clock that does not run back, so that it finds the object itself.
unfoldable pub reconcile_live : ℕ → ℕ → TokenLimiter → Option TokenReservation → TokenLimiter
reconcile_live ticket actual live none = live
reconcile_live ticket actual live (some r) = record {
  reservations = update_where (is_ticket ticket) (recount actual) live.reservations;
  reserved_tokens = live.reserved_tokens + actual - r.token_count;
  next_ticket = live.next_ticket;
}

-- The count is nothing where the provider's is negative.
unfoldable pub reconcile : ℕ → ℕ → Option ℕ → TokenLimiter → ℕ → TokenLimiter
reconcile window ticket none l now = l
reconcile window ticket (some actual) l now =
    let live = prune window now l.next_ticket l.reservations l.reserved_tokens in
    reconcile_live ticket actual live (find (is_ticket ticket) live.reservations)

-- What the callers of one limiter do, in any order.
pub data TokenEvent : Type 0 where
  round : (token_count now : ℕ) → TokenEvent
  reconciled : (ticket : ℕ) (actual : Option ℕ) (now : ℕ) → TokenEvent

unfoldable pub token_step : ℕ → ℕ → TokenLimiter → TokenEvent → TokenLimiter
token_step tokens_per_window window l (round token_count now) =
    (reserve_round tokens_per_window window token_count l now).1
token_step tokens_per_window window l (reconciled ticket actual now) =
    reconcile window ticket actual l now

unfoldable pub token_history : ℕ → ℕ → TokenLimiter → List TokenEvent → TokenLimiter
token_history tokens_per_window window l [] = l
token_history tokens_per_window window l (event ∷ events) =
    token_history tokens_per_window window (token_step tokens_per_window window l event) events

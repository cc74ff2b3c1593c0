-- ===== src/Llm/TokenLimiter/Share.antt =====
-- What the token limiter of app/core/llm.py holds reserved.
use stockapp.Prelude.{ℕ, ◌+◌, ◌≤◌, ◌<◌, ◌≡◌, Bool, true, false, List, [], ◌∷◌, length, All}
use stockapp.Llm.TokenLimiter.{TokenReservation, TokenLimiter, is_ticket}

abbrev pub tokens : List TokenReservation → ℕ
tokens [] = 0
tokens (r ∷ reservations) = r.token_count + tokens reservations

-- No ticket comes twice.
abbrev pub Apart : List TokenReservation → Type 0
Apart [] = Unit
Apart (r ∷ reservations) = All (λ s. is_ticket r.ticket s ≡ false) reservations × Apart reservations

-- The counter is the sum over the live reservations; their tickets are given out and differ.
pub record IsSummed (l : TokenLimiter) : Type 0 where
  pub summed : l.reserved_tokens ≡ tokens l.reservations
  pub given : All (λ r. r.ticket < l.next_ticket) l.reservations
  pub apart : Apart l.reservations

-- A round ends with the tokens reserved and no more of them than the window allows, or with a
-- reservation that it can wait for.
abbrev pub RoundEnds : ℕ → Bool × TokenLimiter → Type 0
RoundEnds limit (true, l) = l.reserved_tokens ≤ limit
RoundEnds limit (false, l) = 0 < length l.reservations

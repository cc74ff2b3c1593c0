-- ===== src/News/Catchup.antt =====
-- Healing of missed collection slots: `_enqueue_missed_news_collection_slots` of
-- app/domains/batches/service.py.
use stockapp.Prelude.{
  ℕ, zero, suc, ◌+◌, ◌-◌, ◌*◌, ◌≤◌, ◌<◌, ◌≡◌, refl, ap, Bool, not, ◌&&◌, List, [], ◌∷◌, arith, ltb,
  take, select, if◌then◌else◌, Bool-cases, inl, inr,
}
use mathlib.Core.List.{reverse}
use stockapp.News.Slot.{slot_length, hour_length}

-- The `while` loop, from a candidate end: `missed` newest first, with `room` slots left to report.
-- The fuel counts rounds.
scan : ℕ → (ℕ → Bool) → ℕ → ℕ → ℕ → List ℕ
scan zero covered earliest candidate room = []
scan (suc fuel) covered earliest candidate room =
    let found = candidate ∷ scan fuel covered earliest (candidate - slot_length) (room - 1) in
    let kept = scan fuel covered earliest (candidate - slot_length) room in
    if ltb earliest candidate && ltb 0 room then (if covered candidate then kept else found) else []

-- The slot ends to enqueue, oldest first. Each round steps back by one slot, so that twice the
-- hours of the horizon are rounds enough.
unfoldable pub missed_slot_ends : ℕ → ℕ → (ℕ → Bool) → ℕ → List ℕ
unfolding scan
missed_slot_ends max_slots lookback_hours covered current_window_end_at = reverse (
    scan (lookback_hours * 2) covered (current_window_end_at - lookback_hours * hour_length)
      (current_window_end_at - slot_length) max_slots)

-- The ends of the grid, from `t` back: t, t - 30 minutes, and so on.
pub grid_back : ℕ → ℕ → List ℕ
grid_back zero t = []
grid_back (suc n) t = t ∷ grid_back n (t - slot_length)

scan-done :
    (fuel : ℕ) (covered : ℕ → Bool) (earliest candidate : ℕ)
    → scan fuel covered earliest candidate 0 ≡ []
unfolding scan
scan-done zero covered earliest candidate = refl
scan-done (suc fuel) covered earliest candidate = ground arith

take-zero : (xs : List ℕ) → take 0 xs ≡ []
take-zero xs = refl

-- With a candidate `n` whole slots after the horizon, the loop reports the uncovered ones among
-- the `n` slot ends after the horizon, newest first, up to the room that is left.
scan-grid :
    (n fuel : ℕ) (covered : ℕ → Bool) (earliest candidate room : ℕ)
    → candidate ≡ earliest + n * slot_length
    → n < fuel
    → scan fuel covered earliest candidate room
      ≡ take room (select (λ t. not (covered t)) (grid_back n candidate))
unfolding scan grid_back
scan-grid n zero covered earliest candidate room e h = elim h [ ]
scan-grid zero (suc fuel) covered earliest candidate zero e h = ground arith
scan-grid zero (suc fuel) covered earliest candidate (suc room) e h = ground arith
scan-grid (suc n) (suc fuel) covered earliest candidate zero e h = ground arith
scan-grid (suc n) (suc fuel) covered earliest candidate (suc room) e h =
    let next : candidate - slot_length ≡ earliest + n * slot_length = omega arith in
    elim (Bool-cases (covered candidate)) [
      | inl c ↦ ground (
        arith,
        c,
        scan-grid n fuel covered earliest (candidate - slot_length) (suc room) next (omega arith),
      )
      | inr c ↦ ground (
        arith,
        c,
        scan-grid n fuel covered earliest (candidate - slot_length) (suc room - 1) next
            (omega arith),
      )
    ]

-- The catch-up enqueues, oldest first, the newest max_slots of the completed slot ends that are
-- not covered, strictly inside the horizon of lookback_hours before the current slot end and
-- before that end itself.
pub missed_slot_ends_lem :
    (max_slots hours : ℕ) (covered : ℕ → Bool) (current : ℕ)
    → 0 < hours
    → hours * hour_length ≤ current
    → missed_slot_ends max_slots hours covered current
      ≡ reverse (
          take max_slots
            (select (λ t. not (covered t)) (grid_back (hours * 2 - 1) (current - slot_length))))
unfolding missed_slot_ends
missed_slot_ends_lem max_slots hours covered current h room = ap reverse (
    scan-grid (hours * 2 - 1) (hours * 2) covered (current - hours * hour_length)
      (current - slot_length) max_slots (omega arith) (omega arith))

-- ===== src/News/Slot.antt =====
-- The 30-minute collection slots: app/batch/policies/news_collection_slot.py and
-- `resolve_news_collection_slot` of app/domains/batches/service.py.
use stockapp.Prelude.{
  ℕ, ◌+◌, ◌-◌, ◌*◌, ◌/◌, ◌%◌, ◌≤◌, ◌<◌, ◌≡◌, ◌↔◌, refl, ap, Bool, true, not, ◌&&◌, ◌||◌, Option,
  none, some, arith, min, ltb, ◌==◌, if◌then◌else◌,
}

-- A datetime with or without a time zone.
pub data Datetime : Type 0 where
  aware : ℕ → Datetime
  naive : ℕ → Datetime

abbrev pub minute_length : ℕ
minute_length = 60000000

abbrev pub hour_length : ℕ
hour_length = 3600000000

abbrev pub day_length : ℕ
day_length = 86400000000

-- NEWS_COLLECTION_SLOT_MINUTES
abbrev pub slot_minutes : ℕ
slot_minutes = 30

abbrev pub slot_length : ℕ
slot_length = 1800000000

-- The fields of a KST wall-clock time.
abbrev minute_of : ℕ → ℕ
minute_of t = t / 60000000 % 60

abbrev second_of : ℕ → ℕ
second_of t = t / 1000000 % 60

abbrev microsecond_of : ℕ → ℕ
microsecond_of t = t % 1000000

-- replace(minute=m, second=0, microsecond=0)
abbrev replace_minute : ℕ → ℕ → ℕ
replace_minute t m = t - t % 3600000000 + m * 60000000

-- The newest slot that has ended, start and end; nothing for a naive clock (`ValueError`).
unfoldable pub resolve_completed_news_slot : Datetime → Option (ℕ × ℕ)
resolve_completed_news_slot (naive now) = none
resolve_completed_news_slot (aware now) =
    let aligned_minute = minute_of now / slot_minutes * slot_minutes in
    let window_end_at = replace_minute now aligned_minute in
    some (window_end_at - slot_length, window_end_at)

unfoldable pub collectable_window_end : ℕ → Datetime → Option ℕ
unfolding resolve_completed_news_slot
collectable_window_end window_end_at now = elim (resolve_completed_news_slot now) [
  | none ↦ none
  | some (start, latest) ↦ some (min window_end_at latest)
]

pub data Slot : Type 0 where
  slot : (window_start_at window_end_at : ℕ) → Slot
  clock_naive : Slot
  -- NEWS_SLOT_INVALID, NEWS_SLOT_NOT_COMPLETED, NEWS_SLOT_OUT_OF_RANGE
  invalid not_completed out_of_range : Slot

is_aligned : ℕ → Bool
is_aligned t =
    (minute_of t == 0 || minute_of t == 30) && (second_of t == 0 && microsecond_of t == 0)

-- The guards on the slot that was asked for, in their order.
check_requested : ℕ → ℕ → Datetime → Slot
unfolding is_aligned
check_requested latest max_backfill_days (naive t) = invalid
check_requested latest max_backfill_days (aware t) =
    if not (is_aligned t)
    then invalid
    else if ltb latest t
    then not_completed
    else if ltb t (latest - max_backfill_days * day_length)
    then out_of_range
    else slot (t - slot_length) t

resolve_slot : Option (ℕ × ℕ) → Option Datetime → ℕ → Slot
unfolding check_requested
resolve_slot none requested max_backfill_days = clock_naive
resolve_slot (some (start, latest)) none max_backfill_days = slot (latest - slot_length) latest
resolve_slot (some (start, latest)) (some requested) max_backfill_days =
    check_requested latest max_backfill_days requested

unfoldable pub resolve_news_collection_slot : Datetime → Option Datetime → ℕ → Slot
unfolding resolve_slot
resolve_news_collection_slot now requested max_backfill_days =
    resolve_slot (resolve_completed_news_slot now) requested max_backfill_days

-- The slot that an aware clock resolves to lies on the half-hour grid, is half an hour long, has
-- ended, and the next one has not: its end is the greatest multiple of 30 minutes up to now.
pub resolve_completed_grid :
    (now : ℕ)
    → slot_length ≤ now
    → (start end_at : ℕ) × (resolve_completed_news_slot (aware now) ≡ some (start, end_at))
      × (end_at % slot_length ≡ 0)
      × (start + slot_length ≡ end_at)
      × (end_at ≤ now)
      × (now < end_at + slot_length)
unfolding resolve_completed_news_slot
resolve_completed_grid now h =
    let m = now / 60000000 % 60 / 30 * 30 in
    let e = now - now % 3600000000 + m * 60000000 in
    (e - slot_length, e, refl, omega arith, omega arith, omega arith, omega arith)

is_aligned_iff : (t : ℕ) → (is_aligned t ≡ true) ↔ (t % slot_length ≡ 0)
unfolding is_aligned
is_aligned_iff t = ((λ h. ground arith), (λ h. ground arith))

latest_end :
    (now : ℕ)
    → slot_length ≤ now
    → resolve_completed_news_slot (aware now)
      ≡ some (now / slot_length * slot_length - slot_length, now / slot_length * slot_length)
unfolding resolve_completed_news_slot
latest_end now h =
    let m = now / 60000000 % 60 / 30 * 30 in
    let e : now - now % 3600000000 + m * 60000000 ≡ now / slot_length * slot_length = omega arith in
    ap (λ (z : ℕ). some (z - slot_length, z)) e

-- The slot that a caller asks for is accepted exactly if its end lies on the half-hour grid, has
-- been reached, and is at most max_backfill_days older than the newest ended slot; the slot is then
-- the half hour before that end.
pub requested_slot_iff :
    (now t days start end_at : ℕ)
    → slot_length ≤ now
    → days * day_length ≤ now / slot_length * slot_length
    → (resolve_news_collection_slot (aware now) (some (aware t)) days ≡ slot start end_at) ↔ (
        (t % slot_length ≡ 0)
        × (t ≤ now / slot_length * slot_length)
        × (now / slot_length * slot_length ≤ t + days * day_length)
        × (start ≡ t - slot_length)
        × (end_at ≡ t))
unfolding resolve_news_collection_slot
requested_slot_iff now t days start end_at h room =
    rw (latest_end now h, resolve_slot)
      ((λ e. ground (arith, is_aligned_iff t, e)), (λ e. ground (arith, is_aligned_iff t, e)))

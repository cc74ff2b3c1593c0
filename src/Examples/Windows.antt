-- ===== src/Examples/Windows.antt =====
-- Slots and windows: app/batch/policies and app/db/repositories/news_collection_run_repo.py on days of which
-- each is a session that closes at its end.
use stockapp.Prelude.{
  ℕ, ◌-◌, ◌*◌, ◌<◌, ◌≤◌, ◌≡◌, refl, Bool, true, false, not, ◌↔◌, List, [], ◌∷◌, take, any, select,
  arith, none, some,
}
use mathlib.Core.List.{reverse}
use stockapp.News.Slot.{aware, slot_length}
use stockapp.News.Coverage.{Interval, intervals_cover_window, contains, intervals_cover_window_iff}
use stockapp.News.Catchup.{missed_slot_ends, grid_back, missed_slot_ends_lem}
use stockapp.News.Session.{
  Calendar, Settings, Draft, latest_completed_session, build_context, window_start, draft_from,
  step_back, data_grace, IsLatest, latest_completed_session-IsLatest,
}

abbrev earlier_end : ℕ
earlier_end = 90000000000

abbrev two_runs : List Interval
two_runs =
    record { window_start_at = 10; window_end_at = 40 }
    ∷ record { window_start_at = 30; window_end_at = 70 }
    ∷ []

intervals_cover_window_iff_example :
    (intervals_cover_window two_runs 20 60 ≡ true)
    ↔ ((t : ℕ) → 20 ≤ t → t < 60 → any (contains t) two_runs ≡ true)
intervals_cover_window_iff_example =
    intervals_cover_window_iff two_runs 20 60 ((omega arith, tt), (tt, tt))

abbrev never_covered : ℕ → Bool
never_covered t = false

missed_slot_ends_lem_example :
    missed_slot_ends 2 3 never_covered 18000000000
    ≡ reverse (
        take 2
          (select (λ t. not (never_covered t)) (grid_back (3 * 2 - 1) (18000000000 - slot_length))))
missed_slot_ends_lem_example =
    missed_slot_ends_lem 2 3 never_covered 18000000000 (omega arith) (omega arith)

abbrev every_day : Calendar
every_day = record {
  IsSession = λ d. Unit;
  session_on_or_before = λ d. d;
  previous_session = λ d. d - 1;
  session_close = λ d. d * 86400000000;
  on_or_before_session = λ d. tt;
  on_or_before_le = λ d. omega arith;
  on_or_before_last = λ d s h le. le;
  previous_is_session = λ d s h lt. tt;
  previous_lt = λ d s h lt. omega arith;
  previous_last = λ d s h lt. omega arith;
}

abbrev settings : Settings
settings = record { market_session_data_grace_minutes = 10; news_window_max_lookback_hours = 48 }

-- The first instant of day 30.
abbrev midnight : ℕ
midnight = 2592000000000

latest_completed_session-IsLatest_example :
    (r : ℕ) × (latest_completed_session every_day settings midnight ≡ some r)
    × IsLatest every_day settings midnight 30 r
latest_completed_session-IsLatest_example =
    latest_completed_session-IsLatest every_day settings midnight 29 tt (omega arith) (omega arith)

abbrev resumed : Draft
resumed = record {
  expected_session_date = 29;
  session_close_at = 2505600000000;
  news_window_start_at = 2588400000000;
  news_window_end_at = midnight;
  lookback_capped = false;
}

resumed_context :
    build_context every_day settings (aware midnight) (some (aware 2588400000000)) ≡ some resumed
unfolding build_context window_start draft_from latest_completed_session step_back data_grace
resumed_context = refl

abbrev first_draft : Draft
first_draft = record {
  expected_session_date = 29;
  session_close_at = 2505600000000;
  news_window_start_at = 2505600000000;
  news_window_end_at = midnight;
  lookback_capped = false;
}

first_context : build_context every_day settings (aware midnight) none ≡ some first_draft
unfolding build_context window_start draft_from latest_completed_session step_back data_grace
first_context = refl

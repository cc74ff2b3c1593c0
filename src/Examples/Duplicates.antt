-- ===== src/Examples/Duplicates.antt =====
-- Three raw articles of two markets, two of which are duplicates, and a window of which half an hour
-- is missing: app/batch/steps/dedupe_articles.py.
use stockapp.Prelude.{ℕ, ◌≡◌, ◌⊎◌, refl, arith, Option, some, none, List, [], ◌∷◌, inl, All}
use stockapp.Keys.{NoRepeat}
use stockapp.Queue.Job.{partial, failed}
use stockapp.Outcome.{BatchExecutionContext, determine_batch_status}
use stockapp.News.Slot.{aware}
use stockapp.News.Coverage.{Interval}
use stockapp.Dedupe.{RawArticle, Tables, unique_targets, Loop, run_dedupe}
use stockapp.Dedupe.Linked.{keys_of}
use stockapp.Dedupe.Stored.{IsKeyed}
use stockapp.Dedupe.Runs.{IsProcessed, run-IsLinked}
use stockapp.Dedupe.Step.{MarketContext, Queries, run_step}
use stockapp.Dedupe.Uncovered.{HasGap}
use stockapp.Finalize.{finalize_context}
use stockapp.Finalize.Gap.{gap-ended}
use stockapp.Examples.Redactions.{korea_reader, two_digits}
use stockapp.Examples.Diagnostics.{blank}

abbrev korea_first : RawArticle
korea_first = record { raw_article_id = 1; market_type = 1; duplicate_key = 7; dedupe_hash = 70 }

abbrev korea_again : RawArticle
korea_again = record { raw_article_id = 2; market_type = 1; duplicate_key = 7; dedupe_hash = 71 }

abbrev overseas : RawArticle
overseas = record { raw_article_id = 3; market_type = 2; duplicate_key = 7; dedupe_hash = 70 }

abbrev three_articles : List RawArticle
three_articles = korea_first ∷ korea_again ∷ overseas ∷ []

abbrev no_tables : Tables ℕ
no_tables = record { processed = []; links = []; next_id = 1 }

abbrev fetch_id : RawArticle → ℕ
fetch_id a = a.raw_article_id

run-IsLinked_example :
    NoRepeat (keys_of (unique_targets [] three_articles))
    × ((final : Loop ℕ) × ((run_dedupe 20000 fetch_id three_articles no_tables ≡ some final)
          × (IsKeyed final.tables
              × All (IsProcessed fetch_id 20000 three_articles final) three_articles)))
run-IsLinked_example =
    run-IsLinked fetch_id 20000 three_articles no_tables (record { given = tt; once = tt })

abbrev korea : MarketContext
korea = record { market = 1; news_window_start_at = 0; news_window_end_at = 9000000000 }

-- The last hour and a half was never collected.
abbrev first_hour : List Interval
first_hour = record { window_start_at = 0; window_end_at = 3600000000 } ∷ []

abbrev answers : Queries
answers = record {
  list_articles_by_window = λ m. korea_first ∷ korea_again ∷ [];
  list_complete_intervals = λ m d. first_hour;
  clock = λ m. aware 10800000000;
  market_name = λ m. "KR";
  decimal = λ n. "2";
}

abbrev afterwards : Option (BatchExecutionContext × Tables ℕ) → BatchExecutionContext × Tables ℕ
afterwards none = (blank, no_tables)
afterwards (some r) = r

abbrev ended : BatchExecutionContext × Tables ℕ
ended = afterwards (run_step answers fetch_id (korea ∷ []) blank no_tables)

step_ends : run_step answers fetch_id (korea ∷ []) blank no_tables ≡ some (ended.0, ended.1)
unfolding run_step stockapp.Dedupe.Step.after_flag stockapp.Dedupe.Step.after_windows
    stockapp.Dedupe.Step.read_markets stockapp.News.Slot.collectable_window_end
    stockapp.Dedupe.Step.dedupe_read stockapp.Dedupe.Step.read_market stockapp.Dedupe.put_window
    stockapp.Dedupe.put_target run_dedupe stockapp.Dedupe.dedupe_articles
    stockapp.Dedupe.dedupe_article stockapp.Dedupe.new_group unique_targets
step_ends = refl

missing : HasGap answers korea
unfolding stockapp.News.Slot.collectable_window_end
missing = record {
  deadline = 9000000000;
  collectable = refl;
  instant = 3600000000;
  after_start = omega arith;
  before_end = omega arith;
  uncovered = refl;
}

gap-ended_example :
    (determine_batch_status (finalize_context two_digits korea_reader ended.0) ≡ partial)
    ⊎ (determine_batch_status (finalize_context two_digits korea_reader ended.0) ≡ failed)
gap-ended_example =
    gap-ended answers korea_reader two_digits fetch_id (korea ∷ []) korea blank ended.0 ended.0
      no_tables ended.1 refl (inl refl) missing step_ends (λ s i. i)

-- ===== src/Dedupe/Step.antt =====
-- DedupeArticlesStep.run of app/batch/steps/dedupe_articles.py: the windows of the markets with their
-- coverage, and the counters of the context. What others answer is an argument, and the step's
-- events are left out.
use stockapp.Prelude.{
  ℕ, ◌+◌, String, Bool, true, false, Option, none, some, List, [], ◌∷◌, ◌++◌, length, if◌then◌else◌,
  str_eq,
}
use Prim.Native.String.{◌++◌ as ◌<>◌}
use stockapp.Outcome.{BatchExecutionContext, Tally, add_partial}
use stockapp.News.Slot.{Datetime, collectable_window_end}
use stockapp.News.Coverage.{Interval, intervals_cover_window}
use stockapp.Dedupe.{RawArticle, Tables, put_window, Loop, add_id, run_dedupe}

pub record MarketContext : Type 0 where
  pub market : ℕ
  pub news_window_start_at : ℕ
  pub news_window_end_at : ℕ

-- What the step asks of others: the two repositories' queries, the clock at a market's turn, the
-- name of a market and the decimals of a number.
pub record Queries : Type 0 where
  pub list_articles_by_window : MarketContext → List RawArticle
  pub list_complete_intervals : MarketContext → ℕ → List Interval
  pub clock : MarketContext → Datetime
  pub market_name : ℕ → String
  pub decimal : ℕ → String

-- What the loop over the markets keeps; the flags are the writes of `set_news_coverage_complete`.
pub record Reading : Type 0 where
  pub context : BatchExecutionContext
  pub targets : List RawArticle
  pub raw_ids : List ℕ
  pub flags : List (ℕ × Bool)

-- counts[name] = counts.get(name, 0) + n
unfoldable pub add_count : String → ℕ → Tally → Tally
add_count name n [] = (name, n) ∷ []
add_count name n ((other, m) ∷ counts) =
    let rest = add_count name n counts in
    if str_eq other name then (other, m + n) ∷ counts else (other, m) ∷ rest

unfoldable pub add_ids : List RawArticle → List ℕ → List ℕ
add_ids [] ids = ids
add_ids (a ∷ articles) ids = add_ids articles (add_id a.raw_article_id ids)

abbrev pub uncovered_reason : String → String
uncovered_reason name = name <> " news ingestion coverage is incomplete."

abbrev pub flag_coverage : String → Bool → BatchExecutionContext → BatchExecutionContext
flag_coverage name complete c =
    if complete
    then c
    else add_partial "NEWS_COVERAGE_INCOMPLETE" (some (uncovered_reason name)) none c

abbrev pub log : String → BatchExecutionContext → BatchExecutionContext
log message c = record c { log_messages = c.log_messages ++ message ∷ [] }

module _ (q : Queries) where
  unfoldable pub read_market : MarketContext → Reading → ℕ → Reading
  read_market m r deadline =
      let articles = q.list_articles_by_window m in
      let name = q.market_name m.market in
      let complete =
        intervals_cover_window (q.list_complete_intervals m deadline) m.news_window_start_at
          deadline in
      let counted = record r.context {
        raw_news_count_by_market =
            add_count name (length articles) r.context.raw_news_count_by_market;
      } in
      record {
        context = flag_coverage name complete counted;
        targets = put_window articles r.targets;
        raw_ids = add_ids articles r.raw_ids;
        flags = r.flags ++ (m.market, complete) ∷ [];
      }

  -- A naive clock raises.
  unfoldable pub read_markets : List MarketContext → Reading → Option Reading
  read_markets [] r = some r
  read_markets (m ∷ markets) r = elim (collectable_window_end m.news_window_end_at (q.clock m)) [
    | none ↦ none
    | some deadline ↦ read_markets markets (read_market m r deadline)
  ]

  unfoldable pub add_market_counts : List (ℕ × List ℕ) → Tally → Tally
  add_market_counts [] counts = counts
  add_market_counts ((m, ids) ∷ markets) counts =
      add_market_counts markets (add_count (q.market_name m) (length ids) counts)

  abbrev pub finish : {C : Type 0} → Reading → Loop C → BatchExecutionContext
  finish r l =
      let c = r.context in
      log
        ("Deduplicated "
          <> q.decimal (length r.raw_ids)
          <> " raw articles into "
          <> q.decimal (length l.processed_ids)
          <> " processed articles.")
        (record c {
          raw_news_count = length r.raw_ids;
          processed_news_count = c.processed_news_count + length l.processed_ids;
          processed_news_count_by_market =
              add_market_counts l.ids_by_market c.processed_news_count_by_market;
        })

  -- After the windows are read. A missing content would raise.
  unfoldable pub dedupe_read :
      {C : Type 0}
      → ℕ
      → (RawArticle → C)
      → Tables C
      → Reading
      → List RawArticle
      → Option (BatchExecutionContext × Tables C)
  dedupe_read date fetch tables r [] = some (
    log "No raw articles were available for deduplication."
        (record r.context { raw_news_count = length r.raw_ids }),
    tables,
  )
  dedupe_read date fetch tables r (a ∷ articles) =
      elim (run_dedupe date fetch (a ∷ articles) tables) [
        | none ↦ none
        | some l ↦ some (finish r l, l.tables)
      ]

  unfoldable pub after_windows :
      {C : Type 0}
      → ℕ
      → (RawArticle → C)
      → Tables C
      → Option Reading
      → Option (BatchExecutionContext × Tables C)
  after_windows date fetch tables none = none
  after_windows date fetch tables (some r) = dedupe_read date fetch tables r r.targets

  -- if context.rebuild_page_only: ...
  unfoldable pub after_flag :
      {C : Type 0}
      → Bool
      → (RawArticle → C)
      → List MarketContext
      → BatchExecutionContext
      → Tables C
      → Option (BatchExecutionContext × Tables C)
  after_flag true fetch markets c tables =
      some (log "Skipped dedupe because rebuild_page_only=true." c, tables)
  after_flag false fetch markets c tables =
      after_windows c.business_date fetch tables
        (read_markets markets (record { context = c; targets = []; raw_ids = []; flags = [] }))

  unfoldable pub run_step :
      {C : Type 0}
      → (RawArticle → C)
      → List MarketContext
      → BatchExecutionContext
      → Tables C
      → Option (BatchExecutionContext × Tables C)
  run_step fetch markets c tables = after_flag c.rebuild_page_only fetch markets c tables

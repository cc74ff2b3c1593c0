-- ===== src/Dedupe/Uncovered.antt =====
-- The run's status after app/batch/steps/dedupe_articles.py met a market whose window has a gap.
use stockapp.Prelude.{
  ℕ, ◌≤◌, ◌<◌, ◌≡◌, ◌⊎◌, refl, sym, ap, ◌∙◌, subst, String, Bool, true, false, Option, none, some,
  List, [], ◌∷◌, arith, any, In, inl, inr, Bool-cases,
}
use stockapp.Queue.Job.{partial, failed}
use stockapp.Outcome.{BatchExecutionContext, holds_message, determine_batch_status}
use stockapp.Outcome.Kept.{add_partial-holds, add_partial-kept, holds-degraded}
use stockapp.News.Slot.{collectable_window_end}
use stockapp.News.Coverage.{contains, intervals_cover_window, covered-any}
use stockapp.Dedupe.{RawArticle, Tables, Loop, run_dedupe}
use stockapp.Dedupe.Step.{
  MarketContext, Queries, Reading, uncovered_reason, flag_coverage, read_market, read_markets,
  finish, dedupe_read, after_windows, after_flag, run_step,
}

flag-kept :
    (name s : String) (complete : Bool) (c : BatchExecutionContext)
    → holds_message s c.partial_reasons ≡ true
    → holds_message s (flag_coverage name complete c).partial_reasons ≡ true
flag-kept name s true c h = h
flag-kept name s false c h =
    add_partial-kept "NEWS_COVERAGE_INCOMPLETE" (some (uncovered_reason name)) none s c h

module _ (q : Queries) where
  -- The two ways of a market's turn: its clock is naive and the loop raises, or it has a deadline.
  market_turn :
      (P : Type 0) (m : MarketContext) (markets : List MarketContext) (r r' : Reading)
      → ((deadline : ℕ)
          → collectable_window_end m.news_window_end_at (q.clock m) ≡ some deadline
          → read_markets q markets (read_market q m r deadline) ≡ some r'
          → P)
      → read_markets q (m ∷ markets) r ≡ some r'
      → P
  unfolding read_markets
  market_turn P m markets r r' next e =
      by_deadline (collectable_window_end m.news_window_end_at (q.clock m)) refl e
    where
      by_deadline :
          (o : Option ℕ)
          → collectable_window_end m.news_window_end_at (q.clock m) ≡ o
          → (elim o [ none ↦ none | some d ↦ read_markets q markets (read_market q m r d) ])
            ≡ some r'
          → P
      by_deadline none c e = cc
      by_deadline (some d) c e = next d c e

  read_markets-kept :
      (s : String) (markets : List MarketContext) (r r' : Reading)
      → holds_message s r.context.partial_reasons ≡ true
      → read_markets q markets r ≡ some r'
      → holds_message s r'.context.partial_reasons ≡ true
  unfolding read_markets
  read_markets-kept s [] r r' h e =
      subst (λ (z : Reading). holds_message s z.context.partial_reasons ≡ true)
        (ap (λ o. elim o [ none ↦ r | some x ↦ x ]) e) h
  read_markets-kept s (m ∷ markets) r r' h e =
      market_turn _ m markets r r'
        (λ d c next.
          read_markets-kept s markets (read_market q m r d) r'
            (unfold read_market in (flag-kept (q.market_name m.market) s _ _ h)) next)
        e

  -- The window of the market, up to what can be collected, has an instant that no interval has.
  pub record HasGap (m : MarketContext) : Type 0 where
    pub deadline : ℕ
    pub collectable : collectable_window_end m.news_window_end_at (q.clock m) ≡ some deadline
    pub instant : ℕ
    pub after_start : m.news_window_start_at ≤ instant
    pub before_end : instant < deadline
    pub uncovered : any (contains instant) (q.list_complete_intervals m deadline) ≡ false

  read_market-gap :
      (m : MarketContext) (r : Reading) (g : HasGap m)
      → holds_message
          (uncovered_reason (q.market_name m.market))
          (read_market q m r g.deadline).context.partial_reasons
        ≡ true
  unfolding read_market
  read_market-gap m r g =
      elim (Bool-cases (
        intervals_cover_window (q.list_complete_intervals m g.deadline) m.news_window_start_at
          g.deadline)) [
            | inl e ↦
                let there =
                  covered-any (q.list_complete_intervals m g.deadline) m.news_window_start_at
                    g.deadline g.instant e g.after_start g.before_end in
                ground (arith, there, g.uncovered)
            | inr e ↦ rw e (
                add_partial-holds "NEWS_COVERAGE_INCOMPLETE"
                  (uncovered_reason (q.market_name m.market)) none _)
          ]

  read_markets-gap :
      (m : MarketContext) (markets : List MarketContext) (r r' : Reading)
      → HasGap m
      → In m markets
      → read_markets q markets r ≡ some r'
      → holds_message (uncovered_reason (q.market_name m.market)) r'.context.partial_reasons ≡ true
  unfolding read_markets
  read_markets-gap m [] r r' g i e = elim i [ ]
  read_markets-gap m (k ∷ markets) r r' g (inr i) e =
      market_turn _ k markets r r'
        (λ d c next. read_markets-gap m markets (read_market q k r d) r' g i next) e
  read_markets-gap m (k ∷ markets) r r' g (inl same) e =
      market_turn _ k markets r r'
        (λ d c next.
          let here =
            subst
              (λ (z : MarketContext).
                collectable_window_end z.news_window_end_at (q.clock z) ≡ some d)
              (sym same) c in
          let at : g.deadline ≡ d =
            ap (λ o. elim o [ none ↦ d | some x ↦ x ]) (sym g.collectable ∙ here) in
          read_markets-kept (uncovered_reason (q.market_name m.market)) markets
            (read_market q k r d) r'
            (subst
              (λ (z : MarketContext).
                holds_message (uncovered_reason (q.market_name m.market))
                  (read_market q z r d).context.partial_reasons
                ≡ true)
              same
              (subst
                (λ z.
                  holds_message (uncovered_reason (q.market_name m.market))
                    (read_market q m r z).context.partial_reasons
                  ≡ true)
                at (read_market-gap m r g)))
            next)
        e

  -- What follows the windows leaves the reasons alone.
  dedupe_read-kept :
      {C : Type 0}
      → (s : String) (date : ℕ) (fetch : RawArticle → C) (tables tables' : Tables C) (r : Reading)
      → (articles : List RawArticle) (c : BatchExecutionContext)
      → holds_message s r.context.partial_reasons ≡ true
      → dedupe_read q date fetch tables r articles ≡ some (c, tables')
      → holds_message s c.partial_reasons ≡ true
  unfolding dedupe_read
  dedupe_read-kept s date fetch tables tables' r [] c h e =
      subst (λ (z : BatchExecutionContext). holds_message s z.partial_reasons ≡ true)
        (ap (λ o. elim o [ none ↦ c | some x ↦ x.0 ]) e) h
  dedupe_read-kept {C = C} s date fetch tables tables' r (a ∷ articles) c h e =
      by_loop (run_dedupe date fetch (a ∷ articles) tables) e
    where
      by_loop :
          (o : Option (Loop C))
          → ◌≡◌ {A = Option (BatchExecutionContext × Tables C)}
              (elim o [ none ↦ none | some l ↦ some (finish q r l, l.tables) ])
              (some (c, tables'))
          → holds_message s c.partial_reasons ≡ true
      by_loop none e = cc
      by_loop (some l) e =
          subst (λ (z : BatchExecutionContext). holds_message s z.partial_reasons ≡ true)
            (ap (λ o. elim o [ none ↦ c | some x ↦ x.0 ]) e) h

  -- The gap's reason is in the context that the step returns.
  pub run_step-holds :
      {C : Type 0}
      → (fetch : RawArticle → C) (markets : List MarketContext) (m : MarketContext)
      → (c c' : BatchExecutionContext) (tables tables' : Tables C) → c.rebuild_page_only ≡ false
      → In m markets
      → HasGap m
      → run_step q fetch markets c tables ≡ some (c', tables')
      → holds_message (uncovered_reason (q.market_name m.market)) c'.partial_reasons ≡ true
  unfolding run_step after_flag
  run_step-holds {C = C} fetch markets m c c' tables tables' full i g e =
      windows_read (read_markets q markets start) refl
        (subst (λ b. after_flag q b fetch markets c tables ≡ some (c', tables')) full e)
    where
      start : Reading
      start = record { context = c; targets = []; raw_ids = []; flags = [] }

      windows_read :
          (o : Option Reading)
          → read_markets q markets start ≡ o
          → after_windows q c.business_date fetch tables o ≡ some (c', tables')
          → holds_message (uncovered_reason (q.market_name m.market)) c'.partial_reasons ≡ true
      windows_read none k e = unfold after_windows in cc
      windows_read (some r) k e =
          dedupe_read-kept _ c.business_date fetch tables tables' r r.targets c'
            (read_markets-gap m markets start r g i k) (unfold after_windows in e)

  -- When the step ends and the window of some market, up to the last slot that can have been
  -- collected, has an instant in none of the completed intervals, the status of the run is PARTIAL or
  -- FAILED, never SUCCESS. The run is no rebuild of the page alone.
  pub gap-degraded :
      {C : Type 0}
      → (fetch : RawArticle → C) (markets : List MarketContext) (m : MarketContext)
      → (c c' : BatchExecutionContext) (tables tables' : Tables C) → c.rebuild_page_only ≡ false
      → In m markets
      → HasGap m
      → run_step q fetch markets c tables ≡ some (c', tables')
      → (determine_batch_status c' ≡ partial) ⊎ (determine_batch_status c' ≡ failed)
  gap-degraded fetch markets m c c' tables tables' full i g e =
      holds-degraded (uncovered_reason (q.market_name m.market)) c'
        (run_step-holds fetch markets m c c' tables tables' full i g e)

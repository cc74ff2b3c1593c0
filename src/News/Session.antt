-- ===== src/News/Session.antt =====
-- The news window and the completed session of a market: app/batch/policies/market_session_policy.py.
-- The exchange calendar is a library, and so a parameter.
use stockapp.Prelude.{
  ℕ, zero, suc, ◌+◌, ◌-◌, ◌*◌, ◌/◌, ◌≤◌, ◌<◌, ◌≡◌, ◌↔◌, refl, subst, Bool, true, false, Option,
  none, some, arith, ltb, if◌then◌else◌, Bool-cases, Option-cases, inl, inr,
}
use stockapp.News.Slot.{Datetime, aware, naive, hour_length, minute_length, day_length}

-- ExchangeCalendar for one market, with days as numbers: the sessions, and what the code relies on
-- of the two lookups (app/batch/calendars.py calls exchange-calendars for them).
pub record Calendar : Type 1 where
  pub IsSession : ℕ → Type 0
  pub session_on_or_before : ℕ → ℕ
  pub previous_session : ℕ → ℕ
  pub session_close : ℕ → ℕ
  pub on_or_before_session : (d : ℕ) → IsSession (session_on_or_before d)
  pub on_or_before_le : (d : ℕ) → session_on_or_before d ≤ d
  pub on_or_before_last : (d s : ℕ) → IsSession s → s ≤ d → s ≤ session_on_or_before d
  pub previous_is_session : (d s : ℕ) → IsSession s → s < d → IsSession (previous_session d)
  pub previous_lt : (d s : ℕ) → IsSession s → s < d → previous_session d < d
  pub previous_last : (d s : ℕ) → IsSession s → s < d → s ≤ previous_session d

pub record Settings : Type 0 where
  pub market_session_data_grace_minutes : ℕ
  pub news_window_max_lookback_hours : ℕ

-- MarketContextDraft
pub record Draft : Type 0 where
  pub expected_session_date : ℕ
  pub session_close_at : ℕ
  pub news_window_start_at : ℕ
  pub news_window_end_at : ℕ
  pub lookback_capped : Bool

module _ (c : Calendar) (s : Settings) where
  open c use {session_on_or_before, previous_session, session_close}

  unfoldable pub data_grace : ℕ
  data_grace = s.market_session_data_grace_minutes * minute_length

  -- The `while` loop over earlier sessions; `none` means that the fuel ran out.
  unfoldable pub step_back : ℕ → ℕ → ℕ → Option ℕ
  unfolding data_grace
  step_back zero as_of session_date = none
  step_back (suc fuel) as_of session_date =
      let earlier = step_back fuel as_of (previous_session session_date) in
      if ltb as_of (session_close session_date + data_grace) then earlier else some session_date

  -- One round for each day up to the local day is enough, since each round moves to an earlier day.
  unfoldable pub latest_completed_session : ℕ → Option ℕ
  unfolding step_back
  latest_completed_session as_of =
      let local_day = as_of / day_length in
      step_back (suc local_day) as_of (session_on_or_before local_day)

  -- The start of the window; nothing for a watermark after the window's end or without a time
  -- zone (`ValueError`).
  unfoldable pub window_start : ℕ → Option Datetime → Option (ℕ × Bool)
  window_start window_end_at none = some (window_end_at - 24 * hour_length, false)
  window_start window_end_at (some (naive t)) = none
  window_start window_end_at (some (aware t)) =
      let earliest_start_at = window_end_at - s.news_window_max_lookback_hours * hour_length in
      if ltb window_end_at t
      then none
      else if ltb t earliest_start_at
      then some (earliest_start_at, true)
      else some (t, false)

  unfoldable pub draft_from : ℕ → Option (ℕ × Bool) → Option ℕ → Option Draft
  draft_from window_end_at none session = none
  draft_from window_end_at (some start) none = none
  draft_from window_end_at (some (start, capped)) (some session_date) = some (record {
    expected_session_date = session_date;
    session_close_at = session_close session_date;
    news_window_start_at = start;
    news_window_end_at = window_end_at;
    lookback_capped = capped;
  })

  unfoldable pub build_context : Datetime → Option Datetime → Option Draft
  unfolding window_start draft_from
  build_context (naive as_of) previous = none
  build_context (aware as_of) previous =
      draft_from as_of (window_start as_of previous) (latest_completed_session as_of)

  -- The session that the loop settles on: its data has settled, and no later one's has.
  pub record IsLatest (as_of from session : ℕ) : Type 0 where
    pub is_session : c.IsSession session
    pub no_later : session ≤ from
    pub settled :
        session_close session + s.market_session_data_grace_minutes * minute_length ≤ as_of
    pub last :
        (d : ℕ)
        → c.IsSession d
        → d ≤ from
        → session_close d + s.market_session_data_grace_minutes * minute_length ≤ as_of
        → d ≤ session

  -- Behind a session that has not settled the search goes on from the one before it.
  earlier-IsLatest :
      (as_of from d r : ℕ)
      → c.IsSession d
      → d < from
      → as_of < session_close from + s.market_session_data_grace_minutes * minute_length
      → IsLatest as_of (previous_session from) r
      → IsLatest as_of from r
  earlier-IsLatest as_of from d r sd le late l = record {
    is_session = l.is_session;
    no_later = omega (arith, l.no_later, c.previous_lt from d sd le);
    settled = l.settled;
    last = λ x sx below ok.
        l.last x sx
          (c.previous_last from x sx (elim (Bool-cases (ltb x from)) [
            | inl b ↦ ground (arith, b)
            | inr b ↦
                let same : x ≡ from = ground (arith, b, below) in
                let settled_from =
                  subst
                    (λ z.
                      session_close z + s.market_session_data_grace_minutes * minute_length ≤ as_of)
                    same ok in
                absurd (omega arith)
          ]))
          ok;
  }

  step_back-IsLatest :
      (fuel as_of from d : ℕ)
      → c.IsSession from
      → c.IsSession d
      → d ≤ from
      → session_close d + s.market_session_data_grace_minutes * minute_length ≤ as_of
      → from < d + fuel
      → (r : ℕ) × (step_back fuel as_of from ≡ some r) × IsLatest as_of from r
  unfolding step_back
  step_back-IsLatest zero as_of from d sf sd le ok f = absurd (omega arith)
  step_back-IsLatest (suc fuel) as_of from d sf sd le ok f =
      elim (Bool-cases
        (ltb as_of (session_close from + s.market_session_data_grace_minutes * minute_length))) [
          | inl late ↦
              let below : d < from = (elim (Bool-cases (ltb d from)) [
                | inl b ↦ ground (arith, b)
                | inr b ↦
                    let same : d ≡ from = ground (arith, b, le) in
                    let settled_from =
                      subst
                        (λ z.
                          session_close z + s.market_session_data_grace_minutes * minute_length
                          ≤ as_of)
                        same ok in
                    absurd (ground (arith, late, settled_from))
              ]) in
              let (r, e, l) =
                step_back-IsLatest fuel as_of (previous_session from) d
                  (c.previous_is_session from d sd below) sd (c.previous_last from d sd below) ok
                  (omega (arith, c.previous_lt from d sd below)) in
              (r, rw late e, earlier-IsLatest as_of from d r sd below (ground (arith, late)) l)
          | inr done ↦ (
            from,
            rw done refl,
            record {
              is_session = sf;
              no_later = omega arith;
              settled = ground arith;
              last = λ x _ l _. l;
            },
          )
        ]

  -- If some session up to the local day has settled (its close and the data grace are past), the
  -- loop ends with a session, and it is the latest settled one up to that day.
  pub latest_completed_session-IsLatest :
      (as_of d : ℕ)
      → c.IsSession d
      → d ≤ as_of / day_length
      → session_close d + s.market_session_data_grace_minutes * minute_length ≤ as_of
      → (r : ℕ) × (latest_completed_session as_of ≡ some r)
        × IsLatest as_of (session_on_or_before (as_of / day_length)) r
  unfolding latest_completed_session
  latest_completed_session-IsLatest as_of d sd le ok =
      step_back-IsLatest (suc (as_of / day_length)) as_of
        (session_on_or_before (as_of / day_length)) d (c.on_or_before_session _) sd
        (c.on_or_before_last _ d sd le) ok (omega (arith, c.on_or_before_le (as_of / day_length)))

  -- A context's window from a watermark t ends at as_of, starts at t or later and never after
  -- as_of, and is at most the lookback long; it starts at t exactly if it is not marked as capped.
  pub build_context_resume :
      (as_of t : ℕ) (draft : Draft)
      → build_context (aware as_of) (some (aware t)) ≡ some draft
      → (draft.news_window_end_at ≡ as_of)
        × (t ≤ draft.news_window_start_at)
        × (draft.news_window_start_at ≤ as_of)
        × (as_of ≤ draft.news_window_start_at + s.news_window_max_lookback_hours * hour_length)
        × ((draft.lookback_capped ≡ false) ↔ (draft.news_window_start_at ≡ t))
  unfolding build_context
  build_context_resume as_of t draft e =
      ground (arith, e, Option-cases (latest_completed_session as_of))

  -- The first window of a market is the last 24 hours, whatever the lookback.
  pub build_context_first :
      (as_of : ℕ) (draft : Draft)
      → 24 * hour_length ≤ as_of
      → build_context (aware as_of) none ≡ some draft
      → (draft.news_window_end_at ≡ as_of) × (draft.news_window_start_at + 24 * hour_length ≡ as_of)
  unfolding build_context
  build_context_first as_of draft h e =
      ground (arith, e, Option-cases (latest_completed_session as_of))

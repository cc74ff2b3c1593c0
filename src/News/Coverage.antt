-- ===== src/News/Coverage.antt =====
-- Coverage of a news window by completed collection runs: `intervals_cover_window` of
-- app/db/repositories/news_collection_run_repo.py.
use stockapp.Prelude.{
  ℕ, ◌≤◌, ◌<◌, ◌≡◌, ◌↔◌, refl, Bool, true, false, ◌&&◌, List, [], ◌∷◌, arith, max, ltb, leb, any,
  All, All-imp, if◌then◌else◌, Bool-cases, inl, inr,
}

-- NewsCoverageInterval, a half-open interval.
pub record Interval : Type 0 where
  pub window_start_at : ℕ
  pub window_end_at : ℕ

-- The body of the loop over the intervals, from the instant that is covered so far.
cover_from : ℕ → List Interval → ℕ → Bool
cover_from covered_until [] window_end_at = false
cover_from covered_until (interval ∷ intervals) window_end_at =
    let skip = cover_from covered_until intervals window_end_at in
    let covered = max covered_until interval.window_end_at in
    let extend = cover_from covered intervals window_end_at in
    if leb interval.window_end_at covered_until
    then skip
    else if ltb covered_until interval.window_start_at
    then false
    else if leb window_end_at covered
    then true
    else extend

unfoldable pub intervals_cover_window : List Interval → ℕ → ℕ → Bool
unfolding cover_from
intervals_cover_window intervals window_start_at window_end_at =
    if leb window_end_at window_start_at
    then true
    else cover_from window_start_at intervals window_end_at

-- start <= t < end
abbrev pub contains : ℕ → Interval → Bool
contains t i = leb i.window_start_at t && ltb t i.window_end_at

-- ORDER BY run.window_start_at, as `list_complete_intervals` reads the intervals.
abbrev pub IsSorted : List Interval → Type 0
IsSorted [] = Unit
IsSorted (i ∷ is) = All (λ j. i.window_start_at ≤ j.window_start_at) is × IsSorted is

cover_from_sound :
    (c : ℕ) (is : List Interval) (e t : ℕ)
    → cover_from c is e ≡ true
    → c ≤ t
    → t < e
    → any (contains t) is ≡ true
unfolding cover_from
cover_from_sound c [] e t h l r = h
cover_from_sound c (i ∷ is) e t h l r =
    ground (arith, cover_from_sound c is e t, cover_from_sound (max c i.window_end_at) is e t)

-- Before the first start of a sorted list nothing is covered.
not_before :
    (t : ℕ) (is : List Interval) → All (λ j. t < j.window_start_at) is → any (contains t) is ≡ false
not_before t [] h = refl
not_before t (i ∷ is) h = ground (arith, h.0, not_before t is h.1)

cover_from_complete :
    (c : ℕ) (is : List Interval) (e : ℕ)
    → c < e
    → IsSorted is
    → ((t : ℕ) → c ≤ t → t < e → any (contains t) is ≡ true)
    → cover_from c is e ≡ true
unfolding cover_from
cover_from_complete c [] e l s all = all c (omega arith) l
cover_from_complete c (i ∷ is) e l s all = elim (Bool-cases (leb i.window_end_at c)) [
  | inl skip ↦ rw skip (cover_from_complete c is e l s.1 (λ t a b. ground (arith, skip, all t a b)))
  | inr live ↦ rw live (elim (Bool-cases (ltb c i.window_start_at)) [
    | inl gap ↦
        let later = not_before c is (All-imp is (λ j m. ground (arith, gap)) s.0) in
        absurd (ground (arith, gap, later, all c (omega arith) l))
    | inr joined ↦ rw joined (elim (Bool-cases (leb e (max c i.window_end_at))) [
      | inl done ↦ rw done refl
      | inr more ↦ rw more (
          cover_from_complete (max c i.window_end_at) is e (ground arith) s.1
            (λ t a b. ground (arith, all t (omega arith) b, a)))
    ])
  ])
]

-- An instant of a covered window lies in an interval, whatever the order of the intervals.
pub covered-any :
    (intervals : List Interval) (window_start_at window_end_at t : ℕ)
    → intervals_cover_window intervals window_start_at window_end_at ≡ true
    → window_start_at ≤ t
    → t < window_end_at
    → any (contains t) intervals ≡ true
unfolding intervals_cover_window
covered-any is s e t h a b = cover_from_sound s is e t (ground (arith, h, a, b)) a b

-- The test answers true exactly if every instant of the half-open window lies in one of the
-- half-open intervals, for intervals in the order of their starts.
pub intervals_cover_window_iff :
    (intervals : List Interval) (window_start_at window_end_at : ℕ)
    → IsSorted intervals
    → (intervals_cover_window intervals window_start_at window_end_at ≡ true)
      ↔ ((t : ℕ) → window_start_at ≤ t → t < window_end_at → any (contains t) intervals ≡ true)
unfolding intervals_cover_window
intervals_cover_window_iff is s e sorted = elim (Bool-cases (leb e s)) [
  | inl empty ↦ rw empty ((λ h t a b. absurd (ground (arith, empty, a, b))), (λ h. refl))
  | inr open_window ↦ rw open_window (
    (λ h t a b. cover_from_sound s is e t h a b),
    (λ all. cover_from_complete s is e (ground arith) sorted all),
  )
]

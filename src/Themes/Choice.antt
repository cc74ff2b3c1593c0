-- ===== src/Themes/Choice.antt =====
-- What the themes of a cluster satisfy, app/batch/theme_classifier.py.
use stockapp.Prelude.{
  ℕ, select-In, sort_by-In, All-In, ◌≡◌, refl, Bool, true, List, [], arith, select, map, All,
  All-of_In, In-select, Pairwise, Pairwise-imp, Pairwise-of_all, sort_by, sort_by-All,
  sort_by-lexicographic, inl, inr, In,
}
use stockapp.Themes.{
  Candidate, ranks_up, ThemeAssignment, selected_candidates, classify_theme_fallback,
}
use stockapp.Themes.Chosen.{
  numbered, IsChosen, Settled, choose-IsChosen, choose-In, choose-Settled, assign-ranks,
  assign-codes,
}

module _ (parents : List (List ℕ)) where
  -- A cluster gets at most three themes, with ranks from 1 on: the codes of qualified rules among
  -- the scored ones, in the order of score, evidence and catalog position, none of which repeats the
  -- evidence of one before it under the same parent. A qualified rule is left out only if it repeats
  -- a chosen one that ranks before it, or if three are chosen that all rank before it.
  pub classify_theme_fallback_lem :
      (scored : List Candidate)
      → (selected : List Candidate) × IsChosen parents selected
        × ((c : Candidate) → In c selected → In c scored)
        × ((c : Candidate) → In c scored → c.qualified ≡ true → Settled parents selected c)
        × (map (λ (a : ThemeAssignment). a.theme_code) (classify_theme_fallback parents scored)
            ≡ map (λ (c : Candidate). c.code) selected)
        × (map (λ (a : ThemeAssignment). a.rank) (classify_theme_fallback parents scored)
            ≡ numbered 1 selected)
  unfolding classify_theme_fallback selected_candidates
  classify_theme_fallback_lem scored =
      let good = select (λ (c : Candidate). c.qualified) scored in
      let always : Candidate → Candidate → Bool = λ a b. true in
      let ordered =
        sort_by-lexicographic ranks_up always (λ a b e. ground (arith, e))
          (λ a b c e f. ground (arith, e, f)) good
          (Pairwise-of_all (λ a b. always a b ≡ true) good (λ a b. refl)) in
      let in_order : Pairwise (λ a b. ranks_up a b ≡ true) (sort_by ranks_up good) =
        Pairwise-imp _ (λ a b. ranks_up a b ≡ true) (sort_by ranks_up good)
          (λ a b e. ground (arith, e)) ordered in
      let there : All (λ d. In d scored) (sort_by ranks_up good) =
        sort_by-All (λ d. In d scored) ranks_up good
          (All-of_In _ good (λ c m. (In-select (λ (c : Candidate). c.qualified) scored c m).0)) in
      let selected = selected_candidates parents scored in
      (
        selected,
        choose-IsChosen parents (sort_by ranks_up good) [] (omega arith)
            (record { at_most_three = omega arith; all_qualified = tt; distinct = tt })
            (sort_by-All (λ (c : Candidate). c.qualified ≡ true) ranks_up good
              (All-of_In _ good (λ c m. (In-select (λ (c : Candidate). c.qualified) scored c m).1)))
            (All-of_In _ (sort_by ranks_up good) (λ c m. tt)) in_order,
        λ c m. elim (choose-In parents (sort_by ranks_up good) [] c m) [
          | inl n ↦ elim n [ ]
          | inr k ↦ All-In (λ d. In d scored) (sort_by ranks_up good) c there k
        ],
        λ c m q.
            All-In (Settled parents selected) (sort_by ranks_up good) c
              (choose-Settled parents (sort_by ranks_up good) []
                (All-of_In _ (sort_by ranks_up good) (λ c m. tt)) in_order)
              (sort_by-In ranks_up good c
                (select-In (λ (c : Candidate). c.qualified) scored c m q)),
        assign-codes 1 selected,
        assign-ranks 1 selected,
      )

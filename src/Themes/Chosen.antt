-- ===== src/Themes/Chosen.antt =====
-- The loop over the candidate themes of a cluster, app/batch/theme_classifier.py.
use stockapp.Prelude.{
  ℕ, suc, ◌&&◌, if◌then◌else◌, ◌≤◌, ◌<◌, ◌≡◌, refl, Bool, true, false, List, [], ◌∷◌, ◌++◌, arith,
  ◌==◌, length, length-append, any, map, All, All-append, All-imp, Pairwise, Pairwise-snoc,
  Bool-cases, inl, inr, ap, sym, ◌∙◌, subst, In, ◌⊎◌, ==_iff,
}
use mathlib.Core.List.{append_assoc, append-nil}
use stockapp.Themes.{Candidate, repeats, ranks_up, choose, ThemeAssignment, assign}

-- The numbers from `rank` on, one for each member.
abbrev pub numbered : {A : Type 0} → ℕ → List A → List ℕ
numbered rank [] = []
numbered rank (x ∷ xs) = rank ∷ numbered (suc rank) xs

pub assign-ranks :
    (rank : ℕ) (selected : List Candidate)
    → map (λ (a : ThemeAssignment). a.rank) (assign rank selected) ≡ numbered rank selected
unfolding assign
assign-ranks rank [] = refl
assign-ranks rank (c ∷ selected) = ap (λ z. rank ∷ z) (assign-ranks (suc rank) selected)

pub assign-codes :
    (rank : ℕ) (selected : List Candidate)
    → map (λ (a : ThemeAssignment). a.theme_code) (assign rank selected)
      ≡ map (λ (c : Candidate). c.code) selected
unfolding assign
assign-codes rank [] = refl
assign-codes rank (c ∷ selected) = ap (λ z. c.code ∷ z) (assign-codes (suc rank) selected)

module _ (parents : List (List ℕ)) where
  -- A chosen pair: in the order of the ranking, the later not repeating the earlier.
  abbrev pub Follows : Candidate → Candidate → Type 0
  Follows e c = (ranks_up e c ≡ true) × (repeats parents c e ≡ false)

  pub record IsChosen (selected : List Candidate) : Type 0 where
    pub at_most_three : length selected ≤ 3
    pub all_qualified : All (λ (c : Candidate). c.qualified ≡ true) selected
    pub distinct : Pairwise Follows selected

  none_repeats :
      (c : Candidate) (selected : List Candidate)
      → any (repeats parents c) selected ≡ false
      → All (λ e. ranks_up e c ≡ true) selected
      → All (λ e. Follows e c) selected
  none_repeats c [] e a = tt
  none_repeats c (s ∷ selected) e a =
      ((a.0, ground (arith, e)), none_repeats c selected (ground (arith, e)) a.1)

  pub choose-IsChosen :
      (candidates selected : List Candidate)
      → length selected < 3
      → IsChosen selected
      → All (λ (c : Candidate). c.qualified ≡ true) candidates
      → All (λ c. All (λ e. ranks_up e c ≡ true) selected) candidates
      → Pairwise (λ a b. ranks_up a b ≡ true) candidates
      → IsChosen (choose parents selected candidates)
  unfolding choose
  choose-IsChosen [] selected few i q before ordered = i
  choose-IsChosen (c ∷ candidates) selected few i q before ordered =
      elim (Bool-cases (any (repeats parents c) selected)) [
        | inl e ↦ rw e (choose-IsChosen candidates selected few i q.1 before.1 ordered.1)
        | inr e ↦
            let chosen = selected ++ c ∷ [] in
            let longer = length-append selected (c ∷ []) in
            let j : IsChosen chosen = record {
              at_most_three = omega (arith, few, longer);
              all_qualified = All-append _ selected (c ∷ []) i.all_qualified (q.0, tt);
              distinct =
                  Pairwise-snoc Follows selected c (none_repeats c selected e before.0) i.distinct;
            } in
            elim (Bool-cases (length chosen == 3)) [
              | inl full ↦ rw (e, full) j
              | inr room ↦
                  rw (e, room)
                    (choose-IsChosen candidates chosen (ground (arith, room, few, longer)) j q.1
                      (after candidates before.1 ordered.0) ordered.1)
            ]
      ]
    where
      after :
          (later : List Candidate)
          → All (λ d. All (λ e. ranks_up e d ≡ true) selected) later
          → All (λ d. ranks_up c d ≡ true) later
          → All (λ d. All (λ e. ranks_up e d ≡ true) (selected ++ c ∷ [])) later
      after [] a b = tt
      after (d ∷ later) a b = (All-append _ selected (c ∷ []) a.0 (b.0, tt), after later a.1 b.1)

  -- Why a candidate needs no further look: it is chosen, repeats a chosen one that ranks before it,
  -- or three are chosen and all of them rank before it.
  abbrev pub Settled : List Candidate → Candidate → Type 0
  Settled selected c =
      In c selected
      ⊎ ((any (λ e. ranks_up e c && repeats parents c e) selected ≡ true)
          ⊎ ((length selected ≡ 3) × All (λ e. ranks_up e c ≡ true) selected))

  ranked_repeats :
      (c : Candidate) (selected : List Candidate)
      → any (repeats parents c) selected ≡ true
      → All (λ e. ranks_up e c ≡ true) selected
      → any (λ e. ranks_up e c && repeats parents c e) selected ≡ true
  ranked_repeats c [] e a = cc
  ranked_repeats c (s ∷ selected) e a = elim (Bool-cases (repeats parents c s)) [
    | inl r ↦ rw (a.0, r) refl
    | inr r ↦ rw (a.0, r) (ranked_repeats c selected (ground (arith, e, r)) a.1)
  ]

  later_ranks :
      (c : Candidate) (selected later : List Candidate)
      → All (λ d. All (λ e. ranks_up e d ≡ true) selected) later
      → All (λ d. ranks_up c d ≡ true) later
      → All (λ d. All (λ e. ranks_up e d ≡ true) (selected ++ c ∷ [])) later
  later_ranks c selected [] a b = tt
  later_ranks c selected (d ∷ later) a b =
      (All-append _ selected (c ∷ []) a.0 (b.0, tt), later_ranks c selected later a.1 b.1)

  choose-extends :
      (candidates selected : List Candidate)
      → (more : List Candidate) × (choose parents selected candidates ≡ selected ++ more)
  unfolding choose
  choose-extends [] selected = ([], sym (append-nil selected))
  choose-extends (c ∷ candidates) selected = elim (Bool-cases (any (repeats parents c) selected)) [
    | inl e ↦ let (more, q) = choose-extends candidates selected in (more, rw e q)
    | inr e ↦ elim (Bool-cases (length (selected ++ c ∷ []) == 3)) [
      | inl full ↦ (c ∷ [], rw (e, full) refl)
      | inr room ↦
          let (more, q) = choose-extends candidates (selected ++ c ∷ []) in
          (c ∷ more, rw (e, room) (q ∙ append_assoc selected (c ∷ []) more))
    ]
  ]

  any-append :
      (p : Candidate → Bool) (xs ys : List Candidate) → any p xs ≡ true → any p (xs ++ ys) ≡ true
  any-append p [] ys h = ground (arith, h)
  any-append p (x ∷ xs) ys h = ground (arith, h, any-append p xs ys)

  In-middle :
      (xs : List Candidate) (c : Candidate) (ys : List Candidate) → In c ((xs ++ c ∷ []) ++ ys)
  In-middle [] c ys = inl refl
  In-middle (x ∷ xs) c ys = inr (In-middle xs c ys)

  In-append : (d : Candidate) (xs ys : List Candidate) → In d (xs ++ ys) → In d xs ⊎ In d ys
  In-append d [] ys m = inr m
  In-append d (x ∷ xs) ys (inl e) = inl (inl e)
  In-append d (x ∷ xs) ys (inr m) = elim (In-append d xs ys m) [
    | inl k ↦ inl (inr k)
    | inr k ↦ inr k
  ]

  In-last : (xs : List Candidate) (c : Candidate) → In c (xs ++ c ∷ [])
  In-last [] c = inl refl
  In-last (x ∷ xs) c = inr (In-last xs c)

  -- What is chosen was there.
  pub choose-In :
      (candidates selected : List Candidate) (d : Candidate)
      → In d (choose parents selected candidates)
      → In d selected ⊎ In d candidates
  unfolding choose
  choose-In [] selected d m = inl m
  choose-In (c ∷ candidates) selected d m =
      by_case (any (repeats parents c) selected) (length (selected ++ c ∷ []) == 3) m
        (choose-In candidates selected d) (choose-In candidates (selected ++ c ∷ []) d)
    where
      from : In d (selected ++ c ∷ []) ⊎ In d candidates → In d selected ⊎ In d (c ∷ candidates)
      from (inr k) = inr (inr k)
      from (inl k) = elim (In-append d selected (c ∷ []) k) [
        | inl h ↦ inl h
        | inr h ↦ inr (elim h [ inl e ↦ inl e | inr n ↦ elim n [ ] ])
      ]

      skip : In d selected ⊎ In d candidates → In d selected ⊎ In d (c ∷ candidates)
      skip (inl k) = inl k
      skip (inr k) = inr (inr k)

      by_case :
          (b full : Bool)
          → In d (
              if b
              then choose parents selected candidates
              else if full
              then selected ++ c ∷ []
              else choose parents (selected ++ c ∷ []) candidates)
          → (In d (choose parents selected candidates) → In d selected ⊎ In d candidates)
          → (In d (choose parents (selected ++ c ∷ []) candidates)
              → In d (selected ++ c ∷ []) ⊎ In d candidates)
          → In d selected ⊎ In d (c ∷ candidates)
      by_case true full k without with = skip (without k)
      by_case false true k without with = from (inl k)
      by_case false false k without with = from (with k)

  pub choose-Settled :
      (candidates selected : List Candidate)
      → All (λ c. All (λ e. ranks_up e c ≡ true) selected) candidates
      → Pairwise (λ a b. ranks_up a b ≡ true) candidates
      → All (Settled (choose parents selected candidates)) candidates
  unfolding choose
  choose-Settled [] selected before ordered = tt
  choose-Settled (c ∷ candidates) selected before ordered =
      elim (Bool-cases (any (repeats parents c) selected)) [
        | inl e ↦
            let (more, q) = choose-extends candidates selected in
            let step : choose parents selected candidates
                ≡ choose parents selected (c ∷ candidates) =
              rw e refl in
            let still =
              subst (λ z. any (λ d. ranks_up d c && repeats parents c d) z ≡ true) (sym q)
                (any-append (λ d. ranks_up d c && repeats parents c d) selected more
                  (ranked_repeats c selected e before.0)) in
            subst (λ z. All (Settled z) (c ∷ candidates)) step
              (inr (inl still), choose-Settled candidates selected before.1 ordered.1)
        | inr e ↦ elim (Bool-cases (length (selected ++ c ∷ []) == 3)) [
          | inl full ↦
              let three : length (selected ++ c ∷ []) ≡ 3 =
                (==_iff (length (selected ++ c ∷ [])) 3).0 full in
              let step : selected ++ c ∷ [] ≡ choose parents selected (c ∷ candidates) =
                rw (e, full) refl in
              subst (λ z. All (Settled z) (c ∷ candidates)) step
                (
                  inl (In-last selected c),
                  All-imp candidates (λ d b. inr (inr (three, b)))
                      (later_ranks c selected candidates before.1 ordered.0),
                )
          | inr room ↦
              let (more, q) = choose-extends candidates (selected ++ c ∷ []) in
              let step : choose parents (selected ++ c ∷ []) candidates
                  ≡ choose parents selected (c ∷ candidates) =
                rw (e, room) refl in
              subst (λ z. All (Settled z) (c ∷ candidates)) step
                (
                  inl (subst (In c) (sym q) (In-middle selected c more)),
                  choose-Settled candidates (selected ++ c ∷ [])
                      (later_ranks c selected candidates before.1 ordered.0) ordered.1,
                )
        ]
      ]

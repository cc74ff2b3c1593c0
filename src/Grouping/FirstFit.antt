-- ===== src/Grouping/FirstFit.antt =====
-- First-fit grouping, the loop that app/batch/article_similarity.py and
-- app/batch/steps/cluster_enrichment.py share: an item joins the first group that admits it and
-- opens a group of its own where none does.
use stockapp.Prelude.{
  ◌+◌, ◌≡◌, Bool, true, false, List, [], ◌∷◌, ◌++◌, arith, if◌then◌else◌, Bool-cases, inl, inr, All,
  All-imp, count, count-append,
}

module _ {A : Type 0} (admits : A → List A → Bool) where
  unfoldable pub place : A → List (List A) → List (List A)
  place x [] = (x ∷ []) ∷ []
  place x (g ∷ groups) =
      let rest = place x groups in if admits x g then (g ++ x ∷ []) ∷ groups else g ∷ rest

  unfoldable pub first_fit : List (List A) → List A → List (List A)
  first_fit groups [] = groups
  first_fit groups (x ∷ items) = first_fit (place x groups) items

abbrev pub flatten : {A : Type 0} → List (List A) → List A
flatten [] = []
flatten (g ∷ groups) = g ++ flatten groups

module _ {A : Type 0} (admits : A → List A → Bool) where
  place-count :
      (p : A → Bool) (x : A) (groups : List (List A))
      → count p (flatten (place admits x groups)) ≡ count p (x ∷ []) + count p (flatten groups)
  unfolding place
  place-count p x [] = ground (arith)
  place-count p x (g ∷ groups) =
      let rest = place-count p x groups in
      elim (Bool-cases (admits x g)) [
        | inl e ↦ rw e (
            omega (
              arith,
              count-append p (g ++ x ∷ []) (flatten groups),
              count-append p g (x ∷ []),
              count-append p g (flatten groups),
            ))
        | inr e ↦ rw e (
            omega (
              arith,
              rest,
              count-append p g (flatten (place admits x groups)),
              count-append p g (flatten groups),
            ))
      ]

  -- Every item is in exactly one group, as often as it was given.
  pub first_fit-count :
      (p : A → Bool) (items : List A) (groups : List (List A))
      → count p (flatten (first_fit admits groups items)) ≡ count p items + count p (flatten groups)
  unfolding first_fit
  first_fit-count p [] groups = omega arith
  first_fit-count p (x ∷ items) groups =
      ground (arith, first_fit-count p items (place admits x groups), place-count p x groups)

  -- What a group of one has and admission keeps, every group has.
  module _ (P : List A → Type 0) (opens : (x : A) → P (x ∷ []))
      (joins : (x : A) (g : List A) → admits x g ≡ true → P g → P (g ++ x ∷ [])) where
    place-All : (x : A) (groups : List (List A)) → All P groups → All P (place admits x groups)
    unfolding place
    place-All x [] a = (opens x, tt)
    place-All x (g ∷ groups) a = elim (Bool-cases (admits x g)) [
      | inl e ↦ rw e (joins x g e a.0, a.1)
      | inr e ↦ rw e (a.0, place-All x groups a.1)
    ]

    pub first_fit-All :
        (items : List A) (groups : List (List A))
        → All P groups
        → All P (first_fit admits groups items)
    unfolding first_fit
    first_fit-All [] groups a = a
    first_fit-All (x ∷ items) groups a =
        first_fit-All items (place admits x groups) (place-All x groups a)

  -- The item that opened the group is not admitted by `g`.
  abbrev pub Refused : List A → List A → Type 0
  Refused g [] = ⊥
  Refused g (opener ∷ later) = admits opener g ≡ false

  -- Each group refuses the openers of the groups after it.
  abbrev pub Separated : List (List A) → Type 0
  Separated [] = Unit
  Separated (g ∷ groups) = All (Refused g) groups × Separated groups

  module _
      (stays : (x y : A) (g : List A) → admits y g ≡ false → admits y (g ++ x ∷ []) ≡ false) where
    Refused-grown : (x : A) (g h : List A) → Refused g h → Refused (g ++ x ∷ []) h
    Refused-grown x g [] r = r
    Refused-grown x g (opener ∷ later) r = stays x opener g r

    Refused-joined : (x : A) (g h : List A) → Refused g h → Refused g (h ++ x ∷ [])
    Refused-joined x g [] r = elim r [ ]
    Refused-joined x g (opener ∷ later) r = r

    place-Refused :
        (x : A) (g : List A) (groups : List (List A))
        → admits x g ≡ false
        → All (Refused g) groups
        → All (Refused g) (place admits x groups)
    unfolding place
    place-Refused x g [] e a = (e, tt)
    place-Refused x g (h ∷ groups) e a = elim (Bool-cases (admits x h)) [
      | inl q ↦ rw q (Refused-joined x g h a.0, a.1)
      | inr q ↦ rw q (a.0, place-Refused x g groups e a.1)
    ]

    place-Separated :
        (x : A) (groups : List (List A)) → Separated groups → Separated (place admits x groups)
    unfolding place
    place-Separated x [] s = (tt, tt)
    place-Separated x (g ∷ groups) s = elim (Bool-cases (admits x g)) [
      | inl e ↦ rw e (All-imp groups (λ h r. Refused-grown x g h r) s.0, s.1)
      | inr e ↦ rw e (place-Refused x g groups e s.0, place-Separated x groups s.1)
    ]

    pub first_fit-Separated :
        (items : List A) (groups : List (List A))
        → Separated groups
        → Separated (first_fit admits groups items)
    unfolding first_fit
    first_fit-Separated [] groups s = s
    first_fit-Separated (x ∷ items) groups s =
        first_fit-Separated items (place admits x groups) (place-Separated x groups s)

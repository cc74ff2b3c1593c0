-- ===== src/Prelude/Sorting.antt =====
-- Stable sorting by a Boolean comparison, and lists whose members stand in an order.
use mathlib.Core.Path.{◌≡◌, refl}
use mathlib.Core.Bool.{Bool, true, false, not, ◌&&◌, ◌||◌}
use mathlib.Core.Logic.{inl, inr}
use mathlib.Core.List.{List, [], ◌∷◌, ◌++◌}
use native.Mathlib.Omega.{arith}
use stockapp.Prelude.Tests.{if◌then◌else◌, Bool-cases}
use stockapp.Prelude.Lists.{any, All, All-imp, All-append, All-of_In, In, count}

module _ {A : Type 0} where
  -- Before the first member that it may stand before.
  unfoldable pub insert_by : (A → A → Bool) → A → List A → List A
  insert_by le x [] = x ∷ []
  insert_by le x (y ∷ ys) = let rest = insert_by le x ys in if le x y then x ∷ y ∷ ys else y ∷ rest

  -- Members that may stand before each other keep their order.
  unfoldable pub sort_by : (A → A → Bool) → List A → List A
  sort_by le [] = []
  sort_by le (x ∷ xs) = insert_by le x (sort_by le xs)

  -- Each member stands in the relation to all that come after it.
  abbrev pub Pairwise : (A → A → Type 0) → List A → Type 0
  Pairwise R [] = Unit
  Pairwise R (x ∷ xs) = All (R x) xs × Pairwise R xs

  -- Ties in the first comparison are broken by the second.
  abbrev pub lexicographic : (A → A → Bool) → (A → A → Bool) → A → A → Bool
  lexicographic le tie x y = le x y && (not (le y x) || tie x y)

  insert_by-count :
      (p : A → Bool) (le : A → A → Bool) (x : A) (ys : List A)
      → count p (insert_by le x ys) ≡ count p (x ∷ ys)
  unfolding insert_by
  insert_by-count p le x [] = refl
  insert_by-count p le x (y ∷ ys) = ground (arith, insert_by-count p le x ys)

  pub sort_by-count :
      (p : A → Bool) (le : A → A → Bool) (xs : List A) → count p (sort_by le xs) ≡ count p xs
  unfolding sort_by
  sort_by-count p le [] = refl
  sort_by-count p le (x ∷ xs) =
      ground (arith, insert_by-count p le x (sort_by le xs), sort_by-count p le xs)

  insert_by-All :
      (P : A → Type 0) (le : A → A → Bool) (x : A) (ys : List A)
      → P x
      → All P ys
      → All P (insert_by le x ys)
  unfolding insert_by
  insert_by-All P le x [] h a = (h, tt)
  insert_by-All P le x (y ∷ ys) h a = elim (Bool-cases (le x y)) [
    | inl e ↦ rw e (h, a)
    | inr e ↦ rw e (a.0, insert_by-All P le x ys h a.1)
  ]

  pub sort_by-All :
      (P : A → Type 0) (le : A → A → Bool) (xs : List A) → All P xs → All P (sort_by le xs)
  unfolding sort_by
  sort_by-All P le [] a = tt
  sort_by-All P le (x ∷ xs) a = insert_by-All P le x (sort_by le xs) a.0 (sort_by-All P le xs a.1)

  pub Pairwise-snoc :
      (R : A → A → Type 0) (xs : List A) (x : A)
      → All (λ y. R y x) xs
      → Pairwise R xs
      → Pairwise R (xs ++ x ∷ [])
  Pairwise-snoc R [] x a p = (tt, tt)
  Pairwise-snoc R (y ∷ ys) x a p =
      (All-append (R y) ys (x ∷ []) p.0 (a.0, tt), Pairwise-snoc R ys x a.1 p.1)

  pub Pairwise-imp :
      (R S : A → A → Type 0) (xs : List A)
      → ((x y : A) → R x y → S x y)
      → Pairwise R xs
      → Pairwise S xs
  Pairwise-imp R S [] f p = tt
  Pairwise-imp R S (x ∷ xs) f p = (All-imp xs (f x) p.0, Pairwise-imp R S xs f p.1)

  pub Pairwise-of_all : (R : A → A → Type 0) (xs : List A) → ((x y : A) → R x y) → Pairwise R xs
  Pairwise-of_all R [] f = tt
  Pairwise-of_all R (x ∷ xs) f = (All-of_In (R x) xs (λ y m. f x y), Pairwise-of_all R xs f)

  module _ (le tie : A → A → Bool) (total : (x y : A) → le x y ≡ false → le y x ≡ true)
      (trans : (x y z : A) → le x y ≡ true → le y z ≡ true → le x z ≡ true) where
    insert_by-Pairwise :
        (x : A) (ys : List A)
        → All (λ y. tie x y ≡ true) ys
        → Pairwise (λ a b. lexicographic le tie a b ≡ true) ys
        → Pairwise (λ a b. lexicographic le tie a b ≡ true) (insert_by le x ys)
    unfolding insert_by
    insert_by-Pairwise x [] t p = (tt, tt)
    insert_by-Pairwise x (y ∷ ys) t p = elim (Bool-cases (le x y)) [
      | inl e ↦ rw e ((ground (arith, e, t.0), after e ys t.1 p.0), p)
      | inr e ↦ rw e (
        insert_by-All (λ z. lexicographic le tie y z ≡ true) le x ys
            (ground (arith, e, total x y e)) p.0,
        insert_by-Pairwise x ys t.1 p.1,
      )
    ]
      where
        after :
            le x y ≡ true
            → (zs : List A) → All (λ z. tie x z ≡ true) zs
            → All (λ z. lexicographic le tie y z ≡ true) zs
            → All (λ z. lexicographic le tie x z ≡ true) zs
        after e [] a b = tt
        after e (z ∷ zs) a b =
            (ground (arith, a.0, trans x y z e (ground (arith, b.0))), after e zs a.1 b.1)

    -- A stable sort refines the order that the list already has.
    pub sort_by-lexicographic :
        (xs : List A)
        → Pairwise (λ a b. tie a b ≡ true) xs
        → Pairwise (λ a b. lexicographic le tie a b ≡ true) (sort_by le xs)
    unfolding sort_by
    sort_by-lexicographic [] p = tt
    sort_by-lexicographic (x ∷ xs) p =
        insert_by-Pairwise x (sort_by le xs) (sort_by-All (λ z. tie x z ≡ true) le xs p.0)
          (sort_by-lexicographic xs p.1)

module _ {A : Type 0} (p : A → Bool) (le : A → A → Bool) where
  insert_by-any : (x : A) (xs : List A) → any p (insert_by le x xs) ≡ any p (x ∷ xs)
  unfolding insert_by
  insert_by-any x [] = refl
  insert_by-any x (y ∷ ys) = ground (arith, insert_by-any x ys)

  pub sort_by-any : (xs : List A) → any p (sort_by le xs) ≡ any p xs
  unfolding sort_by
  sort_by-any [] = refl
  sort_by-any (x ∷ xs) = ground (arith, insert_by-any x (sort_by le xs), sort_by-any xs)

module _ {A : Type 0} (le : A → A → Bool) where
  insert_by-In : (x : A) (ys : List A) (z : A) → In z (x ∷ ys) → In z (insert_by le x ys)
  unfolding insert_by
  insert_by-In x [] z m = m
  insert_by-In x (y ∷ ys) z m = elim (Bool-cases (le x y)) [
    | inl e ↦ rw e m
    | inr e ↦ rw e (elim m [
      | inl q ↦ inr (insert_by-In x ys z (inl q))
      | inr k ↦ elim k [ inl q ↦ inl q | inr n ↦ inr (insert_by-In x ys z (inr n)) ]
    ])
  ]

  -- Sorting loses no member.
  pub sort_by-In : (xs : List A) (z : A) → In z xs → In z (sort_by le xs)
  unfolding sort_by
  sort_by-In [] z m = m
  sort_by-In (x ∷ xs) z (inl e) = insert_by-In x (sort_by le xs) z (inl e)
  sort_by-In (x ∷ xs) z (inr m) = insert_by-In x (sort_by le xs) z (inr (sort_by-In xs z m))

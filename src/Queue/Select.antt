-- ===== src/Queue/Select.antt =====
-- What SELECT finds in a table after INSERT or UPDATE, for batch_job_repo.py.
use stockapp.Prelude.{
  ◌≡◌, refl, Bool, true, false, none, some, List, [], ◌∷◌, ◌++◌, arith, All, any, In, inl, inr,
  Bool-cases, ap,
}
use stockapp.Queue.Table.{update_row, update_where, find}

module _ {A : Type 0} (p : A → Bool) where
  pub any-find : (rows : List A) → any p rows ≡ false → find p rows ≡ none
  any-find [] h = refl
  any-find (r ∷ rows) h = ground (arith, any-find rows)

  pub find-any : (rows : List A) → find p rows ≡ none → any p rows ≡ false
  find-any [] h = refl
  find-any (r ∷ rows) h = ground (arith, find-any rows)

  pub any-In : (rows : List A) (r : A) → any p rows ≡ false → In r rows → p r ≡ false
  any-In [] r h m = elim m [ ]
  any-In (x ∷ rows) r h (inl q) = ground (arith, h, ap p q)
  any-In (x ∷ rows) r h (inr m) = any-In rows r (ground (arith, h)) m

  pub find-append_some : (xs ys : List A) (r : A) → find p xs ≡ some r → find p (xs ++ ys) ≡ some r
  find-append_some [] ys r h = cc
  find-append_some (x ∷ xs) ys r h = ground (arith, find-append_some xs ys r)

  pub find-append_none : (xs ys : List A) → find p xs ≡ none → find p (xs ++ ys) ≡ find p ys
  find-append_none [] ys h = refl
  find-append_none (x ∷ xs) ys h = ground (arith, find-append_none xs ys)

  module _ (hit : A → Bool) (set : A → A) where
    -- An UPDATE of rows that are outside the condition before and after.
    pub find-update_where-outside :
        (rows : List A)
        → ((r : A) → hit r ≡ true → p r ≡ false)
        → All (λ r. hit r ≡ true → p (set r) ≡ false) rows
        → find p (update_where hit set rows) ≡ find p rows
    find-update_where-outside [] out into = refl
    find-update_where-outside (r ∷ rows) out into =
        ground (arith, out r, into.0, find-update_where-outside rows out into.1)

    -- An UPDATE of one row that brings it under a condition that no row satisfied.
    pub find-update_where-into :
        (rows : List A) (x : A)
        → any p rows ≡ false
        → All (λ r. hit r ≡ true → r ≡ x) rows
        → In x rows
        → hit x ≡ true
        → p (set x) ≡ true
        → find p (update_where hit set rows) ≡ some (set x)
    find-update_where-into [] x free only m h k = elim m [ ]
    find-update_where-into (r ∷ rows) x free only m h k = elim (Bool-cases (hit r)) [
      | inl e ↦ rw (only.0 e) (rw h (rw k refl))
      | inr e ↦ (elim m [
        | inl q ↦ ground (arith, e, h, ap hit q)
        | inr i ↦ ground (arith, e, free, find-update_where-into rows x (ground arith) only.1 i h k)
      ])
    ]

    -- An UPDATE that leaves the condition alone finds the same row, updated where it is hit.
    pub find-update_where-steady :
        (rows : List A)
        → ((r : A) → p (set r) ≡ p r)
        → find p (update_where hit set rows)
          ≡ elim (find p rows) [ none ↦ none | some r ↦ some (update_row hit set r) ]
    find-update_where-steady [] keep = refl
    find-update_where-steady (r ∷ rows) keep =
        ground (arith, keep r, find-update_where-steady rows keep)

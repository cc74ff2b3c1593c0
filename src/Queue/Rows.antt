-- ===== src/Queue/Rows.antt =====
-- Laws of UPDATE, SELECT and COUNT over a list of rows, for batch_job_repo.py.
use stockapp.Prelude.{
  count, ◌+◌, ◌≤◌, ◌≡◌, refl, sym, ap, Bool, true, false, inl, inr, none, some, List, [], ◌∷◌,
  arith, All, In, if◌then◌else◌, Bool-cases,
}
use stockapp.Queue.Table.{update_where, find}

module _ {A : Type 0} where
  -- Where nothing is hit, nothing changes.
  pub update_where-miss :
      (hit : A → Bool) (set : A → A) (rows : List A)
      → find hit rows ≡ none
      → update_where hit set rows ≡ rows
  update_where-miss hit set [] h = refl
  update_where-miss hit set (r ∷ rows) h = ground (arith, update_where-miss hit set rows)

  -- A property that the assignment gives to every hit row, and that the rest have already.
  pub All-update_where :
      {P : A → Type 0} (hit : A → Bool) (set : A → A) (rows : List A)
      → ((r : A) → hit r ≡ true → P r → P (set r))
      → All P rows
      → All P (update_where hit set rows)
  All-update_where hit set [] keep h = tt
  All-update_where {P} hit set (r ∷ rows) keep h =
      (at_row (hit r) refl, All-update_where hit set rows keep h.1)
    where
      at_row : (b : Bool) → hit r ≡ b → P (if b then set r else r)
      at_row true e = keep r e h.0
      at_row false e = h.0

  -- COUNT does not grow where the assignment brings no new row under the condition.
  pub count-update_where-le :
      (p : A → Bool) (hit : A → Bool) (set : A → A) (rows : List A)
      → ((r : A) → hit r ≡ true → p (set r) ≡ true → p r ≡ true)
      → count p (update_where hit set rows) ≤ count p rows
  count-update_where-le p hit set [] keep = omega arith
  count-update_where-le p hit set (r ∷ rows) keep =
      ground (arith, keep r, count-update_where-le p hit set rows keep)

  -- COUNT is kept where the assignment leaves the condition alone.
  pub count-update_where :
      (p : A → Bool) (hit : A → Bool) (set : A → A) (rows : List A)
      → ((r : A) → p (set r) ≡ p r)
      → count p (update_where hit set rows) ≡ count p rows
  count-update_where p hit set [] keep = refl
  count-update_where p hit set (r ∷ rows) keep =
      ground (arith, keep r, count-update_where p hit set rows keep)

  -- The row that SELECT finds satisfies the condition and stands in the table.
  pub find-hit : (p : A → Bool) (rows : List A) (r : A) → find p rows ≡ some r → p r ≡ true
  find-hit p [] r h = cc
  find-hit p (x ∷ rows) r h = elim (Bool-cases (p x)) [
    | inl e ↦ ground (arith, e)
    | inr e ↦ find-hit p rows r (ground (arith, e, h))
  ]

  pub find-In : (p : A → Bool) (rows : List A) (r : A) → find p rows ≡ some r → In r rows
  find-In p [] r h = cc
  find-In p (x ∷ rows) r h = elim (Bool-cases (p x)) [
    | inl e ↦ inl (ground (arith, e))
    | inr e ↦ inr (find-In p rows r (ground (arith, e, h)))
  ]

  pub count-In : (p : A → Bool) (rows : List A) (r : A) → In r rows → p r ≡ true → 1 ≤ count p rows
  count-In p [] r m h = elim m [ ]
  count-In p (x ∷ rows) r (inl e) h = ground (arith, ap p e)
  count-In p (x ∷ rows) r (inr m) h = ground (arith, count-In p rows r m h)

module _ {A : Type 0} (hit : A → Bool) (set : A → A) where
  -- The assignment adds at most the rows that are hit.
  pub count-update_where-le_add :
      (p : A → Bool) (rows : List A)
      → count p (update_where hit set rows) ≤ count p rows + count hit rows
  count-update_where-le_add p [] = omega arith
  count-update_where-le_add p (r ∷ rows) = ground (arith, count-update_where-le_add p rows)

  -- As `count-update_where-le`, with the premise for the table's rows alone.
  pub count-update_where-le_All :
      (p : A → Bool) (rows : List A)
      → All (λ r. hit r ≡ true → p (set r) ≡ true → p r ≡ true) rows
      → count p (update_where hit set rows) ≤ count p rows
  count-update_where-le_All p [] h = omega arith
  count-update_where-le_All p (r ∷ rows) h =
      ground (arith, h.0, count-update_where-le_All p rows h.1)

  -- As `All-update_where`, with the premise for the table's rows alone.
  pub All-update_where-All :
      (P : A → Type 0) (rows : List A)
      → All (λ r. hit r ≡ true → P (set r)) rows
      → All P rows
      → All P (update_where hit set rows)
  All-update_where-All P [] k h = tt
  All-update_where-All P (r ∷ rows) k h = (at_row (hit r) refl, All-update_where-All P rows k.1 h.1)
    where
      at_row : (b : Bool) → hit r ≡ b → P (if b then set r else r)
      at_row true e = k.0 e
      at_row false e = h.0

module _ {A : Type 0} (p : A → Bool) where
  All-none : (x : A) (rows : List A) → count p rows ≡ 0 → All (λ r. p r ≡ true → r ≡ x) rows
  All-none x [] h = tt
  All-none x (r ∷ rows) h = (ground arith, All-none x rows (ground arith))

  -- A condition that one row at most satisfies singles that row out.
  pub unique-All :
      (rows : List A) (x : A)
      → count p rows ≤ 1
      → In x rows
      → p x ≡ true
      → All (λ r. p r ≡ true → r ≡ x) rows
  unique-All [] x h m e = elim m [ ]
  unique-All (r ∷ rows) x h (inl m) e = (λ _. sym m, All-none x rows (ground (arith, ap p m)))
  unique-All (r ∷ rows) x h (inr m) e =
      (ground (arith, count-In p rows x m e), unique-All rows x (ground arith) m e)

-- ===== src/Finalize/Redacted.antt =====
-- What the redaction of app/core/public_diagnostics.py keeps of a run's diagnostics and what not.
use Prim.Native.String.{[], ◌∷◌, ◌++◌ as ◌<>◌}
use Prim.Native.String.compare.{cons-nil}
use stockapp.Prelude.{
  ℕ, String, ◌≡◌, ◌⊎◌, refl, true, false, ◌||◌, Option, none, some, List, [], ◌∷◌, ◌++◌, All, In,
  str_eq, arith, Bool-cases, Option-cases, inl, inr, sym, ap, subst,
}
use stockapp.Queue.Job.{partial, failed}
use stockapp.Outcome.{
  BatchExecutionContext, holds_message, is_text, is_filled, determine_batch_status,
}
use stockapp.Outcome.Kept.{filled-degraded}
use stockapp.Finalize.{
  Reader, failure_message, is_sensitive, sanitize_fragment, sanitize_fragments, join, split, keep,
  joined, keep_value, sanitize_public_diagnostic, sanitize_values, finalize_context,
}
use stockapp.Finalize.Told.{IsText, append-IsText, join-IsText, fragments-AllText}

keep-fills : (m : String) (kept : List String) → IsText m → is_filled (keep m kept) ≡ true
keep-fills m [] h = rw h refl
keep-fills m (n ∷ kept) h = elim (Bool-cases (str_eq m "" || holds_message m (n ∷ kept))) [
  | inl e ↦ rw e refl
  | inr e ↦ rw e refl
]

keep-filled :
    (m : String) (kept : List String) → is_filled kept ≡ true → is_filled (keep m kept) ≡ true
keep-filled m [] h = cc
keep-filled m (n ∷ kept) h = elim (Bool-cases (str_eq m "" || holds_message m (n ∷ kept))) [
  | inl e ↦ rw e refl
  | inr e ↦ rw e refl
]

-- Where a fragment that is kept may come from.
abbrev pub Redacted : Reader → List String → String → Type 0
Redacted reader fragments f =
    (In f fragments × (is_sensitive reader f ≡ false))
    ⊎ ((f ≡ failure_message)
        ⊎ ((g p : String) × (In g fragments
              × ((reader.scope_prefix g ≡ some p) × (f ≡ p <> (": " <> failure_message))))))

module _ (reader : Reader) where
  fragment-IsText : (g : String) → IsText g → IsText (sanitize_fragment reader g)
  unfolding sanitize_fragment
  fragment-IsText g h = elim (Option-cases (reader.scope_prefix g)) [
    | inl e ↦
        rw (e, sanitize_fragment)
          (elim (Bool-cases (is_sensitive reader g)) [ inl s ↦ rw s refl | inr s ↦ rw s h ])
    | inr (p, e) ↦ rw (e, sanitize_fragment) (prefixed p)
  ]
    where
      prefixed : (p : String) → IsText (p <> (": " <> failure_message))
      prefixed [] = refl
      prefixed (c ∷ p) = append-IsText (c ∷ p) (": " <> failure_message) (rw (cons-nil c p) refl)

  fragments-keeps :
      (kept fragments : List String)
      → is_filled kept ≡ true
      → is_filled (sanitize_fragments reader kept fragments) ≡ true
  unfolding sanitize_fragments
  fragments-keeps kept [] h = h
  fragments-keeps kept (f ∷ fragments) h =
      fragments-keeps (keep (sanitize_fragment reader f) kept) fragments
        (keep-filled (sanitize_fragment reader f) kept h)

  fragments-fills :
      (g : String) (kept fragments : List String)
      → In g fragments
      → IsText g
      → is_filled (sanitize_fragments reader kept fragments) ≡ true
  unfolding sanitize_fragments
  fragments-fills g kept [] i h = elim i [ ]
  fragments-fills g kept (f ∷ fragments) (inl e) h =
      fragments-keeps (keep (sanitize_fragment reader f) kept) fragments
        (keep-fills (sanitize_fragment reader f) kept (fragment-IsText f (subst IsText e h)))
  fragments-fills g kept (f ∷ fragments) (inr i) h =
      fragments-fills g (keep (sanitize_fragment reader f) kept) fragments i h

  -- A message with a fragment that is not empty stays a message.
  value-IsText :
      (g value : String)
      → In g (split value)
      → IsText g
      → is_text (sanitize_public_diagnostic reader (some value)) ≡ true
  unfolding sanitize_public_diagnostic
  value-IsText g value i h =
      text_of (sanitize_fragments reader [] (split value))
        (fragments-AllText reader [] (split value) tt) (fragments-fills g [] (split value) i h)
    where
      text_of :
          (messages : List String)
          → All IsText messages
          → is_filled messages ≡ true
          → is_text (joined messages) ≡ true
      text_of [] a f = cc
      text_of (m ∷ messages) a f = rw (join-IsText m messages a.0) refl

  values-keeps :
      (kept values : List String)
      → is_filled kept ≡ true
      → is_filled (sanitize_values reader kept values) ≡ true
  unfolding sanitize_values
  values-keeps kept [] h = h
  values-keeps kept (v ∷ values) h =
      values-keeps (keep_value (sanitize_public_diagnostic reader (some v)) kept) values
        (value_kept (sanitize_public_diagnostic reader (some v)))
    where
      value_kept : (o : Option String) → is_filled (keep_value o kept) ≡ true
      value_kept none = h
      value_kept (some m) = keep-filled m kept h

  values-fills :
      (g value : String) (kept values : List String)
      → In value values
      → In g (split value)
      → IsText g
      → is_filled (sanitize_values reader kept values) ≡ true
  unfolding sanitize_values
  values-fills g value kept [] i j h = elim i [ ]
  values-fills g value kept (v ∷ values) (inl e) j h =
      values-keeps (keep_value (sanitize_public_diagnostic reader (some v)) kept) values (
        value_fills (sanitize_public_diagnostic reader (some v))
          (value-IsText g v (subst (λ z. In g (split z)) e j) h))
    where
      value_fills : (o : Option String) → is_text o ≡ true → is_filled (keep_value o kept) ≡ true
      value_fills none t = cc
      value_fills (some m) t = keep-fills m kept (ground (arith, t))
  values-fills g value kept (v ∷ values) (inr i) j h =
      values-fills g value (keep_value (sanitize_public_diagnostic reader (some v)) kept) values i j
        h

  -- The redaction hides no degradation: with a reason that has a fragment which is not empty, the
  -- final status is PARTIAL or FAILED.
  pub finalize-degraded :
      (decimal : ℕ → String) (reason g : String) (c : BatchExecutionContext)
      → In reason c.partial_reasons
      → In g (split reason)
      → IsText g
      → (determine_batch_status (finalize_context decimal reader c) ≡ partial)
        ⊎ (determine_batch_status (finalize_context decimal reader c) ≡ failed)
  unfolding finalize_context
  finalize-degraded decimal reason g c i j h =
      filled-degraded (finalize_context decimal reader c)
        (values-fills g reason [] c.partial_reasons i j h)

  keep-Redacted :
      (fragments : List String) (m : String) (kept : List String)
      → Redacted reader fragments m
      → All (Redacted reader fragments) kept
      → All (Redacted reader fragments) (keep m kept)
  keep-Redacted fragments m kept r a = elim (Bool-cases (str_eq m "" || holds_message m kept)) [
    | inl e ↦ rw e a
    | inr e ↦ rw e (appended kept a)
  ]
    where
      appended :
          (xs : List String)
          → All (Redacted reader fragments) xs
          → All (Redacted reader fragments) (xs ++ m ∷ [])
      appended [] a = (r, tt)
      appended (x ∷ xs) a = (a.0, appended xs a.1)

  fragment-Redacted :
      (fragments : List String) (g : String)
      → In g fragments
      → Redacted reader fragments (sanitize_fragment reader g)
  unfolding sanitize_fragment
  fragment-Redacted fragments g i = elim (Option-cases (reader.scope_prefix g)) [
    | inr (p, e) ↦ rw (e, sanitize_fragment) (inr (inr (g, p, (i, (e, refl)))))
    | inl e ↦
        rw (e, sanitize_fragment)
          (elim (Bool-cases (is_sensitive reader g)) [
            | inl s ↦ rw s (inr (inl refl))
            | inr s ↦ rw s (inl (i, s))
          ])
  ]

  fragments-Redacted :
      (whole kept fragments : List String)
      → ((g : String) → In g fragments → In g whole)
      → All (Redacted reader whole) kept
      → All (Redacted reader whole) (sanitize_fragments reader kept fragments)
  unfolding sanitize_fragments
  fragments-Redacted whole kept [] within a = a
  fragments-Redacted whole kept (f ∷ fragments) within a =
      fragments-Redacted whole (keep (sanitize_fragment reader f) kept) fragments
        (λ g i. within g (inr i))
        (keep-Redacted whole (sanitize_fragment reader f) kept
          (fragment-Redacted whole f (within f (inl refl))) a)

  -- A redacted diagnostic is a list of fragments, joined, each of which was a fragment of the
  -- original in which no marker of a provider stands, or is the fixed failure message, alone or
  -- after the scope of an original fragment.
  pub sanitize-Redacted :
      (value text : String)
      → sanitize_public_diagnostic reader (some value) ≡ some text
      → (messages : List String) × ((text ≡ join messages)
          × All (Redacted reader (split value)) messages)
  unfolding sanitize_public_diagnostic
  sanitize-Redacted value text e =
      of_joined (sanitize_fragments reader [] (split value))
        (fragments-Redacted (split value) [] (split value) (λ g i. i) tt) e
    where
      of_joined :
          (messages : List String)
          → All (Redacted reader (split value)) messages
          → joined messages ≡ some text
          → (shown : List String) × ((text ≡ join shown)
              × All (Redacted reader (split value)) shown)
      of_joined [] a e = cc
      of_joined (m ∷ messages) a e =
          (m ∷ messages, (ap (λ o. elim o [ none ↦ text | some t ↦ t ]) (sym e), a))

-- ===== src/Finalize/Told.antt =====
-- What the end of a run tells, app/batch/steps/finalize_job.py.
use Prim.Native.String.{[], ◌∷◌, ◌++◌ as ◌<>◌}
use Prim.Native.String.compare.{cons-nil}
use text.Mathlib.TextLemmas.{cons-append}
use stockapp.Prelude.{
  ℕ, ◌-◌, String, ◌≡◌, refl, true, false, ◌||◌, not, Option, none, some, List, [], ◌∷◌, ◌++◌, ◌==◌,
  if◌then◌else◌, sym, ap, length, take, All, str_eq, arith, is_some, Bool-cases, inl, inr,
}
use stockapp.Queue.Job.{success, partial, failed}
use stockapp.Outcome.{
  BatchExecutionContext, holds_message, is_text, is_filled, determine_batch_status,
}
use stockapp.Queue.Job.{Status}
use stockapp.Queue.Lease.{Completion}
use stockapp.Finalize.{
  Reader, sanitize_fragment, sanitize_fragments, join, keep, keep_value, sanitize_public_diagnostic,
  sanitize_values, sanitize_public_diagnostics, from_keys, build_bounded_partial_message,
  partial_message_of, finalize_context, omitted_suffix, completion_of,
}

-- A text that is not empty.
abbrev pub IsText : String → Type 0
IsText s = str_eq s "" ≡ false

pub append-IsText : (s t : String) → IsText s → IsText (s <> t)
append-IsText [] t h = cc
append-IsText (c ∷ s) t h = rw (cons-append c s t, cons-nil c (s <> t)) refl

add-AllText :
    (m : String) (kept : List String) → IsText m → All IsText kept → All IsText (kept ++ m ∷ [])
add-AllText m [] h k = (h, tt)
add-AllText m (n ∷ kept) h k = (k.0, add-AllText m kept h k.1)

keep-AllText : (m : String) (kept : List String) → All IsText kept → All IsText (keep m kept)
keep-AllText m kept k = elim (Bool-cases (str_eq m "" || holds_message m kept)) [
  | inl e ↦ rw e k
  | inr e ↦ rw e (add-AllText m kept (ground (arith, e)) k)
]

keep_value-AllText :
    (o : Option String) (kept : List String) → All IsText kept → All IsText (keep_value o kept)
keep_value-AllText none kept k = k
keep_value-AllText (some m) kept k = keep-AllText m kept k

module _ (reader : Reader) where
  pub fragments-AllText :
      (kept fragments : List String)
      → All IsText kept
      → All IsText (sanitize_fragments reader kept fragments)
  unfolding sanitize_fragments
  fragments-AllText kept [] k = k
  fragments-AllText kept (f ∷ fragments) k =
      fragments-AllText (keep (sanitize_fragment reader f) kept) fragments
        (keep-AllText (sanitize_fragment reader f) kept k)

  values-AllText :
      (kept values : List String)
      → All IsText kept
      → All IsText (sanitize_values reader kept values)
  unfolding sanitize_values
  values-AllText kept [] k = k
  values-AllText kept (v ∷ values) k =
      values-AllText (keep_value (sanitize_public_diagnostic reader (some v)) kept) values
        (keep_value-AllText (sanitize_public_diagnostic reader (some v)) kept k)

pub join-IsText : (m : String) (messages : List String) → IsText m → IsText (join (m ∷ messages))
unfolding join
join-IsText m [] h = h
join-IsText m (n ∷ messages) h = append-IsText m _ h

-- What is kept stays, and nothing is added to nothing.
add-filled : (m : String) (kept : List String) → is_filled (kept ++ m ∷ []) ≡ true
add-filled m [] = refl
add-filled m (n ∷ kept) = refl

from_keys-AllText :
    (kept messages : List String)
    → All IsText kept
    → All IsText messages
    → All IsText (from_keys kept messages)
unfolding from_keys
from_keys-AllText kept [] k h = k
from_keys-AllText kept (m ∷ messages) k h = elim (Bool-cases (holds_message m kept)) [
  | inl e ↦ rw e (from_keys-AllText kept messages k h.1)
  | inr e ↦ rw e (from_keys-AllText (kept ++ m ∷ []) messages (add-AllText m kept h.0 k) h.1)
]

from_keys-filled :
    (kept messages : List String)
    → is_filled (from_keys kept messages) ≡ (is_filled kept || is_filled messages)
unfolding from_keys
from_keys-filled kept [] = ground arith
from_keys-filled [] (m ∷ messages) = from_keys-filled (m ∷ []) messages
from_keys-filled (n ∷ kept) (m ∷ messages) = elim (Bool-cases (holds_message m (n ∷ kept))) [
  | inl e ↦ rw e (from_keys-filled (n ∷ kept) messages)
  | inr e ↦ rw e (from_keys-filled (n ∷ (kept ++ m ∷ [])) messages)
]

both-AllText : (xs ys : List String) → All IsText xs → All IsText ys → All IsText (xs ++ ys)
both-AllText [] ys h k = k
both-AllText (x ∷ xs) ys h k = (h.0, both-AllText xs ys h.1 k)

both-filled : (xs ys : List String) → is_filled (xs ++ ys) ≡ (is_filled xs || is_filled ys)
both-filled [] ys = refl
both-filled (x ∷ xs) ys = refl

module _ (decimal : ℕ → String) where
  bounded-IsText :
      (diagnostics : List String)
      → All IsText diagnostics
      → is_text (build_bounded_partial_message decimal diagnostics) ≡ is_filled diagnostics
  unfolding build_bounded_partial_message
  bounded-IsText [] h = refl
  bounded-IsText (m ∷ diagnostics) h =
      rw
        (append-IsText (join (m ∷ take 2 diagnostics))
          (omitted_suffix decimal (length (m ∷ diagnostics) - 3))
          (join-IsText m (take 2 diagnostics) h.0))
        refl

  -- The final message is a text if and only if something degraded.
  message-IsText :
      (message : Option String) (diagnostics : List String) (fallback_count : ℕ)
      → All IsText diagnostics
      → is_text (partial_message_of decimal message diagnostics fallback_count)
        ≡ (is_text message || (is_filled diagnostics || not (fallback_count == 0)))
  unfolding partial_message_of
  message-IsText message diagnostics n h = elim (Bool-cases (is_text message)) [
    | inl e ↦ rw e e
    | inr e ↦ rw e (elim (Bool-cases (is_filled diagnostics)) [
      | inl f ↦ rw f (ground (arith, bounded-IsText diagnostics h, f))
      | inr f ↦ rw f (elim (Bool-cases (n == 0)) [
        | inl z ↦ rw z e
        | inr z ↦ rw z (
            ground (
              arith,
              append-IsText "Fallback processing was used " (decimal n <> " time(s).") refl,
            ))
      ])
    ])
  ]

-- The status that the other columns of the row ask for.
abbrev pub status_of : Completion → Status
status_of k =
    if is_text k.error_code || is_text k.error_message
    then failed
    else if not (is_some k.page_id)
    then failed
    else if is_text k.partial_message
    then partial
    else success

module _ (decimal : ℕ → String) (reader : Reader) where
  -- The final status follows from the columns that are written with it: FAILED with an error or
  -- without a page, else PARTIAL with a partial message that is not empty, else SUCCESS. A
  -- degraded run never ends without a message, nor a successful one with one.
  pub completion-told :
      (c : BatchExecutionContext)
      → (completion_of decimal reader (finalize_context decimal reader c)).status
        ≡ status_of (completion_of decimal reader (finalize_context decimal reader c))
  unfolding finalize_context determine_batch_status
  completion-told c =
      let reasons = sanitize_public_diagnostics reader c.partial_reasons in
      let warnings = sanitize_public_diagnostics reader c.warning_messages in
      let first = sanitize_public_diagnostic reader c.partial_message in
      let diagnostics = from_keys [] (reasons ++ warnings) in
      let told = message-IsText decimal first diagnostics c.fallback_count (
        from_keys-AllText [] (reasons ++ warnings) tt (
          both-AllText reasons warnings (values-AllText reader [] c.partial_reasons tt)
            (values-AllText reader [] c.warning_messages tt))) in
      let final = finalize_context decimal reader c in
      let enough : is_text final.partial_message ≡ (
          is_text final.partial_message
          || (is_filled reasons || (is_filled warnings || not (c.fallback_count == 0)))) =
        ground
          (arith, told, from_keys-filled [] (reasons ++ warnings), both-filled reasons warnings) in
      ap
        (λ b.
          if is_text final.error_code || is_text final.error_message
          then failed
          else if not (is_some final.page_id)
          then failed
          else if b
          then partial
          else success)
        (sym enough)

-- ===== src/Finalize/Gap.antt =====
-- From a gap in a market's news, app/batch/steps/dedupe_articles.py, to the end of the run,
-- app/batch/steps/finalize_job.py.
use Prim.Native.String.{[], ◌∷◌, ◌++◌ as ◌<>◌}
use Prim.Native.String.compare.{cons-nil}
use text.Mathlib.TextLemmas.{nil-append, cons-append}
use text.Mathlib.TextEquality.{eq_iff}
use stockapp.Prelude.{
  ℕ, String, ◌≡◌, ◌⊎◌, refl, Bool, true, false, ◌||◌, ◌&&◌, not, some, List, [], ◌∷◌, In, arith,
  Bool-cases, inl, inr, sym, str_eq, subst,
}
use stockapp.Queue.Job.{partial, failed}
use stockapp.Outcome.{BatchExecutionContext, holds_message, determine_batch_status}
use stockapp.Dedupe.{RawArticle, Tables}
use stockapp.Dedupe.Step.{MarketContext, Queries, uncovered_reason, run_step}
use stockapp.Dedupe.Uncovered.{HasGap, run_step-holds}
use stockapp.Finalize.{Reader, split, split_from, is_char, finalize_context}
use stockapp.Finalize.Told.{IsText, append-IsText}
use stockapp.Finalize.Redacted.{finalize-degraded}

-- A character that no separator has.
has_letter : String → Bool
has_letter [] = false
has_letter (c ∷ s) = (not (is_char b';' c) && not (is_char b' ' c)) || has_letter s

has_letter-append : (s t : String) → has_letter t ≡ true → has_letter (s <> t) ≡ true
unfolding has_letter
has_letter-append [] t h = subst (λ z. has_letter z ≡ true) (sym (nil-append t)) h
has_letter-append (c ∷ s) t h =
    subst (λ z. has_letter z ≡ true) (sym (cons-append c s t))
      (ground (arith, has_letter-append s t h))

-- A text with such a character has a fragment that is not empty.
letter_fragment :
    (semicolon : Bool) (s : String)
    → has_letter s ≡ true
    → (g : String) × (In g ((split_from semicolon s).0 ∷ (split_from semicolon s).1) × IsText g)
unfolding split_from has_letter
letter_fragment semicolon [] h = cc
letter_fragment true (c ∷ s) h = elim (Bool-cases (is_char b' ' c)) [
  | inl e ↦
      let (g, (i, t)) = letter_fragment (is_char b';' c) s (ground (arith, e, h)) in
      rw e (g, (inr i, t))
  | inr e ↦ rw e (elim (Bool-cases (is_char b';' c)) [
    | inl q ↦ rw q (_, (inl refl, append-IsText ";" _ refl))
    | inr q ↦ rw q (_, (inl refl, append-IsText ";" _ refl))
  ])
]
letter_fragment false (c ∷ s) h = elim (Bool-cases (is_char b';' c)) [
  | inl q ↦ let (g, (i, t)) = letter_fragment true s (ground (arith, q, h)) in rw q (g, (i, t))
  | inr q ↦ rw q (_, (inl refl, rw (cons-nil c (split_from false s).0) refl))
]

holds-In : (s : String) (messages : List String) → holds_message s messages ≡ true → In s messages
holds-In s [] h = cc
holds-In s (m ∷ messages) h = elim (Bool-cases (str_eq m s)) [
  | inl e ↦ inl (sym ((eq_iff m s).0 e))
  | inr e ↦ inr (holds-In s messages (ground (arith, e, h)))
]

-- When deduplication ends and the window of some market, up to the last slot that can have been
-- collected, has an instant in none of the completed intervals, the run ends PARTIAL or FAILED,
-- never SUCCESS, whatever the redaction makes of its diagnostics. The run is no rebuild of the page
-- alone, and the steps in between keep the reasons that the context has.
pub gap-ended :
    (q : Queries) (reader : Reader) (decimal : ℕ → String)
    → {C : Type 0} → (fetch : RawArticle → C) (markets : List MarketContext) (m : MarketContext)
    → (c c' last : BatchExecutionContext) (tables tables' : Tables C) → c.rebuild_page_only ≡ false
    → In m markets
    → HasGap q m
    → run_step q fetch markets c tables ≡ some (c', tables')
    → ((s : String) → In s c'.partial_reasons → In s last.partial_reasons)
    → (determine_batch_status (finalize_context decimal reader last) ≡ partial)
      ⊎ (determine_batch_status (finalize_context decimal reader last) ≡ failed)
unfolding split has_letter
gap-ended q reader decimal fetch markets m c c' last tables tables' full i g e kept =
    let name = q.market_name m.market in
    let letters = has_letter-append name " news ingestion coverage is incomplete." refl in
    let (f, (j, t)) = letter_fragment false (uncovered_reason name) letters in
    finalize-degraded reader decimal (uncovered_reason name) f last
      (kept (uncovered_reason name) (
        holds-In (uncovered_reason name) c'.partial_reasons
          (run_step-holds q fetch markets m c c' tables tables' full i g e)))
      j t

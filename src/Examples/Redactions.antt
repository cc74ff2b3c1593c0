-- ===== src/Examples/Redactions.antt =====
-- The end of a run with one failed summary: app/batch/steps/finalize_job.py and
-- app/core/public_diagnostics.py. A second redaction of a message is one phrase longer.
use Prim.Native.String as Text
use stockapp.Prelude.{
  ℕ, String, ◌≡◌, ◌⊎◌, refl, none, some, List, [], ◌∷◌, ◌==◌, if◌then◌else◌, All, inl,
}
use stockapp.Queue.Job.{partial, failed}
use stockapp.Outcome.{BatchExecutionContext, determine_batch_status}
use stockapp.Finalize.{
  Reader, sanitize_public_diagnostic, split, join, finalize_context, completion_of,
}
use stockapp.Finalize.Told.{status_of, completion-told}
use stockapp.Finalize.Redacted.{Redacted, finalize-degraded, sanitize-Redacted}
use stockapp.Examples.Diagnostics.{blank}

-- The scope of the one summary, and texts that are lower case already.
abbrev pub korea_reader : Reader
korea_reader = record {
  scope_prefix = λ s.
      if Text.find s "AI summary fallback for KR:" == 0
      then some "AI summary fallback for KR"
      else none;
  casefold = λ s. s;
}

abbrev pub two_digits : ℕ → String
two_digits n = "12"

abbrev provider_failure : String
provider_failure = "AI summary fallback for KR: 429 quota"

abbrev shown : String
shown = "AI summary fallback for KR: AI provider request failed; fallback content was used."

shown_once : sanitize_public_diagnostic korea_reader (some provider_failure) ≡ some shown
unfolding sanitize_public_diagnostic stockapp.Finalize.sanitize_fragments split
    stockapp.Finalize.split_from stockapp.Finalize.sanitize_fragment join
shown_once = refl

shown_twice :
    sanitize_public_diagnostic korea_reader (some shown)
    ≡ some
        "AI summary fallback for KR: AI provider request failed; fallback content was used.; fallback content was used."
unfolding sanitize_public_diagnostic stockapp.Finalize.sanitize_fragments split
    stockapp.Finalize.split_from stockapp.Finalize.sanitize_fragment stockapp.Finalize.is_sensitive
    join
shown_twice = refl

abbrev one_fallback : BatchExecutionContext
one_fallback = record blank { page_id = some 3; partial_reasons = provider_failure ∷ [] }

completion-told_example :
    (completion_of two_digits korea_reader
      (finalize_context two_digits korea_reader one_fallback)).status
    ≡ status_of (
        completion_of two_digits korea_reader
          (finalize_context two_digits korea_reader one_fallback))
completion-told_example = completion-told two_digits korea_reader one_fallback

one_fragment : split provider_failure ≡ provider_failure ∷ []
unfolding split stockapp.Finalize.split_from
one_fragment = refl

finalize-degraded_example :
    (determine_batch_status (finalize_context two_digits korea_reader one_fallback) ≡ partial)
    ⊎ (determine_batch_status (finalize_context two_digits korea_reader one_fallback) ≡ failed)
finalize-degraded_example =
    finalize-degraded korea_reader two_digits provider_failure provider_failure one_fallback
      (inl refl) (rw one_fragment (inl refl)) refl

sanitize-Redacted_example :
    (messages : List String) × ((shown ≡ join messages)
      × All (Redacted korea_reader (split provider_failure)) messages)
sanitize-Redacted_example = sanitize-Redacted korea_reader provider_failure shown shown_once

-- ===== src/Finalize.antt =====
-- The end of a run: FinalizeJobStep of app/batch/steps/finalize_job.py with the redaction of
-- app/core/public_diagnostics.py and the bounded message of app/batch/diagnostics.py. The regular
-- expression, the Unicode case folding and the decimals of a number are arguments.
pub mod Summary
pub mod Told
pub mod Redacted
pub mod Gap
use Prim.Native.Char.{Char, code}
use Prim.Native.String as Text
use Prim.Native.String.{[], ◌∷◌, ◌++◌ as ◌<>◌}
use stockapp.Prelude.{
  ℕ, ◌-◌, String, Bool, true, false, ◌||◌, Option, none, some, List, [], ◌∷◌, ◌++◌, ◌==◌, any, leb,
  length, take, if◌then◌else◌, str_eq,
}
use stockapp.Outcome.{
  BatchExecutionContext, holds_message, append_new, is_text, is_filled, determine_batch_status,
}
use stockapp.Queue.Job.{Db}
use stockapp.Queue.Lease.{Completion, mark_job_completed}
use stockapp.Finalize.Summary.{build_log_summary}

-- What Python's library answers: the group of _SAFE_SCOPE_PREFIX if it matches at the start, and
-- str.casefold.
pub record Reader : Type 0 where
  pub scope_prefix : String → Option String
  pub casefold : String → String

-- AI_PROVIDER_FAILURE_MESSAGE
abbrev pub failure_message : String
failure_message = "AI provider request failed; fallback content was used."

-- _SENSITIVE_PROVIDER_MARKERS
abbrev markers : List String
markers =
    "429" ∷ "api key" ∷ "api_key" ∷ "authorization" ∷ "bearer " ∷ "endpoint" ∷ "gemini"
    ∷ "generativelanguage" ∷ "googleapis.com" ∷ "grpc_status" ∷ "quota" ∷ "resource_exhausted"
    ∷ "response body" ∷ "retryinfo" ∷ "retry info" ∷ "secret-token" ∷ "secret_token" ∷ []

-- marker in text
abbrev mentions : String → String → Bool
mentions text marker = leb (Text.find text marker) (Text.len text)

unfoldable pub is_sensitive : Reader → String → Bool
is_sensitive reader fragment = any (mentions (reader.casefold fragment)) markers

-- _sanitize_fragment
unfoldable pub sanitize_fragment : Reader → String → String
sanitize_fragment reader fragment = elim (reader.scope_prefix fragment) [
  | some prefix ↦ prefix <> (": " <> failure_message)
  | none ↦ if is_sensitive reader fragment then failure_message else fragment
]

abbrev pub is_char : ℕ → Char → Bool
is_char c d = code d == c

-- value.split('; '), first fragment and the others; the flag is a `;` that was read and waits for
-- what follows.
abbrev pub waiting : Bool → String → String
waiting true s = ";" <> s
waiting false s = s

unfoldable pub split_from : Bool → String → String × List String
split_from semicolon [] = (waiting semicolon "", [])
split_from semicolon (c ∷ s) =
    let (first, others) = split_from (is_char b';' c) s in
    elim semicolon [
      | true ↦
          if is_char b' ' c
          then ("", first ∷ others)
          else if is_char b';' c
          then (";" <> first, others)
          else (";" <> (c ∷ first), others)
      | false ↦ if is_char b';' c then (first, others) else (c ∷ first, others)
    ]

unfoldable pub split : String → List String
split value = let (first, others) = split_from false value in first ∷ others

-- '; '.join(messages)
unfoldable pub join : List String → String
join [] = ""
join (m ∷ []) = m
join (m ∷ n ∷ messages) = m <> ("; " <> join (n ∷ messages))

-- if message and message not in kept: kept.append(message)
abbrev pub keep : String → List String → List String
keep message kept =
    if str_eq message "" || holds_message message kept then kept else kept ++ message ∷ []

unfoldable pub sanitize_fragments : Reader → List String → List String → List String
sanitize_fragments reader kept [] = kept
sanitize_fragments reader kept (f ∷ fragments) =
    sanitize_fragments reader (keep (sanitize_fragment reader f) kept) fragments

abbrev pub joined : List String → Option String
joined [] = none
joined (m ∷ messages) = some (join (m ∷ messages))

unfoldable pub sanitize_public_diagnostic : Reader → Option String → Option String
sanitize_public_diagnostic reader none = none
sanitize_public_diagnostic reader (some value) = joined (sanitize_fragments reader [] (split value))

abbrev pub keep_value : Option String → List String → List String
keep_value none kept = kept
keep_value (some safe) kept = keep safe kept

unfoldable pub sanitize_values : Reader → List String → List String → List String
sanitize_values reader kept [] = kept
sanitize_values reader kept (value ∷ values) =
    sanitize_values reader (keep_value (sanitize_public_diagnostic reader (some value)) kept) values

abbrev pub sanitize_public_diagnostics : Reader → List String → List String
sanitize_public_diagnostics reader values = sanitize_values reader [] values

-- list(dict.fromkeys(messages))
unfoldable pub from_keys : List String → List String → List String
from_keys kept [] = kept
from_keys kept (m ∷ messages) = from_keys (append_new (some m) kept) messages

module _ (decimal : ℕ → String) where
  -- PARTIAL_MESSAGE_REASON_LIMIT = 3
  abbrev pub omitted_suffix : ℕ → String
  omitted_suffix omitted =
      if omitted == 0 then "" else " (+" <> (decimal omitted <> " more not shown)")

  unfoldable pub build_bounded_partial_message : List String → Option String
  build_bounded_partial_message [] = none
  build_bounded_partial_message (m ∷ reasons) =
      some (join (take 3 (m ∷ reasons)) <> omitted_suffix (length (m ∷ reasons) - 3))

  -- What becomes of the message, from the sanitized one, the diagnostics and the fallback count.
  unfoldable pub partial_message_of : Option String → List String → ℕ → Option String
  partial_message_of message diagnostics fallback_count =
      if is_text message
      then message
      else if is_filled diagnostics
      then build_bounded_partial_message diagnostics
      else if fallback_count == 0
      then message
      else some ("Fallback processing was used " <> (decimal fallback_count <> " time(s)."))

  unfoldable pub finalize_context : Reader → BatchExecutionContext → BatchExecutionContext
  finalize_context reader c =
      let reasons = sanitize_public_diagnostics reader c.partial_reasons in
      let warnings = sanitize_public_diagnostics reader c.warning_messages in
      record c {
        partial_reasons = reasons;
        warning_messages = warnings;
        partial_message =
            partial_message_of (sanitize_public_diagnostic reader c.partial_message)
              (from_keys [] (reasons ++ warnings)) c.fallback_count;
        error_message = sanitize_public_diagnostic reader c.error_message;
      }

  abbrev pub completion_of : Reader → BatchExecutionContext → Completion
  completion_of reader c = record {
    status = determine_batch_status c;
    counts = record {
      raw_news_count = c.raw_news_count;
      processed_news_count = c.processed_news_count;
      cluster_count = c.cluster_count;
      ai_target_count = c.ai_target_count;
      ai_attempted_count = c.ai_attempted_count;
      ai_success_count = c.ai_success_count;
      ai_fallback_count = c.ai_fallback_count;
      ai_failed_count = c.ai_failed_count;
    };
    page_id = c.page_id;
    page_version_no = c.page_version_no;
    partial_message = c.partial_message;
    error_code = c.error_code;
    error_message = c.error_message;
    log_summary = sanitize_public_diagnostic reader (build_log_summary decimal c);
  }

  -- FinalizeJobStep.run under the repository's lease token; the first component is whether the
  -- UPDATE found its row, and `BatchLeaseLostError` is raised if not.
  unfoldable pub finalize_job :
      Reader → ℕ → Option ℕ → BatchExecutionContext → Db → (Bool × Db) × BatchExecutionContext
  finalize_job reader now token c db =
      let final = finalize_context reader c in
      (mark_job_completed now token final.job_id (completion_of reader final) db, final)

-- ===== src/Outcome.antt =====
-- The diagnostics of a run and the status that it ends with: `add_partial` of app/batch/models.py and
-- `determine_batch_status` of app/batch/policies/batch_status_policy.py.
pub mod Recording
pub mod Kept
use stockapp.Prelude.{
  ℕ, suc, ◌+◌, ◌≡◌, Bool, true, false, not, ◌&&◌, ◌||◌, List, [], ◌∷◌, ◌++◌, ◌==◌, any,
  if◌then◌else◌, Option, none, some, is_some, String, str_eq,
}
use stockapp.Queue.Job.{Status, success, partial, failed}

-- A dictionary of counters, in insertion order.
abbrev pub Tally : Type 0
Tally = List (String × ℕ)

-- class BatchExecutionContext; the business date is a day number.
pub record BatchExecutionContext : Type 0 where
  pub job_id : ℕ
  pub business_date : ℕ
  pub force_run : Bool
  pub rebuild_page_only : Bool
  pub attempt_count : ℕ
  pub llm_retry_count : ℕ
  pub source_job_id : Option ℕ
  pub source_page_id : Option ℕ
  pub raw_news_count : ℕ
  pub processed_news_count : ℕ
  pub raw_news_count_by_market : Tally
  pub processed_news_count_by_market : Tally
  pub cluster_count : ℕ
  pub page_id : Option ℕ
  pub page_version_no : Option ℕ
  pub collected_index_count : ℕ
  pub generated_summary_count : ℕ
  pub fallback_count : ℕ
  pub ai_target_count : ℕ
  pub ai_attempted_count : ℕ
  pub ai_success_count : ℕ
  pub ai_fallback_count : ℕ
  pub ai_failed_count : ℕ
  pub ai_detail_analysis_degraded_count : ℕ
  pub partial_message : Option String
  pub error_code : Option String
  pub error_message : Option String
  pub partial_reasons : List String
  pub warning_messages : List String
  pub log_messages : List String
  pub partial_categories : Tally
  pub detail_analysis_issue_counts : Tally

abbrev pub holds_message : String → List String → Bool
holds_message s messages = any (λ m. str_eq m s) messages

-- A message that is not there yet is appended; the test says whether one was.
abbrev pub is_new : Option String → List String → Bool
is_new none messages = false
is_new (some s) messages = not (holds_message s messages)

abbrev pub append_new : Option String → List String → List String
append_new none messages = messages
append_new (some s) messages = if holds_message s messages then messages else messages ++ s ∷ []

-- categories[category] = categories.get(category, 0) + 1
unfoldable pub count_category : String → Tally → Tally
count_category category [] = (category, 1) ∷ []
count_category category ((name, n) ∷ categories) =
    let rest = count_category category categories in
    if str_eq name category then (name, n + 1) ∷ categories else (name, n) ∷ rest

unfoldable pub add_partial :
    String → Option String → Option String → BatchExecutionContext → BatchExecutionContext
unfolding count_category
add_partial category reason warning c = record c {
  partial_reasons = append_new reason c.partial_reasons;
  warning_messages = append_new warning c.warning_messages;
  partial_categories =
      if is_new reason c.partial_reasons || is_new warning c.warning_messages
      then count_category category c.partial_categories
      else c.partial_categories;
}

-- A text counts unless it is absent or empty, a list unless it is empty.
abbrev pub is_text : Option String → Bool
is_text none = false
is_text (some s) = not (str_eq s "")

abbrev pub is_filled : List String → Bool
is_filled [] = false
is_filled (m ∷ messages) = true

unfoldable pub determine_batch_status : BatchExecutionContext → Status
determine_batch_status c =
    if is_text c.error_code || is_text c.error_message
    then failed
    else if not (is_some c.page_id)
    then failed
    else if is_text c.partial_message
        || (is_filled c.partial_reasons
            || (is_filled c.warning_messages || not (c.fallback_count == 0)))
    then partial
    else success

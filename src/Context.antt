-- ===== src/Context.antt =====
-- The checkpoint of a run's context, `to_checkpoint` and `from_checkpoint` of app/batch/models.py,
-- with the readers that take malformed data as empty.
pub mod Document
pub mod Restored
use stockapp.Prelude.{
  ℕ, suc, Bool, true, false, Option, none, some, List, [], ◌∷◌, String, if◌then◌else◌, str_eq,
}
use stockapp.Outcome.{BatchExecutionContext, Tally}
use stockapp.Context.Document.{
  Json, null, bool, int, negative, number, string, list, object, Items, no_items, item, Fields,
  no_fields, field, get, of_option, of_strings, of_tally, as_count,
}

-- The keyword arguments of `from_checkpoint`, which come from the job's row.
pub record Resumption : Type 0 where
  pub job_id : ℕ
  pub business_date : ℕ
  pub force_run : Bool
  pub rebuild_page_only : Bool
  pub source_job_id : Option ℕ
  pub source_page_id : Option ℕ
  pub attempt_count : ℕ
  pub llm_retry_count : ℕ

-- `date.isoformat` is a parameter: the key is written and never read.
unfoldable pub to_checkpoint : (ℕ → String) → BatchExecutionContext → Json
to_checkpoint isoformat c = object (
    field "jobId" (int c.job_id) (
      field "businessDate" (string (isoformat c.business_date)) (
        field "forceRun" (bool c.force_run) (
          field "rebuildPageOnly" (bool c.rebuild_page_only) (
            field "sourceJobId" (of_option int c.source_job_id) (
              field "sourcePageId" (of_option int c.source_page_id) (
                field "rawNewsCount" (int c.raw_news_count) (
                  field "processedNewsCount" (int c.processed_news_count) (
                    field "rawNewsCountByMarket" (of_tally c.raw_news_count_by_market) (
                      field "processedNewsCountByMarket" (of_tally c.processed_news_count_by_market)
                        (field "clusterCount" (int c.cluster_count) (
                          field "pageId" (of_option int c.page_id) (
                            field "pageVersionNo" (of_option int c.page_version_no) (
                              field "collectedIndexCount" (int c.collected_index_count) (
                                field "generatedSummaryCount" (int c.generated_summary_count) (
                                  field "fallbackCount" (int c.fallback_count) (
                                    field "aiTargetCount" (int c.ai_target_count) (
                                      field "aiAttemptedCount" (int c.ai_attempted_count) (
                                        field "aiSuccessCount" (int c.ai_success_count) (
                                          field "aiFallbackCount" (int c.ai_fallback_count) (
                                            field "aiFailedCount" (int c.ai_failed_count) (
                                              field "aiDetailAnalysisDegradedCount"
                                                (int c.ai_detail_analysis_degraded_count)
                                                (field "partialMessage"
                                                  (of_option string c.partial_message)
                                                  (field "errorCode" (of_option string c.error_code)
                                                    (field "errorMessage"
                                                      (of_option string c.error_message)
                                                      (field "partialReasons"
                                                        (of_strings c.partial_reasons)
                                                        (field "warningMessages"
                                                          (of_strings c.warning_messages)
                                                          (field "logMessages"
                                                            (of_strings c.log_messages)
                                                            (field "partialCategories"
                                                            (of_tally c.partial_categories)
                                                            (field "detailAnalysisIssueCounts"
                                                            (of_tally
                                                            c.detail_analysis_issue_counts)
                                                            no_fields))))))))))))))))))))))))))))))

-- _checkpoint_int
abbrev pub checkpoint_int : Fields → String → ℕ
checkpoint_int payload key = elim (as_count (get payload key)) [ none ↦ 0 | some n ↦ n ]

-- _checkpoint_optional_int
abbrev pub checkpoint_optional_int : Fields → String → Option ℕ
checkpoint_optional_int payload key = as_count (get payload key)

-- _checkpoint_optional_string
abbrev pub string_of : Json → Option String
string_of (string s) = some s
string_of _ = none

abbrev pub checkpoint_optional_string : Fields → String → Option String
checkpoint_optional_string payload key = string_of (get payload key)

-- The pairs of a dictionary with a count for a value.
unfoldable pub counts_of : Fields → Tally
counts_of no_fields = []
counts_of (field key value rest) =
    let counts = counts_of rest in
    elim (as_count value) [ none ↦ counts | some n ↦ (key, n) ∷ counts ]

-- _checkpoint_int_dict
abbrev dict_of : Json → Tally
dict_of (object fields) = counts_of fields
dict_of _ = []

abbrev pub checkpoint_int_dict : Fields → String → Tally
checkpoint_int_dict payload key = dict_of (get payload key)

unfoldable pub strings_of : Items → List String
strings_of no_items = []
strings_of (item value rest) =
    let strings = strings_of rest in
    elim (string_of value) [ none ↦ strings | some s ↦ s ∷ strings ]

-- _checkpoint_string_list
abbrev list_of : Json → List String
list_of (list items) = strings_of items
list_of _ = []

abbrev pub checkpoint_string_list : Fields → String → List String
checkpoint_string_list payload key = list_of (get payload key)

abbrev pub payload_of : Json → Fields
payload_of (object fields) = fields
payload_of _ = no_fields

-- The argument where there is one, else what the checkpoint has.
abbrev pub or_checkpoint : Option ℕ → Option ℕ → Option ℕ
or_checkpoint none restored = restored
or_checkpoint (some n) restored = some n

unfoldable pub from_fields : Fields → Resumption → BatchExecutionContext
from_fields p a = record {
  job_id = a.job_id;
  business_date = a.business_date;
  force_run = a.force_run;
  rebuild_page_only = a.rebuild_page_only;
  attempt_count = a.attempt_count;
  llm_retry_count = a.llm_retry_count;
  source_job_id = or_checkpoint a.source_job_id (checkpoint_optional_int p "sourceJobId");
  source_page_id = or_checkpoint a.source_page_id (checkpoint_optional_int p "sourcePageId");
  raw_news_count = checkpoint_int p "rawNewsCount";
  processed_news_count = checkpoint_int p "processedNewsCount";
  raw_news_count_by_market = checkpoint_int_dict p "rawNewsCountByMarket";
  processed_news_count_by_market = checkpoint_int_dict p "processedNewsCountByMarket";
  cluster_count = checkpoint_int p "clusterCount";
  page_id = checkpoint_optional_int p "pageId";
  page_version_no = checkpoint_optional_int p "pageVersionNo";
  collected_index_count = checkpoint_int p "collectedIndexCount";
  generated_summary_count = checkpoint_int p "generatedSummaryCount";
  fallback_count = checkpoint_int p "fallbackCount";
  ai_target_count = checkpoint_int p "aiTargetCount";
  ai_attempted_count = checkpoint_int p "aiAttemptedCount";
  ai_success_count = checkpoint_int p "aiSuccessCount";
  ai_fallback_count = checkpoint_int p "aiFallbackCount";
  ai_failed_count = checkpoint_int p "aiFailedCount";
  ai_detail_analysis_degraded_count = checkpoint_int p "aiDetailAnalysisDegradedCount";
  partial_message = checkpoint_optional_string p "partialMessage";
  error_code = checkpoint_optional_string p "errorCode";
  error_message = checkpoint_optional_string p "errorMessage";
  partial_reasons = checkpoint_string_list p "partialReasons";
  warning_messages = checkpoint_string_list p "warningMessages";
  log_messages = checkpoint_string_list p "logMessages";
  partial_categories = checkpoint_int_dict p "partialCategories";
  detail_analysis_issue_counts = checkpoint_int_dict p "detailAnalysisIssueCounts";
}

unfoldable pub from_checkpoint : Json → Resumption → BatchExecutionContext
unfolding from_fields
from_checkpoint payload a = from_fields (payload_of payload) a

-- ===== src/Examples/Diagnostics.antt =====
-- A run of app/batch that degrades twice for one reason: app/batch/models.py and policies.
use stockapp.Prelude.{false, List, [], ◌∷◌, arith, none, some}
use stockapp.Outcome.{BatchExecutionContext}
use stockapp.Outcome.Recording.{Entry, record_all, Counted, record_all-Counted}

-- The context of a new attempt.
abbrev pub blank : BatchExecutionContext
blank = record {
  job_id = 1;
  business_date = 20000;
  force_run = false;
  rebuild_page_only = false;
  attempt_count = 1;
  llm_retry_count = 0;
  source_job_id = none;
  source_page_id = none;
  raw_news_count = 0;
  processed_news_count = 0;
  raw_news_count_by_market = [];
  processed_news_count_by_market = [];
  cluster_count = 0;
  page_id = none;
  page_version_no = none;
  collected_index_count = 0;
  generated_summary_count = 0;
  fallback_count = 0;
  ai_target_count = 0;
  ai_attempted_count = 0;
  ai_success_count = 0;
  ai_fallback_count = 0;
  ai_failed_count = 0;
  ai_detail_analysis_degraded_count = 0;
  partial_message = none;
  error_code = none;
  error_message = none;
  partial_reasons = [];
  warning_messages = [];
  log_messages = [];
  partial_categories = [];
  detail_analysis_issue_counts = [];
}

abbrev with_page : BatchExecutionContext
with_page = record blank { page_id = some 4 }

abbrev stale_index : List Entry
stale_index =
    ("INDEX_STALE_SOURCE_DATE", (some "KQ11 is stale", some "check KQ11"))
    ∷ ("INDEX_STALE_SOURCE_DATE", (some "KQ11 is stale", none))
    ∷ []

record_all-Counted_example : Counted (record_all stale_index with_page)
record_all-Counted_example = record_all-Counted stale_index with_page (omega arith, omega arith)

-- ===== src/Examples/Checkpoints.antt =====
-- Checkpoints of a context, app/batch/models.py: one with progress, and a malformed document.
use stockapp.Prelude.{ℕ, ◌≡◌, false, none, some, [], ◌∷◌, String}
use stockapp.Outcome.{BatchExecutionContext}
use stockapp.Context.Document.{Json, int, negative, string, object, no_fields, field}
use stockapp.Context.{Resumption, to_checkpoint, from_checkpoint}
use stockapp.Context.Restored.{resumed, from_checkpoint-to_checkpoint}
use stockapp.Examples.Diagnostics.{blank}

abbrev in_progress : BatchExecutionContext
in_progress = record blank {
  source_page_id = some 3;
  raw_news_count = 12;
  raw_news_count_by_market = ("KR", 7) ∷ ("US", 5) ∷ [];
  warning_messages = "KR news ingestion coverage is incomplete." ∷ [];
  partial_categories = ("NEWS_COVERAGE_INCOMPLETE", 1) ∷ [];
}

abbrev second_attempt : Resumption
second_attempt = record {
  job_id = 1;
  business_date = 20000;
  force_run = false;
  rebuild_page_only = false;
  source_job_id = some 9;
  source_page_id = none;
  attempt_count = 2;
  llm_retry_count = 1;
}

abbrev plain_date : ℕ → String
plain_date date = "2024-10-04"

from_checkpoint-to_checkpoint_example :
    from_checkpoint (to_checkpoint plain_date in_progress) second_attempt
    ≡ resumed second_attempt in_progress
from_checkpoint-to_checkpoint_example =
    from_checkpoint-to_checkpoint plain_date in_progress second_attempt

-- Two counters are malformed and one key is missing.
abbrev malformed : Json
malformed = object (
    field "rawNewsCount" (negative 4)
      (field "clusterCount" (string "3") (field "pageId" (int 6) no_fields)))

-- ===== src/Queue/Job.antt =====
-- The rows of the durable queue: app/db/enums.py, the columns of `BatchJobRecord` and
-- `BatchJobStepRunRecord` (app/db/repositories/projections.py) that the queue reads or writes, and
-- the checkpoint document. A timestamp is a number of microseconds, and so is `now()`.
use stockapp.Prelude.{ℕ, String, Bool, true, false, Option, none, some, List, []}

-- class BatchJobStatus
pub data Status : Type 0 where
  pending running success partial failed : Status

-- class BatchRunMode
pub data RunMode : Type 0 where
  full page_rebuild ai_retry news_collection : RunMode

-- class BatchStepStatus
pub data StepStatus : Type 0 where
  running succeeded failed : StepStatus

abbrev pub is_pending : Status → Bool
is_pending pending = true
is_pending _ = false

abbrev pub is_running : Status → Bool
is_running running = true
is_running _ = false

abbrev pub is_failed : Status → Bool
is_failed failed = true
is_failed _ = false

-- run_mode IN ('FULL', 'PAGE_REBUILD')
abbrev pub is_market_daily : RunMode → Bool
is_market_daily full = true
is_market_daily page_rebuild = true
is_market_daily _ = false

-- The counters of a finished job.
pub record Counts : Type 0 where
  pub raw_news_count : ℕ
  pub processed_news_count : ℕ
  pub cluster_count : ℕ
  pub ai_target_count : ℕ
  pub ai_attempted_count : ℕ
  pub ai_success_count : ℕ
  pub ai_fallback_count : ℕ
  pub ai_failed_count : ℕ

abbrev pub no_counts : Counts
no_counts = record {
  raw_news_count = 0;
  processed_news_count = 0;
  cluster_count = 0;
  ai_target_count = 0;
  ai_attempted_count = 0;
  ai_success_count = 0;
  ai_fallback_count = 0;
  ai_failed_count = 0;
}

-- `checkpoint_json`: the keys that the queue and the orchestrator read. The serialised context is
-- kept as text.
pub record Checkpoint : Type 0 where
  pub completed_steps : List String
  pub target_progress : List (String × List String)
  pub context : Option String
  pub llm_retry_count : Option ℕ

abbrev pub empty_checkpoint : Checkpoint
empty_checkpoint = record {
  completed_steps = [];
  target_progress = [];
  context = none;
  llm_retry_count = none;
}

pub record Job : Type 0 where
  pub job_id : ℕ
  pub business_date : ℕ
  pub status : Status
  pub run_mode : RunMode
  pub force_run : Bool
  pub rebuild_page_only : Bool
  pub source_job_id : Option ℕ
  pub source_page_id : Option ℕ
  pub idempotency_key : Option String
  pub queued_at : ℕ
  pub available_at : ℕ
  pub attempt_count : ℕ
  pub max_attempts : ℕ
  pub lease_owner : Option String
  pub lease_token : Option ℕ
  pub lease_expires_at : Option ℕ
  pub heartbeat_at : Option ℕ
  pub current_step : Option String
  pub checkpoint_json : Checkpoint
  pub started_at : ℕ
  pub ended_at : Option ℕ
  pub duration_seconds : Option ℕ
  pub counts : Counts
  pub page_id : Option ℕ
  pub page_version_no : Option ℕ
  pub partial_message : Option String
  pub error_code : Option String
  pub error_message : Option String
  pub log_summary : Option String

pub record StepRun : Type 0 where
  pub step_run_id : ℕ
  pub batch_job_id : ℕ
  pub step_code : String
  pub seq : ℕ
  pub step_status : StepStatus
  pub step_started_at : ℕ
  pub step_ended_at : Option ℕ
  pub duration_ms : Option ℕ
  pub step_error_message : Option String
  pub step_error_log : Option String

-- The two tables, with the identity columns' next values.
pub record Db : Type 0 where
  pub jobs : List Job
  pub step_runs : List StepRun
  pub next_job_id : ℕ
  pub next_step_run_id : ℕ

-- checkpoint_llm_retry_count: a document without the key counts as 0.
unfoldable pub checkpoint_llm_retry_count : Checkpoint → ℕ
checkpoint_llm_retry_count c = elim c.llm_retry_count [ none ↦ 0 | some n ↦ n ]

-- ===== src/Worker.antt =====
-- The durable worker, app/batch/worker.py: one round of `run_once`, the policy for transient
-- provider failures, and the release of a failed claim. The orchestrators that a job is dispatched
-- to, the clock and the random jitter are parameters. Delays are microseconds.
pub mod Budget
use stockapp.Prelude.{
  ℕ, ◌+◌, ◌*◌, ◌/◌, ◌^◌, String, Bool, true, false, Option, none, some, ltb, min, if◌then◌else◌,
}
use stockapp.Queue.Job.{Job, Db, checkpoint_llm_retry_count}
use stockapp.Queue.Lease.{claim_row, claim_next_job, release_row, release_failed_claim}
use stockapp.Queue.Recovery.{recover_expired_claims}

-- The settings that the worker reads (app/core/settings.py).
pub record Settings : Type 0 where
  pub batch_worker_lease_seconds : ℕ
  pub batch_worker_retry_delay_seconds : ℕ
  pub llm_max_retries : ℕ
  pub llm_retry_base_delay : ℕ
  pub llm_retry_max_delay : ℕ

-- The exceptions that a dispatch ends with, in the order of the `except` clauses. An
-- `LlmRetryableError` may carry the provider's Retry-After.
pub data Failure : Type 0 where
  lease_lost : (message : String) → Failure
  llm_retryable : (retry_after : Option ℕ) → Failure
  other : (message : String) → Failure

abbrev pub is_llm_retryable : Failure → Bool
is_llm_retryable (llm_retryable _) = true
is_llm_retryable _ = false

-- math.ceil of a number of microseconds in seconds.
abbrev pub ceil_seconds : ℕ → ℕ
ceil_seconds delay = (delay + 999999) / 1000000

-- `jitter c` is c * llm_retry_jitter_ratio * random().
unfoldable pub llm_retry_delay_seconds : Settings → (ℕ → ℕ) → Job → Option ℕ → ℕ
llm_retry_delay_seconds s jitter job (some retry_after) = ceil_seconds retry_after
llm_retry_delay_seconds s jitter job none =
    let base = s.llm_retry_base_delay * 2 ^ checkpoint_llm_retry_count job.checkpoint_json in
    let capped = min base s.llm_retry_max_delay in ceil_seconds (capped + jitter capped)

-- The arguments of `_release_failed_claim` in each `except` clause.
pub record Release : Type 0 where
  pub error_code : String
  pub error_message : String
  pub retry_delay_seconds : ℕ
  pub extra_attempts : ℕ
  pub llm_retry_count : Option ℕ

unfoldable pub release_for : Settings → (ℕ → ℕ) → Job → Failure → Release
release_for s jitter job (lease_lost message) = record {
  error_code = "BATCH_LEASE_LOST";
  error_message = message;
  retry_delay_seconds = s.batch_worker_retry_delay_seconds;
  extra_attempts = 0;
  llm_retry_count = none;
}
release_for s jitter job (llm_retryable retry_after) = record {
  error_code = "LLM_TRANSIENT_RETRY";
  error_message = "Temporary LLM provider failure; retry scheduled.";
  retry_delay_seconds = llm_retry_delay_seconds s jitter job retry_after;
  extra_attempts = 1;
  llm_retry_count = some (checkpoint_llm_retry_count job.checkpoint_json + 1);
}
release_for s jitter job (other message) = record {
  error_code = "BATCH_ATTEMPT_FAILED";
  error_message = message;
  retry_delay_seconds = s.batch_worker_retry_delay_seconds;
  extra_attempts = 0;
  llm_retry_count = none;
}

-- The dispatch of a claimed job: in retry-exhausted mode or not, under a lease token, with the
-- tables before and after it. `none` is a completed dispatch.
abbrev pub Dispatch : Type 0
Dispatch = (exhausted : Bool) → Job → (token : ℕ) → Db → Option Failure × Db

-- Whether a failure is answered by a second run in retry-exhausted mode.
abbrev pub needs_exhausted_run : Settings → Job → Failure → Bool
needs_exhausted_run s job (llm_retryable _) =
    if ltb (checkpoint_llm_retry_count job.checkpoint_json) s.llm_max_retries then false else true
needs_exhausted_run s job _ = false

-- `_dispatch_with_llm_retry_policy`, after the first run.
after_first_run : Settings → Dispatch → Job → ℕ → Option Failure × Db → Option Failure × Db
after_first_run s dispatch job token (none, db) = (none, db)
after_first_run s dispatch job token (some f, db) =
    if needs_exhausted_run s job f then dispatch true job token db else (some f, db)

unfoldable pub dispatch_with_llm_retry_policy :
    Settings → Dispatch → Job → ℕ → Db → Option Failure × Db
unfolding after_first_run
dispatch_with_llm_retry_policy s dispatch job token db =
    after_first_run s dispatch job token (dispatch false job token db)

unfoldable pub release_failure : Settings → (ℕ → ℕ) → ℕ → Job → ℕ → Option Failure × Db → Db
release_failure s jitter now job token (none, db) = db
release_failure s jitter now job token (some f, db) =
    let r = release_for s jitter job f in
    (release_failed_claim now job.job_id token r.error_code r.error_message r.retry_delay_seconds
      r.extra_attempts r.llm_retry_count db).1

-- The times at which the statements of one round are executed.
pub record Times : Type 0 where
  pub recovered : ℕ
  pub claimed : ℕ
  pub released : ℕ

run_claimed : Settings → (ℕ → ℕ) → Dispatch → Times → ℕ → Option Job × Db → Bool × Db
run_claimed s jitter dispatch t token (none, db) = (false, db)
run_claimed s jitter dispatch t token (some job, db) = (
  true,
  release_failure s jitter t.released job token
      (dispatch_with_llm_retry_policy s dispatch job token db),
)

-- Recover, claim at most one job, dispatch it, and release it if it fails.
unfoldable pub run_once :
    Settings → (ℕ → ℕ) → Dispatch → Times → (ℕ → Bool) → String → ℕ → Db → Bool × Db
unfolding run_claimed
run_once s jitter dispatch t locked worker_id token db =
    let db' = (recover_expired_claims t.recovered db).1 in
    run_claimed s jitter dispatch t token
      (claim_next_job t.claimed locked worker_id token s.batch_worker_lease_seconds db')

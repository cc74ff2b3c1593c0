-- ===== src/Examples/Batches.antt =====
-- A job that fails until its budget is spent, a run in two attempts, and a retry of AI summaries:
-- app/batch/worker.py, orchestrators/market_daily.py and ai_retry/resolver.py.
use stockapp.Prelude.{
  In, length, count, not, ◌&&◌, select, ℕ, ◌≤◌, ◌≡◌, refl, ◌+◌, ◌*◌, true, false, List, [], ◌∷◌,
  map, arith, All, In, none, some, inl, ◌==◌, if◌then◌else◌,
}
use stockapp.Queue.Job.{
  Job, pending, failed, RunMode, no_counts, empty_checkpoint, checkpoint_llm_retry_count,
}
use stockapp.Worker.{Settings, Failure}
use stockapp.Worker.Budget.{Attempt, fail_all, fail_all-failed}
use stockapp.Pipeline.{StepResult}
use stockapp.Retry.Resolver.{
  of_job, AiSummaryStatus, AiSummaryRecord, is_successful_summary, is_retry_resolved, summary_order,
  resolve_effective_summaries, current_row, is_resolved, AiRetrySelection, select_retry_targets,
}
use stockapp.Retry.Effective.{resolve_effective_summaries_lem}
use stockapp.Retry.Selection.{Unresolved, select_retry_targets_lem}
use stockapp.Retry.Counts.{AiRetryCounts, calculate_retry_counts}
use stockapp.Retry.Tallied.{is_resolved_target, is_failed_target}
use stockapp.Retry.Totals.{Lists, calculate_retry_counts_lem}

abbrev settings : Settings
settings = record {
  batch_worker_lease_seconds = 60;
  batch_worker_retry_delay_seconds = 30;
  llm_max_retries = 1;
  llm_retry_base_delay = 1000000;
  llm_retry_max_delay = 8000000;
}

abbrev job : Job
job = record {
  job_id = 1;
  business_date = 20000;
  status = pending;
  run_mode = RunMode.full;
  force_run = false;
  rebuild_page_only = false;
  source_job_id = none;
  source_page_id = none;
  idempotency_key = none;
  queued_at = 100;
  available_at = 100;
  attempt_count = 0;
  max_attempts = 1;
  lease_owner = none;
  lease_token = none;
  lease_expires_at = none;
  heartbeat_at = none;
  current_step = none;
  checkpoint_json = empty_checkpoint;
  started_at = 100;
  ended_at = none;
  duration_seconds = none;
  counts = no_counts;
  page_id = none;
  page_version_no = none;
  partial_message = none;
  error_code = none;
  error_message = none;
  log_summary = none;
}

abbrev failing : ℕ → Attempt
failing at = record {
  worker_id = "worker";
  token = at;
  claimed_at = at;
  released_at = at + 5;
  first = Failure.llm_retryable none;
  exhausted = Failure.other "terminal";
}

fail_all-failed_example :
    (fail_all settings (λ d. d) (failing 200 ∷ failing 300 ∷ []) job).status ≡ failed
unfolding checkpoint_llm_retry_count
fail_all-failed_example =
    fail_all-failed settings (λ d. d) (failing 200 ∷ failing 300 ∷ []) job refl (omega arith)
      (refl, (refl, tt)) (omega arith)

-- Steps 1 and 2 and the closing step 9 multiply and add.
abbrev step_effect : ℕ → ℕ → ℕ
step_effect code c = c * 10 + code

abbrev cut_at_2 : ℕ → ℕ → StepResult ℕ
cut_at_2 code c =
    if code == 2 then StepResult.lease_lost_after else StepResult.returned (step_effect code c)

abbrev whole : ℕ → ℕ → StepResult ℕ
whole code c = StepResult.returned (step_effect code c)

abbrev failed_summary : AiSummaryRecord
failed_summary = record {
  summary_id = 1;
  batch_job_id = 10;
  target_key = 5;
  is_global_headline = true;
  status = AiSummaryStatus.failed;
  fallback_used = false;
  has_key_point_failure = false;
  generated_at = 100;
  source_summary_id = none;
  attempt_no = 1;
}

abbrev lineage : List AiSummaryRecord
lineage =
    failed_summary
    ∷ record {
      summary_id = 2;
      batch_job_id = 11;
      target_key = 5;
      is_global_headline = true;
      status = AiSummaryStatus.success;
      fallback_used = false;
      has_key_point_failure = false;
      generated_at = 200;
      source_summary_id = some 1;
      attempt_no = 2;
    }
    ∷ []

resolve_effective_summaries_lem_example :
    (row : AiSummaryRecord) × (resolve_effective_summaries lineage 5 ≡ some row)
    × In row lineage
    × (row.target_key ≡ 5)
    × ((t : AiSummaryRecord)
        → In t lineage
        → t.target_key ≡ 5
        → (is_successful_summary t ≡ true → is_successful_summary row ≡ true)
          × (is_successful_summary t ≡ is_successful_summary row → summary_order row t ≡ false))
resolve_effective_summaries_lem_example =
    resolve_effective_summaries_lem lineage failed_summary (inl refl)

select_retry_targets_lem_example :
    All (Unresolved 12 lineage) (select_retry_targets 10 12 lineage)
    × ((s row : AiSummaryRecord)
        → In s lineage
        → s.batch_job_id ≡ 10
        → resolve_effective_summaries lineage s.target_key ≡ some row
        → is_retry_resolved row ≡ false
        → is_resolved (current_row 12 lineage s.target_key) ≡ false
        → In s.target_key
            (map (λ (sel : AiRetrySelection). sel.target) (select_retry_targets 10 12 lineage)))
select_retry_targets_lem_example = select_retry_targets_lem 10 12 lineage

calculate_retry_counts_lem_example :
    (c : AiRetryCounts) × (calculate_retry_counts 10 11 lineage ≡ some c)
    × (targets attempted : List ℕ) × Lists (λ s. s.batch_job_id ≡ 10) lineage targets
    × Lists (λ s. (s.batch_job_id ≡ 11) × In s.target_key targets) lineage attempted
    × (c.target_count ≡ length targets)
    × (c.attempted_count ≡ length attempted)
    × (c.success_count ≡ count (is_resolved_target lineage) targets)
    × (c.failed_count ≡ count (is_failed_target lineage) targets)
    × (c.success_count + c.failed_count + c.fallback_count ≡ c.target_count)
    × (c.recovered_count
        ≡ count
            (λ k.
              is_resolved_target lineage k
              && not (is_resolved_target (select (of_job 10) lineage) k))
            attempted)
    × (c.recovered_count ≤ c.success_count)
calculate_retry_counts_lem_example = calculate_retry_counts_lem 10 11 lineage

-- ===== src/Queue/Recovery.antt =====
-- Recovery of expired leases and the time of the next action, batch_job_repo.py.
use stockapp.Prelude.{
  count, ℕ, ◌+◌, ◌-◌, ◌/◌, Bool, not, ◌&&◌, Option, none, some, List, [], ◌∷◌, ltb, leb, ◌==◌, min,
  any, if◌then◌else◌,
}
use stockapp.Queue.Job.{pending, failed, StepStatus, Job, StepRun, Db, is_pending, is_running}
use stockapp.Queue.Table.{update_where, elapsed_seconds, null_lease, is_expired}
use stockapp.Queue.Lease.{is_step_running}

-- A running job whose lease is gone.
unfoldable pub has_expired : ℕ → Job → Bool
has_expired now j = is_running j.status && is_expired j.lease_expires_at now

unfoldable pub is_exhausted : ℕ → Job → Bool
unfolding has_expired
is_exhausted now j = has_expired now j && leb j.max_attempts j.attempt_count

unfoldable pub is_requeueable : ℕ → Job → Bool
unfolding has_expired
is_requeueable now j = has_expired now j && ltb j.attempt_count j.max_attempts

unfoldable pub exhaust_row : ℕ → Job → Job
exhaust_row now j = record (null_lease j) {
  status = failed;
  ended_at = some now;
  duration_seconds = some (elapsed_seconds now j.started_at);
  error_code = some "BATCH_ATTEMPTS_EXHAUSTED";
  error_message = some "Batch job exhausted its worker attempts.";
  log_summary = some "Batch job exhausted its worker attempts.";
}

unfoldable pub requeue_row : ℕ → Job → Job
requeue_row now j = record (null_lease j) {
  status = pending;
  available_at = now;
  ended_at = none;
  duration_seconds = none;
  error_code = some "BATCH_LEASE_EXPIRED";
  error_message = some "Worker lease expired; job was requeued.";
}

-- j.status <> 'RUNNING' for the job that a step run belongs to.
unfoldable pub is_orphan : List Job → StepRun → Bool
unfolding is_step_running
is_orphan jobs r =
    is_step_running r.step_status
    && any (λ j. j.job_id == r.batch_job_id && not (is_running j.status)) jobs

unfoldable pub close_step_row : ℕ → StepRun → StepRun
close_step_row now r = record r {
  step_status = StepStatus.failed;
  step_ended_at = some now;
  duration_ms = some ((now - r.step_started_at + 500) / 1000);
  step_error_message = some "Batch worker stopped before the step completed.";
  step_error_log = some "Batch step was closed during expired worker lease recovery.";
}

pub record Recovered : Type 0 where
  pub requeued_count : ℕ
  pub failed_count : ℕ

-- The three statements in the order of the source; each reads the rows that the last one left.
unfoldable pub recover_expired_claims : ℕ → Db → Recovered × Db
unfolding is_exhausted is_requeueable exhaust_row requeue_row is_orphan close_step_row
recover_expired_claims now db =
    let failed_rows = update_where (is_exhausted now) (exhaust_row now) db.jobs in
    let requeued_rows = update_where (is_requeueable now) (requeue_row now) failed_rows in
    (
      record {
        requeued_count = count (is_requeueable now) failed_rows;
        failed_count = count (is_exhausted now) db.jobs;
      },
      record db {
        jobs = requeued_rows;
        step_runs = update_where (is_orphan requeued_rows) (close_step_row now) db.step_runs;
      },
    )

-- When a row can next be acted on: a pending job with attempts left when it becomes available, a
-- running one when its lease ends.
unfoldable pub action_at : ℕ → Job → Option ℕ
action_at now j =
    if is_pending j.status && ltb j.attempt_count j.max_attempts
    then some j.available_at
    else if is_running j.status
    then some (elim j.lease_expires_at [ none ↦ now | some t ↦ t ])
    else none

earliest_of : Option ℕ → Option ℕ → Option ℕ
earliest_of none b = b
earliest_of (some a) none = some a
earliest_of (some a) (some b) = some (min a b)

-- MIN(action_at) over the union.
unfoldable pub next_action : ℕ → List Job → Option ℕ
unfolding action_at earliest_of
next_action now [] = none
next_action now (j ∷ js) = earliest_of (action_at now j) (next_action now js)

-- GREATEST(MIN(action_at) - now(), 0), in microseconds.
unfoldable pub time_until_next_actionable_job : ℕ → Db → Option ℕ
unfolding next_action
time_until_next_actionable_job now db = elim (next_action now db.jobs) [
  | none ↦ none
  | some t ↦ some (t - now)
]

-- ===== src/Queue/Admission.antt =====
-- Admission of jobs, batch_job_repo.py: creation, requeueing of a failed job, and the lookups that
-- the service makes. An `IntegrityError` is the result `none`: the statement is undone.
use stockapp.Prelude.{
  ℕ, ◌+◌, String, Bool, false, ◌&&◌, ◌||◌, Option, none, some, [], ◌∷◌, ◌++◌, ◌==◌, any,
  if◌then◌else◌, str_eq,
}
use stockapp.Queue.Job.{
  Status, pending, RunMode, Job, Db, is_pending, is_running, is_failed, is_market_daily, no_counts,
  empty_checkpoint,
}
use stockapp.Queue.Table.{update_where, find, has_id, null_lease}

-- The arguments of `create_job`, BatchJobCreateParams.
pub record CreateParams : Type 0 where
  pub business_date : ℕ
  pub status : Status
  pub force_run : Bool
  pub rebuild_page_only : Bool
  pub run_mode : RunMode
  pub source_job_id : Option ℕ
  pub source_page_id : Option ℕ
  pub idempotency_key : Option String
  pub max_attempts : ℕ

abbrev pub is_open : Status → Bool
is_open s = is_pending s || is_running s

-- The predicate of the partial unique index uq_batch_job_one_active_market_daily_per_day.
abbrev pub is_active : Job → Bool
is_active j = is_open j.status && is_market_daily j.run_mode

abbrev pub is_active_on : ℕ → Job → Bool
is_active_on business_date j = j.business_date == business_date && is_active j

abbrev pub has_key : String → Job → Bool
has_key key j = elim j.idempotency_key [ none ↦ false | some k ↦ str_eq k key ]

-- The same key, where both rows have one (uq_batch_job_idempotency_key).
abbrev pub same_key : Job → Job → Bool
same_key a b = elim a.idempotency_key [ none ↦ false | some k ↦ has_key k b ]

-- Two rows that the unique indexes forbid to stand in one table.
unfoldable pub collides : Job → Job → Bool
collides a b = (is_active a && is_active_on a.business_date b) || same_key a b

unfoldable pub new_row : ℕ → ℕ → CreateParams → Job
new_row now job_id p = record {
  job_id = job_id;
  business_date = p.business_date;
  status = p.status;
  run_mode = p.run_mode;
  force_run = p.force_run;
  rebuild_page_only = p.rebuild_page_only;
  source_job_id = p.source_job_id;
  source_page_id = p.source_page_id;
  idempotency_key = p.idempotency_key;
  queued_at = now;
  available_at = now;
  attempt_count = 0;
  max_attempts = p.max_attempts;
  lease_owner = none;
  lease_token = none;
  lease_expires_at = none;
  heartbeat_at = none;
  current_step = none;
  checkpoint_json = empty_checkpoint;
  started_at = now;
  ended_at = none;
  duration_seconds = none;
  counts = no_counts;
  page_id = none;
  page_version_no = none;
  partial_message = none;
  error_code = none;
  error_message = none;
  log_summary = none;
}

-- INSERT ... RETURNING, refused by the unique indexes. The column defaults are those of
-- db/schema_postgresql.sql. An identity value that a refused insert took is not given back.
unfoldable pub create_job : ℕ → CreateParams → Db → Option Job × Db
unfolding new_row
create_job now p db =
    let row = new_row now db.next_job_id p in
    if any (collides row) db.jobs
    then (none, record db { next_job_id = db.next_job_id + 1 })
    else (some row, record db { jobs = db.jobs ++ row ∷ []; next_job_id = db.next_job_id + 1 })

unfoldable pub retry_row : ℕ → Job → Job
retry_row now j = record (null_lease j) {
  status = pending;
  attempt_count = 0;
  available_at = now;
  error_code = none;
  error_message = none;
}

abbrev pub is_failed_with_id : ℕ → Job → Bool
is_failed_with_id job_id j = has_id job_id j && is_failed j.status

pub data Retried : Type 0 where
  -- No row was FAILED any more.
  unchanged : Retried
  requeued : Job → Retried
  -- The partial unique index refused the update.
  integrity_error : Retried

unfoldable pub retry_failed_job : ℕ → ℕ → Db → Retried × Db
unfolding retry_row
retry_failed_job now job_id db = elim (find (is_failed_with_id job_id) db.jobs) [
  | none ↦ (unchanged, db)
  | some j ↦
      if is_market_daily j.run_mode && any (is_active_on j.business_date) db.jobs
      then (integrity_error, db)
      else (
        requeued (retry_row now j),
        record db { jobs = update_where (is_failed_with_id job_id) (retry_row now) db.jobs },
      )
]

unfoldable pub find_active_job_id_for_business_date : ℕ → Db → Option ℕ
find_active_job_id_for_business_date business_date db =
    elim (find (is_active_on business_date) db.jobs) [ none ↦ none | some j ↦ some j.job_id ]

unfoldable pub get_job_by_id : ℕ → Db → Option Job
get_job_by_id job_id db = find (has_id job_id) db.jobs

unfoldable pub get_job_by_idempotency_key : String → Db → Option Job
get_job_by_idempotency_key key db = find (has_key key) db.jobs

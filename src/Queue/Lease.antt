-- ===== src/Queue/Lease.antt =====
-- The statements of batch_job_repo.py that a worker runs: claim, heartbeat, begin_step,
-- save_checkpoint, release and completion.
use stockapp.Prelude.{
  ℕ, ◌+◌, ◌-◌, ◌*◌, ◌/◌, String, Bool, true, false, not, ◌&&◌, ◌||◌, Option, none, some, List, [],
  ◌∷◌, ◌++◌, ltb, leb, ◌==◌, select, max, is_some, if◌then◌else◌, str_eq,
}
use stockapp.Queue.Job.{
  Status, pending, running, failed, StepStatus, Counts, Checkpoint, Job, StepRun, Db, is_pending,
}
use stockapp.Queue.Table.{update_where, find, has_id, elapsed_seconds, null_lease, holds_lease}

-- ORDER BY available_at, queued_at, id
abbrev pub before : Job → Job → Bool
before a b =
    ltb a.available_at b.available_at
    || (a.available_at == b.available_at
        && (ltb a.queued_at b.queued_at || (a.queued_at == b.queued_at && ltb a.job_id b.job_id)))

-- The first row in that order.
unfoldable pub earliest : List Job → Option Job
earliest [] = none
earliest (j ∷ js) = elim (earliest js) [
  | none ↦ some j
  | some k ↦ some (if before k j then k else j)
]

-- The WHERE clause of the candidate, where `locked` holds the rows that SKIP LOCKED passes over.
unfoldable pub is_claimable : ℕ → (ℕ → Bool) → Job → Bool
is_claimable now locked j =
    is_pending j.status
    && (leb j.available_at now && (ltb j.attempt_count j.max_attempts && not (locked j.job_id)))

-- The SET clause of the claim; `make_interval(secs => s)` is `s` million microseconds.
unfoldable pub claim_row : ℕ → String → ℕ → ℕ → Job → Job
claim_row now worker_id token lease_seconds j = record j {
  status = running;
  attempt_count = j.attempt_count + 1;
  lease_owner = some worker_id;
  lease_token = some token;
  lease_expires_at = some (now + lease_seconds * 1000000);
  heartbeat_at = some now;
  started_at = now;
  ended_at = none;
  duration_seconds = none;
  error_code = none;
  error_message = none;
}

-- The UPDATE by the candidate that the first part of the statement found.
unfoldable pub claim_candidate : ℕ → String → ℕ → ℕ → Db → Option Job → Option Job × Db
claim_candidate now worker_id token lease_seconds db none = (none, db)
claim_candidate now worker_id token lease_seconds db (some c) =
    let set = claim_row now worker_id token lease_seconds in
    (some (set c), record db { jobs = update_where (has_id c.job_id) set db.jobs })

unfoldable pub claim_next_job : ℕ → (ℕ → Bool) → String → ℕ → ℕ → Db → Option Job × Db
unfolding claim_candidate
claim_next_job now locked worker_id token lease_seconds db =
    claim_candidate now worker_id token lease_seconds db
      (earliest (select (is_claimable now locked) db.jobs))

owned_by : String → Option String → Bool
owned_by worker_id none = false
owned_by worker_id (some w) = str_eq w worker_id

unfoldable pub heartbeat_claim : ℕ → ℕ → String → ℕ → ℕ → Db → Bool × Db
unfolding owned_by
heartbeat_claim now job_id worker_id token lease_seconds db =
    let hit = λ (j : Job). holds_lease now job_id token j && owned_by worker_id j.lease_owner in
    (
      is_some (find hit db.jobs),
      record db {
        jobs =
            update_where hit
              (λ j. record j {
                heartbeat_at = some now;
                lease_expires_at = some (now + lease_seconds * 1000000);
              })
              db.jobs;
      },
    )

-- COALESCE(MAX(seq), 0) + 1 over the job's step runs.
unfoldable pub next_seq : ℕ → List StepRun → ℕ
next_seq job_id [] = 1
next_seq job_id (r ∷ rs) =
    let rest = next_seq job_id rs in if r.batch_job_id == job_id then max (r.seq + 1) rest else rest

insert_step_run : ℕ → ℕ → String → Db → ℕ × Db
unfolding next_seq
insert_step_run now job_id step_code db = (
  db.next_step_run_id,
  record db {
    step_runs =
        db.step_runs
        ++ (record {
          step_run_id = db.next_step_run_id;
          batch_job_id = job_id;
          step_code = step_code;
          seq = next_seq job_id db.step_runs;
          step_status = StepStatus.running;
          step_started_at = now;
          step_ended_at = none;
          duration_ms = none;
          step_error_message = none;
          step_error_log = none;
        }
            ∷ []);
    next_step_run_id = db.next_step_run_id + 1;
  },
)

unfoldable pub begin_step : ℕ → ℕ → ℕ → String → Db → Option ℕ × Db
unfolding insert_step_run
begin_step now job_id token step_code db =
    if is_some (find (holds_lease now job_id token) db.jobs)
    then (let (step_run_id, db') = insert_step_run now job_id step_code (record db {
      jobs =
          update_where (holds_lease now job_id token)
            (λ j. record j { current_step = some step_code }) db.jobs;
    }) in
        (some step_run_id, db'))
    else (none, db)

unfoldable pub is_step_running : StepStatus → Bool
is_step_running StepStatus.running = true
is_step_running _ = false

is_step_failed : StepStatus → Bool
is_step_failed StepStatus.failed = true
is_step_failed _ = false

unfoldable pub finish_step_run : ℕ → ℕ → StepStatus → Option String → Option String → Db → Bool × Db
unfolding is_step_running is_step_failed
finish_step_run now step_run_id status error_message error_log db =
    let hit = λ (r : StepRun). r.step_run_id == step_run_id && is_step_running r.step_status in
    (
      is_some (find hit db.step_runs),
      record db {
        step_runs =
            update_where hit
              (λ r. record r {
                step_status = status;
                step_ended_at = some now;
                duration_ms = some ((now - r.step_started_at + 500) / 1000);
                step_error_message = if is_step_failed status then error_message else none;
                step_error_log = if is_step_failed status then error_log else none;
              })
              db.step_runs;
      },
    )

unfoldable pub save_checkpoint : ℕ → ℕ → ℕ → String → Checkpoint → Db → Bool × Db
save_checkpoint now job_id token current_step checkpoint db = (
  is_some (find (holds_lease now job_id token) db.jobs),
  record db {
    jobs =
        update_where (holds_lease now job_id token)
          (λ j. record j { current_step = some current_step; checkpoint_json = checkpoint })
          db.jobs;
  },
)

-- The CASE on the attempts that are left decides every column at once.
unfoldable pub release_row : ℕ → String → String → ℕ → ℕ → Option ℕ → Job → Job
release_row now error_code error_message retry_delay_seconds extra_attempts llm_retry_count j =
    let spent = leb (j.max_attempts + extra_attempts) j.attempt_count in
    record (null_lease j) {
      status = if spent then failed else pending;
      max_attempts = j.max_attempts + extra_attempts;
      checkpoint_json = (elim llm_retry_count [
        | none ↦ j.checkpoint_json
        | some n ↦ record (j.checkpoint_json) { llm_retry_count = some n }
      ]);
      available_at = if spent then j.available_at else now + retry_delay_seconds * 1000000;
      ended_at = if spent then some now else none;
      duration_seconds = if spent then some (elapsed_seconds now j.started_at) else none;
      error_code = some (if spent then "BATCH_ATTEMPTS_EXHAUSTED" else error_code);
      error_message = some error_message;
      log_summary = some error_message;
    }

-- The status after the update, or nothing if the lease is not held.
unfoldable pub release_failed_claim :
    ℕ → ℕ → ℕ → String → String → ℕ → ℕ → Option ℕ → Db → Option Status × Db
unfolding release_row
release_failed_claim now job_id token code message delay extra llm_retry_count db =
    let set = release_row now code message delay extra llm_retry_count in
    (
      elim (find (holds_lease now job_id token) db.jobs) [
        | none ↦ none
        | some j ↦ some ((set j).status)
      ],
      record db { jobs = update_where (holds_lease now job_id token) set db.jobs },
    )

-- The arguments of `mark_job_completed`.
pub record Completion : Type 0 where
  pub status : Status
  pub counts : Counts
  pub page_id : Option ℕ
  pub page_version_no : Option ℕ
  pub partial_message : Option String
  pub error_code : Option String
  pub error_message : Option String
  pub log_summary : Option String

unfoldable pub complete_row : ℕ → Completion → Job → Job
complete_row now c j = record (null_lease j) {
  status = c.status;
  ended_at = some now;
  duration_seconds = some (elapsed_seconds now j.started_at);
  counts = c.counts;
  page_id = c.page_id;
  page_version_no = c.page_version_no;
  partial_message = c.partial_message;
  error_code = c.error_code;
  error_message = c.error_message;
  log_summary = c.log_summary;
}

-- With the repository's lease token the update is fenced, and an empty RETURNING raises
-- `BatchLeaseLostError` (the result `false`); without one it is by id alone.
unfoldable pub mark_job_completed : ℕ → Option ℕ → ℕ → Completion → Db → Bool × Db
unfolding complete_row
mark_job_completed now none job_id c db =
    (true, record db { jobs = update_where (has_id job_id) (complete_row now c) db.jobs })
mark_job_completed now (some token) job_id c db = (
  is_some (find (holds_lease now job_id token) db.jobs),
  record db { jobs = update_where (holds_lease now job_id token) (complete_row now c) db.jobs },
)

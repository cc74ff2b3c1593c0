-- ===== src/Service/Start.antt =====
-- BatchesService.start_market_daily_batch with `_reuse_idempotent_job` and
-- `_validate_idempotent_replay`, app/domains/batches/service.py. The request's date is resolved and
-- its key is stripped. Between the service's own statements other sessions execute theirs, which are
-- the requests of a `Meanwhile`; the event of a write commits with it. The lookup of the latest page
-- is an argument.
use stockapp.Prelude.{
  ℕ, String, Bool, true, false, not, ◌&&◌, Option, none, some, List, [], ◌∷◌, ◌++◌, ◌==◌,
  if◌then◌else◌,
}
use stockapp.Queue.Job.{pending, RunMode, Job, Db, is_failed}
use stockapp.Queue.Admission.{
  CreateParams, create_job, Retried, unchanged, requeued, integrity_error, retry_failed_job,
  find_active_job_id_for_business_date, get_job_by_idempotency_key,
}
use stockapp.Queue.Requests.{Request, replay}

pub record StartRequest : Type 0 where
  pub business_date : ℕ
  pub force : Bool
  pub rebuild_page_only : Bool
  pub idempotency_key : Option String

pub record PageSource : Type 0 where
  pub page_id : ℕ
  pub batch_job_id : ℕ
  pub status : String

pub record JobEvent : Type 0 where
  pub event_job_id : ℕ
  pub step_code : String
  pub message : String

-- The tables that the service writes.
pub record State : Type 0 where
  pub db : Db
  pub events : List JobEvent

-- The payload of a run with its `_created`, or the error that is raised.
pub data Started : Type 0 where
  payload : (job : Job) (created : Bool) → Started
  page_not_found : Started
  page_already_exists : (page_id : ℕ) (status : String) → Started
  already_running : (job_id : Option ℕ) → Started
  idempotency_key_reused : Started

-- What the other sessions execute before the service's INSERT, before its second look for the key,
-- before its requeueing UPDATE, and before it reports the job that is in flight.
pub record Meanwhile : Type 0 where
  pub before_insert : List (ℕ × Request)
  pub before_lookup : List (ℕ × Request)
  pub before_retry : List (ℕ × Request)
  pub before_report : List (ℕ × Request)

abbrev pub same_mode : RunMode → RunMode → Bool
same_mode RunMode.full RunMode.full = true
same_mode RunMode.page_rebuild RunMode.page_rebuild = true
same_mode RunMode.ai_retry RunMode.ai_retry = true
same_mode RunMode.news_collection RunMode.news_collection = true
same_mode _ _ = false

abbrev pub same_flag : Bool → Bool → Bool
same_flag true b = b
same_flag false b = not b

abbrev pub run_mode_of : StartRequest → RunMode
run_mode_of r = if r.rebuild_page_only then RunMode.page_rebuild else RunMode.full

-- Whether `_validate_idempotent_replay` raises nothing.
abbrev pub is_same_request : Job → StartRequest → Bool
is_same_request j r =
    j.business_date == r.business_date
    && (same_mode j.run_mode (run_mode_of r) && same_flag j.force_run r.force)

unfoldable pub reply : Bool → Job → String → String → Db → List JobEvent → Started × State
reply created j code text db events = (
  payload j created,
  record {
    db = db;
    events = events ++ record { event_job_id = j.job_id; step_code = code; message = text } ∷ [];
  },
)

-- `_batch_already_running` with the job that the second query finds.
unfoldable pub report_running : Meanwhile → StartRequest → Db → List JobEvent → Started × State
report_running w r db events =
    let now_db = replay w.before_report db in
    (
      already_running (find_active_job_id_for_business_date r.business_date now_db),
      record { db = now_db; events = events },
    )

unfoldable pub after_retry :
    Meanwhile → StartRequest → Job → List JobEvent → Retried × Db → Started × State
after_retry w r existing events (unchanged, db) =
    (payload existing false, record { db = db; events = events })
after_retry w r existing events (requeued j, db) =
    reply true j "RETRY_JOB" "Failed market daily batch requeued via idempotent replay." db events
after_retry w r existing events (integrity_error, db) = report_running w r db events

-- _reuse_idempotent_job
unfoldable pub reuse_idempotent_job : ℕ → Meanwhile → StartRequest → Job → State → Started × State
reuse_idempotent_job now w r existing s =
    if not (is_same_request existing r)
    then (idempotency_key_reused, s)
    else (if is_failed existing.status
        then after_retry w r existing s.events
            (retry_failed_job now existing.job_id (replay w.before_retry s.db))
        else (payload existing false, s))

abbrev pub keyed_job : StartRequest → Db → Option Job
keyed_job r db = elim r.idempotency_key [
  | none ↦ none
  | some key ↦ get_job_by_idempotency_key key db
]

-- The conflict with a page, or its absence, before anything is written.
unfoldable pub refuse_page : StartRequest → Option PageSource → Option Started
refuse_page r none = if r.rebuild_page_only then some page_not_found else none
refuse_page r (some page) =
    if not r.rebuild_page_only && not r.force
    then some (page_already_exists page.page_id page.status)
    else none

abbrev source_page : StartRequest → Option PageSource → Option PageSource
source_page r page = if r.rebuild_page_only then page else none

unfoldable pub create_params : ℕ → StartRequest → Option PageSource → CreateParams
create_params max_attempts r page = record {
  business_date = r.business_date;
  status = pending;
  force_run = r.force;
  rebuild_page_only = r.rebuild_page_only;
  run_mode = run_mode_of r;
  source_job_id = elim (source_page r page) [ none ↦ none | some p ↦ some p.batch_job_id ];
  source_page_id = elim (source_page r page) [ none ↦ none | some p ↦ some p.page_id ];
  idempotency_key = r.idempotency_key;
  max_attempts = max_attempts;
}

-- The INSERT was refused: both unique indexes are among the constraints that mean a running batch.
unfoldable pub after_refusal :
    ℕ → Meanwhile → StartRequest → List JobEvent → Db → Option Job → Started × State
after_refusal now w r events db (some existing) =
    reuse_idempotent_job now w r existing (record { db = db; events = events })
after_refusal now w r events db none = report_running w r db events

unfoldable pub after_insert :
    ℕ → Meanwhile → StartRequest → List JobEvent → Option Job × Db → Started × State
after_insert now w r events (some j, db) =
    reply true j "CREATE_JOB" "Manual market daily batch requested." db events
after_insert now w r events (none, db) =
    let now_db = replay w.before_lookup db in
    after_refusal now w r events now_db (keyed_job r now_db)

-- After the look at the date's page.
unfoldable pub after_page :
    ℕ → Meanwhile → ℕ → StartRequest → Option PageSource → State → Option Started → Started × State
after_page now w max_attempts r page s (some refusal) = (refusal, s)
after_page now w max_attempts r page s none =
    after_insert now w r s.events
      (create_job now (create_params max_attempts r page) (replay w.before_insert s.db))

-- After the look for a job in flight.
unfoldable pub after_active :
    ℕ → Meanwhile → Option PageSource → ℕ → StartRequest → State → Option ℕ → Started × State
after_active now w page max_attempts r s (some job_id) = (already_running (some job_id), s)
after_active now w page max_attempts r s none =
    after_page now w max_attempts r page s (refuse_page r page)

-- After the look for the request's key.
unfoldable pub after_key :
    ℕ → Meanwhile → Option PageSource → ℕ → StartRequest → State → Option Job → Started × State
after_key now w page max_attempts r s (some existing) = reuse_idempotent_job now w r existing s
after_key now w page max_attempts r s none =
    after_active now w page max_attempts r s
      (find_active_job_id_for_business_date r.business_date s.db)

unfoldable pub start_market_daily_batch :
    ℕ → Meanwhile → (ℕ → Option PageSource) → ℕ → StartRequest → State → Started × State
start_market_daily_batch now w get_latest_page_source max_attempts r s =
    after_key now w (get_latest_page_source r.business_date) max_attempts r s (keyed_job r s.db)

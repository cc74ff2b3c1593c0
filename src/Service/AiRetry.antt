-- ===== src/Service/AiRetry.antt =====
-- BatchesService.retry_ai_summaries, app/domains/batches/service.py, with `resolve_source` and
-- `enqueue` of app/db/repositories/ai_retry_repo.py. Other sessions execute theirs before the INSERT
-- and before the second look for the key.
use stockapp.Prelude.{
  ℕ, zero, suc, String, Bool, true, false, ◌+◌, ◌&&◌, Option, none, some, List, [], ◌∷◌, ◌++◌, ◌==◌,
  holds, if◌then◌else◌, str_eq,
}
use stockapp.Keys.{member}
use stockapp.Queue.Job.{Status, pending, RunMode, Job, Db}
use stockapp.Queue.Admission.{
  CreateParams, is_open, create_job, get_job_by_id, get_job_by_idempotency_key,
}
use stockapp.Queue.Requests.{Request, replay}
use stockapp.Service.Start.{JobEvent, State, same_mode}

pub record AiRetrySource : Type 0 where
  pub source_job_id : ℕ
  pub source_page_id : Option ℕ
  pub business_date : ℕ
  pub source_status : Status

abbrev pub is_rerun : RunMode → Bool
is_rerun RunMode.page_rebuild = true
is_rerun RunMode.ai_retry = true
is_rerun _ = false

-- The row that the recursion joins: the source of a rerun, unless it is in the path already.
unfoldable pub parent_of : Db → List ℕ → Job → Option Job
parent_of db path j =
    if is_rerun j.run_mode
    then elim j.source_job_id [
      | none ↦ none
      | some id ↦ if member id path then none else get_job_by_id id db
    ]
    else none

-- The rows that the recursion adds to a lineage that ends in the row `j`, `fuel` at most.
unfoldable pub ancestors : ℕ → Db → List ℕ → Job → List Job
ancestors zero db path j = []
ancestors (suc fuel) db path j = elim (parent_of db path j) [
  | none ↦ []
  | some parent ↦ parent ∷ ancestors fuel db (parent.job_id ∷ path) parent
]

abbrev pub last_of : Job → List Job → Job
last_of j [] = j
last_of j (k ∷ rows) = last_of k rows

abbrev pub coalesce : Option ℕ → Option ℕ → Option ℕ
coalesce none other = other
coalesce (some n) other = some n

-- cardinality(lineage.path) < 64: a lineage has 64 rows at most, the requested one included.
unfoldable pub source_of : Db → Job → AiRetrySource
source_of db requested =
    let root = last_of requested (ancestors 63 db (requested.job_id ∷ []) requested) in
    record {
      source_job_id = root.job_id;
      source_page_id = coalesce requested.page_id (coalesce requested.source_page_id root.page_id);
      business_date = root.business_date;
      source_status = requested.status;
    }

unfoldable pub resolve_source : ℕ → Db → Option AiRetrySource
resolve_source requested_job_id db = elim (get_job_by_id requested_job_id db) [
  | none ↦ none
  | some requested ↦ some (source_of db requested)
]

-- How `enqueue` ends.
pub data Enqueued : Type 0 where
  queued : (job : Job) (created : Bool) → Enqueued
  idempotency_conflict : Enqueued
  integrity_error : Enqueued

abbrev pub is_same_id : Option ℕ → Option ℕ → Bool
is_same_id none none = true
is_same_id (some a) (some b) = a == b
is_same_id _ _ = false

-- Whether `_validate_idempotent_job` raises nothing.
abbrev pub is_same_retry : Job → AiRetrySource → Bool
is_same_retry j source =
    same_mode j.run_mode RunMode.ai_retry
    && (holds j.source_job_id source.source_job_id
        && (is_same_id j.source_page_id source.source_page_id
            && j.business_date == source.business_date))

unfoldable pub validated : Job → AiRetrySource → Enqueued
validated j source = if is_same_retry j source then queued j false else idempotency_conflict

-- An empty key is no key.
abbrev pub given_key : Option String → Option String
given_key none = none
given_key (some key) = if str_eq key "" then none else some key

abbrev pub job_under : Option String → Db → Option Job
job_under none db = none
job_under (some key) db = get_job_by_idempotency_key key db

unfoldable pub retry_params : ℕ → AiRetrySource → Option String → CreateParams
retry_params max_attempts source key = record {
  business_date = source.business_date;
  status = pending;
  force_run = false;
  rebuild_page_only = false;
  run_mode = RunMode.ai_retry;
  source_job_id = some source.source_job_id;
  source_page_id = source.source_page_id;
  idempotency_key = key;
  max_attempts = max_attempts;
}

-- The CHECK on idempotency_key in db/schema_postgresql.sql, where the row has a key.
abbrev pub passes_check : (String → Bool) → Option String → Bool
passes_check key_check none = true
passes_check key_check (some key) = key_check key

-- The INSERT, refused by the CHECK or by a unique index.
unfoldable pub insert_retry :
    ℕ → (String → Bool) → ℕ → AiRetrySource → Option String → Db → Option Job × Db
insert_retry now key_check max_attempts source key db =
    if passes_check key_check key
    then create_job now (retry_params max_attempts source key) db
    else (none, record db { next_job_id = db.next_job_id + 1 })

unfoldable pub after_conflict : AiRetrySource → Db → Option Job → Enqueued × Db
after_conflict source db none = (integrity_error, db)
after_conflict source db (some existing) = (validated existing source, db)

unfoldable pub after_retry_insert :
    List (ℕ × Request) → AiRetrySource → Option String → Option Job × Db → Enqueued × Db
after_retry_insert before_lookup source key (some j, db) = (queued j true, db)
after_retry_insert before_lookup source key (none, db) =
    let now_db = replay before_lookup db in
    after_conflict source now_db (job_under (given_key key) now_db)

-- What other sessions execute before the INSERT and before the second look.
pub record Interference : Type 0 where
  pub before_insert : List (ℕ × Request)
  pub before_lookup : List (ℕ × Request)

unfoldable pub after_look :
    ℕ
    → (String → Bool)
    → Interference
    → ℕ
    → AiRetrySource
    → Option String
    → Db
    → Option Job
    → Enqueued × Db
after_look now key_check w max_attempts source key db (some existing) =
    (validated existing source, db)
after_look now key_check w max_attempts source key db none =
    after_retry_insert w.before_lookup source key
      (insert_retry now key_check max_attempts source key (replay w.before_insert db))

unfoldable pub enqueue :
    ℕ → (String → Bool) → Interference → ℕ → AiRetrySource → Option String → Db → Enqueued × Db
enqueue now key_check w max_attempts source key db =
    after_look now key_check w max_attempts source key db (job_under (given_key key) db)

pub data RetryEnded : Type 0 where
  retry_payload : (job : Job) (created : Bool) → RetryEnded
  job_not_found : RetryEnded
  job_not_terminal : RetryEnded
  source_page_not_found : RetryEnded
  key_reused : RetryEnded
  retry_already_running : RetryEnded

unfoldable pub report_retry : List JobEvent → Enqueued × Db → RetryEnded × State
report_retry events (queued j true, db) = (
  retry_payload j true,
  record {
    db = db;
    events =
        events
        ++ record {
          event_job_id = j.job_id;
          step_code = "AI_RETRY_ENQUEUE";
          message = "AI summary retry enqueued.";
        }
          ∷ [];
  },
)
report_retry events (queued j false, db) =
    (retry_payload j false, record { db = db; events = events })
report_retry events (idempotency_conflict, db) = (key_reused, record { db = db; events = events })
report_retry events (integrity_error, db) =
    (retry_already_running, record { db = db; events = events })

unfoldable pub after_page_id :
    ℕ
    → (String → Bool)
    → Interference
    → ℕ
    → Option String
    → State
    → AiRetrySource
    → Option ℕ
    → RetryEnded × State
after_page_id now key_check w max_attempts key s source none = (source_page_not_found, s)
after_page_id now key_check w max_attempts key s source (some page) =
    report_retry s.events (enqueue now key_check w max_attempts source key s.db)

unfoldable pub retry_source :
    ℕ
    → (String → Bool)
    → Interference
    → ℕ
    → Option String
    → State
    → Option AiRetrySource
    → RetryEnded × State
retry_source now key_check w max_attempts key s none = (job_not_found, s)
retry_source now key_check w max_attempts key s (some source) =
    if is_open source.source_status
    then (job_not_terminal, s)
    else after_page_id now key_check w max_attempts key s source source.source_page_id

unfoldable pub retry_ai_summaries :
    ℕ → (String → Bool) → Interference → ℕ → ℕ → Option String → State → RetryEnded × State
retry_ai_summaries now key_check w max_attempts requested_job_id key s =
    retry_source now key_check w max_attempts key s (resolve_source requested_job_id s.db)

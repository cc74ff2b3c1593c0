-- ===== src/Service/Answer.antt =====
-- What the abstract service of app/domains/batches/service.py may answer, from the board of jobs in
-- flight, the job under the request's key and the date's page.
use stockapp.Prelude.{
  ℕ, ◌≡◌, refl, Bool, true, false, Option, none, some, List, [], ◌∷◌, arith, any, In, All-In,
  ==_refl, String, Bool-cases, inl, inr, if◌then◌else◌, is_some, ◌⊎◌,
}
use stockapp.Queue.Job.{RunMode, Job, Db, is_failed, is_market_daily}
use stockapp.Queue.Table.{find, has_id}
use stockapp.Queue.Admission.{
  is_active_on, has_key, collides, same_key, new_row, is_failed_with_id, get_job_by_idempotency_key,
}
use stockapp.Queue.Rows.{find-hit, find-In, unique-All}
use stockapp.Queue.Select.{any-In, find-any}
use stockapp.Queue.Consistency.{Consistent}
use stockapp.Service.Start.{
  StartRequest, PageSource, State, Started, payload, page_not_found, page_already_exists,
  already_running, idempotency_key_reused, Meanwhile, same_mode, is_same_request, keyed_job,
  refuse_page, create_params,
}
use stockapp.Service.Active.{Board, board, admit}

-- No other session comes in between.
abbrev pub alone : Meanwhile
alone = record { before_insert = []; before_lookup = []; before_retry = []; before_report = [] }

-- The answer that the abstract service may give, from the board `b`, the job `seen` under the
-- request's key, and the date's latest page.
abbrev pub Answered : StartRequest → Option Job → Option PageSource → Board → Started → Type 0
Answered r seen page b (payload j true) =
    (b r.business_date ≡ none)
    × (((seen ≡ none) × (refuse_page r page ≡ none))
        ⊎ ((e : Job) × ((seen ≡ some e) × ((is_failed e.status ≡ true) × (j.job_id ≡ e.job_id)))))
Answered r seen page b (payload j false) =
    (seen ≡ some j) × ((is_same_request j r ≡ true) × (is_failed j.status ≡ false))
Answered r seen page b page_not_found =
    (seen ≡ none) × ((b r.business_date ≡ none) × ((page ≡ none) × (r.rebuild_page_only ≡ true)))
Answered r seen page b (page_already_exists id status) =
    (seen ≡ none)
    × ((b r.business_date ≡ none)
        × ((r.rebuild_page_only ≡ false)
            × ((r.force ≡ false) × ((p : PageSource) × ((page ≡ some p) × (p.page_id ≡ id))))))
Answered r seen page b (already_running job_id) =
    (b r.business_date ≡ job_id) × (is_some job_id ≡ true)
Answered r seen page b idempotency_key_reused =
    (e : Job) × ((seen ≡ some e) × (is_same_request e r ≡ false))

-- What the answer does to the board.
abbrev pub move_board : StartRequest → Started → Board → Board
move_board r (payload j true) b = admit r.business_date j.job_id b
move_board r _ b = b

abbrev pub Refines : StartRequest → Option PageSource → State → Started × State → Type 0
Refines r page s (o, s') =
    Answered r (keyed_job r s.db) page (board s.db) o × (board s'.db ≡ move_board r o (board s.db))

pub same_mode-market :
    (m : RunMode) (b : Bool)
    → same_mode m (if b then RunMode.page_rebuild else RunMode.full) ≡ true
    → is_market_daily m ≡ true
same_mode-market RunMode.full b h = refl
same_mode-market RunMode.page_rebuild b h = refl
same_mode-market RunMode.ai_retry true h = h
same_mode-market RunMode.ai_retry false h = h
same_mode-market RunMode.news_collection true h = h
same_mode-market RunMode.news_collection false h = h

-- What stands against the request, by the page and the two flags.
pub data Refuses (r : StartRequest) : Option PageSource → Option Started → Type 0 where
  allowed : {page : Option PageSource} → Refuses r page none
  no_page : r.rebuild_page_only ≡ true → Refuses r none (some page_not_found)
  a_page :
      (p : PageSource)
      → r.rebuild_page_only ≡ false
      → r.force ≡ false
      → Refuses r (some p) (some (page_already_exists p.page_id p.status))

pub refuse_page-Refuses :
    (r : StartRequest) (page : Option PageSource) → Refuses r page (refuse_page r page)
unfolding refuse_page
refuse_page-Refuses r none = elim (Bool-cases r.rebuild_page_only) [
  | inl e ↦ rw e (no_page refl)
  | inr e ↦ rw e allowed
]
refuse_page-Refuses r (some p) = elim (Bool-cases r.rebuild_page_only) [
  | inl e ↦ rw e allowed
  | inr e ↦
      rw e (elim (Bool-cases r.force) [ inl f ↦ rw f allowed | inr f ↦ rw f (a_page p refl refl) ])
]

pub keyed_job-In : (r : StartRequest) (db : Db) (e : Job) → keyed_job r db ≡ some e → In e db.jobs
unfolding get_job_by_idempotency_key
keyed_job-In r db e h = at_key r.idempotency_key h
  where
    at_key :
        (o : Option String)
        → (elim o [ none ↦ none | some key ↦ find (has_key key) db.jobs ]) ≡ some e
        → In e db.jobs
    at_key none h = cc
    at_key (some key) h = find-In (has_key key) db.jobs e h

pub no_collision :
    (row : Job) (jobs : List Job)
    → any (is_active_on row.business_date) jobs ≡ false
    → any (same_key row) jobs ≡ false
    → any (collides row) jobs ≡ false
unfolding collides
no_collision row [] a b = refl
no_collision row (j ∷ jobs) a b =
    ground (arith, no_collision row jobs (ground arith) (ground arith), a, b)

pub no_key :
    (row : Job) (jobs : List Job) (o : Option String)
    → row.idempotency_key ≡ o
    → (elim o [ none ↦ none | some key ↦ find (has_key key) jobs ]) ≡ none
    → any (same_key row) jobs ≡ false
no_key row [] none q h = refl
no_key row (j ∷ jobs) none q h = ground (arith, q, no_key row jobs none q refl)
no_key row jobs (some key) q h = rw q (find-any (has_key key) jobs h)

-- The row that the service inserts is in flight on its date.
pub new_row-active :
    (now id m : ℕ) (r : StartRequest) (page : Option PageSource)
    → is_active_on r.business_date (new_row now id (create_params m r page)) ≡ true
unfolding new_row create_params
new_row-active now id m r page = ground (arith, ==_refl r.business_date)

-- A failed job under the request's key is still there to be requeued.
pub gone-absurd :
    (r : StartRequest) (db : Db) (e : Job)
    → keyed_job r db ≡ some e
    → is_failed e.status ≡ true
    → find (is_failed_with_id e.job_id) db.jobs ≡ none
    → ⊥
gone-absurd r db e k f h =
    let out =
      any-In (is_failed_with_id e.job_id) db.jobs e
        (find-any (is_failed_with_id e.job_id) db.jobs h) (keyed_job-In r db e k) in
    ground (arith, out, f, ==_refl e.job_id)

-- The row that is requeued is the one under the key.
pub same_row :
    (r : StartRequest) (db : Db)
    → Consistent db
    → (e : Job) → keyed_job r db ≡ some e
    → (j : Job) → find (is_failed_with_id e.job_id) db.jobs ≡ some j
    → j ≡ e
same_row r db c e k j h =
    let m = find-In (is_failed_with_id e.job_id) db.jobs j h in
    let hit = find-hit (is_failed_with_id e.job_id) db.jobs j h in
    All-In (λ z. has_id e.job_id z ≡ true → z ≡ e) db.jobs j
      (unique-All (has_id e.job_id) db.jobs e (c.unique_id e.job_id) (keyed_job-In r db e k)
        (==_refl e.job_id))
      m (ground (arith, hit))

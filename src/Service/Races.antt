-- ===== src/Service/Races.antt =====
-- The service of app/domains/batches/service.py while other sessions execute statements of the
-- repository between its own.
use stockapp.Prelude.{
  ℕ, ◌<◌, ◌≡◌, ◌+◌, refl, sym, ap, ◌∙◌, subst, Bool, true, false, Option, none, some, List, [], ◌∷◌,
  arith, In, All-In, All-imp, inl, inr, Bool-cases, ==_refl, All, count, not, ◌&&◌, ◌==◌,
}
use stockapp.Queue.Job.{Job, Db, is_failed, is_market_daily}
use stockapp.Queue.Table.{has_id}
use stockapp.Queue.Admission.{new_row, Retried, retry_row, is_failed_with_id}
use stockapp.Queue.Requests.{Request, replay}
use stockapp.Queue.Rows.{find-hit, find-In, unique-All, count-In}
use stockapp.Queue.Consistency.{Consistent}
use stockapp.Queue.Indexes.{create-Consistent, retry-Consistent}
use stockapp.Queue.Interleaving.{Allowed, replay-Consistent}
use stockapp.Queue.Identity.{Steady, replay-Grown}
use stockapp.Service.Start.{
  StartRequest, PageSource, State, JobEvent, Started, payload, Meanwhile, is_same_request, reply,
  report_running, after_retry, reuse_idempotent_job, keyed_job, create_params, after_refusal,
  after_insert, after_page, after_active, after_key, start_market_daily_batch,
}
use stockapp.Service.Active.{
  board, admit, admit-at, Inserted, inserted, refused, create_job-Inserted, insert-board, Requeues,
  gone, blocked, moved, retry_failed_job-Requeues, requeue-board,
}
use stockapp.Service.Answer.{
  new_row-active, keyed_job-In, same_mode-market, Refuses, allowed, no_page, a_page,
  refuse_page-Refuses,
}

-- The tables stay consistent, and a job that is answered as created is the one in flight of its date.
abbrev pub Safe : StartRequest → Started × State → Type 0
Safe r (payload j true, s) = Consistent s.db × (board s.db r.business_date ≡ some j.job_id)
Safe r (_, s) = Consistent s.db

-- Each statement of the other sessions is one that the queue allows.
pub record IsAllowed (w : Meanwhile) : Type 0 where
  pub insert : All Allowed w.before_insert
  pub lookup : All Allowed w.before_lookup
  pub retry : All Allowed w.before_retry
  pub report : All Allowed w.before_report

-- A row with the id whose date or mode are not the request's.
is_stray : ℕ → ℕ → Job → Bool
is_stray id date j = has_id id j && not (j.business_date == date && is_market_daily j.run_mode)

stray-Steady : (id date : ℕ) → Steady (is_stray id date)
unfolding is_stray
stray-Steady id date set k j = rw (k.same_id j, k.same_date j, k.same_mode j) refl

count_nothing : (p : Job → Bool) (jobs : List Job) → All (λ j. p j ≡ false) jobs → count p jobs ≡ 0
count_nothing p [] a = refl
count_nothing p (j ∷ jobs) a = ground (arith, a.0, count_nothing p jobs a.1)

-- Whatever the others execute, the row with the id of a job keeps its date and mode.
no_stray :
    (date : ℕ) (db : Db) (e : Job) (rs : List (ℕ × Request))
    → Consistent db
    → In e db.jobs
    → (e.business_date == date && is_market_daily e.run_mode) ≡ true
    → (j : Job) → In j (replay rs db).jobs
    → has_id e.job_id j ≡ true
    → (j.business_date == date && is_market_daily j.run_mode) ≡ true
unfolding is_stray
no_stray date db e rs c m ok j n h =
    let p = is_stray e.job_id date in
    let g = replay-Grown p (stray-Steady e.job_id date) rs db in
    let fresh = All-In (λ z. z.job_id < db.next_job_id) db.jobs e c.fresh_id m in
    let won = g.won (λ z le. ground (arith, fresh, le)) in
    let before : count p db.jobs ≡ 0 = count_nothing p db.jobs (
      All-imp {Q = λ z. p z ≡ false} db.jobs
        (λ z only. elim (Bool-cases (has_id e.job_id z)) [
          | inl q ↦ ground (
            arith,
            q,
            ok,
            ap (λ (y : Job). y.business_date == date && is_market_daily y.run_mode) (only q),
          )
          | inr q ↦ ground (arith, q)
        ])
        (unique-All (has_id e.job_id) db.jobs e (c.unique_id e.job_id) m (==_refl e.job_id))) in
    let here = count-In p (replay rs db).jobs j n in ground (arith, here, won, before, h)

module _ (now : ℕ) (w : Meanwhile) (ok : IsAllowed w) (page : Option PageSource)
    (r : StartRequest) where
  report-Safe :
      (db : Db) (events : List JobEvent) → Consistent db → Safe r (report_running w r db events)
  unfolding report_running
  report-Safe db events c = replay-Consistent w.before_report db ok.report c

  retry-Safe :
      (e : Job) (db : Db) (events : List JobEvent)
      → Consistent db
      → ((j : Job)
          → In j db.jobs
          → has_id e.job_id j ≡ true
          → (j.business_date == r.business_date && is_market_daily j.run_mode) ≡ true)
      → (x : Retried × Db) → Requeues now e.job_id db x
      → Consistent x.1
      → Safe r (after_retry w r e events x)
  unfolding after_retry reply
  retry-Safe e db events c date x (gone h) c' = c'
  retry-Safe e db events c date x (blocked j h b) c' = report-Safe db events c'
  retry-Safe e db events c date x (moved j h b) c' =
      let hit = find-hit (is_failed_with_id e.job_id) db.jobs j h in
      let same = date j (find-In (is_failed_with_id e.job_id) db.jobs j h) (ground (arith, hit)) in
      let q : j.business_date ≡ r.business_date = ground (arith, same) in
      let id : e.job_id ≡ (retry_row now j).job_id = unfold retry_row in (ground (arith, hit)) in
      let moved_in =
        requeue-board now e.job_id db j c h (ground (arith, same)) (ground (arith, b, same)) in
      (
        c',
        ap (λ z. z r.business_date) moved_in
            ∙ (subst (λ d. admit d e.job_id (board db) r.business_date ≡ some e.job_id) (sym q)
                  (admit-at r.business_date e.job_id (board db))
                ∙ ap some id),
      )

  reuse-Safe :
      (e : Job) (s : State)
      → Consistent s.db
      → keyed_job r s.db ≡ some e
      → Safe r (reuse_idempotent_job now w r e s)
  unfolding reuse_idempotent_job
  reuse-Safe e s c k = elim (Bool-cases (is_same_request e r)) [
    | inr n ↦ rw n c
    | inl y ↦ rw y (elim (Bool-cases (is_failed e.status)) [
      | inr n ↦ rw n c
      | inl f ↦
          let db = replay w.before_retry s.db in
          let c' = replay-Consistent w.before_retry s.db ok.retry c in
          let md = same_mode-market e.run_mode r.rebuild_page_only (ground (arith, y)) in
          rw f (
            retry-Safe e db s.events c'
              (no_stray r.business_date s.db e w.before_retry c (keyed_job-In r s.db e k)
                (ground (arith, y, md)))
              _ (retry_failed_job-Requeues now e.job_id db) (retry-Consistent now db c' e.job_id))
    ])
  ]

  refusal-Safe :
      (db : Db) (events : List JobEvent) (x : Option Job)
      → Consistent db
      → keyed_job r db ≡ x
      → Safe r (after_refusal now w r events db x)
  unfolding after_refusal
  refusal-Safe db events none c k = report-Safe db events c
  refusal-Safe db events (some e) c k = reuse-Safe e (record { db = db; events = events }) c k

  insert-Safe :
      (m : ℕ) (db : Db) (events : List JobEvent)
      → (x : Option Job × Db) → Inserted (new_row now db.next_job_id (create_params m r page)) db x
      → Consistent x.1
      → Safe r (after_insert now w r events x)
  unfolding after_insert reply
  insert-Safe m db events x (inserted h) c =
      let row = new_row now db.next_job_id (create_params m r page) in
      (
        c,
        unfold new_row create_params in
            (ap (λ z. z r.business_date)
                (insert-board row db (db.next_job_id + 1) h
                  (new_row-active now db.next_job_id m r page))
              ∙ admit-at r.business_date db.next_job_id (board db)),
      )
  insert-Safe m db events x (refused h) c =
      refusal-Safe (replay w.before_lookup x.1) events _
        (replay-Consistent w.before_lookup x.1 ok.lookup c) refl

  page-Safe :
      (m : ℕ) (pg : Option PageSource) (s : State) (x : Option Started)
      → 0 < m
      → Consistent s.db
      → Refuses r pg x
      → Safe r (after_page now w m r page s x)
  unfolding after_page
  page-Safe m pg s x positive c allowed =
      let db = replay w.before_insert s.db in
      let params = create_params m r page in
      insert-Safe m db s.events _ (create_job-Inserted now params db) (
        create-Consistent now db (replay-Consistent w.before_insert s.db ok.insert c) params
          (unfold create_params in refl) (unfold create_params in positive))
  page-Safe m pg s x positive c (no_page b) = c
  page-Safe m pg s x positive c (a_page p b f) = c

  active-Safe :
      (m : ℕ) (s : State) (x : Option ℕ)
      → 0 < m
      → Consistent s.db
      → Safe r (after_active now w page m r s x)
  unfolding after_active
  active-Safe m s none positive c = page-Safe m page s _ positive c (refuse_page-Refuses r page)
  active-Safe m s (some i) positive c = c

  key-Safe :
      (m : ℕ) (s : State) (x : Option Job)
      → 0 < m
      → Consistent s.db
      → keyed_job r s.db ≡ x
      → Safe r (after_key now w page m r s x)
  unfolding after_key
  key-Safe m s none positive c k = active-Safe m s _ positive c
  key-Safe m s (some e) positive c k = reuse-Safe e s c k

-- Whatever allowed statements other sessions execute between those of the service, the tables stay
-- consistent, and a job that the service answers as created, whether it is new or requeued, is then
-- the one market-daily job in flight of the requested date. A job has a positive budget.
pub start-Safe :
    (now : ℕ) (w : Meanwhile) (pages : ℕ → Option PageSource) (m : ℕ) (r : StartRequest) (s : State)
    → IsAllowed w
    → 0 < m
    → Consistent s.db
    → Safe r (start_market_daily_batch now w pages m r s)
unfolding start_market_daily_batch
start-Safe now w pages m r s ok positive c =
    key-Safe now w ok (pages r.business_date) r m s (keyed_job r s.db) positive c refl

-- ===== src/Service/Refinement.antt =====
-- The service of app/domains/batches/service.py against the abstract board of jobs in flight.
use stockapp.Prelude.{
  ℕ, ◌≡◌, refl, sym, ap, ◌∙◌, subst, true, false, Option, none, some, arith, any, ◌+◌, Bool-cases,
  inl, inr,
}
use stockapp.Queue.Job.{Job, Db, is_failed, is_market_daily}
use stockapp.Queue.Table.{update_where}
use stockapp.Queue.Admission.{
  is_active_on, collides, new_row, Retried, retry_row, is_failed_with_id,
  find_active_job_id_for_business_date, get_job_by_idempotency_key,
}
use stockapp.Queue.Requests.{replay}
use stockapp.Queue.Consistency.{Consistent}
use stockapp.Service.Start.{
  StartRequest, PageSource, State, Started, is_same_request, reply, report_running, after_retry,
  reuse_idempotent_job, keyed_job, refuse_page, create_params, after_insert, after_page,
  after_active, after_key, start_market_daily_batch,
}
use stockapp.Service.Active.{
  board, board-free, free-board, taken-board, admit, Inserted, inserted, refused,
  create_job-Inserted, Requeues, gone, blocked, moved, retry_failed_job-Requeues, requeue-board,
  insert-board,
}
use stockapp.Service.Answer.{
  new_row-active, gone-absurd, same_row, alone, Refines, same_mode-market, Refuses, allowed,
  no_page, a_page, refuse_page-Refuses, no_collision, no_key,
}

module _ (now : ℕ) (page : Option PageSource) (r : StartRequest) (s : State)
    (c : Consistent s.db) where
  after_retry-Refines :
      (e : Job)
      → keyed_job r s.db ≡ some e
      → is_same_request e r ≡ true
      → is_failed e.status ≡ true
      → (x : Retried × Db) → Requeues now e.job_id s.db x
      → Refines r page s (after_retry alone r e s.events x)
  unfolding after_retry
  after_retry-Refines e k same f x (gone h) = absurd (gone-absurd r s.db e k f h)
  after_retry-Refines e k same f x (blocked j h b) =
      let q : j ≡ e = same_row r s.db c e k j h in
      let date : j.business_date ≡ r.business_date =
        ap (λ (z : Job). z.business_date) q ∙ ground (arith, same) in
      let taken =
        taken-board r.business_date s.db
          (subst (λ z. any (is_active_on z) s.db.jobs ≡ true) date (ground (arith, b))) in
      unfold report_running replay board in ((refl, unfold board in taken), refl)
  after_retry-Refines e k same f x (moved j h b) =
      let q : j ≡ e = same_row r s.db c e k j h in
      let date : j.business_date ≡ r.business_date =
        ap (λ (z : Job). z.business_date) q ∙ ground (arith, same) in
      let md : is_market_daily j.run_mode ≡ true =
        ap (λ (z : Job). is_market_daily z.run_mode) q
        ∙ same_mode-market e.run_mode r.rebuild_page_only (ground (arith, same)) in
      let free : any (is_active_on j.business_date) s.db.jobs ≡ false = ground (arith, b, md) in
      let same_id : (retry_row now j).job_id ≡ e.job_id =
        unfold retry_row in (ap (λ (z : Job). z.job_id) q) in
      unfold reply in
      (
        (
          subst (λ z. board s.db z ≡ none) date (free-board j.business_date s.db free),
          inr (e, (k, (f, same_id))),
        ),
        subst
            (λ z.
              board (record s.db {
                jobs = update_where (is_failed_with_id e.job_id) (retry_row now) s.db.jobs;
              })
              ≡ admit r.business_date z (board s.db))
            (sym same_id)
            (subst
              (λ z.
                board (record s.db {
                  jobs = update_where (is_failed_with_id e.job_id) (retry_row now) s.db.jobs;
                })
                ≡ admit z e.job_id (board s.db))
              date (requeue-board now e.job_id s.db j c h md free)),
      )

  reuse-Refines :
      (e : Job)
      → keyed_job r s.db ≡ some e
      → Refines r page s (reuse_idempotent_job now alone r e s)
  unfolding reuse_idempotent_job replay
  reuse-Refines e k = elim (Bool-cases (is_same_request e r)) [
    | inr n ↦ rw n ((e, (k, n)), refl)
    | inl y ↦ rw y (elim (Bool-cases (is_failed e.status)) [
      | inr n ↦ rw n ((k, (y, n)), refl)
      | inl f ↦ rw f (after_retry-Refines e k y f _ (retry_failed_job-Requeues now e.job_id s.db))
    ])
  ]

  insert-Refines :
      (max_attempts : ℕ)
      → keyed_job r s.db ≡ none
      → board s.db r.business_date ≡ none
      → refuse_page r page ≡ none
      → (x : Option Job × Db)
      → Inserted (new_row now s.db.next_job_id (create_params max_attempts r page)) s.db x
      → Refines r page s (after_insert now alone r s.events x)
  unfolding after_insert
  insert-Refines m k free ok x (inserted h) =
      unfold reply in
      (
        (free, inl (k, ok)),
        unfold new_row create_params in
            (insert-board (new_row now s.db.next_job_id (create_params m r page)) s.db
              (s.db.next_job_id + 1) h (new_row-active now s.db.next_job_id m r page)),
      )
  insert-Refines m k free ok x (refused h) =
      let row = new_row now s.db.next_job_id (create_params m r page) in
      let none_collide : any (collides row) s.db.jobs ≡ false =
        no_collision row s.db.jobs
          (unfold new_row create_params in (board-free r.business_date s.db free))
          (no_key row s.db.jobs r.idempotency_key (unfold new_row create_params in refl)
            (unfold get_job_by_idempotency_key in k)) in
      ground (arith, h, none_collide)

  page-Refines :
      (max_attempts : ℕ) (pg : Option PageSource) (x : Option Started)
      → page ≡ pg
      → refuse_page r page ≡ x
      → Refuses r pg x
      → keyed_job r s.db ≡ none
      → board s.db r.business_date ≡ none
      → Refines r page s (after_page now alone max_attempts r page s x)
  unfolding after_page replay
  page-Refines m pg x q e allowed k free =
      insert-Refines m k free e _ (create_job-Inserted now (create_params m r page) s.db)
  page-Refines m pg x q e (no_page b) k free = ((k, (free, (q, b))), refl)
  page-Refines m pg x q e (a_page p b f) k free = ((k, (free, (b, (f, (p, (q, refl)))))), refl)

  active-Refines :
      (max_attempts : ℕ) (x : Option ℕ)
      → keyed_job r s.db ≡ none
      → board s.db r.business_date ≡ x
      → Refines r page s (after_active now alone page max_attempts r s x)
  unfolding after_active
  active-Refines m none k e =
      page-Refines m page (refuse_page r page) refl refl (refuse_page-Refuses r page) k e
  active-Refines m (some i) k e = ((e, refl), refl)

  key-Refines :
      (max_attempts : ℕ) (x : Option Job)
      → keyed_job r s.db ≡ x
      → Refines r page s (after_key now alone page max_attempts r s x)
  unfolding after_key board
  key-Refines m none k =
      active-Refines m (find_active_job_id_for_business_date r.business_date s.db) k refl
  key-Refines m (some e) k = reuse-Refines e k

-- With consistent tables and no other session in between, the service refines an abstract one that
-- knows only the job in flight of each date, the job under the request's key and the date's latest
-- page. A job that is created or requeued comes where the board has none for the date, and the
-- board gains exactly it; every other answer leaves the board as it was, the error that names a job
-- in flight names the board's, and the errors about pages and keys come only where the page, the
-- flags or the key's job ask for them.
pub start-Refines :
    (now : ℕ) (pages : ℕ → Option PageSource) (max_attempts : ℕ) (r : StartRequest) (s : State)
    → Consistent s.db
    → Refines r
        (pages r.business_date)
        s
        (start_market_daily_batch now alone pages max_attempts r s)
unfolding start_market_daily_batch
start-Refines now pages m r s c =
    key-Refines now (pages r.business_date) r s c m (keyed_job r s.db) refl

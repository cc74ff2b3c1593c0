-- ===== src/Service/Replay.antt =====
-- A request that is sent again with its key, app/domains/batches/service.py.
use stockapp.Prelude.{
  ℕ, ◌≡◌, ◌+◌, ◌++◌, refl, sym, ap, ◌∙◌, subst, Bool, true, false, Option, none, some, [], ◌∷◌,
  arith, String, Bool-cases, ==_refl, if◌then◌else◌, eq_iff, ◌&&◌, ◌⊎◌, inl, inr,
}
use stockapp.Queue.Job.{RunMode, Job, Db, is_failed}
use stockapp.Queue.Table.{update_where, find}
use stockapp.Queue.Admission.{
  has_key, new_row, Retried, retry_row, is_failed_with_id, get_job_by_idempotency_key,
}
use stockapp.Queue.Requests.{replay}
use stockapp.Queue.Select.{find-append_none, find-update_where-steady}
use stockapp.Queue.Consistency.{Consistent}
use stockapp.Service.Start.{
  StartRequest, PageSource, State, Started, payload, Meanwhile, same_mode, same_flag,
  is_same_request, reply, report_running, after_retry, reuse_idempotent_job, keyed_job,
  create_params, after_refusal, after_insert, after_page, after_active, after_key,
  start_market_daily_batch,
}
use stockapp.Service.Active.{
  Inserted, inserted, refused, create_job-Inserted, Requeues, gone, blocked, moved,
  retry_failed_job-Requeues,
}
use stockapp.Service.Answer.{
  alone, gone-absurd, same_row, Refuses, allowed, no_page, a_page, refuse_page-Refuses,
}

-- A payload whose request would find it again under its key, where it has one.
Replayable : StartRequest → Started × State → Type 0
Replayable r (payload j b, s) =
    (r.idempotency_key ≡ none)
    ⊎ ((keyed_job r s.db ≡ some j) × ((is_same_request j r ≡ true) × (is_failed j.status ≡ false)))
Replayable r (_, s) = Unit

found-replayed :
    (now : ℕ) (w : Meanwhile) (pages : ℕ → Option PageSource) (m : ℕ) (r : StartRequest) (s : State)
    (j : Job)
    → keyed_job r s.db ≡ some j
    → is_same_request j r ≡ true
    → is_failed j.status ≡ false
    → start_market_daily_batch now w pages m r s ≡ (payload j false, s)
unfolding start_market_daily_batch after_key reuse_idempotent_job
found-replayed now w pages m r s j k y n = rw k (rw y (rw n refl))

new_row-same_request :
    (now id m : ℕ) (r : StartRequest) (page : Option PageSource)
    → is_same_request (new_row now id (create_params m r page)) r ≡ true
unfolding new_row create_params
new_row-same_request now id m r page =
    rw (==_refl r.business_date) (flags r.rebuild_page_only r.force)
  where
    flags :
        (b f : Bool)
        → (same_mode
              (if b then RunMode.page_rebuild else RunMode.full)
              (if b then RunMode.page_rebuild else RunMode.full)
            && same_flag f f)
          ≡ true
    flags true true = refl
    flags true false = refl
    flags false true = refl
    flags false false = refl

retry-steady : (now : ℕ) (key : String) (j : Job) → has_key key (retry_row now j) ≡ has_key key j
unfolding retry_row
retry-steady now key j = refl

-- After the UPDATE the key still finds its row, as the UPDATE left it.
keyed_job-update :
    (now : ℕ) (r : StartRequest) (db : Db) (e : Job) (id : ℕ)
    → keyed_job r db ≡ some e
    → is_failed_with_id id e ≡ true
    → keyed_job r (record db { jobs = update_where (is_failed_with_id id) (retry_row now) db.jobs })
      ≡ some (retry_row now e)
unfolding get_job_by_idempotency_key
keyed_job-update now r db e id k hit = at_key r.idempotency_key k
  where
    at_key :
        (o : Option String)
        → (elim o [ none ↦ none | some key ↦ find (has_key key) db.jobs ]) ≡ some e
        → (elim o [
          | none ↦ none
          | some key ↦
              find (has_key key) (update_where (is_failed_with_id id) (retry_row now) db.jobs)
        ])
          ≡ some (retry_row now e)
    at_key none h = cc
    at_key (some key) h =
        rw
          (find-update_where-steady (has_key key) (is_failed_with_id id) (retry_row now) db.jobs
            (retry-steady now key))
          (rw h (rw hit refl))

keyed_job-insert :
    (r : StartRequest) (db : Db) (row : Job) (next : ℕ)
    → row.idempotency_key ≡ r.idempotency_key
    → keyed_job r db ≡ none
    → (r.idempotency_key ≡ none)
      ⊎ (keyed_job r (record db { jobs = db.jobs ++ row ∷ []; next_job_id = next }) ≡ some row)
unfolding get_job_by_idempotency_key
keyed_job-insert r db row next q k = at_key r.idempotency_key q k
  where
    at_key :
        (o : Option String)
        → row.idempotency_key ≡ o
        → (elim o [ none ↦ none | some key ↦ find (has_key key) db.jobs ]) ≡ none
        → (o ≡ none)
          ⊎ ((elim o [ none ↦ none | some key ↦ find (has_key key) (db.jobs ++ row ∷ []) ])
              ≡ some row)
    at_key none q h = inl refl
    at_key (some key) q h = inr (
        find-append_none (has_key key) db.jobs (row ∷ []) h ∙ rw q (ground (arith, eq_iff key key)))

module _ (now : ℕ) (page : Option PageSource) (r : StartRequest) (s : State)
    (c : Consistent s.db) where
  retry-Replayable :
      (e : Job)
      → keyed_job r s.db ≡ some e
      → is_same_request e r ≡ true
      → is_failed e.status ≡ true
      → (x : Retried × Db) → Requeues now e.job_id s.db x
      → Replayable r (after_retry alone r e s.events x)
  unfolding after_retry Replayable reply report_running
  retry-Replayable e k y f x (gone h) = absurd (gone-absurd r s.db e k f h)
  retry-Replayable e k y f x (blocked j h b) = tt
  retry-Replayable e k y f x (moved j h b) =
      let q = same_row r s.db c e k j h in
      let hit : is_failed_with_id e.job_id e ≡ true = ground (arith, f, ==_refl e.job_id) in
      let same : is_same_request j r ≡ true = ap (λ z. is_same_request z r) q ∙ y in
      inr (
        keyed_job-update now r s.db e e.job_id k hit ∙ ap (λ z. some (retry_row now z)) (sym q),
        unfold retry_row in (same, refl),
      )

  reuse-Replayable :
      (e : Job) → keyed_job r s.db ≡ some e → Replayable r (reuse_idempotent_job now alone r e s)
  unfolding reuse_idempotent_job replay Replayable
  reuse-Replayable e k = elim (Bool-cases (is_same_request e r)) [
    | inr n ↦ rw n tt
    | inl y ↦ rw y (elim (Bool-cases (is_failed e.status)) [
      | inr n ↦ rw n (inr (k, (y, n)))
      | inl f ↦ rw f (retry-Replayable e k y f _ (retry_failed_job-Requeues now e.job_id s.db))
    ])
  ]

  refused-Replayable :
      (db : Db) (x : Option Job) → x ≡ none → Replayable r (after_refusal now alone r s.events db x)
  unfolding after_refusal Replayable report_running
  refused-Replayable db none e = tt
  refused-Replayable db (some j) e = cc

  insert-Replayable :
      (m : ℕ)
      → keyed_job r s.db ≡ none
      → (x : Option Job × Db)
      → Inserted (new_row now s.db.next_job_id (create_params m r page)) s.db x
      → Replayable r (after_insert now alone r s.events x)
  unfolding after_insert Replayable reply replay get_job_by_idempotency_key
  insert-Replayable m k x (inserted h) =
      let row = new_row now s.db.next_job_id (create_params m r page) in
      elim (keyed_job-insert r s.db row (s.db.next_job_id + 1)
        (unfold new_row create_params in refl) k) [
          | inl e ↦ inl e
          | inr e ↦ inr (
            e,
            (
              new_row-same_request now s.db.next_job_id m r page,
              unfold new_row create_params in refl,
            ),
          )
        ]
  insert-Replayable m k x (refused h) = refused-Replayable _ _ k

  page-Replayable :
      (m : ℕ) (pg : Option PageSource) (x : Option Started)
      → Refuses r pg x
      → keyed_job r s.db ≡ none
      → Replayable r (after_page now alone m r page s x)
  unfolding after_page replay Replayable
  page-Replayable m pg x allowed k =
      insert-Replayable m k _ (create_job-Inserted now (create_params m r page) s.db)
  page-Replayable m pg x (no_page b) k = tt
  page-Replayable m pg x (a_page p b f) k = tt

  active-Replayable :
      (m : ℕ) (x : Option ℕ)
      → keyed_job r s.db ≡ none
      → Replayable r (after_active now alone page m r s x)
  unfolding after_active Replayable
  active-Replayable m none k = page-Replayable m page _ (refuse_page-Refuses r page) k
  active-Replayable m (some i) k = tt

  key-Replayable :
      (m : ℕ) (x : Option Job)
      → keyed_job r s.db ≡ x
      → Replayable r (after_key now alone page m r s x)
  unfolding after_key
  key-Replayable m none k = active-Replayable m _ k
  key-Replayable m (some e) k = reuse-Replayable e k

-- A request with a key runs with no other session in between and is answered by a job, created,
-- requeued or found. If it is sent again on exactly the state that it left, before any other
-- statement changes that, it is answered by that same job, as not created, and nothing is written:
-- whatever pages there are by then, whatever attempts are allowed, and whatever others would execute.
pub start-again :
    (now later : ℕ) (w : Meanwhile) (pages later_pages : ℕ → Option PageSource) (m later_m : ℕ)
    (r : StartRequest) (s s' : State) (key : String) (j : Job) (created : Bool)
    → Consistent s.db
    → r.idempotency_key ≡ some key
    → start_market_daily_batch now alone pages m r s ≡ (payload j created, s')
    → start_market_daily_batch later w later_pages later_m r s' ≡ (payload j false, s')
unfolding start_market_daily_batch Replayable
start-again now later w pages later_pages m later_m r s s' key j created c q h =
    let found =
      subst (Replayable r) h
        (key-Replayable now (pages r.business_date) r s c m (keyed_job r s.db) refl) in
    elim found [
      | inl e ↦ cc
      | inr (k, (y, n)) ↦ found-replayed later w later_pages later_m r s' j k y n
    ]

-- ===== src/Service/Enqueued.antt =====
-- How the enqueueing of a retry ends, app/db/repositories/ai_retry_repo.py.
use stockapp.Prelude.{
  ℕ, ◌≤◌, ◌<◌, ◌≡◌, ◌+◌, refl, sym, ◌∙◌, subst, String, Bool, true, false, Option, none, some, List,
  [], ◌∷◌, arith, any, inl, inr, Bool-cases, Option-cases, All, count, count_none, str_eq, eq_iff,
  is_some, ◌↔◌, ap, holds, ==_iff, if◌then◌else◌,
}
use stockapp.Queue.Job.{RunMode, Job, Db, is_pending}
use stockapp.Queue.Table.{find}
use stockapp.Queue.Admission.{has_key, collides, new_row, get_job_by_idempotency_key}
use stockapp.Queue.Requests.{Request, replay}
use stockapp.Queue.Select.{find-any}
use stockapp.Queue.Consistency.{Consistent}
use stockapp.Queue.Indexes.{create-Consistent}
use stockapp.Queue.Interleaving.{Allowed, replay-Consistent}
use stockapp.Queue.Identity.{Steady, replay-Grown}
use stockapp.Service.Start.{same_mode}
use stockapp.Service.Active.{board, Inserted, inserted, refused, create_job-Inserted, idle-board}
use stockapp.Service.AiRetry.{
  AiRetrySource, Enqueued, queued, idempotency_conflict, integrity_error, is_same_id, given_key,
  job_under, is_same_retry, validated, retry_params, passes_check, insert_retry, after_conflict,
  after_retry_insert, Interference, after_look,
}

pub record IsAllowedRetry (w : Interference) : Type 0 where
  pub insert : All Allowed w.before_insert
  pub lookup : All Allowed w.before_lookup

-- The same retry: of the same source, page and date.
pub record SameRetry (j : Job) (source : AiRetrySource) : Type 0 where
  pub same_run_mode : j.run_mode ≡ RunMode.ai_retry
  pub same_source : j.source_job_id ≡ some source.source_job_id
  pub same_page : j.source_page_id ≡ source.source_page_id
  pub same_date : j.business_date ≡ source.business_date

-- The job under the given key.
abbrev pub Keyed : Option String → Job → Db → Type 0
Keyed given j db =
    (key : String) × ((given ≡ some key) × (get_job_by_idempotency_key key db ≡ some j))

-- How an enqueueing with a key may end: a new pending retry of the source that the board does not
-- show; or the job that is under the key, if it is the same retry; or the conflict of the key, if
-- the job that is under it is another.
abbrev pub EnqueuedFrom : Interference → AiRetrySource → Option String → Db → Enqueued × Db → Type 0
EnqueuedFrom w source key db (queued j true, after) =
    Consistent after
    × ((is_pending j.status ≡ true)
        × (SameRetry j source
            × ((j.idempotency_key ≡ key) × (board after ≡ board (replay w.before_insert db)))))
EnqueuedFrom w source key db (queued j false, after) =
    Consistent after × (SameRetry j source × Keyed key j after)
EnqueuedFrom w source key db (idempotency_conflict, after) =
    Consistent after × ((j : Job) × (Keyed key j after × (SameRetry j source → ⊥)))
EnqueuedFrom w source key db (integrity_error, after) = ⊥

same_mode_iff : (m : RunMode) → (same_mode m RunMode.ai_retry ≡ true) ↔ (m ≡ RunMode.ai_retry)
same_mode_iff RunMode.full = (λ h. cc, λ h. cc)
same_mode_iff RunMode.page_rebuild = (λ h. cc, λ h. cc)
same_mode_iff RunMode.ai_retry = (λ h. refl, λ h. refl)
same_mode_iff RunMode.news_collection = (λ h. cc, λ h. cc)

holds_iff : (o : Option ℕ) (n : ℕ) → (holds o n ≡ true) ↔ (o ≡ some n)
holds_iff none n = (λ h. cc, λ h. cc)
holds_iff (some m) n = (
  λ h. ap some ((==_iff m n).0 h),
  λ h. (==_iff m n).1 (ap (λ o. elim o [ none ↦ m | some k ↦ k ]) h),
)

is_same_id_iff : (a b : Option ℕ) → (is_same_id a b ≡ true) ↔ (a ≡ b)
is_same_id_iff none none = (λ h. refl, λ h. refl)
is_same_id_iff none (some b) = (λ h. cc, λ h. cc)
is_same_id_iff (some a) none = (λ h. cc, λ h. cc)
is_same_id_iff (some a) (some b) = (
  λ h. ap some ((==_iff a b).0 h),
  λ h. (==_iff a b).1 (ap (λ o. elim o [ none ↦ a | some k ↦ k ]) h),
)

is_same_retry_iff :
    (j : Job) (source : AiRetrySource) → (is_same_retry j source ≡ true) ↔ SameRetry j source
is_same_retry_iff j source =
    let mode = same_mode_iff j.run_mode in
    let from = holds_iff j.source_job_id source.source_job_id in
    let page = is_same_id_iff j.source_page_id source.source_page_id in
    let date = ==_iff j.business_date source.business_date in
    (
      λ h. record {
        same_run_mode = mode.0 (ground (arith, h));
        same_source = from.0 (ground (arith, h));
        same_page = page.0 (ground (arith, h));
        same_date = date.0 (ground (arith, h));
      },
      λ r. ground (
        arith,
        mode.1 r.same_run_mode,
        from.1 r.same_source,
        page.1 r.same_page,
        date.1 r.same_date,
      ),
    )

has_key-Steady : (key : String) → Steady (has_key key)
has_key-Steady key set k j = rw (k.same_key j) refl

-- Whatever the others execute, a key that is taken is found.
key_kept :
    (key : String) (db : Db) (rs : List (ℕ × Request))
    → any (has_key key) db.jobs ≡ true
    → is_some (get_job_by_idempotency_key key (replay rs db)) ≡ true
unfolding get_job_by_idempotency_key
key_kept key db rs h =
    let g = replay-Grown (has_key key) (has_key-Steady key) rs db in
    elim (Option-cases (find (has_key key) (replay rs db).jobs)) [
      | inr (j, e) ↦ rw e refl
      | inl e ↦
          let nothing =
            count_none (has_key key) (replay rs db).jobs
              (find-any (has_key key) (replay rs db).jobs e) in
          let something = count_some (has_key key) db.jobs h in
          absurd (ground (arith, g.kept, nothing, something))
    ]
  where
    count_some : (p : Job → Bool) (jobs : List Job) → any p jobs ≡ true → 1 ≤ count p jobs
    count_some p [] h = cc
    count_some p (j ∷ jobs) h = ground (arith, count_some p jobs)

-- A retry's row collides only by its key.
collides_keyless :
    (row : Job) (jobs : List Job)
    → row.run_mode ≡ RunMode.ai_retry
    → row.idempotency_key ≡ none
    → any (collides row) jobs ≡ false
unfolding collides
collides_keyless row [] m q = refl
collides_keyless row (j ∷ jobs) m q = ground (arith, m, q, collides_keyless row jobs m q)

collides_keyed :
    (row : Job) (k : String) (jobs : List Job)
    → row.run_mode ≡ RunMode.ai_retry
    → row.idempotency_key ≡ some k
    → any (collides row) jobs ≡ any (has_key k) jobs
unfolding collides
collides_keyed row k [] m q = refl
collides_keyed row k (j ∷ jobs) m q = ground (arith, m, q, collides_keyed row k jobs m q)

module _ (now : ℕ) (key_check : String → Bool) (w : Interference) (ok : IsAllowedRetry w) (m : ℕ)
    (source : AiRetrySource) (db : Db) where
  validated-From :
      (key : Option String) (j : Job) (after : Db)
      → Consistent after
      → Keyed key j after
      → EnqueuedFrom w source key db (validated j source, after)
  unfolding validated
  validated-From key j after c k = elim (Bool-cases (is_same_retry j source)) [
    | inl e ↦ rw e (c, ((is_same_retry_iff j source).0 e, k))
    | inr e ↦ rw e (c, (j, (k, λ same. other e same)))
  ]
    where
      other : is_same_retry j source ≡ false → SameRetry j source → ⊥
      other e same = let yes = (is_same_retry_iff j source).1 same in ground (arith, e, yes)

  conflict-From :
      (key : String) (after : Db) (o : Option Job)
      → Consistent after
      → is_some o ≡ true
      → get_job_by_idempotency_key key after ≡ o
      → EnqueuedFrom w source (some key) db (after_conflict source after o)
  unfolding after_conflict
  conflict-From key after none c h q = cc
  conflict-From key after (some j) c h q = validated-From (some key) j after c (key, (refl, q))

  not_blank : (k : String) → key_check "" ≡ false → key_check k ≡ true → str_eq k "" ≡ false
  not_blank k blank pass = elim (Bool-cases (str_eq k "")) [
    | inl e ↦
        let same = subst (λ z. key_check z ≡ true) ((eq_iff k "").0 e) pass in
        ground (arith, same, blank)
    | inr e ↦ e
  ]

  -- The INSERT with a key that passes the CHECK: it is refused only where the key is taken.
  insert-From :
      (key : Option String)
      → key_check "" ≡ false
      → passes_check key_check key ≡ true
      → (x : Option Job × Db)
      → Inserted
          (new_row now (replay w.before_insert db).next_job_id (retry_params m source key))
          (replay w.before_insert db)
          x
      → Consistent x.1
      → EnqueuedFrom w source key db (after_retry_insert w.before_lookup source key x)
  unfolding after_retry_insert
  insert-From key blank pass x (inserted h) c =
      let now_db = replay w.before_insert db in
      let row = new_row now now_db.next_job_id (retry_params m source key) in
      unfold new_row retry_params in
      (
        c,
        (
          refl,
          (
            record { same_run_mode = refl; same_source = refl; same_page = refl; same_date = refl },
            (refl, idle-board row now_db (now_db.next_job_id + 1) refl),
          ),
        ),
      )
  insert-From none blank pass x (refused h) c =
      let now_db = replay w.before_insert db in
      let row = new_row now now_db.next_job_id (retry_params m source none) in
      let free : any (collides row) now_db.jobs ≡ false =
        collides_keyless row now_db.jobs (unfold new_row retry_params in refl)
          (unfold new_row retry_params in refl) in
      ground (arith, h, free)
  insert-From (some k) blank pass x (refused h) c =
      let now_db = replay w.before_insert db in
      let row = new_row now now_db.next_job_id (retry_params m source (some k)) in
      let taken : any (collides row) now_db.jobs ≡ any (has_key k) now_db.jobs =
        collides_keyed row k now_db.jobs (unfold new_row retry_params in refl)
          (unfold new_row retry_params in refl) in
      let filled : str_eq k "" ≡ false = not_blank k blank pass in
      let kept = key_kept k x.1 w.before_lookup (sym taken ∙ h) in
      rw filled (
        conflict-From k (replay w.before_lookup x.1)
          (get_job_by_idempotency_key k (replay w.before_lookup x.1))
          (replay-Consistent w.before_lookup x.1 ok.lookup c) kept refl)

  pub look-From :
      (key : Option String)
      → key_check "" ≡ false
      → passes_check key_check key ≡ true
      → 0 < m
      → Consistent db
      → (o : Option Job) → job_under (given_key key) db ≡ o
      → EnqueuedFrom w source key db (after_look now key_check w m source key db o)
  unfolding after_look insert_retry
  look-From key blank pass positive c (some existing) q =
      validated-From key existing db c (under key q)
    where
      under : (k : Option String) → job_under (given_key k) db ≡ some existing → Keyed k existing db
      under none q = cc
      under (some k) q = elim (Bool-cases (str_eq k "")) [
        | inl e ↦ ground (arith, e, q)
        | inr e ↦
            (k, (refl, subst (λ b. job_under (if b then none else some k) db ≡ some existing) e q))
      ]
  look-From key blank pass positive c none q =
      let now_db = replay w.before_insert db in
      let params = retry_params m source key in
      rw pass (
        insert-From key blank pass _ (create_job-Inserted now params now_db) (
          create-Consistent now now_db (replay-Consistent w.before_insert db ok.insert c) params
            (unfold retry_params in refl) (unfold retry_params in positive)))

-- ===== src/Service/Active.antt =====
-- The abstract view of the queue that admission works on, the market-daily job in flight of each
-- date, and what the two statements that admit a job do to it (batch_job_repo.py).
use stockapp.Prelude.{
  ℕ, ◌≡◌, refl, ap, ◌∙◌, subst, Bool, true, false, ◌&&◌, Option, none, some, List, [], ◌∷◌, ◌++◌,
  ◌+◌, arith, any, All, All-imp, Bool-cases, Option-cases, inl, inr, ◌==◌, ==_iff, ==_refl, is_some,
  if◌then◌else◌,
}
use mathlib.Core.Path.{fun_ext}
use stockapp.Queue.Job.{Job, Db, is_market_daily}
use stockapp.Queue.Table.{update_where, find, has_id}
use stockapp.Queue.Admission.{
  CreateParams, is_active, is_active_on, collides, new_row, create_job, Retried, unchanged,
  requeued, integrity_error, retry_row, retry_failed_job, is_failed_with_id,
  find_active_job_id_for_business_date,
}
use stockapp.Queue.Rows.{find-hit, find-In, unique-All}
use stockapp.Queue.Select.{
  any-In, any-find, find-any, find-append_some, find-append_none, find-update_where-outside,
  find-update_where-into,
}
use stockapp.Queue.Consistency.{Consistent}
use stockapp.Queue.Indexes.{collides_active}

-- The job in flight of a date, for every date.
abbrev pub Board : Type 0
Board = ℕ → Option ℕ

unfoldable pub board : Db → Board
board db = λ date. find_active_job_id_for_business_date date db

-- The board with a job in flight on the date.
unfoldable pub admit : ℕ → ℕ → Board → Board
admit date job_id b = λ d. if date == d then some job_id else b d

abbrev job_id_of : Option Job → Option ℕ
job_id_of o = elim o [ none ↦ none | some j ↦ some j.job_id ]

pub board-free :
    (date : ℕ) (db : Db) → board db date ≡ none → any (is_active_on date) db.jobs ≡ false
unfolding board find_active_job_id_for_business_date
board-free date db h = elim (Option-cases (find (is_active_on date) db.jobs)) [
  | inl e ↦ find-any (is_active_on date) db.jobs e
  | inr (j, e) ↦ cc
]

pub free-board :
    (date : ℕ) (db : Db) → any (is_active_on date) db.jobs ≡ false → board db date ≡ none
unfolding board find_active_job_id_for_business_date
free-board date db h = ap job_id_of (any-find (is_active_on date) db.jobs h)

pub taken-board :
    (date : ℕ) (db : Db) → any (is_active_on date) db.jobs ≡ true → is_some (board db date) ≡ true
taken-board date db h = elim (Option-cases (board db date)) [
  | inl e ↦ let free = board-free date db e in cc
  | inr (i, e) ↦ rw e refl
]

-- The board after a row for the date, active there, that collides with no other.
insert-at :
    (row : Job) (jobs : List Job) (d : ℕ)
    → any (collides row) jobs ≡ false
    → is_active_on row.business_date row ≡ true
    → job_id_of (find (is_active_on d) (jobs ++ row ∷ []))
      ≡ (if row.business_date == d then some row.job_id else job_id_of (find (is_active_on d) jobs))
insert-at row jobs d free active = elim (Option-cases (find (is_active_on d) jobs)) [
  | inl e ↦ rw e (rw (find-append_none (is_active_on d) jobs (row ∷ []) e) (at_end d))
  | inr (j, e) ↦ rw e (
      rw (find-append_some (is_active_on d) jobs (row ∷ []) j e) (
        kept j (row.business_date == d) refl (find-hit (is_active_on d) jobs j e)
          (any-In (collides row) jobs j free (find-In (is_active_on d) jobs j e))))
]
  where
    at_end :
        (d : ℕ)
        → job_id_of (find (is_active_on d) (row ∷ []))
          ≡ (if row.business_date == d then some row.job_id else none)
    at_end d = ground (arith, active)

    kept :
        (j : Job) (b : Bool)
        → (row.business_date == d) ≡ b
        → is_active_on d j ≡ true
        → collides row j ≡ false
        → some j.job_id ≡ (if b then some row.job_id else some j.job_id)
    kept j false e h apart = refl
    kept j true e h apart =
        let clash : collides row j ≡ true = collides_active row d j (ground (arith, e, active)) h in
        cc

pub insert-board :
    (row : Job) (db : Db) (next : ℕ)
    → any (collides row) db.jobs ≡ false
    → is_active_on row.business_date row ≡ true
    → board (record db { jobs = db.jobs ++ row ∷ []; next_job_id = next })
      ≡ admit row.business_date row.job_id (board db)
unfolding board find_active_job_id_for_business_date admit
insert-board row db next free active = fun_ext (λ d. insert-at row db.jobs d free active)

-- The board after a row that is not active.
pub idle-board :
    (row : Job) (db : Db) (next : ℕ)
    → is_active row ≡ false
    → board (record db { jobs = db.jobs ++ row ∷ []; next_job_id = next }) ≡ board db
unfolding board find_active_job_id_for_business_date
idle-board row db next idle = fun_ext (λ d. elim (Option-cases (find (is_active_on d) db.jobs)) [
  | inl e ↦
      ap job_id_of
        (find-append_none (is_active_on d) db.jobs (row ∷ []) e ∙ (ground (arith, idle, e)))
  | inr (j, e) ↦ ap job_id_of (find-append_some (is_active_on d) db.jobs (row ∷ []) j e ∙ rw e refl)
])

pub admit-at : (date job_id : ℕ) (b : Board) → admit date job_id b date ≡ some job_id
unfolding admit
admit-at date job_id b = rw (==_refl date) refl

-- Whether the INSERT took place, and the table after it.
pub data Inserted (row : Job) (db : Db) : Option Job × Db → Type 0 where
  inserted :
      any (collides row) db.jobs ≡ false
      → Inserted row db
          (some row, record db { jobs = db.jobs ++ row ∷ []; next_job_id = db.next_job_id + 1 })
  refused :
      any (collides row) db.jobs ≡ true
      → Inserted row db (none, record db { next_job_id = db.next_job_id + 1 })

pub create_job-Inserted :
    (now : ℕ) (p : CreateParams) (db : Db)
    → Inserted (new_row now db.next_job_id p) db (create_job now p db)
unfolding create_job
create_job-Inserted now p db =
    elim (Bool-cases (any (collides (new_row now db.next_job_id p)) db.jobs)) [
      | inl e ↦ rw e (refused e)
      | inr e ↦ rw e (inserted e)
    ]

-- Whether the requeueing UPDATE took place, and the table after it.
pub data Requeues (now job_id : ℕ) (db : Db) : Retried × Db → Type 0 where
  gone : find (is_failed_with_id job_id) db.jobs ≡ none → Requeues now job_id db (unchanged, db)
  blocked :
      (j : Job)
      → find (is_failed_with_id job_id) db.jobs ≡ some j
      → (is_market_daily j.run_mode && any (is_active_on j.business_date) db.jobs) ≡ true
      → Requeues now job_id db (integrity_error, db)
  moved :
      (j : Job)
      → find (is_failed_with_id job_id) db.jobs ≡ some j
      → (is_market_daily j.run_mode && any (is_active_on j.business_date) db.jobs) ≡ false
      → Requeues now job_id db (
        requeued (retry_row now j),
        record db { jobs = update_where (is_failed_with_id job_id) (retry_row now) db.jobs },
      )

pub retry_failed_job-Requeues :
    (now job_id : ℕ) (db : Db) → Requeues now job_id db (retry_failed_job now job_id db)
unfolding retry_failed_job
retry_failed_job-Requeues now job_id db =
    elim (Option-cases (find (is_failed_with_id job_id) db.jobs)) [
      | inl e ↦ rw (e, retry_failed_job) (gone e)
      | inr (j, e) ↦
          (elim (Bool-cases
            (is_market_daily j.run_mode && any (is_active_on j.business_date) db.jobs)) [
              | inl b ↦ rw (e, retry_failed_job) (rw b (blocked j e b))
              | inr b ↦ rw (e, retry_failed_job) (rw b (moved j e b))
            ])
    ]

-- The board after the row `j` of a market-daily job is requeued.
requeue-at :
    (now job_id : ℕ) (db : Db) (j : Job)
    → Consistent db
    → find (is_failed_with_id job_id) db.jobs ≡ some j
    → is_market_daily j.run_mode ≡ true
    → any (is_active_on j.business_date) db.jobs ≡ false
    → (d : ℕ)
    → job_id_of
        (find (is_active_on d) (update_where (is_failed_with_id job_id) (retry_row now) db.jobs))
      ≡ (if j.business_date == d then some job_id else job_id_of (find (is_active_on d) db.jobs))
unfolding retry_row
requeue-at now job_id db j c e md free d =
    let hit = find-hit (is_failed_with_id job_id) db.jobs j e in
    let only =
      unique-All (has_id job_id) db.jobs j (c.unique_id job_id)
        (find-In (is_failed_with_id job_id) db.jobs j e) (ground (arith, hit)) in
    let only_hit : All (λ r. is_failed_with_id job_id r ≡ true → r ≡ j) db.jobs =
      All-imp db.jobs (λ r same h. same (ground (arith, h))) only in
    elim (Bool-cases (j.business_date == d)) [
      | inl q ↦
          let at_d =
            subst (λ z. any (is_active_on z) db.jobs ≡ false) ((==_iff j.business_date d).0 q)
              free in
          rw q (
            rw
              (find-update_where-into (is_active_on d) (is_failed_with_id job_id) (retry_row now)
                db.jobs j at_d only_hit (find-In (is_failed_with_id job_id) db.jobs j e) hit
                (ground (arith, q, md)))
              (ground (arith, hit)))
      | inr q ↦ rw q (
          ap job_id_of (
            find-update_where-outside (is_active_on d) (is_failed_with_id job_id) (retry_row now)
              db.jobs (λ r h. ground (arith, h))
              (All-imp
                {Q = λ r.
                  is_failed_with_id job_id r ≡ true → is_active_on d (retry_row now r) ≡ false}
                db.jobs (λ r same h. ground (arith, q, ap (λ (z : Job). z.business_date) (same h)))
                only_hit)))
    ]

pub requeue-board :
    (now job_id : ℕ) (db : Db) (j : Job)
    → Consistent db
    → find (is_failed_with_id job_id) db.jobs ≡ some j
    → is_market_daily j.run_mode ≡ true
    → any (is_active_on j.business_date) db.jobs ≡ false
    → board (record db { jobs = update_where (is_failed_with_id job_id) (retry_row now) db.jobs })
      ≡ admit j.business_date job_id (board db)
unfolding board find_active_job_id_for_business_date admit
requeue-board now job_id db j c e md free = fun_ext (λ d. requeue-at now job_id db j c e md free d)

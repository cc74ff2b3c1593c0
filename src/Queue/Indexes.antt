-- ===== src/Queue/Indexes.antt =====
-- The statements of batch_job_repo.py that the unique indexes guard, `create_job` and
-- `retry_failed_job`.
use stockapp.Prelude.{
  count, count-append, count-le-count, count_none, ℕ, ◌+◌, ◌≤◌, ◌<◌, ◌≡◌, refl, ap, subst, String,
  Bool, true, false, ◌&&◌, Option, none, some, List, [], ◌∷◌, ◌++◌, arith, any, All, All-append,
  All-imp, Bool-cases, Option-cases, inl, inr, str_eq, eq_iff, ◌==◌,
}
use stockapp.Queue.Job.{Job, Db, is_pending, is_market_daily}
use stockapp.Queue.Table.{update_where, find, has_id}
use stockapp.Queue.Admission.{
  CreateParams, is_active_on, has_key, collides, new_row, create_job, retry_row, retry_failed_job,
  is_failed_with_id,
}
use stockapp.Queue.Rows.{
  count-update_where-le_All, unique-All, find-hit, find-In, count-update_where-le_add,
}
use stockapp.Queue.Sound.{IsSound, retry_row-IsSound, new_row-IsSound}
use stockapp.Queue.Consistency.{IsConsistent, Consistent, update-IsConsistent, retry_row-Keeps}

-- A row that collides with none of the table brings each counted condition to 1 at most.
pub collides_active :
    (row : Job) (d : ℕ) (j : Job)
    → is_active_on d row ≡ true
    → is_active_on d j ≡ true
    → collides row j ≡ true
unfolding collides
collides_active row d j h k = ground arith

collides_key :
    (row : Job) (key : String) (j : Job)
    → has_key key row ≡ true
    → has_key key j ≡ true
    → collides row j ≡ true
unfolding collides
collides_key row key j h k = keys row.idempotency_key j.idempotency_key refl refl h k
  where
    keys :
        (a b : Option String)
        → row.idempotency_key ≡ a
        → j.idempotency_key ≡ b
        → (elim a [ none ↦ false | some x ↦ str_eq x key ]) ≡ true
        → (elim b [ none ↦ false | some x ↦ str_eq x key ]) ≡ true
        → collides row j ≡ true
    keys none b e f h k = cc
    keys (some x) none e f h k = cc
    keys (some x) (some y) e f h k = ground (arith, e, f, eq_iff x key, eq_iff y key, eq_iff y x)

-- The count of a condition after an insert, where a row under the condition would collide.
append_le_one :
    (p : Job → Bool) (row : Job) (jobs : List Job)
    → any (collides row) jobs ≡ false
    → ((j : Job) → p row ≡ true → p j ≡ true → collides row j ≡ true)
    → count p jobs ≤ 1
    → count p (jobs ++ row ∷ []) ≤ 1
append_le_one p row jobs none_collide clash old = elim (Bool-cases (p row)) [
  | inl e ↦ ground (
    arith,
    e,
    count-append p jobs (row ∷ []),
    count_none (collides row) jobs none_collide,
    count-le-count p (collides row) jobs (λ j k. clash j e k),
  )
  | inr e ↦ ground (arith, e, count-append p jobs (row ∷ []))
]

fresh_count :
    (jobs : List Job) (next : ℕ) → All (λ j. j.job_id < next) jobs → count (has_id next) jobs ≡ 0
fresh_count [] next h = refl
fresh_count (j ∷ jobs) next h = ground (arith, h.0, fresh_count jobs next h.1)

insert-IsConsistent :
    (row : Job) (jobs : List Job) (next : ℕ)
    → row.job_id ≡ next
    → IsSound row
    → any (collides row) jobs ≡ false
    → IsConsistent jobs next
    → IsConsistent (jobs ++ row ∷ []) (next + 1)
insert-IsConsistent row jobs next e s free c = record {
  sound = All-append IsSound jobs (row ∷ []) c.sound (s, tt);
  one_active =
      λ d. append_le_one (is_active_on d) row jobs free (collides_active row d) (c.one_active d);
  unique_id = λ i. elim (Bool-cases (next == i)) [
    | inl q ↦ ground (
      arith,
      e,
      q,
      count-append (has_id i) jobs (row ∷ []),
      fresh_count jobs next c.fresh_id,
      c.unique_id i,
    )
    | inr q ↦ ground (arith, e, q, count-append (has_id i) jobs (row ∷ []), c.unique_id i)
  ];
  unique_key = λ k. append_le_one (has_key k) row jobs free (collides_key row k) (c.unique_key k);
  fresh_id =
      All-append (λ j. j.job_id < next + 1) jobs (row ∷ [])
        (All-imp jobs (λ j h. omega arith) c.fresh_id) (omega arith, tt);
}

module _ (now : ℕ) (db : Db) (c : Consistent db) where
  pub create-Consistent :
      (p : CreateParams)
      → is_pending p.status ≡ true
      → 0 < p.max_attempts
      → Consistent (create_job now p db).1
  unfolding create_job
  create-Consistent p pend m =
      let row = new_row now db.next_job_id p in
      elim (Bool-cases (any (collides row) db.jobs)) [
        | inl e ↦ rw e (record {
          sound = c.sound;
          one_active = c.one_active;
          unique_id = c.unique_id;
          unique_key = c.unique_key;
          fresh_id = All-imp db.jobs (λ j h. omega arith) c.fresh_id;
        })
        | inr e ↦ rw e (
            insert-IsConsistent row db.jobs db.next_job_id refl
              (new_row-IsSound now db.next_job_id p pend m) e c)
      ]

  -- A condition on a date grows by the requeued row at most, and only from 0.
  retry_hit-active :
      (id : ℕ) (j : Job)
      → find (is_failed_with_id id) db.jobs ≡ some j
      → (is_market_daily j.run_mode && any (is_active_on j.business_date) db.jobs) ≡ false
      → (d : ℕ)
      → count (is_active_on d) (update_where (is_failed_with_id id) (retry_row now) db.jobs) ≤ 1
  retry_hit-active id j f free d =
      elim (Bool-cases ((j.business_date == d) && is_market_daily j.run_mode)) [
        | inl e ↦
            let q : j.business_date ≡ d = ground (arith, e) in
            let none_active : any (is_active_on d) db.jobs ≡ false =
              subst (λ z. any (is_active_on z) db.jobs ≡ false) q (ground (arith, e, free)) in
            omega (
              arith,
              count_none (is_active_on d) db.jobs none_active,
              count-update_where-le_add (is_failed_with_id id) (retry_row now) (is_active_on d)
                  db.jobs,
              count-le-count (is_failed_with_id id) (has_id id) db.jobs (λ r h. ground arith),
              c.unique_id id,
            )
        | inr e ↦
            let m = find-In (is_failed_with_id id) db.jobs j f in
            let hit = find-hit (is_failed_with_id id) db.jobs j f in
            let same = unique-All (has_id id) db.jobs j (c.unique_id id) m (ground arith) in
            omega (
              arith,
              c.one_active d,
              count-update_where-le_All (is_failed_with_id id) (retry_row now) (is_active_on d)
                  db.jobs
                  (All-imp db.jobs
                    (λ r is_j h a. absurd (elsewhere r (is_j (ground (arith, h))) e a)) same),
            )
      ]
    where
      elsewhere :
          (r : Job)
          → r ≡ j
          → ((j.business_date == d) && is_market_daily j.run_mode) ≡ false
          → is_active_on d (retry_row now r) ≡ true
          → ⊥
      elsewhere r q e a = ground (
        arith,
        e,
        ap (λ (z : Job). z.business_date) q,
        ap (λ (z : Job). z.run_mode) q,
        (retry_row-Keeps now).same_date r,
        (retry_row-Keeps now).same_mode r,
        a,
      )

  -- The row that is requeued is the one with the id, and its date had no active job.
  retry_hit-Consistent :
      (id : ℕ) (j : Job)
      → find (is_failed_with_id id) db.jobs ≡ some j
      → (is_market_daily j.run_mode && any (is_active_on j.business_date) db.jobs) ≡ false
      → IsConsistent (update_where (is_failed_with_id id) (retry_row now) db.jobs) db.next_job_id
  retry_hit-Consistent id j f free =
      update-IsConsistent (is_failed_with_id id) (retry_row now) (retry_row-Keeps now) db.jobs
        (All-imp db.jobs (λ r s _. retry_row-IsSound now r s) c.sound)
        (retry_hit-active id j f free) c

  pub retry-Consistent : (id : ℕ) → Consistent (retry_failed_job now id db).1
  unfolding retry_failed_job
  retry-Consistent id = elim (Option-cases (find (is_failed_with_id id) db.jobs)) [
    | inl e ↦ rw (e, retry_failed_job) c
    | inr (j, e) ↦
        (elim (Bool-cases
          (is_market_daily j.run_mode && any (is_active_on j.business_date) db.jobs)) [
            | inl b ↦ rw (e, retry_failed_job) (rw b c)
            | inr b ↦ rw (e, retry_failed_job) (rw b (retry_hit-Consistent id j e b))
          ])
  ]

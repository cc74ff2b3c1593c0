-- ===== src/Queue/Identity.antt =====
-- What the statements of batch_job_repo.py leave of the rows that stand in the table: no row is
-- deleted, and a row's id, date, mode and key are never assigned.
use stockapp.Prelude.{
  count, count-append, ℕ, ◌≤◌, ◌≡◌, refl, String, Bool, false, Option, none, some, List, [], ◌∷◌,
  arith, any, Bool-cases, Option-cases, inl, inr, is_some, ◌&&◌,
}
use stockapp.Queue.Job.{Job, Db, is_market_daily}
use stockapp.Queue.Table.{update_where, find, holds_lease}
use stockapp.Queue.Lease.{
  claim_candidate, claim_next_job, heartbeat_claim, begin_step, finish_step_run, save_checkpoint,
  release_failed_claim, Completion, mark_job_completed,
}
use stockapp.Queue.Recovery.{is_exhausted, exhaust_row, recover_expired_claims}
use stockapp.Queue.Admission.{
  CreateParams, collides, new_row, create_job, retry_failed_job, is_failed_with_id, is_active_on,
}
use stockapp.Queue.Requests.{
  Request, create, retry, claim, heartbeat, begin, finish, save, release, complete, recover,
  perform, replay,
}
use stockapp.Queue.Rows.{count-update_where}
use stockapp.Queue.Consistency.{
  Keeps, claim_row-Keeps, release_row-Keeps, complete_row-Keeps, exhaust_row-Keeps,
  requeue_row-Keeps, retry_row-Keeps,
}

-- A condition that reads nothing that a statement assigns.
abbrev pub Steady : (Job → Bool) → Type 0
Steady p = (set : Job → Job) → Keeps set → (j : Job) → p (set j) ≡ p j

-- The rows under a condition, before and after: none is lost, and rows that are won are new.
pub record Grows (p : Job → Bool) (before : List Job) (next : ℕ) (after : List Job) (then_next : ℕ)
    : Type 0 where
  pub kept : count p before ≤ count p after
  pub won : ((j : Job) → next ≤ j.job_id → p j ≡ false) → count p after ≡ count p before
  pub later : next ≤ then_next

abbrev pub Grown : (Job → Bool) → Db → Db → Type 0
Grown p before after = Grows p before.jobs before.next_job_id after.jobs after.next_job_id

module _ (p : Job → Bool) where
  pub Grown-refl : (db : Db) → Grown p db db
  Grown-refl db = record { kept = omega arith; won = λ h. refl; later = omega arith }

  pub Grown-trans : (a b c : Db) → Grown p a b → Grown p b c → Grown p a c
  Grown-trans a b c f g = record {
    kept = omega (arith, f.kept, g.kept);
    won = λ h. omega (arith, f.won h, g.won (λ j le. h j (omega (arith, f.later, le))));
    later = omega (arith, f.later, g.later);
  }

  module _ (s : Steady p) where
    update-Grown :
        (jobs : List Job) (next : ℕ) (hit : Job → Bool) (set : Job → Job)
        → Keeps set
        → Grows p jobs next (update_where hit set jobs) next
    update-Grown jobs next hit set k =
        let same = count-update_where p hit set jobs (s set k) in
        record { kept = omega (arith, same); won = λ h. same; later = omega arith }

    claim_candidate-Grown :
        (now : ℕ) (worker : String) (token secs : ℕ) (db : Db) (o : Option Job)
        → Grown p db (claim_candidate now worker token secs db o).1
    unfolding claim_candidate
    claim_candidate-Grown now worker token secs db none = Grown-refl db
    claim_candidate-Grown now worker token secs db (some c) =
        update-Grown db.jobs db.next_job_id _ _ (claim_row-Keeps now worker token secs)

    begin-Grown :
        (now id token : ℕ) (step : String) (db : Db)
        → Grown p db (begin_step now id token step db).1
    unfolding begin_step
    begin-Grown now id token step db =
        elim (Bool-cases (is_some (find (holds_lease now id token) db.jobs))) [
          | inl e ↦ rw e (
              update-Grown db.jobs db.next_job_id _ _ (record {
                same_id = λ j. refl;
                same_date = λ j. refl;
                same_mode = λ j. refl;
                same_key = λ j. refl;
              }))
          | inr e ↦ rw e (Grown-refl db)
        ]

    complete-Grown :
        (now : ℕ) (token : Option ℕ) (id : ℕ) (c : Completion) (db : Db)
        → Grown p db (mark_job_completed now token id c db).1
    unfolding mark_job_completed
    complete-Grown now none id c db =
        update-Grown db.jobs db.next_job_id _ _ (complete_row-Keeps now c)
    complete-Grown now (some token) id c db =
        update-Grown db.jobs db.next_job_id _ _ (complete_row-Keeps now c)

    recover-Grown : (now : ℕ) (db : Db) → Grown p db (recover_expired_claims now db).1
    unfolding recover_expired_claims
    recover-Grown now db =
        let failed_rows = update_where (is_exhausted now) (exhaust_row now) db.jobs in
        Grown-trans db (record db { jobs = failed_rows }) (recover_expired_claims now db).1
          (update-Grown db.jobs db.next_job_id _ _ (exhaust_row-Keeps now))
          (update-Grown failed_rows db.next_job_id _ _ (requeue_row-Keeps now))

    pub create-Grown :
        (now : ℕ) (params : CreateParams) (db : Db) → Grown p db (create_job now params db).1
    unfolding create_job
    create-Grown now params db =
        let row = new_row now db.next_job_id params in
        let more = count-append p db.jobs (row ∷ []) in
        elim (Bool-cases (any (collides row) db.jobs)) [
          | inl e ↦ rw e (record { kept = omega arith; won = λ h. refl; later = omega arith })
          | inr e ↦ rw e (record {
            kept = omega (arith, more);
            won = λ h. ground (arith, more, h row (unfold new_row in (omega arith)));
            later = omega arith;
          })
        ]

    pub retry-Grown : (now id : ℕ) (db : Db) → Grown p db (retry_failed_job now id db).1
    unfolding retry_failed_job
    retry-Grown now id db = elim (Option-cases (find (is_failed_with_id id) db.jobs)) [
      | inl e ↦ rw (e, retry_failed_job) (Grown-refl db)
      | inr (j, e) ↦
          rw (e, retry_failed_job)
            (elim (Bool-cases
              (is_market_daily j.run_mode && any (is_active_on j.business_date) db.jobs)) [
                | inl b ↦ rw b (Grown-refl db)
                | inr b ↦ rw b (update-Grown db.jobs db.next_job_id _ _ (retry_row-Keeps now))
              ])
    ]

    pub perform-Grown : (now : ℕ) (r : Request) (db : Db) → Grown p db (perform now r db)
    unfolding perform
    perform-Grown now (create params) db = create-Grown now params db
    perform-Grown now (retry id) db = retry-Grown now id db
    perform-Grown now (claim locked worker token secs) db =
        unfold claim_next_job in (claim_candidate-Grown now worker token secs db _)
    perform-Grown now (heartbeat id worker token secs) db =
        unfold heartbeat_claim in
        (update-Grown db.jobs db.next_job_id _ _ (record {
          same_id = λ j. refl;
          same_date = λ j. refl;
          same_mode = λ j. refl;
          same_key = λ j. refl;
        }))
    perform-Grown now (begin id token step) db = begin-Grown now id token step db
    perform-Grown now (finish id status message log) db = unfold finish_step_run in (Grown-refl db)
    perform-Grown now (save id token step c) db =
        unfold save_checkpoint in
        (update-Grown db.jobs db.next_job_id _ _ (record {
          same_id = λ j. refl;
          same_date = λ j. refl;
          same_mode = λ j. refl;
          same_key = λ j. refl;
        }))
    perform-Grown now (release id token code message delay extra llm) db =
        unfold release_failed_claim in
        (update-Grown db.jobs db.next_job_id _ _
          (release_row-Keeps now code message delay extra llm))
    perform-Grown now (complete token id c) db = complete-Grown now token id c db
    perform-Grown now recover db = recover-Grown now db

    pub replay-Grown : (rs : List (ℕ × Request)) (db : Db) → Grown p db (replay rs db)
    unfolding replay
    replay-Grown [] db = Grown-refl db
    replay-Grown ((now, r) ∷ rs) db =
        Grown-trans db (perform now r db) (replay rs (perform now r db)) (perform-Grown now r db)
          (replay-Grown rs (perform now r db))

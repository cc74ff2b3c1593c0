-- ===== src/Queue/Invariant.antt =====
-- The invariant of the queue's tables, statement by statement of batch_job_repo.py.
use stockapp.Prelude.{
  ℕ, ◌≡◌, refl, String, true, false, Option, none, some, arith, is_some, All-imp, Bool-cases, inl,
  inr,
}
use stockapp.Queue.Job.{Checkpoint, Job, Db}
use stockapp.Queue.Table.{update_where, find, has_id, holds_lease}
use stockapp.Queue.Lease.{
  heartbeat_claim, begin_step, save_checkpoint, release_failed_claim, Completion, complete_row,
  mark_job_completed,
}
use stockapp.Queue.Recovery.{is_exhausted, exhaust_row, recover_expired_claims}
use stockapp.Queue.Admission.{is_open}
use stockapp.Queue.Sound.{
  release_row-IsSound, complete_row-IsSound, exhaust_row-IsSound, requeue_row-IsSound,
}
use stockapp.Queue.Consistency.{
  IsConsistent, Consistent, update_closed-IsConsistent, held-Consistent, release_row-Keeps,
  complete_row-Keeps, exhaust_row-Keeps, requeue_row-Keeps,
}

held-open :
    (now id token : ℕ) (j : Job) → holds_lease now id token j ≡ true → is_open j.status ≡ true
held-open now id token j h = ground arith

module _ (now : ℕ) (db : Db) (c : Consistent db) where
  pub heartbeat-Consistent :
      (id : ℕ) (worker : String) (token secs : ℕ)
      → Consistent (heartbeat_claim now id worker token secs db).1
  unfolding heartbeat_claim
  heartbeat-Consistent id worker token secs =
      held-Consistent now db c _ _
        (record {
          same_id = λ j. refl;
          same_date = λ j. refl;
          same_mode = λ j. refl;
          same_key = λ j. refl;
        })
        (λ j h. ground arith) (λ j h s. ground arith)

  pub save-Consistent :
      (id token : ℕ) (step : String) (p : Checkpoint)
      → Consistent (save_checkpoint now id token step p db).1
  unfolding save_checkpoint
  save-Consistent id token step p =
      held-Consistent now db c _ _
        (record {
          same_id = λ j. refl;
          same_date = λ j. refl;
          same_mode = λ j. refl;
          same_key = λ j. refl;
        })
        (held-open now id token) (λ j h s. ground arith)

  pub begin-Consistent :
      (id token : ℕ) (step : String) → Consistent (begin_step now id token step db).1
  unfolding begin_step
  begin-Consistent id token step =
      elim (Bool-cases (is_some (find (holds_lease now id token) db.jobs))) [
        | inl e ↦ rw e (
            held-Consistent now db c _ _
              (record {
                same_id = λ j. refl;
                same_date = λ j. refl;
                same_mode = λ j. refl;
                same_key = λ j. refl;
              })
              (held-open now id token) (λ j h s. ground arith))
        | inr e ↦ rw e c
      ]

  pub release-Consistent :
      (id token : ℕ) (code message : String) (delay extra : ℕ) (llm : Option ℕ)
      → Consistent (release_failed_claim now id token code message delay extra llm db).1
  unfolding release_failed_claim
  release-Consistent id token code message delay extra llm =
      held-Consistent now db c _ _ (release_row-Keeps now code message delay extra llm)
        (held-open now id token) (λ j h s. release_row-IsSound now code message delay extra llm j s)

  pub complete-Consistent :
      (token : Option ℕ) (id : ℕ) (p : Completion)
      → is_open p.status ≡ false
      → Consistent (mark_job_completed now token id p db).1
  unfolding mark_job_completed
  complete-Consistent none id p t =
      update_closed-IsConsistent (has_id id) (complete_row now p) (complete_row-Keeps now p) db.jobs
        (All-imp db.jobs (λ j s _. complete_row-IsSound now p j t s) c.sound)
        (λ j _ o. unfold complete_row in (ground arith)) c
  complete-Consistent (some token) id p t =
      held-Consistent now db c _ _ (complete_row-Keeps now p) (held-open now id token)
        (λ j h s. complete_row-IsSound now p j t s)

  pub recover-Consistent : Consistent (recover_expired_claims now db).1
  unfolding recover_expired_claims
  recover-Consistent =
      let failed_rows = update_where (is_exhausted now) (exhaust_row now) db.jobs in
      let first : IsConsistent failed_rows db.next_job_id =
        held-Consistent now db c _ _ (exhaust_row-Keeps now) (λ j h. ground arith)
          (λ j h s. exhaust_row-IsSound now j s) in
      held-Consistent now (record db { jobs = failed_rows }) first _ _ (requeue_row-Keeps now)
        (λ j h. ground arith) (λ j h s. requeue_row-IsSound now j s)

-- ===== src/Queue/Fencing.antt =====
-- Fencing of a worker that has lost its lease: batch_job_repo.py guards each of a worker's
-- statements by the lease token.
use stockapp.Prelude.{
  ℕ, ◌≡◌, ◌≢◌, ◌⊎◌, refl, sym, ap, ◌∙◌, String, Bool, true, false, ◌&&◌, Option, none, some, List,
  [], ◌∷◌, arith, ◌==◌, holds, is_some, All, All-append, All-map, Bool-cases, Option-cases, inl,
  inr, any,
}
use stockapp.Queue.Job.{Checkpoint, Job, Db, is_market_daily}
use stockapp.Queue.Table.{update_where, find, has_id, holds_lease}
use stockapp.Queue.Lease.{
  claim_candidate, claim_next_job, claim_row, heartbeat_claim, begin_step, finish_step_run,
  save_checkpoint, release_row, release_failed_claim, Completion, mark_job_completed,
}
use stockapp.Queue.Recovery.{recover_expired_claims}
use stockapp.Queue.Admission.{
  CreateParams, is_active_on, collides, new_row, create_job, retry_row, retry_failed_job,
  is_failed_with_id,
}
use stockapp.Queue.Requests.{
  Request, create, retry, claim, heartbeat, begin, finish, save, release, complete, recover,
  perform, replay,
}
use stockapp.Queue.Rows.{update_where-miss, All-update_where}

-- No row with this id holds this token.
abbrev pub Stale : ℕ → ℕ → List Job → Type 0
Stale id token jobs = All (λ j. has_id id j ≡ true → holds j.lease_token token ≡ false) jobs

Stale-find :
    (now id token : ℕ) (jobs : List Job)
    → Stale id token jobs
    → find (holds_lease now id token) jobs ≡ none
Stale-find now id token [] s = refl
Stale-find now id token (j ∷ jobs) s = ground (arith, s.0, Stale-find now id token jobs s.1)

-- Every statement of a worker with that token reports the loss and changes nothing.
pub record IsFenced (now id token : ℕ) (db : Db) : Type 0 where
  pub heartbeat :
      (worker : String) (secs : ℕ) → heartbeat_claim now id worker token secs db ≡ (false, db)
  pub begin : (step : String) → begin_step now id token step db ≡ (none, db)
  pub save : (step : String) (p : Checkpoint) → save_checkpoint now id token step p db ≡ (false, db)
  pub release :
      (code message : String) (delay extra : ℕ) (llm : Option ℕ)
      → release_failed_claim now id token code message delay extra llm db ≡ (none, db)
  pub complete : (c : Completion) → mark_job_completed now (some token) id c db ≡ (false, db)

narrower-find :
    (p q : Job → Bool) (jobs : List Job) → find p jobs ≡ none → find (λ j. p j && q j) jobs ≡ none
narrower-find p q [] h = refl
narrower-find p q (j ∷ jobs) h = ground (arith, narrower-find p q jobs)

-- A guarded UPDATE that hits no row.
missed :
    (db : Db) (hit : Job → Bool) (set : Job → Job)
    → find hit db.jobs ≡ none
    → ◌≡◌ {A = Bool × Db}
        (is_some (find hit db.jobs), record db { jobs = update_where hit set db.jobs })
        (false, db)
missed db hit set h =
    λ i. (is_some (h i), record db { jobs = update_where-miss hit set db.jobs h i })

module _ (now id token : ℕ) (db : Db) (s : Stale id token db.jobs) where
  pub Stale-IsFenced : IsFenced now id token db
  unfolding heartbeat_claim begin_step save_checkpoint release_failed_claim mark_job_completed
  Stale-IsFenced =
      let miss = Stale-find now id token db.jobs s in
      record {
        heartbeat =
            λ worker secs. missed db _ _ (narrower-find (holds_lease now id token) _ db.jobs miss);
        begin = λ step. rw miss refl;
        save = λ step p. missed db _ _ miss;
        release = λ code message delay extra llm i. (
          elim (miss i) [
            | none ↦ none
            | some j ↦ some ((release_row now code message delay extra llm j).status)
          ],
          record db {
            jobs =
                update_where-miss (holds_lease now id token)
                  (release_row now code message delay extra llm) db.jobs miss i;
          },
        );
        complete = λ c. missed db _ _ miss;
      }

-- The statements that could give the token to a row of the job: a claim with that very token.
abbrev pub claims_with : ℕ → Request → Bool
claims_with t (claim locked worker token secs) = token == t
claims_with t _ = false

module _ (id t : ℕ) where
  update-Stale :
      (hit : Job → Bool) (set : Job → Job) (jobs : List Job)
      → ((j : Job) → has_id id (set j) ≡ has_id id j)
      → ((j : Job)
          → hit j ≡ true
          → (holds (set j).lease_token t ≡ false) ⊎ ((set j).lease_token ≡ j.lease_token))
      → Stale id t jobs
      → Stale id t (update_where hit set jobs)
  update-Stale hit set jobs same keep s =
      All-update_where hit set jobs (λ j h old i. ground (arith, keep j h, old (sym (same j) ∙ i)))
        s

  claim_candidate-Stale :
      (now : ℕ) (worker : String) (token secs : ℕ) (db : Db) (o : Option Job)
      → (token == t) ≡ false
      → Stale id t db.jobs
      → Stale id t (claim_candidate now worker token secs db o).1.jobs
  unfolding claim_candidate claim_row
  claim_candidate-Stale now worker token secs db none other s = s
  claim_candidate-Stale now worker token secs db (some c) other s =
      update-Stale _ _ db.jobs (λ j. refl) (λ j h. inl other) s

  create-Stale :
      (now : ℕ) (p : CreateParams) (db : Db)
      → Stale id t db.jobs
      → Stale id t (create_job now p db).1.jobs
  unfolding create_job new_row
  create-Stale now p db s =
      elim (Bool-cases (any (collides (new_row now db.next_job_id p)) db.jobs)) [
        | inl e ↦ rw e s
        | inr e ↦ rw e (All-append _ db.jobs _ s ((λ _. refl), tt))
      ]

  retry-Stale :
      (now job_id : ℕ) (db : Db)
      → Stale id t db.jobs
      → Stale id t (retry_failed_job now job_id db).1.jobs
  unfolding retry_failed_job retry_row
  retry-Stale now job_id db s = elim (Option-cases (find (is_failed_with_id job_id) db.jobs)) [
    | inl e ↦ rw (e, retry_failed_job) s
    | inr (j, e) ↦
        (elim (Bool-cases
          (is_market_daily j.run_mode && any (is_active_on j.business_date) db.jobs)) [
            | inl b ↦ rw (e, retry_failed_job) (rw b s)
            | inr b ↦
                rw (e, retry_failed_job)
                  (rw b (update-Stale _ _ db.jobs (λ j. refl) (λ j h. inl refl) s))
          ])
  ]

  begin-Stale :
      (now job_id token : ℕ) (step : String) (db : Db)
      → Stale id t db.jobs
      → Stale id t (begin_step now job_id token step db).1.jobs
  unfolding begin_step
  begin-Stale now job_id token step db s =
      elim (Bool-cases (is_some (find (holds_lease now job_id token) db.jobs))) [
        | inl e ↦ rw e (update-Stale _ _ db.jobs (λ j. refl) (λ j h. inr refl) s)
        | inr e ↦ rw e s
      ]

  perform-Stale :
      (now : ℕ) (r : Request) (db : Db)
      → claims_with t r ≡ false
      → Stale id t db.jobs
      → Stale id t (perform now r db).jobs
  unfolding perform claim_next_job heartbeat_claim finish_step_run save_checkpoint
      release_failed_claim mark_job_completed recover_expired_claims
  perform-Stale now (create p) db n s = create-Stale now p db s
  perform-Stale now (retry job_id) db n s = retry-Stale now job_id db s
  perform-Stale now (claim locked worker token secs) db n s =
      claim_candidate-Stale now worker token secs db _ n s
  perform-Stale now (heartbeat job_id worker token secs) db n s =
      update-Stale _ _ db.jobs (λ j. refl) (λ j h. inr refl) s
  perform-Stale now (begin job_id token step) db n s = begin-Stale now job_id token step db s
  perform-Stale now (finish step_run_id status message log) db n s = s
  perform-Stale now (save job_id token step p) db n s =
      update-Stale _ _ db.jobs (λ j. refl) (λ j h. inr refl) s
  perform-Stale now (release job_id token code message delay extra llm) db n s =
      update-Stale _ _ db.jobs (λ j. refl) (λ j h. inl refl) s
  perform-Stale now (complete none job_id c) db n s =
      update-Stale _ _ db.jobs (λ j. refl) (λ j h. inl refl) s
  perform-Stale now (complete (some token) job_id c) db n s =
      update-Stale _ _ db.jobs (λ j. refl) (λ j h. inl refl) s
  perform-Stale now recover db n s =
      update-Stale _ _ _ (λ j. refl) (λ j h. inl refl)
        (update-Stale _ _ db.jobs (λ j. refl) (λ j h. inl refl) s)

  replay-Stale :
      (rs : List (ℕ × Request)) (db : Db)
      → All (λ q. claims_with t q.1 ≡ false) rs
      → Stale id t db.jobs
      → Stale id t (replay rs db).jobs
  unfolding replay
  replay-Stale [] db n s = s
  replay-Stale ((now, r) ∷ rs) db n s =
      replay-Stale rs (perform now r db) n.1 (perform-Stale now r db n.0 s)

abbrev id_or : ℕ → Option Job → ℕ
id_or d none = d
id_or d (some j) = j.job_id

claim_candidate-fences :
    (now : ℕ) (worker : String) (token secs t : ℕ) (db : Db) (o : Option Job) (j : Job)
    → (token == t) ≡ false
    → (claim_candidate now worker token secs db o).0 ≡ some j
    → Stale j.job_id t (claim_candidate now worker token secs db o).1.jobs
unfolding claim_candidate claim_row
claim_candidate-fences now worker token secs t db none j other h = cc
claim_candidate-fences now worker token secs t db (some c) j other h =
    let same : c.job_id ≡ j.job_id = ap (id_or j.job_id) h in
    All-map (λ r. has_id j.job_id r ≡ true → holds r.lease_token t ≡ false) _ db.jobs
      (λ r e. ground (arith, other, same))

-- After a claim of a job under one token, a worker that holds any other token for that job is
-- fenced off for good: through any later statements, but a claim that draws the worker's own token
-- again, its heartbeat, begin_step, save_checkpoint, release and completion of the job report the
-- loss of the lease and change neither table.
pub claim-fences :
    (now : ℕ) (locked : ℕ → Bool) (worker : String) (token secs t : ℕ) (db : Db) (j : Job)
    (rs : List (ℕ × Request)) (later : ℕ)
    → token ≢ t
    → (claim_next_job now locked worker token secs db).0 ≡ some j
    → All (λ q. claims_with t q.1 ≡ false) rs
    → IsFenced later j.job_id t (replay rs (claim_next_job now locked worker token secs db).1)
unfolding claim_next_job
claim-fences now locked worker token secs t db j rs later ne h quiet =
    Stale-IsFenced later j.job_id t _ (
      replay-Stale j.job_id t rs _ quiet
        (claim_candidate-fences now worker token secs t db _ j (ground arith) h))

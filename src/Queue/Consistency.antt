-- ===== src/Queue/Consistency.antt =====
-- The invariant of the queue's tables: sound rows, and the unique indexes of db/schema_postgresql.sql.
use stockapp.Prelude.{
  count, ℕ, ◌≤◌, ◌<◌, ◌≡◌, refl, sym, ap, subst, String, Bool, true, Option, none, some, List,
  arith, All, All-imp, In, All-In, ==_refl,
}
use stockapp.Queue.Job.{Job, Db}
use stockapp.Queue.Table.{update_where, has_id}
use stockapp.Queue.Lease.{
  claim_candidate, claim_next_job, release_row, Completion, complete_row, is_claimable, claim_row,
}
use stockapp.Queue.Recovery.{exhaust_row, requeue_row}
use stockapp.Queue.Admission.{is_open, is_active_on, has_key, retry_row}
use stockapp.Queue.Candidate.{candidate-claimable, claimable-is_open}
use stockapp.Queue.Rows.{
  All-update_where, All-update_where-All, count-update_where, count-update_where-le,
  count-update_where-le_All, unique-All,
}
use stockapp.Queue.Sound.{IsSound, claim_row-IsSound}

-- Rows that each are sound, no two with one id, one idempotency key, or both active on one date.
pub record IsConsistent (jobs : List Job) (next_job_id : ℕ) : Type 0 where
  pub sound : All IsSound jobs
  pub one_active : (d : ℕ) → count (is_active_on d) jobs ≤ 1
  pub unique_id : (i : ℕ) → count (has_id i) jobs ≤ 1
  pub unique_key : (k : String) → count (has_key k) jobs ≤ 1
  pub fresh_id : All (λ j. j.job_id < next_job_id) jobs

-- What the assignment of a statement leaves alone.
pub record Keeps (set : Job → Job) : Type 0 where
  pub same_id : (j : Job) → (set j).job_id ≡ j.job_id
  pub same_date : (j : Job) → (set j).business_date ≡ j.business_date
  pub same_mode : (j : Job) → (set j).run_mode ≡ j.run_mode
  pub same_key : (j : Job) → (set j).idempotency_key ≡ j.idempotency_key

module _ (hit : Job → Bool) (set : Job → Job) (k : Keeps set) {next : ℕ} where
  -- An UPDATE whose hit rows stay sound and become active only if they were.
  pub update-IsConsistent :
      (jobs : List Job)
      → All (λ j. hit j ≡ true → IsSound (set j)) jobs
      → ((d : ℕ) → count (is_active_on d) (update_where hit set jobs) ≤ 1)
      → IsConsistent jobs next
      → IsConsistent (update_where hit set jobs) next
  update-IsConsistent jobs s active c = record {
    sound = All-update_where-All hit set IsSound jobs s c.sound;
    one_active = active;
    unique_id = λ i.
        rw (count-update_where (has_id i) hit set jobs (λ r. ground (arith, k.same_id r)))
          (c.unique_id i);
    unique_key = λ key.
        rw (count-update_where (has_key key) hit set jobs (λ r. ground (arith, k.same_key r)))
          (c.unique_key key);
    fresh_id = All-update_where hit set jobs (λ j _ h. rw (k.same_id j) h) c.fresh_id;
  }

  pub update_closed-IsConsistent :
      (jobs : List Job)
      → All (λ j. hit j ≡ true → IsSound (set j)) jobs
      → ((j : Job) → hit j ≡ true → is_open (set j).status ≡ true → is_open j.status ≡ true)
      → IsConsistent jobs next
      → IsConsistent (update_where hit set jobs) next
  update_closed-IsConsistent jobs s closed c =
      update-IsConsistent jobs s
        (λ d. omega (
          arith,
          count-update_where-le (is_active_on d) hit set jobs
              (λ j e a. ground (arith, closed j e, k.same_date j, k.same_mode j)),
          c.one_active d,
        ))
        c

-- Each assignment leaves the identity of the row alone.
pub claim_row-Keeps :
    (now : ℕ) (worker : String) (token secs : ℕ) → Keeps (claim_row now worker token secs)
unfolding claim_row
claim_row-Keeps now worker token secs = record {
  same_id = λ j. refl;
  same_date = λ j. refl;
  same_mode = λ j. refl;
  same_key = λ j. refl;
}

pub release_row-Keeps :
    (now : ℕ) (code message : String) (delay extra : ℕ) (llm : Option ℕ)
    → Keeps (release_row now code message delay extra llm)
unfolding release_row
release_row-Keeps now code message delay extra llm = record {
  same_id = λ j. refl;
  same_date = λ j. refl;
  same_mode = λ j. refl;
  same_key = λ j. refl;
}

pub complete_row-Keeps : (now : ℕ) (c : Completion) → Keeps (complete_row now c)
unfolding complete_row
complete_row-Keeps now c = record {
  same_id = λ j. refl;
  same_date = λ j. refl;
  same_mode = λ j. refl;
  same_key = λ j. refl;
}

pub exhaust_row-Keeps : (now : ℕ) → Keeps (exhaust_row now)
unfolding exhaust_row
exhaust_row-Keeps now = record {
  same_id = λ j. refl;
  same_date = λ j. refl;
  same_mode = λ j. refl;
  same_key = λ j. refl;
}

pub requeue_row-Keeps : (now : ℕ) → Keeps (requeue_row now)
unfolding requeue_row
requeue_row-Keeps now = record {
  same_id = λ j. refl;
  same_date = λ j. refl;
  same_mode = λ j. refl;
  same_key = λ j. refl;
}

pub retry_row-Keeps : (now : ℕ) → Keeps (retry_row now)
unfolding retry_row
retry_row-Keeps now = record {
  same_id = λ j. refl;
  same_date = λ j. refl;
  same_mode = λ j. refl;
  same_key = λ j. refl;
}

abbrev pub Consistent : Db → Type 0
Consistent db = IsConsistent db.jobs db.next_job_id

module _ (now : ℕ) (db : Db) (c : Consistent db) where
  -- An update of the one row `j` by an assignment under which `j` stays sound and open.
  pub update_one-Consistent :
      (set : Job → Job)
      → Keeps set
      → (j : Job) → In j db.jobs
      → IsSound (set j)
      → is_open j.status ≡ true
      → IsConsistent (update_where (has_id j.job_id) set db.jobs) db.next_job_id
  update_one-Consistent set k j m s o =
      let only =
        unique-All (has_id j.job_id) db.jobs j (c.unique_id j.job_id) m (==_refl j.job_id) in
      update-IsConsistent (has_id j.job_id) set k db.jobs
        (All-imp db.jobs (λ r same hit. subst (λ z. IsSound (set z)) (sym (same hit)) s) only)
        (λ d. omega (
          arith,
          count-update_where-le_All (has_id j.job_id) set (is_active_on d) db.jobs (
              All-imp db.jobs
                (λ r same hit a.
                  ground
                    (arith, o, ap (λ (z : Job). z.status) (same hit), k.same_date r, k.same_mode r))
                only),
          c.one_active d,
        ))
        c

  claim_candidate-Consistent :
      (locked : ℕ → Bool) (worker : String) (token secs : ℕ) (o : Option Job)
      → ((j : Job) → o ≡ some j → In j db.jobs × (is_claimable now locked j ≡ true))
      → Consistent (claim_candidate now worker token secs db o).1
  unfolding claim_candidate
  claim_candidate-Consistent locked worker token secs none h = c
  claim_candidate-Consistent locked worker token secs (some j) h =
      let (m, ok) = h j refl in
      update_one-Consistent (claim_row now worker token secs)
        (claim_row-Keeps now worker token secs) j m
        (claim_row-IsSound now locked worker token secs j ok (All-In IsSound db.jobs j c.sound m))
        (claimable-is_open now locked j ok)

  pub claim-Consistent :
      (locked : ℕ → Bool) (worker : String) (token secs : ℕ)
      → Consistent (claim_next_job now locked worker token secs db).1
  unfolding claim_next_job
  claim-Consistent locked worker token secs =
      claim_candidate-Consistent locked worker token secs _
        (λ j e. candidate-claimable now locked db.jobs j e)

  -- An update under a lease leaves a running job open or closes it.
  pub held-Consistent :
      (hit : Job → Bool) (set : Job → Job)
      → Keeps set
      → ((j : Job) → hit j ≡ true → is_open j.status ≡ true)
      → ((j : Job) → hit j ≡ true → IsSound j → IsSound (set j))
      → Consistent (record db { jobs = update_where hit set db.jobs })
  held-Consistent hit set k o s =
      update_closed-IsConsistent hit set k db.jobs
        (All-imp db.jobs (λ j sound h. s j h sound) c.sound) (λ j h _. o j h) c

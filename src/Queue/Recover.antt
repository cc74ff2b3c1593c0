-- ===== src/Queue/Recover.antt =====
-- The three statements of `recover_expired_claims` against one decision for each row.
use stockapp.Prelude.{
  count, ℕ, ◌+◌, ◌-◌, ◌/◌, none, not, ◌≤◌, ◌≡◌, ◌⊎◌, refl, sym, ap, subst, String, Bool, true,
  false, ◌&&◌, some, List, [], ◌∷◌, map, arith, leb, any, select, select-In, In, inl, inr, is_some,
  Bool-cases, Option-cases, if◌then◌else◌,
}
use stockapp.Queue.Job.{pending, failed, StepRun, Job, Db, is_running}
use stockapp.Queue.Table.{update_where}
use stockapp.Queue.Lease.{is_claimable, claim_next_job, claim_candidate, earliest}
use stockapp.Queue.Recovery.{
  has_expired, is_exhausted, is_requeueable, exhaust_row, requeue_row, is_orphan, close_step_row,
  recover_expired_claims, action_at, next_action, time_until_next_actionable_job,
}
use stockapp.Queue.Candidate.{earliest-none}
use stockapp.Queue.Rows.{count-In}

-- RUNNING under a lease that is absent or over.
abbrev pub lapsed : ℕ → Job → Bool
lapsed now j = is_running j.status && elim j.lease_expires_at [ none ↦ true | some t ↦ leb t now ]

abbrev pub spent : Job → Bool
spent j = leb j.max_attempts j.attempt_count

-- The row of a job that ran out of attempts.
abbrev failed_row : ℕ → Job → Job
failed_row now j = record j {
  status = failed;
  lease_owner = none;
  lease_token = none;
  lease_expires_at = none;
  heartbeat_at = none;
  ended_at = some now;
  duration_seconds = some ((now - j.started_at + 500000) / 1000000);
  error_code = some "BATCH_ATTEMPTS_EXHAUSTED";
  error_message = some "Batch job exhausted its worker attempts.";
  log_summary = some "Batch job exhausted its worker attempts.";
}

-- The row of a job that can be claimed again at once.
abbrev waiting_row : ℕ → Job → Job
waiting_row now j = record j {
  status = pending;
  available_at = now;
  lease_owner = none;
  lease_token = none;
  lease_expires_at = none;
  heartbeat_at = none;
  ended_at = none;
  duration_seconds = none;
  error_code = some "BATCH_LEASE_EXPIRED";
  error_message = some "Worker lease expired; job was requeued.";
}

-- The decision for one row: keep it, fail it, or requeue it.
pub recover_row : ℕ → Job → Job
recover_row now j =
    if lapsed now j then (if spent j then failed_row now j else waiting_row now j) else j

two_updates :
    (now : ℕ) (jobs : List Job)
    → update_where
        (is_requeueable now)
        (requeue_row now)
        (update_where (is_exhausted now) (exhaust_row now) jobs)
      ≡ map (recover_row now) jobs
unfolding is_requeueable is_exhausted has_expired recover_row exhaust_row requeue_row
two_updates now [] = refl
two_updates now (j ∷ jobs) = ground (arith, two_updates now jobs)

requeue_count :
    (now : ℕ) (jobs : List Job)
    → count (is_requeueable now) (update_where (is_exhausted now) (exhaust_row now) jobs)
      ≡ count (λ j. lapsed now j && not (spent j)) jobs
unfolding is_requeueable is_exhausted has_expired exhaust_row
requeue_count now [] = refl
requeue_count now (j ∷ jobs) = ground (arith, requeue_count now jobs)

exhaust_count :
    (now : ℕ) (jobs : List Job)
    → count (is_exhausted now) jobs ≡ count (λ j. lapsed now j && spent j) jobs
unfolding is_exhausted has_expired
exhaust_count now [] = refl
exhaust_count now (j ∷ jobs) = ground (arith, exhaust_count now jobs)

-- Recovery is one decision for each row. A RUNNING row whose lease is absent or over loses the
-- lease: it is FAILED, ended now, if its attempts are spent, and otherwise PENDING and available
-- from now on; every other row is as it was. The two counts that recovery reports are the numbers
-- of the rows that it requeued and that it failed.
pub recover_lem :
    (now : ℕ) (db : Db)
    → let (r, db') = recover_expired_claims now db in
      (db'.jobs ≡ map (recover_row now) db.jobs)
      × ((r.failed_count ≡ count (λ j. lapsed now j && spent j) db.jobs)
          × (r.requeued_count ≡ count (λ j. lapsed now j && not (spent j)) db.jobs))
unfolding recover_expired_claims
recover_lem now db =
    (two_updates now db.jobs, (exhaust_count now db.jobs, requeue_count now db.jobs))

recovered-none_expired :
    (now : ℕ) (jobs : List Job) → count (has_expired now) (map (recover_row now) jobs) ≡ 0
unfolding recover_row has_expired exhaust_row requeue_row
recovered-none_expired now [] = refl
recovered-none_expired now (j ∷ jobs) = ground (arith, recovered-none_expired now jobs)

close_orphans :
    (now : ℕ) (jobs : List Job) (runs : List StepRun)
    → any (is_orphan jobs) (update_where (is_orphan jobs) (close_step_row now) runs) ≡ false
unfolding is_orphan close_step_row
close_orphans now jobs [] = refl
close_orphans now jobs (r ∷ runs) = ground (arith, close_orphans now jobs runs)

-- After recovery no job is RUNNING under an absent or expired lease, and no step run is RUNNING
-- under a job that is not.
pub recover_complete :
    (now : ℕ) (db : Db)
    → let db' = (recover_expired_claims now db).1 in
      (count (has_expired now) db'.jobs ≡ 0) × (any (is_orphan db'.jobs) db'.step_runs ≡ false)
unfolding recover_expired_claims
recover_complete now db = (
  rw (two_updates now db.jobs) (recovered-none_expired now db.jobs),
  close_orphans now _ db.step_runs,
)

-- The row that the earliest action belongs to.
due_row :
    (now t : ℕ) (jobs : List Job)
    → next_action now jobs ≡ some t
    → (j : Job) × In j jobs × (action_at now j ≡ some t)
unfolding next_action
due_row now t [] h = absurd (cc)
due_row now t (j ∷ jobs) h = elim (Option-cases (action_at now j)) [
  | inl e ↦ let (k, m, q) = due_row now t jobs (ground (arith, e, h)) in (k, inr m, q)
  | inr (a, e) ↦ (elim (Option-cases (next_action now jobs)) [
    | inl f ↦ (j, inl refl, ground (arith, e, f, h))
    | inr (b, f) ↦ (elim (Bool-cases (leb a b)) [
      | inl l ↦ (j, inl refl, ground (arith, e, f, h))
      | inr l ↦ let (k, m, q) = due_row now t jobs (ground (arith, e, f, h)) in (k, inr m, q)
    ])
  ])
]

In-map : (f : Job → Job) (jobs : List Job) (j : Job) → In j jobs → In (f j) (map f jobs)
In-map f [] j m = elim m [ ]
In-map f (x ∷ jobs) j (inl e) = inl (ap f e)
In-map f (x ∷ jobs) j (inr m) = inr (In-map f jobs j m)

abbrev none_locked : ℕ → Bool
none_locked job_id = false

recovered_due :
    (now t : ℕ) (j : Job)
    → action_at now j ≡ some t
    → t ≤ now
    → (is_exhausted now j ≡ true) ⊎ (is_claimable now none_locked (recover_row now j) ≡ true)
unfolding action_at is_exhausted is_claimable recover_row exhaust_row requeue_row
recovered_due now t j h l = ground arith

claim-some :
    (now : ℕ) (worker : String) (token secs : ℕ) (db : Db) (j : Job)
    → In j (select (is_claimable now none_locked) db.jobs)
    → is_some (claim_next_job now none_locked worker token secs db).0 ≡ true
unfolding claim_next_job claim_candidate
claim-some now worker token secs db j m =
    elim (Option-cases (earliest (select (is_claimable now none_locked) db.jobs))) [
      | inl e ↦ absurd (subst (In j) (earliest-none _ e) m)
      | inr (c, e) ↦ rw e refl
    ]

due_at :
    (now : ℕ) (db : Db)
    → time_until_next_actionable_job now db ≡ some 0
    → (t : ℕ) × (next_action now db.jobs ≡ some t) × (t ≤ now)
unfolding time_until_next_actionable_job
due_at now db h = elim (Option-cases (next_action now db.jobs)) [
  | inl e ↦ absurd (ground (arith, e, h))
  | inr (t, e) ↦ (t, e, ground (arith, e, h))
]

-- When the queue says that a job is due now, and no row is locked, a worker's next round does
-- something: recovery fails a job whose attempts are spent, or the claim after it takes a job.
pub due-progress :
    (now : ℕ) (worker : String) (token secs : ℕ) (db : Db)
    → time_until_next_actionable_job now db ≡ some 0
    → let (r, db') = recover_expired_claims now db in
      (1 ≤ r.failed_count)
      ⊎ (is_some (claim_next_job now (λ _. false) worker token secs db').0 ≡ true)
unfolding recover_expired_claims
due-progress now worker token secs db h =
    let (t, e, l) = due_at now db h in
    let (j, m, a) = due_row now t db.jobs e in
    elim (recovered_due now t j a l) [
      | inl spent ↦ inl (count-In (is_exhausted now) db.jobs j m spent)
      | inr ok ↦ inr (
          claim-some now worker token secs _ (recover_row now j) (
            select-In (is_claimable now none_locked) _ (recover_row now j)
              (subst (In (recover_row now j)) (sym (two_updates now db.jobs))
                (In-map (recover_row now) db.jobs j m))
              ok))
    ]

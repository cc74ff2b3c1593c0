-- ===== src/Examples/Tables.antt =====
-- The job table of app/db/repositories/batch_job_repo.py with one job that is retried and resumed.
use stockapp.Prelude.{
  ◌&&◌, not, ℕ, ◌≤◌, ◌≡◌, ◌⊎◌, refl, Bool, true, false, List, [], ◌∷◌, map, arith, none, some,
  count, any, is_some,
}
use stockapp.Queue.Job.{Job, Db, pending, RunMode, no_counts, empty_checkpoint}
use stockapp.Queue.Lease.{claim_next_job, claim_candidate, earliest, is_claimable, claim_row}
use stockapp.Queue.Admission.{CreateParams}
use stockapp.Queue.Requests.{Request, create, claim, heartbeat, recover, replay}
use stockapp.Queue.Recovery.{
  has_expired, is_orphan, recover_expired_claims, time_until_next_actionable_job, next_action,
  action_at,
}
use stockapp.Queue.Consistency.{Consistent}
use stockapp.Queue.Interleaving.{replay-Consistent}
use stockapp.Queue.Fencing.{IsFenced, claim-fences}
use stockapp.Queue.Claim.{Claimed, claim_next_job-Claimed}
use stockapp.Queue.Recover.{lapsed, spent, recover_row, recover_lem, recover_complete, due-progress}

abbrev pub daily : CreateParams
daily = record {
  business_date = 20000;
  status = pending;
  force_run = false;
  rebuild_page_only = false;
  run_mode = RunMode.full;
  source_job_id = none;
  source_page_id = none;
  idempotency_key = none;
  max_attempts = 2;
}

abbrev pub no_rows : Db
no_rows = record { jobs = []; step_runs = []; next_job_id = 1; next_step_run_id = 1 }

abbrev pub nothing_locked : ℕ → Bool
nothing_locked id = false

abbrev two_workers : List (ℕ × Request)
two_workers =
    (100, create daily)
    ∷ (101, create daily)
    ∷ (110, claim nothing_locked "first" 7 60)
    ∷ (180, recover)
    ∷ (181, claim nothing_locked "second" 8 60)
    ∷ (190, heartbeat 1 "first" 7 60)
    ∷ []

pub no_rows-Consistent : Consistent no_rows
no_rows-Consistent = record {
  sound = tt;
  one_active = λ d. omega arith;
  unique_id = λ i. omega arith;
  unique_key = λ k. omega arith;
  fresh_id = tt;
}

replay-Consistent_example : Consistent (replay two_workers no_rows)
replay-Consistent_example =
    replay-Consistent two_workers no_rows
      ((refl, omega arith), ((refl, omega arith), (tt, (tt, (tt, (tt, tt)))))) no_rows-Consistent

abbrev pub waiting : Job
waiting = record {
  job_id = 1;
  business_date = 20000;
  status = pending;
  run_mode = RunMode.full;
  force_run = false;
  rebuild_page_only = false;
  source_job_id = none;
  source_page_id = none;
  idempotency_key = none;
  queued_at = 100;
  available_at = 100;
  attempt_count = 0;
  max_attempts = 2;
  lease_owner = none;
  lease_token = none;
  lease_expires_at = none;
  heartbeat_at = none;
  current_step = none;
  checkpoint_json = empty_checkpoint;
  started_at = 100;
  ended_at = none;
  duration_seconds = none;
  counts = no_counts;
  page_id = none;
  page_version_no = none;
  partial_message = none;
  error_code = none;
  error_message = none;
  log_summary = none;
}

abbrev pub one_waiting : Db
one_waiting = record { jobs = waiting ∷ []; step_runs = []; next_job_id = 2; next_step_run_id = 1 }

-- The first worker's lease runs out, the job goes back to the queue and a second worker takes it.
abbrev after_the_lease : List (ℕ × Request)
after_the_lease = (180, recover) ∷ (181, claim nothing_locked "second" 8 60) ∷ []

claimed_at_110 :
    (claim_next_job 110 nothing_locked "first" 7 60 one_waiting).0
    ≡ some (claim_row 110 "first" 7 60 waiting)
unfolding claim_next_job claim_candidate earliest is_claimable
claimed_at_110 = refl

claim-fences_example :
    IsFenced 200 1 9
      (replay after_the_lease (claim_next_job 110 nothing_locked "first" 7 60 one_waiting).1)
unfolding claim_row
claim-fences_example =
    claim-fences 110 nothing_locked "first" 7 60 9 one_waiting (claim_row 110 "first" 7 60 waiting)
      after_the_lease 200 (omega arith) claimed_at_110 (refl, (refl, tt))

claim_next_job-Claimed_example :
    Claimed 110 nothing_locked "first" 7 60 one_waiting
      (claim_next_job 110 nothing_locked "first" 7 60 one_waiting)
claim_next_job-Claimed_example = claim_next_job-Claimed 110 nothing_locked "first" 7 60 one_waiting

due_at_110 : time_until_next_actionable_job 110 one_waiting ≡ some 0
unfolding time_until_next_actionable_job next_action action_at
due_at_110 = refl

due-progress_example :
    let (r, db) = recover_expired_claims 110 one_waiting in
    (1 ≤ r.failed_count) ⊎ (is_some (claim_next_job 110 (λ _. false) "first" 7 60 db).0 ≡ true)
due-progress_example = due-progress 110 "first" 7 60 one_waiting due_at_110

abbrev one_running : Db
one_running = record {
  jobs = claim_row 110 "first" 7 60 waiting ∷ [];
  step_runs = [];
  next_job_id = 2;
  next_step_run_id = 1;
}

recover_lem_example :
    let (r, db) = recover_expired_claims 200 one_running in
    (db.jobs ≡ map (recover_row 200) one_running.jobs)
    × ((r.failed_count ≡ count (λ j. lapsed 200 j && spent j) one_running.jobs)
        × (r.requeued_count ≡ count (λ j. lapsed 200 j && not (spent j)) one_running.jobs))
recover_lem_example = recover_lem 200 one_running

recover_complete_example :
    let db = (recover_expired_claims 200 one_running).1 in
    (count (has_expired 200) db.jobs ≡ 0) × (any (is_orphan db.jobs) db.step_runs ≡ false)
recover_complete_example = recover_complete 200 one_running

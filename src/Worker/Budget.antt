-- ===== src/Worker/Budget.antt =====
-- How often a job that always fails is attempted: app/batch/worker.py with the claim and release
-- rows of app/db/repositories/batch_job_repo.py.
use stockapp.Prelude.{
  ℕ, ◌+◌, ◌-◌, ◌≤◌, ◌<◌, ◌≡◌, ◌⊎◌, sym, ap, subst, String, false, List, [], ◌∷◌, arith, length, All,
  if◌then◌else◌, inl, inr,
}
use stockapp.Queue.Job.{Status, pending, failed, is_pending, Job, checkpoint_llm_retry_count}
use stockapp.Queue.Lease.{claim_row, release_row}
use stockapp.Worker.{Settings, Failure, is_llm_retryable, release_for, needs_exhausted_run}

-- One attempt that fails: its times, what the first run raised, and what a second run in
-- retry-exhausted mode would raise.
pub record Attempt : Type 0 where
  pub worker_id : String
  pub token : ℕ
  pub claimed_at : ℕ
  pub released_at : ℕ
  pub first : Failure
  pub exhausted : Failure

module _ (s : Settings) (jitter : ℕ → ℕ) where
  raised : Job → Attempt → Failure
  raised job a = if needs_exhausted_run s job a.first then a.exhausted else a.first

  -- The row of a pending job after a claim, a failure and its release within the lease.
  pub fail_once : Job → Attempt → Job
  fail_once row a =
      let job = claim_row a.claimed_at a.worker_id a.token s.batch_worker_lease_seconds row in
      let r = release_for s jitter job (raised job a) in
      release_row a.released_at r.error_code r.error_message r.retry_delay_seconds r.extra_attempts
        r.llm_retry_count job

  -- The row after the attempts, of which those after the job has left PENDING are not made.
  pub fail_all : List Attempt → Job → Job
  fail_all [] row = row
  fail_all (a ∷ rest) row = fail_all rest (if is_pending row.status then fail_once row a else row)

  -- The attempts that are left, and the provider retries that are left.
  abbrev budget : Job → ℕ
  budget row =
      (row.max_attempts - row.attempt_count)
      + (s.llm_max_retries - checkpoint_llm_retry_count row.checkpoint_json)

  -- One failed attempt ends the job, or leaves it pending with one less.
  fail_once-budget :
      (row : Job) (a : Attempt)
      → row.attempt_count < row.max_attempts
      → is_llm_retryable a.exhausted ≡ false
      → ((fail_once row a).status ≡ failed)
        ⊎ (((fail_once row a).status ≡ pending)
            × ((fail_once row a).attempt_count < (fail_once row a).max_attempts)
            × (budget (fail_once row a) + 1 ≡ budget row))
  unfolding fail_once raised release_for release_row claim_row checkpoint_llm_retry_count
  fail_once-budget row a h e = ground arith

  stopped :
      (as' : List Attempt) (row : Job) → row.status ≡ failed → (fail_all as' row).status ≡ failed
  unfolding fail_all
  stopped [] row h = h
  stopped (a ∷ rest) row h =
      let row_stays = ap (λ (z : Status). if is_pending z then fail_once row a else row) h in
      subst (λ r. (fail_all rest r).status ≡ failed) (sym row_stays) (stopped rest row h)

  -- A pending job whose every attempt fails ends FAILED after at most as many attempts as its
  -- budget: the attempts that are left and the provider retries that are left. A transient provider
  -- failure widens max_attempts by one, and the checkpoint's counter bounds how often. A run in
  -- retry-exhausted mode raises no LlmRetryableError.
  pub fail_all-failed :
      (attempts : List Attempt) (row : Job)
      → row.status ≡ pending
      → row.attempt_count < row.max_attempts
      → All (λ a. is_llm_retryable a.exhausted ≡ false) attempts
      → budget row ≤ length attempts
      → (fail_all attempts row).status ≡ failed
  unfolding fail_all
  fail_all-failed [] row p h e l = absurd (omega arith)
  fail_all-failed (a ∷ rest) row p h e l =
      let attempted = ap (λ (z : Status). if is_pending z then fail_once row a else row) p in
      subst (λ r. (fail_all rest r).status ≡ failed) (sym attempted)
        (elim (fail_once-budget row a h e.0) [
          | inl f ↦ stopped rest (fail_once row a) f
          | inr (q, h', b) ↦ fail_all-failed rest (fail_once row a) q h' e.1 (omega arith)
        ])

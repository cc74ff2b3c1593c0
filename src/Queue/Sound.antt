-- ===== src/Queue/Sound.antt =====
-- What holds of every row of the queue: attempts within the budget, and a lease exactly while the
-- job runs (batch_job_repo.py).
use stockapp.Prelude.{ℕ, ◌≤◌, ◌<◌, ◌≡◌, String, Bool, true, false, Option, none, arith, is_some}
use stockapp.Queue.Job.{Job, is_pending, is_running}
use stockapp.Queue.Lease.{is_claimable, claim_row, Completion, release_row, complete_row}
use stockapp.Queue.Recovery.{exhaust_row, requeue_row}
use stockapp.Queue.Admission.{CreateParams, new_row, is_open, retry_row}

-- Whether the job runs, and whether each of the four lease columns is set.
pub record IsSound (j : Job) : Type 0 where
  pub budget : j.attempt_count ≤ j.max_attempts
  pub allowed : 0 < j.max_attempts
  pub attempted : is_running j.status ≡ true → 0 < j.attempt_count
  pub owner : is_some j.lease_owner ≡ is_running j.status
  pub token : is_some j.lease_token ≡ is_running j.status
  pub expiry : is_some j.lease_expires_at ≡ is_running j.status
  pub beat : is_some j.heartbeat_at ≡ is_running j.status
  pub unfinished : is_running j.status ≡ true → j.ended_at ≡ none
  pub finished : is_open j.status ≡ false → is_some j.ended_at ≡ true

pub claim_row-IsSound :
    (now : ℕ) (locked : ℕ → Bool) (worker : String) (token secs : ℕ) (j : Job)
    → is_claimable now locked j ≡ true
    → IsSound j
    → IsSound (claim_row now worker token secs j)
unfolding claim_row is_claimable
claim_row-IsSound now locked worker token secs j c s = ground arith

pub release_row-IsSound :
    (now : ℕ) (code message : String) (delay extra : ℕ) (llm : Option ℕ) (j : Job)
    → IsSound j
    → IsSound (release_row now code message delay extra llm j)
unfolding release_row
release_row-IsSound now code message delay extra llm j s = ground arith

pub complete_row-IsSound :
    (now : ℕ) (c : Completion) (j : Job)
    → is_open c.status ≡ false
    → IsSound j
    → IsSound (complete_row now c j)
unfolding complete_row
complete_row-IsSound now c j t s = ground arith

pub exhaust_row-IsSound : (now : ℕ) (j : Job) → IsSound j → IsSound (exhaust_row now j)
unfolding exhaust_row
exhaust_row-IsSound now j s = ground arith

pub requeue_row-IsSound : (now : ℕ) (j : Job) → IsSound j → IsSound (requeue_row now j)
unfolding requeue_row
requeue_row-IsSound now j s = ground arith

pub retry_row-IsSound : (now : ℕ) (j : Job) → IsSound j → IsSound (retry_row now j)
unfolding retry_row
retry_row-IsSound now j s = ground arith

pub new_row-IsSound :
    (now id : ℕ) (p : CreateParams)
    → is_pending p.status ≡ true
    → 0 < p.max_attempts
    → IsSound (new_row now id p)
unfolding new_row
new_row-IsSound now id p e m = ground arith

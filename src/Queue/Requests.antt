-- ===== src/Queue/Requests.antt =====
-- The statements of the repository as requests, so that an interleaving of workers, services and
-- recoveries is a list of requests with the time at which each is executed. A statement is atomic.
use stockapp.Prelude.{ℕ, String, Option, List, [], ◌∷◌, Bool}
use stockapp.Queue.Job.{StepStatus, Checkpoint, Db}
use stockapp.Queue.Lease.{
  Completion, claim_next_job, heartbeat_claim, begin_step, finish_step_run, save_checkpoint,
  release_failed_claim, mark_job_completed,
}
use stockapp.Queue.Recovery.{recover_expired_claims}
use stockapp.Queue.Admission.{CreateParams, create_job, retry_failed_job}

pub data Request : Type 0 where
  create : CreateParams → Request
  retry : (job_id : ℕ) → Request
  claim : (locked : ℕ → Bool) (worker_id : String) (token lease_seconds : ℕ) → Request
  heartbeat : (job_id : ℕ) (worker_id : String) (token lease_seconds : ℕ) → Request
  begin : (job_id token : ℕ) (step_code : String) → Request
  finish : (step_run_id : ℕ) (status : StepStatus) (message log : Option String) → Request
  save : (job_id token : ℕ) (step_code : String) (checkpoint : Checkpoint) → Request
  release :
      (job_id token : ℕ) (code message : String) (delay extra : ℕ) (llm_retry_count : Option ℕ)
      → Request
  complete : (token : Option ℕ) (job_id : ℕ) (completion : Completion) → Request
  recover : Request

unfoldable pub perform : ℕ → Request → Db → Db
perform now (create p) db = (create_job now p db).1
perform now (retry job_id) db = (retry_failed_job now job_id db).1
perform now (claim locked worker token lease_seconds) db =
    (claim_next_job now locked worker token lease_seconds db).1
perform now (heartbeat job_id worker token lease_seconds) db =
    (heartbeat_claim now job_id worker token lease_seconds db).1
perform now (begin job_id token step_code) db = (begin_step now job_id token step_code db).1
perform now (finish step_run_id status message log) db =
    (finish_step_run now step_run_id status message log db).1
perform now (save job_id token step_code checkpoint) db =
    (save_checkpoint now job_id token step_code checkpoint db).1
perform now (release job_id token code message delay extra llm) db =
    (release_failed_claim now job_id token code message delay extra llm db).1
perform now (complete token job_id c) db = (mark_job_completed now token job_id c db).1
perform now recover db = (recover_expired_claims now db).1

unfoldable pub replay : List (ℕ × Request) → Db → Db
replay [] db = db
replay ((now, r) ∷ rs) db = replay rs (perform now r db)

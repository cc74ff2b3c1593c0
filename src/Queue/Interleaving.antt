-- ===== src/Queue/Interleaving.antt =====
-- Sequences of the statements of batch_job_repo.py, by any workers and services.
use stockapp.Prelude.{ℕ, ◌<◌, ◌≡◌, true, false, List, [], ◌∷◌, All}
use stockapp.Queue.Job.{Db, is_pending}
use stockapp.Queue.Lease.{finish_step_run}
use stockapp.Queue.Admission.{is_open}
use stockapp.Queue.Requests.{
  Request, create, retry, claim, heartbeat, begin, finish, save, release, complete, recover,
  perform, replay,
}
use stockapp.Queue.Consistency.{Consistent, claim-Consistent}
use stockapp.Queue.Invariant.{
  heartbeat-Consistent, save-Consistent, begin-Consistent, release-Consistent, complete-Consistent,
  recover-Consistent,
}
use stockapp.Queue.Indexes.{create-Consistent, retry-Consistent}

-- What the callers pass: jobs are created PENDING with a positive budget, and are completed with a
-- terminal status.
abbrev pub Allowed : ℕ × Request → Type 0
Allowed (now, create p) = (is_pending p.status ≡ true) × (0 < p.max_attempts)
Allowed (now, complete token job_id c) = is_open c.status ≡ false
Allowed (now, _) = Unit

pub perform-Consistent :
    (now : ℕ) (r : Request) (db : Db)
    → Allowed (now, r)
    → Consistent db
    → Consistent (perform now r db)
unfolding perform
perform-Consistent now (create p) db a c = create-Consistent now db c p a.0 a.1
perform-Consistent now (retry id) db a c = retry-Consistent now db c id
perform-Consistent now (claim locked worker token secs) db a c =
    claim-Consistent now db c locked worker token secs
perform-Consistent now (heartbeat id worker token secs) db a c =
    heartbeat-Consistent now db c id worker token secs
perform-Consistent now (begin id token step) db a c = begin-Consistent now db c id token step
perform-Consistent now (finish id status message log) db a c = unfold finish_step_run in c
perform-Consistent now (save id token step p) db a c = save-Consistent now db c id token step p
perform-Consistent now (release id token code message delay extra llm) db a c =
    release-Consistent now db c id token code message delay extra llm
perform-Consistent now (complete token id p) db a c = complete-Consistent now db c token id p a
perform-Consistent now recover db a c = recover-Consistent now db c

-- Whatever statements are executed, in whatever order and at whatever times, from consistent
-- tables: every row stays sound (attempts within the budget, the four lease columns set exactly
-- while the job is RUNNING, an end time exactly as the status wants), and no two rows share an id,
-- an idempotency key, or are both active market-daily jobs of one business date. Jobs are created
-- PENDING with a positive budget and completed with a terminal status.
pub replay-Consistent :
    (rs : List (ℕ × Request)) (db : Db) → All Allowed rs → Consistent db → Consistent (replay rs db)
unfolding replay
replay-Consistent [] db a c = c
replay-Consistent ((now, r) ∷ rs) db a c =
    replay-Consistent rs (perform now r db) a.1 (perform-Consistent now r db a.0 c)

-- ===== src/Queue.antt =====
-- The durable batch queue, app/db/repositories/batch_job_repo.py: each statement is a function from
-- the tables and `now()` to its result and the tables after it.
pub mod Job
pub mod Table
pub mod Lease
pub mod Recovery
pub mod Admission
pub mod Requests
pub mod Rows
pub mod Select
pub mod Sound
pub mod Candidate
pub mod Consistency
pub mod Invariant
pub mod Indexes
pub mod Recover
pub mod Claim
pub mod Interleaving
pub mod Fencing
pub mod Identity

-- ===== src/Queue/Claim.antt =====
-- What a claim returns, batch_job_repo.py `claim_next_job`.
use stockapp.Prelude.{
  ℕ, ◌≤◌, ◌<◌, ◌≡◌, ◌⊎◌, refl, String, Bool, true, false, Option, none, some, arith, select, In,
  select-In, All-In, subst,
}
use stockapp.Queue.Job.{Job, Db, pending}
use stockapp.Queue.Table.{update_where, has_id}
use stockapp.Queue.Lease.{
  before, earliest, is_claimable, claim_row, claim_candidate, claim_next_job,
}
use stockapp.Queue.Candidate.{earliest-none, earliest-first, candidate-claimable}

-- What makes a row claimable: it is PENDING, available, has attempts left and is not locked.
pub record Eligible (now : ℕ) (locked : ℕ → Bool) (j : Job) : Type 0 where
  pub waits : j.status ≡ pending
  pub available : j.available_at ≤ now
  pub has_budget : j.attempt_count < j.max_attempts
  pub unlocked : locked j.job_id ≡ false

-- The order by available_at, then queued_at, then id.
abbrev pub NotAfter : Job → Job → Type 0
NotAfter c r =
    (c.available_at < r.available_at)
    ⊎ ((c.available_at ≡ r.available_at)
        × ((c.queued_at < r.queued_at) ⊎ ((c.queued_at ≡ r.queued_at) × (c.job_id ≤ r.job_id))))

pub claimable→Eligible :
    (now : ℕ) (locked : ℕ → Bool) (j : Job)
    → is_claimable now locked j ≡ true
    → Eligible now locked j
unfolding is_claimable
claimable→Eligible now locked j h = ground arith

pub Eligible→claimable :
    (now : ℕ) (locked : ℕ → Bool) (j : Job)
    → Eligible now locked j
    → is_claimable now locked j ≡ true
unfolding is_claimable
Eligible→claimable now locked j h = ground arith

before→NotAfter : (c r : Job) → before r c ≡ false → NotAfter c r
before→NotAfter c r h = ground arith

module _ (now : ℕ) (locked : ℕ → Bool) (worker : String) (token secs : ℕ) (db : Db) where
  -- The outcome of a claim: an eligible row of the table that goes after no other eligible row, updated in
  -- place; or no eligible row at all, and nothing changed.
  pub data Claimed : Option Job × Db → Type 0 where
    taken :
        (c : Job)
        → In c db.jobs
        → Eligible now locked c
        → ((r : Job) → In r db.jobs → Eligible now locked r → NotAfter c r)
        → Claimed (
          some (claim_row now worker token secs c),
          record db {
            jobs = update_where (has_id c.job_id) (claim_row now worker token secs) db.jobs;
          },
        )
    idle : ((r : Job) → In r db.jobs → ¬ (Eligible now locked r)) → Claimed (none, db)

  claim_candidate-Claimed :
      (o : Option Job)
      → earliest (select (is_claimable now locked) db.jobs) ≡ o
      → Claimed (claim_candidate now worker token secs db o)
  unfolding claim_candidate
  claim_candidate-Claimed none e =
      let empty = earliest-none (select (is_claimable now locked) db.jobs) e in
      idle (λ r m ok.
        subst (In r) empty
          (select-In (is_claimable now locked) db.jobs r m (Eligible→claimable now locked r ok)))
  claim_candidate-Claimed (some c) e =
      let (m, ok) = candidate-claimable now locked db.jobs c e in
      let first = earliest-first (select (is_claimable now locked) db.jobs) c e in
      taken c m (claimable→Eligible now locked c ok) (λ r i h. before→NotAfter c r (
        All-In (λ z. before z c ≡ false) (select (is_claimable now locked) db.jobs) r first
          (select-In (is_claimable now locked) db.jobs r i (Eligible→claimable now locked r h))))

  -- A claim takes the eligible row that is first by available_at, queued_at and id, and updates
  -- the rows with its id alone; it takes none only if no row is eligible, and then changes nothing.
  -- A row is eligible if it is PENDING, available, has attempts left and is not locked.
  pub claim_next_job-Claimed : Claimed (claim_next_job now locked worker token secs db)
  unfolding claim_next_job
  claim_next_job-Claimed = claim_candidate-Claimed _ refl

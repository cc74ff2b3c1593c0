-- ===== src/Queue/Table.antt =====
-- UPDATE, SELECT and COUNT over the rows of a table, and the row conditions on a lease.
use stockapp.Prelude.{
  ℕ, ◌+◌, ◌-◌, ◌/◌, Bool, true, false, ◌&&◌, Option, none, some, List, [], ◌∷◌, map, ltb, leb, ◌==◌,
  holds, if◌then◌else◌,
}
use stockapp.Queue.Job.{Job, is_running}

module _ {ℓ} {A : Type ℓ} where
  -- UPDATE ... SET (the assignment) WHERE (the condition).
  abbrev pub update_row : (A → Bool) → (A → A) → A → A
  update_row hit set row = if hit row then set row else row

  abbrev pub update_where : (A → Bool) → (A → A) → List A → List A
  update_where hit set = map (update_row hit set)

  -- SELECT ... LIMIT 1, and the row that RETURNING reports.
  abbrev pub find : (A → Bool) → List A → Option A
  find hit [] = none
  find hit (row ∷ rows) = if hit row then some row else find hit rows

abbrev pub has_id : ℕ → Job → Bool
has_id job_id j = j.job_id == job_id

-- lease_expires_at > now(); false for NULL.
abbrev pub is_after : Option ℕ → ℕ → Bool
is_after none now = false
is_after (some t) now = ltb now t

-- lease_expires_at IS NULL OR lease_expires_at <= now()
abbrev pub is_expired : Option ℕ → ℕ → Bool
is_expired none now = true
is_expired (some t) now = leb t now

-- DURATION_SECONDS_EXPR of sql_fragments.py: the cast to an integer rounds to the nearest, and a
-- start in the future counts as 0.
abbrev pub elapsed_seconds : ℕ → ℕ → ℕ
elapsed_seconds now started_at = (now - started_at + 500000) / 1000000

-- lease_null_assignments_sql
abbrev pub null_lease : Job → Job
null_lease j = record j {
  lease_owner = none;
  lease_token = none;
  lease_expires_at = none;
  heartbeat_at = none;
}

-- WHERE id = :job_id AND status = 'RUNNING' AND lease_token = :lease_token
--   AND lease_expires_at > now()
abbrev pub holds_lease : ℕ → ℕ → ℕ → Job → Bool
holds_lease now job_id token j =
    has_id job_id j
    && (is_running j.status && (holds j.lease_token token && is_after j.lease_expires_at now))

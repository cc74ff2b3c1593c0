-- ===== src/Retry/Resolver.antt =====
-- app/batch/ai_retry/resolver.py. A target key is a number and times are numbers; the lineage is
-- the list of the summaries of a source job and of its retries.
use stockapp.Prelude.{
  ℕ, Bool, true, false, not, ◌&&◌, ◌||◌, List, [], ◌∷◌, ◌==◌, ltb, if◌then◌else◌, Option, none,
  some, select,
}

pub data AiSummaryStatus : Type 0 where
  success : AiSummaryStatus
  failed : AiSummaryStatus
  fallback : AiSummaryStatus

pub record AiSummaryRecord : Type 0 where
  pub summary_id : ℕ
  pub batch_job_id : ℕ
  pub target_key : ℕ
  pub is_global_headline : Bool
  pub status : AiSummaryStatus
  pub fallback_used : Bool
  pub has_key_point_failure : Bool
  pub generated_at : ℕ
  pub source_summary_id : Option ℕ
  pub attempt_no : ℕ

abbrev pub is_success : AiSummaryStatus → Bool
is_success AiSummaryStatus.success = true
is_success _ = false

abbrev pub is_failed : AiSummaryStatus → Bool
is_failed AiSummaryStatus.failed = true
is_failed _ = false

abbrev pub is_successful_summary : AiSummaryRecord → Bool
is_successful_summary s = is_success s.status && not s.fallback_used

abbrev pub has_unresolved_key_points : AiSummaryRecord → Bool
has_unresolved_key_points s =
    (s.is_global_headline && is_successful_summary s) && s.has_key_point_failure

abbrev pub is_retry_resolved : AiSummaryRecord → Bool
is_retry_resolved s = is_successful_summary s && not (has_unresolved_key_points s)

-- By attempt number, then time, then id.
abbrev pub summary_order : AiSummaryRecord → AiSummaryRecord → Bool
summary_order a b =
    ltb a.attempt_no b.attempt_no
    || ((a.attempt_no == b.attempt_no)
        && (ltb a.generated_at b.generated_at
            || ((a.generated_at == b.generated_at) && ltb a.summary_id b.summary_id)))

-- The first of the greatest, as `max` finds it.
unfoldable pub newest : AiSummaryRecord → List AiSummaryRecord → AiSummaryRecord
newest best [] = best
newest best (s ∷ rows) = newest (if summary_order best s then s else best) rows

unfoldable pub newest_of : List AiSummaryRecord → Option AiSummaryRecord
newest_of [] = none
newest_of (s ∷ rows) = some (newest s rows)

abbrev pub of_target : ℕ → AiSummaryRecord → Bool
of_target key s = s.target_key == key

-- successful or candidates
unfoldable pub successful_or : List AiSummaryRecord → List AiSummaryRecord → List AiSummaryRecord
successful_or candidates [] = candidates
successful_or candidates (s ∷ rows) = s ∷ rows

unfoldable pub pool : List AiSummaryRecord → List AiSummaryRecord
unfolding successful_or
pool candidates = successful_or candidates (select is_successful_summary candidates)

-- The entry of a target in the resolved mapping.
unfoldable pub resolve_effective_summaries : List AiSummaryRecord → ℕ → Option AiSummaryRecord
unfolding pool newest_of
resolve_effective_summaries summaries key = newest_of (pool (select (of_target key) summaries))

-- The last row of a job for a target, as the comprehension leaves it in the dictionary.
unfoldable pub current_row : ℕ → List AiSummaryRecord → ℕ → Option AiSummaryRecord
current_row retry_job_id [] key = none
current_row retry_job_id (s ∷ rows) key =
    or_else (current_row retry_job_id rows key)
      ((s.batch_job_id == retry_job_id) && (s.target_key == key))
  where
    or_else : Option AiSummaryRecord → Bool → Option AiSummaryRecord
    or_else (some later) b = some later
    or_else none true = some s
    or_else none false = none

-- The first row with the id.
unfoldable pub row_with_id : List AiSummaryRecord → ℕ → AiSummaryRecord → AiSummaryRecord
row_with_id [] summary_id default_row = default_row
row_with_id (s ∷ rows) summary_id default_row =
    let rest = row_with_id rows summary_id default_row in
    if s.summary_id == summary_id then s else rest

unfoldable pub find_retry_source :
    AiSummaryRecord → List AiSummaryRecord → AiSummaryRecord → AiSummaryRecord
find_retry_source current lineage default_row = elim current.source_summary_id [
  | none ↦ default_row
  | some summary_id ↦ row_with_id lineage summary_id default_row
]

pub record AiRetrySelection : Type 0 where
  pub target : ℕ
  pub source_summary : AiSummaryRecord
  pub existing_retry : Option AiSummaryRecord

abbrev pub is_resolved : Option AiSummaryRecord → Bool
is_resolved none = false
is_resolved (some s) = is_retry_resolved s

abbrev pub with_default : AiSummaryRecord → Option AiSummaryRecord → AiSummaryRecord
with_default s none = s
with_default s (some r) = r

unfoldable pub retry_source :
    List AiSummaryRecord
    → AiSummaryRecord
    → AiSummaryRecord
    → Option AiSummaryRecord
    → AiSummaryRecord
retry_source lineage source_row resolved none = resolved
retry_source lineage source_row resolved (some current) =
    find_retry_source current lineage source_row

-- The selections for the source rows that are left.
unfoldable pub select_rows : ℕ → List AiSummaryRecord → List AiSummaryRecord → List AiRetrySelection
unfolding retry_source
select_rows retry_job_id lineage [] = []
select_rows retry_job_id lineage (source_row ∷ rows) =
    let rest = select_rows retry_job_id lineage rows in
    let current = current_row retry_job_id lineage source_row.target_key in
    let resolved =
      with_default source_row (resolve_effective_summaries lineage source_row.target_key) in
    if is_retry_resolved resolved || is_resolved current
    then rest
    else record {
      target = source_row.target_key;
      source_summary = retry_source lineage source_row resolved current;
      existing_retry = current;
    }
      ∷ rest

abbrev pub of_job : ℕ → AiSummaryRecord → Bool
of_job job_id s = s.batch_job_id == job_id

unfoldable pub select_retry_targets : ℕ → ℕ → List AiSummaryRecord → List AiRetrySelection
unfolding select_rows
select_retry_targets source_job_id retry_job_id lineage =
    select_rows retry_job_id lineage (select (of_job source_job_id) lineage)

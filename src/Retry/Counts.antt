-- ===== src/Retry/Counts.antt =====
-- `calculate_retry_counts` of app/batch/ai_retry/resolver.py.
use stockapp.Prelude.{
  ℕ, suc, Bool, false, not, ◌&&◌, ◌||◌, List, [], ◌∷◌, if◌then◌else◌, Option, none, some, select,
  map, length,
}
use stockapp.Keys.{member, distinct}
use stockapp.Retry.Resolver.{
  AiSummaryRecord, is_failed, is_retry_resolved, resolve_effective_summaries, of_job,
}

pub record AiRetryCounts : Type 0 where
  pub target_count : ℕ
  pub attempted_count : ℕ
  pub success_count : ℕ
  pub fallback_count : ℕ
  pub failed_count : ℕ
  pub recovered_count : ℕ

-- The three counters of one target.
unfoldable pub tally_row : AiSummaryRecord → AiRetryCounts → AiRetryCounts
tally_row row c =
    if is_retry_resolved row
    then record {
      target_count = c.target_count;
      attempted_count = c.attempted_count;
      success_count = suc c.success_count;
      fallback_count = c.fallback_count;
      failed_count = c.failed_count;
      recovered_count = c.recovered_count;
    }
    else if is_failed row.status
    then record {
      target_count = c.target_count;
      attempted_count = c.attempted_count;
      success_count = c.success_count;
      fallback_count = c.fallback_count;
      failed_count = suc c.failed_count;
      recovered_count = c.recovered_count;
    }
    else record {
      target_count = c.target_count;
      attempted_count = c.attempted_count;
      success_count = c.success_count;
      fallback_count = suc c.fallback_count;
      failed_count = c.failed_count;
      recovered_count = c.recovered_count;
    }

-- `none` where the lookup of a target raises KeyError.
unfoldable pub count_target :
    (AiRetryCounts → Option AiRetryCounts)
    → AiRetryCounts
    → Option AiSummaryRecord
    → Option AiRetryCounts
unfolding tally_row
count_target others c none = none
count_target others c (some row) = others (tally_row row c)

unfoldable pub tally : List AiSummaryRecord → List ℕ → AiRetryCounts → Option AiRetryCounts
unfolding count_target
tally lineage [] c = some c
tally lineage (key ∷ keys) c =
    count_target (λ counted. tally lineage keys counted) c (resolve_effective_summaries lineage key)

-- Not resolved before and resolved now; a target that either mapping lacks is passed over.
abbrev pub newly_resolved : Option AiSummaryRecord → Option AiSummaryRecord → Bool
newly_resolved none row = false
newly_resolved (some source) none = false
newly_resolved (some source) (some row) =
    not (is_retry_resolved source || not (is_retry_resolved row))

-- The source job left the target unresolved and the lineage resolves it.
unfoldable pub is_recovered : List AiSummaryRecord → List AiSummaryRecord → ℕ → Bool
is_recovered source_rows lineage key =
    newly_resolved (resolve_effective_summaries source_rows key)
      (resolve_effective_summaries lineage key)

abbrev pub target_keys : List AiSummaryRecord → List ℕ
target_keys rows = map (λ (s : AiSummaryRecord). s.target_key) rows

abbrev pub is_retry_row : ℕ → List ℕ → AiSummaryRecord → Bool
is_retry_row retry_job_id source_targets s =
    of_job retry_job_id s && member s.target_key source_targets

abbrev pub with_recovered : ℕ → AiRetryCounts → AiRetryCounts
with_recovered n c = record {
  target_count = c.target_count;
  attempted_count = c.attempted_count;
  success_count = c.success_count;
  fallback_count = c.fallback_count;
  failed_count = c.failed_count;
  recovered_count = n;
}

unfoldable pub calculate_retry_counts : ℕ → ℕ → List AiSummaryRecord → Option AiRetryCounts
unfolding distinct is_recovered
calculate_retry_counts source_job_id retry_job_id lineage =
    let source_rows = select (of_job source_job_id) lineage in
    let source_targets = distinct (target_keys source_rows) in
    let attempted =
      distinct (target_keys (select (is_retry_row retry_job_id source_targets) lineage)) in
    counted (length (select (is_recovered source_rows lineage) attempted)) (
      tally lineage source_targets (record {
        target_count = length source_targets;
        attempted_count = length attempted;
        success_count = 0;
        fallback_count = 0;
        failed_count = 0;
        recovered_count = 0;
      }))
  where
    counted : ℕ → Option AiRetryCounts → Option AiRetryCounts
    counted n none = none
    counted n (some c) = some (with_recovered n c)

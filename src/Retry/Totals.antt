-- ===== src/Retry/Totals.antt =====
-- How the counts of `calculate_retry_counts` in app/batch/ai_retry/resolver.py relate.
use stockapp.Prelude.{
  ℕ, not, ◌&&◌, is_some, ==_iff, select-In, ◌↔◌, ◌+◌, ◌≤◌, ◌≡◌, refl, true, List, arith, some,
  select, length, count, count-le-count, In, In-select, All, All-of_In, ap, sym, ◌∙◌, subst,
}
use stockapp.Keys.{
  member, distinct, NoRepeat, In-distinct, In-member, member-In, distinct-NoRepeat, distinct-In,
  NoRepeat-count-le,
}
use stockapp.Retry.Resolver.{AiSummaryRecord, resolve_effective_summaries, of_job}
use stockapp.Retry.Effective.{resolve_effective_summaries_lem}
use stockapp.Retry.Counts.{
  AiRetryCounts, is_recovered, target_keys, is_retry_row, with_recovered, calculate_retry_counts,
}
use stockapp.Retry.Tallied.{
  length-select, In-target_keys, is_resolved_target, is_failed_target, tally-total,
  recovered-resolved, count-same, recovered_iff, In-key,
}

-- The target keys of the rows that satisfy `p`, each once.
abbrev pub Lists : (AiSummaryRecord → Type 0) → List AiSummaryRecord → List ℕ → Type 0
Lists P rows keys =
    NoRepeat keys
    × ((k : ℕ) → In k keys ↔ ((s : AiSummaryRecord) × (In s rows × (P s × (k ≡ s.target_key)))))

-- The counts of a retry exist. The targets are the keys that the source job has a summary for, each
-- once, and the attempted ones those of them that the retry job has a summary for. Each target is
-- counted once by its effective summary in the lineage: as a success if that is resolved, as a
-- failure if it is not and has failed, and as a fallback otherwise. An attempted target is recovered
-- if the source job left it unresolved and the lineage resolves it; the recovered targets are among
-- the successes.
pub calculate_retry_counts_lem :
    (source_job_id retry_job_id : ℕ) (lineage : List AiSummaryRecord)
    → (c : AiRetryCounts) × (calculate_retry_counts source_job_id retry_job_id lineage ≡ some c)
      × (targets attempted : List ℕ) × Lists (λ s. s.batch_job_id ≡ source_job_id) lineage targets
      × Lists (λ s. (s.batch_job_id ≡ retry_job_id) × In s.target_key targets) lineage attempted
      × (c.target_count ≡ length targets)
      × (c.attempted_count ≡ length attempted)
      × (c.success_count ≡ count (is_resolved_target lineage) targets)
      × (c.failed_count ≡ count (is_failed_target lineage) targets)
      × (c.success_count + c.failed_count + c.fallback_count ≡ c.target_count)
      × (c.recovered_count
          ≡ count
              (λ k.
                is_resolved_target lineage k
                && not (is_resolved_target (select (of_job source_job_id) lineage) k))
              attempted)
      × (c.recovered_count ≤ c.success_count)
unfolding calculate_retry_counts
calculate_retry_counts_lem source_job_id retry_job_id lineage =
    let source_rows = select (of_job source_job_id) lineage in
    let targets = distinct (target_keys source_rows) in
    let attempted_keys = target_keys (select (is_retry_row retry_job_id targets) lineage) in
    let attempted = distinct attempted_keys in
    let effective : All
        (λ key. (row : AiSummaryRecord) × (resolve_effective_summaries lineage key ≡ some row))
        targets =
      All-of_In _ targets (λ key m. effective_of key m) in
    let within : (k : ℕ) → In k attempted → In k targets = λ k m. attempted-In targets k m in
    let recovered = length (select (is_recovered source_rows lineage) attempted) in
    let (d, is_d, sum, success, failures, target, tried) =
      tally-total lineage targets
        (record {
          target_count = length targets;
          attempted_count = length attempted;
          success_count = 0;
          fallback_count = 0;
          failed_count = 0;
          recovered_count = 0;
        })
        effective in
    let fewer : count (λ (k : ℕ). true) attempted ≤ count (λ (k : ℕ). true) targets =
      NoRepeat-count-le (λ k. true) attempted targets (distinct-NoRepeat attempted_keys) within in
    let solved : count (is_resolved_target lineage) attempted
        ≤ count (is_resolved_target lineage) targets =
      NoRepeat-count-le (is_resolved_target lineage) attempted targets
        (distinct-NoRepeat attempted_keys) within in
    let is_solved : count (is_recovered source_rows lineage) attempted
        ≤ count (is_resolved_target lineage) attempted =
      count-le-count (is_recovered source_rows lineage) (is_resolved_target lineage) attempted
        (λ k e. recovered-resolved source_rows lineage k e) in
    let news : count (is_recovered source_rows lineage) attempted
        ≡ count (λ k. is_resolved_target lineage k && not (is_resolved_target source_rows k))
            attempted =
      count-same (is_recovered source_rows lineage) _ attempted (
        All-of_In _ attempted (λ k m.
          unfold is_recovered in
          recovered_iff (resolve_effective_summaries source_rows k)
            (resolve_effective_summaries lineage k) (source_effective k (within k m)))) in
    (
      with_recovered recovered d,
      rw is_d refl,
      targets,
      attempted,
      (distinct-NoRepeat (target_keys source_rows), λ k. (of_source k, to_source k)),
      (distinct-NoRepeat attempted_keys, λ k. (of_retry targets k, to_retry targets k)),
      target,
      tried,
      omega (arith, success),
      omega (arith, failures),
      omega (arith, sum, target),
      omega (arith, news, length-select (is_recovered source_rows lineage) attempted),
      omega (
        arith,
        solved,
        is_solved,
        success,
        length-select (is_recovered source_rows lineage) attempted,
      ),
    )
  where
    effective_of :
        (key : ℕ)
        → In key (distinct (target_keys (select (of_job source_job_id) lineage)))
        → (row : AiSummaryRecord) × (resolve_effective_summaries lineage key ≡ some row)
    effective_of key m =
        let (s, i, q) =
          In-target_keys key (select (of_job source_job_id) lineage)
            (distinct-In key (target_keys (select (of_job source_job_id) lineage)) m) in
        let (row, is_row, _, _, _) =
          resolve_effective_summaries_lem lineage s
            (In-select (of_job source_job_id) lineage s i).0 in
        (row, ap (resolve_effective_summaries lineage) q ∙ is_row)

    attempted-In :
        (targets : List ℕ) (k : ℕ)
        → In k (distinct (target_keys (select (is_retry_row retry_job_id targets) lineage)))
        → In k targets
    attempted-In targets k m =
        let (s, i, q) =
          In-target_keys k (select (is_retry_row retry_job_id targets) lineage)
            (distinct-In k (target_keys (select (is_retry_row retry_job_id targets) lineage)) m) in
        let listed : member s.target_key targets ≡ true =
          ground (arith, (In-select (is_retry_row retry_job_id targets) lineage s i).1) in
        subst (λ z. In z targets) (sym q) (member-In s.target_key targets listed)

    source_effective :
        (key : ℕ)
        → In key (distinct (target_keys (select (of_job source_job_id) lineage)))
        → is_some (resolve_effective_summaries (select (of_job source_job_id) lineage) key) ≡ true
    source_effective key m =
        let rows = select (of_job source_job_id) lineage in
        let (s, i, q) = In-target_keys key rows (distinct-In key (target_keys rows) m) in
        let (row, is_row, _, _, _) = resolve_effective_summaries_lem rows s i in
        ap is_some (ap (resolve_effective_summaries rows) q ∙ is_row)

    of_source :
        (k : ℕ)
        → In k (distinct (target_keys (select (of_job source_job_id) lineage)))
        → (s : AiSummaryRecord) × (In s lineage
            × ((s.batch_job_id ≡ source_job_id) × (k ≡ s.target_key)))
    of_source k m =
        let rows = select (of_job source_job_id) lineage in
        let (s, i, q) = In-target_keys k rows (distinct-In k (target_keys rows) m) in
        let (there, own) = In-select (of_job source_job_id) lineage s i in
        (s, (there, ((==_iff s.batch_job_id source_job_id).0 own, q)))

    to_source :
        (k : ℕ)
        → ((s : AiSummaryRecord) × (In s lineage
              × ((s.batch_job_id ≡ source_job_id) × (k ≡ s.target_key))))
        → In k (distinct (target_keys (select (of_job source_job_id) lineage)))
    to_source k (s, (m, (own, q))) =
        let rows = select (of_job source_job_id) lineage in
        let i =
          select-In (of_job source_job_id) lineage s m
            ((==_iff s.batch_job_id source_job_id).1 own) in
        In-distinct k (target_keys rows)
          (subst (λ z. In z (target_keys rows)) (sym q) (In-key s rows i))

    of_retry :
        (targets : List ℕ) (k : ℕ)
        → In k (distinct (target_keys (select (is_retry_row retry_job_id targets) lineage)))
        → (s : AiSummaryRecord) × (In s lineage
            × (((s.batch_job_id ≡ retry_job_id) × In s.target_key targets) × (k ≡ s.target_key)))
    of_retry targets k m =
        let rows = select (is_retry_row retry_job_id targets) lineage in
        let (s, i, q) = In-target_keys k rows (distinct-In k (target_keys rows) m) in
        let (there, both) = In-select (is_retry_row retry_job_id targets) lineage s i in
        let own : s.batch_job_id ≡ retry_job_id = ground (arith, both) in
        let listed : member s.target_key targets ≡ true = ground (arith, both) in
        (s, (there, ((own, member-In s.target_key targets listed), q)))

    to_retry :
        (targets : List ℕ) (k : ℕ)
        → ((s : AiSummaryRecord) × (In s lineage
              × (((s.batch_job_id ≡ retry_job_id) × In s.target_key targets) × (k ≡ s.target_key))))
        → In k (distinct (target_keys (select (is_retry_row retry_job_id targets) lineage)))
    to_retry targets k (s, (m, ((own, t), q))) =
        let rows = select (is_retry_row retry_job_id targets) lineage in
        let both : is_retry_row retry_job_id targets s ≡ true =
          ground (arith, own, In-member s.target_key targets t) in
        let i = select-In (is_retry_row retry_job_id targets) lineage s m both in
        In-distinct k (target_keys rows)
          (subst (λ z. In z (target_keys rows)) (sym q) (In-key s rows i))

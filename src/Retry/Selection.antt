-- ===== src/Retry/Selection.antt =====
-- What `select_retry_targets` of app/batch/ai_retry/resolver.py chooses.
use stockapp.Prelude.{
  ℕ, ◌≡◌, refl, false, ◌||◌, List, [], ◌∷◌, arith, ==_iff, All-of_In, some, select, map, Bool-cases,
  inl, inr, All, In, In-select, select-In, ap, sym, subst,
}
use stockapp.Retry.Resolver.{
  AiSummaryRecord, is_retry_resolved, resolve_effective_summaries, current_row, AiRetrySelection,
  is_resolved, with_default, select_rows, of_job, select_retry_targets,
}
use stockapp.Retry.Effective.{resolve_effective_summaries_lem}

-- What holds of a selection: the effective summary of its target is unresolved, and so is the row
-- that this retry has already written, if there is one.
pub record Unresolved (retry_job_id : ℕ) (lineage : List AiSummaryRecord) (sel : AiRetrySelection)
    : Type 0 where
  pub effective : AiSummaryRecord
  pub is_effective : resolve_effective_summaries lineage sel.target ≡ some effective
  pub unresolved : is_retry_resolved effective ≡ false
  pub is_current : sel.existing_retry ≡ current_row retry_job_id lineage sel.target
  pub retry_unresolved : is_resolved sel.existing_retry ≡ false

select_rows-Unresolved :
    (retry_job_id : ℕ) (lineage rows : List AiSummaryRecord)
    → All (λ s. In s lineage) rows
    → All (Unresolved retry_job_id lineage) (select_rows retry_job_id lineage rows)
unfolding select_rows
select_rows-Unresolved retry_job_id lineage [] a = tt
select_rows-Unresolved retry_job_id lineage (s ∷ rows) a =
    let rest = select_rows-Unresolved retry_job_id lineage rows a.1 in
    let (row, q, _, _, _) = resolve_effective_summaries_lem lineage s a.0 in
    let resolved = with_default s (resolve_effective_summaries lineage s.target_key) in
    let is_row : resolved ≡ row = ap (with_default s) q in
    let current = current_row retry_job_id lineage s.target_key in
    elim (Bool-cases (is_retry_resolved resolved || is_resolved current)) [
      | inl e ↦ rw e rest
      | inr e ↦
          let open_row : is_retry_resolved resolved ≡ false = ground (arith, e) in
          rw e (
            record {
              effective = row;
              is_effective = q;
              unresolved = subst (λ z. is_retry_resolved z ≡ false) is_row open_row;
              is_current = refl;
              retry_unresolved = ground (arith, e);
            },
            rest,
          )
    ]

-- A target is selected or settled.
select_rows_complete :
    (retry_job_id : ℕ) (lineage rows : List AiSummaryRecord) (s : AiSummaryRecord)
    → In s rows
    → is_retry_resolved (with_default s (resolve_effective_summaries lineage s.target_key)) ≡ false
    → is_resolved (current_row retry_job_id lineage s.target_key) ≡ false
    → In s.target_key
        (map (λ (sel : AiRetrySelection). sel.target) (select_rows retry_job_id lineage rows))
unfolding select_rows
select_rows_complete retry_job_id lineage [] s m u v = elim m [ ]
select_rows_complete retry_job_id lineage (r ∷ rows) s (inl q) u v =
    let skip : (is_retry_resolved
            (with_default r (resolve_effective_summaries lineage r.target_key))
          || is_resolved (current_row retry_job_id lineage r.target_key))
        ≡ false =
      subst
        (λ (z : AiSummaryRecord).
          (is_retry_resolved (with_default z (resolve_effective_summaries lineage z.target_key))
            || is_resolved (current_row retry_job_id lineage z.target_key))
          ≡ false)
        q (ground (arith, u, v)) in
    rw skip (inl (ap (λ (z : AiSummaryRecord). z.target_key) q))
select_rows_complete retry_job_id lineage (r ∷ rows) s (inr m) u v =
    let rest = select_rows_complete retry_job_id lineage rows s m u v in
    elim (Bool-cases (
      is_retry_resolved (with_default r (resolve_effective_summaries lineage r.target_key))
      || is_resolved (current_row retry_job_id lineage r.target_key))) [
        | inl e ↦ rw e rest
        | inr e ↦ rw e (inr rest)
      ]

-- A retry takes up unresolved targets only, and all of them: every selected target is unresolved
-- in the lineage and in the rows that the retry has written, and a target of the source job that
-- is unresolved in both is selected.
pub select_retry_targets_lem :
    (source_job_id retry_job_id : ℕ) (lineage : List AiSummaryRecord)
    → All
        (Unresolved retry_job_id lineage)
        (select_retry_targets source_job_id retry_job_id lineage)
      × ((s row : AiSummaryRecord)
          → In s lineage
          → s.batch_job_id ≡ source_job_id
          → resolve_effective_summaries lineage s.target_key ≡ some row
          → is_retry_resolved row ≡ false
          → is_resolved (current_row retry_job_id lineage s.target_key) ≡ false
          → In s.target_key (
              map
                (λ (sel : AiRetrySelection). sel.target)
                (select_retry_targets source_job_id retry_job_id lineage)))
unfolding select_retry_targets
select_retry_targets_lem source_job_id retry_job_id lineage =
    let rows = select (of_job source_job_id) lineage in
    (
      select_rows-Unresolved retry_job_id lineage rows (
          All-of_In (λ s. In s lineage) rows
            (λ s m. (In-select (of_job source_job_id) lineage s m).0)),
      λ s row m of_source q u v.
          select_rows_complete retry_job_id lineage rows s
            (select-In (of_job source_job_id) lineage s m
              ((==_iff s.batch_job_id source_job_id).1 of_source))
            (subst (λ z. is_retry_resolved z ≡ false) (sym (ap (with_default s) q)) u) v,
    )

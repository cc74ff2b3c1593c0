-- ===== src/Service/Lineage.antt =====
-- The lineage that `resolve_source` of app/db/repositories/ai_retry_repo.py follows.
use stockapp.Prelude.{
  ℕ, suc, ◌≤◌, ◌≡◌, ◌⊎◌, refl, ap, subst, Option, none, some, List, [], ◌∷◌, arith, length, inl,
  inr,
}
use stockapp.Keys.{NoRepeat}
use stockapp.Queue.Job.{Job, Db}
use stockapp.Queue.Admission.{get_job_by_id}
use stockapp.Service.AiRetry.{
  AiRetrySource, ancestors, last_of, coalesce, source_of, resolve_source,
}
use stockapp.Service.Chain.{
  Linked, ids_of, path_after, IsChain, tail_unseen, ancestors-IsChain, Ends, parent_of-Ends,
  member-path_after,
}

-- The lineage of a requested job: that job and the rows joined to it.
pub record IsLineage (db : Db) (requested : Job) (rows : List Job) : Type 0 where
  pub at_most_64 : length (requested ∷ rows) ≤ 64
  pub linked : Linked db requested rows
  pub distinct : NoRepeat (ids_of (requested ∷ rows))
  pub ends :
      (length (requested ∷ rows) ≡ 64)
      ⊎ Ends db (ids_of (requested ∷ rows)) (last_of requested rows)

chain-IsLineage :
    (db : Db) (requested : Job) (rows : List Job)
    → IsChain 63 db (requested.job_id ∷ []) requested rows
    → IsLineage db requested rows
chain-IsLineage db requested rows c =
    let (apart, rest) = tail_unseen requested.job_id [] rows c.unseen in
    record {
      at_most_64 = omega (arith, c.bounded);
      linked = c.linked;
      distinct = (apart, c.distinct);
      ends = elim c.ends [
        | inl q ↦ inl (ap suc q)
        | inr e ↦ inr (whole (last_of requested rows) (parent_of-Ends db _ _ e))
      ];
    }
  where
    whole :
        (j : Job)
        → Ends db (path_after (requested.job_id ∷ []) rows) j
        → Ends db (ids_of (requested ∷ rows)) j
    whole j (inl e) = inl e
    whole j (inr (inl e)) = inr (inl e)
    whole j (inr (inr (id, (q, inr e)))) = inr (inr (id, (q, inr e)))
    whole j (inr (inr (id, (q, inl e)))) =
        inr (
          inr (id, (q, inl (ground (arith, e, member-path_after id (requested.job_id ∷ []) rows)))))

-- What is read off a lineage.
abbrev pub Read : Job → List Job → AiRetrySource → Type 0
Read requested rows source =
    (source.source_job_id ≡ (last_of requested rows).job_id)
    × ((source.business_date ≡ (last_of requested rows).business_date)
        × ((source.source_status ≡ requested.status)
            × (source.source_page_id ≡ elim requested.page_id [
              | some page ↦ some page
              | none ↦ elim requested.source_page_id [
                | some page ↦ some page
                | none ↦ (last_of requested rows).page_id
              ]
            ])))

page_read :
    (own given last : Option ℕ)
    → coalesce own (coalesce given last)
      ≡ elim own [ some p ↦ some p | none ↦ elim given [ some p ↦ some p | none ↦ last ] ]
page_read none none last = refl
page_read none (some p) last = refl
page_read (some p) given last = refl

-- What `resolve_source` finds is read off a lineage of the requested job: at most 64 rows, no id
-- twice, each row the stored source job of the page rebuild or AI retry before it; a shorter one
-- ends at a row that is no rerun, names no source, or whose source is missing or in the lineage
-- already. The source is the last row, with its date; the status is the requested job's, and the
-- page the requested job's own, else the one that it was made from, else the last row's.
pub resolve-IsLineage :
    (id : ℕ) (db : Db) (source : AiRetrySource)
    → resolve_source id db ≡ some source
    → (requested : Job) × (rows : List Job) × ((get_job_by_id id db ≡ some requested)
        × (IsLineage db requested rows × Read requested rows source))
unfolding resolve_source source_of
resolve-IsLineage id db source h = by_job (get_job_by_id id db) refl h
  where
    by_job :
        (o : Option Job)
        → get_job_by_id id db ≡ o
        → (elim o [ none ↦ none | some requested ↦ some (source_of db requested) ]) ≡ some source
        → (requested : Job) × (rows : List Job) × ((get_job_by_id id db ≡ some requested)
            × (IsLineage db requested rows × Read requested rows source))
    by_job none q h = cc
    by_job (some requested) q h =
        let rows = ancestors 63 db (requested.job_id ∷ []) requested in
        (
          requested,
          rows,
          (
            q,
            (
              chain-IsLineage db requested rows (ancestors-IsChain 63 db _ requested),
              subst (Read requested rows) (ap (λ o. elim o [ none ↦ source | some x ↦ x ]) h) (
                refl,
                (
                  refl,
                  (
                    refl,
                    page_read requested.page_id requested.source_page_id
                        (last_of requested rows).page_id,
                  ),
                ),
              ),
            ),
          ),
        )

-- ===== src/Retry/Effective.antt =====
-- What `resolve_effective_summaries` of app/batch/ai_retry/resolver.py chooses.
use stockapp.Prelude.{
  ◌≡◌, refl, true, false, List, [], ◌∷◌, arith, ==_iff, All-In, some, select, Bool-cases, inl, inr,
  All, In, In-select, select-In, ◌⊎◌, sym, ◌∙◌, subst,
}
use stockapp.Retry.Resolver.{
  AiSummaryRecord, is_successful_summary, summary_order, newest, newest_of, of_target,
  successful_or, pool, resolve_effective_summaries,
}

order_down :
    (r best s : AiSummaryRecord)
    → summary_order best s ≡ true
    → summary_order r s ≡ false
    → summary_order r best ≡ false
order_down r best s e q = ground (arith, e, q)

order_up :
    (r best s : AiSummaryRecord)
    → summary_order best s ≡ false
    → summary_order r best ≡ false
    → summary_order r s ≡ false
order_up r best s e q = ground (arith, e, q)

-- One of the rows, none of which is newer.
abbrev Greatest : List AiSummaryRecord → AiSummaryRecord → Type 0
Greatest rows r = In r rows × All (λ s. summary_order r s ≡ false) rows

-- The chosen row is one of the rows and none of them is newer.
newest-Greatest :
    (best : AiSummaryRecord) (rows : List AiSummaryRecord)
    → Greatest (best ∷ rows) (newest best rows)
unfolding newest
newest-Greatest best [] = (inl refl, (ground (arith), tt))
newest-Greatest best (s ∷ rows) = elim (Bool-cases (summary_order best s)) [
  | inl e ↦
      let (i, a) = newest-Greatest s rows in
      let step : newest s rows ≡ newest best (s ∷ rows) = rw e refl in
      subst (Greatest (best ∷ s ∷ rows)) step (inr i, (order_down (newest s rows) best s e a.0, a))
  | inr e ↦
      let (i, a) = newest-Greatest best rows in
      let step : newest best rows ≡ newest best (s ∷ rows) = rw e refl in
      let listed : In (newest best rows) (best ∷ s ∷ rows) = elim i [
        | inl q ↦ inl q
        | inr j ↦ inr (inr j)
      ] in
      subst (Greatest (best ∷ s ∷ rows)) step
        (listed, (a.0, (order_up (newest best rows) best s e a.0, a.1)))
]

newest_of-some :
    (rows : List AiSummaryRecord) (s : AiSummaryRecord)
    → In s rows
    → (row : AiSummaryRecord) × (newest_of rows ≡ some row)
      × In row rows
      × All (λ t. summary_order row t ≡ false) rows
unfolding newest_of
newest_of-some [] s m = elim m [ ]
newest_of-some (first ∷ rows) s m =
    let (i, a) = newest-Greatest first rows in (newest first rows, refl, i, a)

-- Either the pool is the successful candidates, one at least, or no candidate is successful and
-- it is all of them.
pool-cases :
    (c : List AiSummaryRecord)
    → ((pool c ≡ select is_successful_summary c) × ((s : AiSummaryRecord) × In s (pool c)))
      ⊎ ((pool c ≡ c) × ((s : AiSummaryRecord) → In s c → is_successful_summary s ≡ false))
unfolding pool successful_or
pool-cases c = by_successful (select is_successful_summary c) refl
  where
    by_successful :
        (rows : List AiSummaryRecord)
        → select is_successful_summary c ≡ rows
        → ((successful_or c rows ≡ rows) × ((s : AiSummaryRecord) × In s (successful_or c rows)))
          ⊎ ((successful_or c rows ≡ c)
              × ((s : AiSummaryRecord) → In s c → is_successful_summary s ≡ false))
    by_successful [] q = inr (
      refl,
      λ s m. elim (Bool-cases (is_successful_summary s)) [
        | inl e ↦ elim (subst (λ rows. In s rows) q (select-In is_successful_summary c s m e)) [ ]
        | inr e ↦ e
      ],
    )
    by_successful (s ∷ rows) q = inl (refl, (s, inl refl))

-- Every target of the lineage has an effective summary: a row of that target, successful if some
-- row of the target is, and not older than any row of the target that is as successful as it.
pub resolve_effective_summaries_lem :
    (lineage : List AiSummaryRecord) (s : AiSummaryRecord)
    → In s lineage
    → (row : AiSummaryRecord) × (resolve_effective_summaries lineage s.target_key ≡ some row)
      × In row lineage
      × (row.target_key ≡ s.target_key)
      × ((t : AiSummaryRecord)
          → In t lineage
          → t.target_key ≡ s.target_key
          → (is_successful_summary t ≡ true → is_successful_summary row ≡ true)
            × (is_successful_summary t ≡ is_successful_summary row → summary_order row t ≡ false))
unfolding resolve_effective_summaries
resolve_effective_summaries_lem lineage s m =
    let key = s.target_key in
    let c = select (of_target key) lineage in
    let listed : (t : AiSummaryRecord) → In t lineage → t.target_key ≡ key → In t c =
      λ t i q. select-In (of_target key) lineage t i ((==_iff t.target_key key).1 q) in
    let known : (t : AiSummaryRecord) → In t c → In t lineage × (t.target_key ≡ key) = λ t i.
      let (l, e) = In-select (of_target key) lineage t i in (l, (==_iff t.target_key key).0 e) in
    elim (pool-cases c) [
      | inl (is_pool, (first, i)) ↦
          let (row, q, in_pool, latest) = newest_of-some (pool c) first i in
          let (in_c, good) =
            In-select is_successful_summary c row (subst (λ z. In row z) is_pool in_pool) in
          (
            row,
            q,
            (known row in_c).0,
            (known row in_c).1,
            λ t j same. (
              λ _. good,
              λ equal.
                  All-In (λ z. summary_order row z ≡ false) (pool c) t latest
                    (subst (λ z. In t z) (sym is_pool)
                      (select-In is_successful_summary c t (listed t j same) (equal ∙ good))),
            ),
          )
      | inr (is_pool, none_good) ↦
          let (row, q, in_pool, latest) =
            newest_of-some (pool c) s (subst (λ z. In s z) (sym is_pool) (listed s m refl)) in
          let in_c = subst (λ z. In row z) is_pool in_pool in
          (
            row,
            q,
            (known row in_c).0,
            (known row in_c).1,
            λ t j same. (
              λ good. let bad = none_good t (listed t j same) in ground (arith, good, bad),
              λ _.
                  All-In (λ z. summary_order row z ≡ false) (pool c) t latest
                    (subst (λ z. In t z) (sym is_pool) (listed t j same)),
            ),
          )
    ]

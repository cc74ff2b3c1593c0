-- ===== src/Retry/Tallied.antt =====
-- The counters that `calculate_retry_counts` of app/batch/ai_retry/resolver.py adds up.
use stockapp.Prelude.{
  ℕ, suc, false, not, ◌&&◌, is_some, ◌+◌, ◌≤◌, ◌≡◌, refl, Bool, true, List, [], ◌∷◌, arith,
  if◌then◌else◌, Option, none, some, select, length, count, Bool-cases, inl, inr, In, All, ap, ◌∙◌,
}
use stockapp.Retry.Resolver.{
  AiSummaryRecord, is_failed, is_retry_resolved, is_resolved, resolve_effective_summaries,
}
use stockapp.Retry.Counts.{
  AiRetryCounts, tally_row, count_target, tally, newly_resolved, is_recovered, target_keys,
}

pub length-select : {A : Type 0} (p : A → Bool) (xs : List A) → length (select p xs) ≡ count p xs
length-select p [] = omega arith
length-select p (x ∷ xs) = ground (arith, length-select p xs)

count-all : {A : Type 0} (xs : List A) → count (λ x. true) xs ≡ length xs
count-all [] = refl
count-all (x ∷ xs) = ground (arith, count-all xs)

pub In-target_keys :
    (k : ℕ) (rows : List AiSummaryRecord)
    → In k (target_keys rows)
    → (s : AiSummaryRecord) × In s rows × (k ≡ s.target_key)
In-target_keys k [] m = elim m [ ]
In-target_keys k (s ∷ rows) (inl q) = (s, inl refl, q)
In-target_keys k (s ∷ rows) (inr m) = let (t, i, q) = In-target_keys k rows m in (t, inr i, q)

abbrev total : AiRetryCounts → ℕ
total c = c.success_count + c.failed_count + c.fallback_count

tally_row-total :
    (row : AiSummaryRecord) (c : AiRetryCounts)
    → (total (tally_row row c) ≡ suc (total c))
      × ((tally_row row c).success_count
          ≡ c.success_count + (if is_retry_resolved row then 1 else 0))
      × ((tally_row row c).failed_count
          ≡ c.failed_count + (if not (is_retry_resolved row) && is_failed row.status then 1 else 0))
      × ((tally_row row c).target_count ≡ c.target_count)
      × ((tally_row row c).attempted_count ≡ c.attempted_count)
unfolding tally_row
tally_row-total row c = elim (Bool-cases (is_retry_resolved row)) [
  | inl e ↦ rw e (omega arith, omega arith, omega arith, refl, refl)
  | inr e ↦ elim (Bool-cases (is_failed row.status)) [
    | inl f ↦ rw (e, f) (omega arith, omega arith, omega arith, refl, refl)
    | inr f ↦ rw (e, f) (omega arith, omega arith, omega arith, refl, refl)
  ]
]

abbrev pub is_resolved_target : List AiSummaryRecord → ℕ → Bool
is_resolved_target lineage key = is_resolved (resolve_effective_summaries lineage key)

abbrev is_failed_row : Option AiSummaryRecord → Bool
is_failed_row none = false
is_failed_row (some row) = not (is_retry_resolved row) && is_failed row.status

-- The effective summary of the target is not resolved and has failed.
abbrev pub is_failed_target : List AiSummaryRecord → ℕ → Bool
is_failed_target lineage key = is_failed_row (resolve_effective_summaries lineage key)

pub tally-total :
    (lineage : List AiSummaryRecord) (keys : List ℕ) (c : AiRetryCounts)
    → All
        (λ key. (row : AiSummaryRecord) × (resolve_effective_summaries lineage key ≡ some row))
        keys
    → (d : AiRetryCounts) × (tally lineage keys c ≡ some d)
      × (total d ≡ total c + length keys)
      × (d.success_count ≡ c.success_count + count (is_resolved_target lineage) keys)
      × (d.failed_count ≡ c.failed_count + count (is_failed_target lineage) keys)
      × (d.target_count ≡ c.target_count)
      × (d.attempted_count ≡ c.attempted_count)
unfolding tally count_target
tally-total lineage [] c a = (c, refl, omega arith, omega arith, omega arith, refl, refl)
tally-total lineage (key ∷ keys) c a =
    let (row, q) = a.0 in
    let (sum, success, failures, target, attempted) = tally_row-total row c in
    let (d, is_d, sum_d, success_d, failures_d, target_d, attempted_d) =
      tally-total lineage keys (tally_row row c) a.1 in
    let is_r : is_resolved_target lineage key ≡ is_retry_resolved row = ap is_resolved q in
    let is_f : is_failed_target lineage key
        ≡ (not (is_retry_resolved row) && is_failed row.status) =
      ap is_failed_row q in
    (
      d,
      rw q is_d,
      omega (arith, sum, sum_d),
      ground (arith, is_r, success, success_d),
      ground (arith, is_f, failures, failures_d),
      target_d ∙ target,
      attempted_d ∙ attempted,
    )

count-le-length : {A : Type 0} (p : A → Bool) (xs : List A) → count p xs ≤ length xs
count-le-length p [] = omega arith
count-le-length p (x ∷ xs) = ground (arith, count-le-length p xs)

newly_resolved-resolved :
    (source row : Option AiSummaryRecord)
    → newly_resolved source row ≡ true
    → is_resolved row ≡ true
newly_resolved-resolved none row h = ground (arith, h)
newly_resolved-resolved (some s) none h = ground (arith, h)
newly_resolved-resolved (some s) (some r) h = ground (arith, h)

pub recovered-resolved :
    (source_rows lineage : List AiSummaryRecord) (key : ℕ)
    → is_recovered source_rows lineage key ≡ true
    → is_resolved_target lineage key ≡ true
unfolding is_recovered
recovered-resolved source_rows lineage key h =
    newly_resolved-resolved (resolve_effective_summaries source_rows key)
      (resolve_effective_summaries lineage key) h

pub count-same :
    (p q : ℕ → Bool) (keys : List ℕ) → All (λ k. p k ≡ q k) keys → count p keys ≡ count q keys
count-same p q [] h = refl
count-same p q (k ∷ keys) h = ground (arith, h.0, count-same p q keys h.1)

-- Where the source job has a row for the target and the lineage too.
pub recovered_iff :
    (source row : Option AiSummaryRecord)
    → is_some source ≡ true
    → newly_resolved source row ≡ (is_resolved row && not (is_resolved source))
recovered_iff none row h = cc
recovered_iff (some s) none h = refl
recovered_iff (some s) (some r) h = ground arith

pub In-key :
    (s : AiSummaryRecord) (rows : List AiSummaryRecord)
    → In s rows
    → In s.target_key (target_keys rows)
In-key s [] m = elim m [ ]
In-key s (r ∷ rows) (inl e) = inl (ap (λ (z : AiSummaryRecord). z.target_key) e)
In-key s (r ∷ rows) (inr m) = inr (In-key s rows m)

-- ===== src/Service/Chain.antt =====
-- The rows that `resolve_source` of app/db/repositories/ai_retry_repo.py joins, one after the other.
use stockapp.Prelude.{
  ℕ, zero, suc, ◌||◌, Bool-cases, ◌≤◌, ◌≡◌, ◌⊎◌, refl, sym, ap, ◌∙◌, subst, Bool, true, false,
  Option, none, some, List, [], ◌∷◌, map, arith, length, All, In, inl, inr, Option-cases,
  if◌then◌else◌, ==_iff,
}
use stockapp.Keys.{member, NoRepeat}
use stockapp.Queue.Job.{RunMode, Job, Db}
use stockapp.Queue.Table.{find, has_id}
use stockapp.Queue.Admission.{get_job_by_id}
use stockapp.Queue.Rows.{find-hit, find-In}
use stockapp.Service.AiRetry.{is_rerun, parent_of, ancestors, last_of}

-- The row that a rerun names as its source.
pub record Parent (db : Db) (j p : Job) : Type 0 where
  pub rerun : (j.run_mode ≡ RunMode.page_rebuild) ⊎ (j.run_mode ≡ RunMode.ai_retry)
  pub named : j.source_job_id ≡ some p.job_id
  pub stored : In p db.jobs

-- Each row is the source of the one before it.
abbrev pub Linked : Db → Job → List Job → Type 0
Linked db j [] = Unit
Linked db j (p ∷ rows) = Parent db j p × Linked db p rows

abbrev pub ids_of : List Job → List ℕ
ids_of rows = map (λ (r : Job). r.job_id) rows

-- The ids on the path once the rows are added to it.
abbrev pub path_after : List ℕ → List Job → List ℕ
path_after path [] = path
path_after path (r ∷ rows) = path_after (r.job_id ∷ path) rows

-- The rows that are joined to a path that ends in `j`.
pub record IsChain (fuel : ℕ) (db : Db) (path : List ℕ) (j : Job) (rows : List Job) : Type 0 where
  pub bounded : length rows ≤ fuel
  pub linked : Linked db j rows
  pub unseen : All (λ r. member r.job_id path ≡ false) rows
  pub distinct : NoRepeat (ids_of rows)
  pub ends : (length rows ≡ fuel) ⊎ (parent_of db (path_after path rows) (last_of j rows) ≡ none)

rerun_mode : (m : RunMode) → is_rerun m ≡ true → (m ≡ RunMode.page_rebuild) ⊎ (m ≡ RunMode.ai_retry)
rerun_mode RunMode.full h = cc
rerun_mode RunMode.page_rebuild h = inl refl
rerun_mode RunMode.ai_retry h = inr refl
rerun_mode RunMode.news_collection h = cc

first_mode : (m : RunMode) → is_rerun m ≡ false → (m ≡ RunMode.full) ⊎ (m ≡ RunMode.news_collection)
first_mode RunMode.full h = inl refl
first_mode RunMode.page_rebuild h = cc
first_mode RunMode.ai_retry h = cc
first_mode RunMode.news_collection h = inr refl

parent_of-Parent :
    (db : Db) (path : List ℕ) (j p : Job)
    → parent_of db path j ≡ some p
    → Parent db j p × (member p.job_id path ≡ false)
unfolding parent_of get_job_by_id
parent_of-Parent db path j p h = by_mode (is_rerun j.run_mode) refl h
  where
    unseen :
        (id : ℕ) (b : Bool)
        → is_rerun j.run_mode ≡ true
        → j.source_job_id ≡ some id
        → member id path ≡ b
        → (if b then none else find (has_id id) db.jobs) ≡ some p
        → Parent db j p × (member p.job_id path ≡ false)
    unseen id true r q m h = cc
    unseen id false r q m h =
        let same : id ≡ p.job_id =
          sym ((==_iff p.job_id id).0 (find-hit (has_id id) db.jobs p h)) in
        (
          record {
            rerun = rerun_mode j.run_mode r;
            named = q ∙ ap some same;
            stored = find-In (has_id id) db.jobs p h;
          },
          subst (λ z. member z path ≡ false) same m,
        )

    by_source :
        (o : Option ℕ)
        → is_rerun j.run_mode ≡ true
        → j.source_job_id ≡ o
        → (elim o [
          | none ↦ none
          | some id ↦ if member id path then none else find (has_id id) db.jobs
        ])
          ≡ some p
        → Parent db j p × (member p.job_id path ≡ false)
    by_source none r q h = cc
    by_source (some id) r q h = unseen id (member id path) r q refl h

    by_mode :
        (b : Bool)
        → is_rerun j.run_mode ≡ b
        → (if b
            then elim j.source_job_id [
              | none ↦ none
              | some id ↦ if member id path then none else find (has_id id) db.jobs
            ]
            else none)
          ≡ some p
        → Parent db j p × (member p.job_id path ≡ false)
    by_mode true r h = by_source j.source_job_id r refl h
    by_mode false r h = cc

pub tail_unseen :
    (id : ℕ) (path : List ℕ) (rows : List Job)
    → All (λ r. member r.job_id (id ∷ path) ≡ false) rows
    → (member id (ids_of rows) ≡ false) × All (λ r. member r.job_id path ≡ false) rows
tail_unseen id path [] a = (refl, tt)
tail_unseen id path (r ∷ rows) a =
    let (m, rest) = tail_unseen id path rows a.1 in
    (ground (arith, a.0, m), (ground (arith, a.0), rest))

pub ancestors-IsChain :
    (fuel : ℕ) (db : Db) (path : List ℕ) (j : Job)
    → IsChain fuel db path j (ancestors fuel db path j)
unfolding ancestors
ancestors-IsChain zero db path j = record {
  bounded = omega arith;
  linked = tt;
  unseen = tt;
  distinct = tt;
  ends = inl refl;
}
ancestors-IsChain (suc fuel) db path j = elim (Option-cases (parent_of db path j)) [
  | inl e ↦
      rw (e, ancestors)
        (record { bounded = omega arith; linked = tt; unseen = tt; distinct = tt; ends = inr e })
  | inr (p, e) ↦
      let (parent, fresh) = parent_of-Parent db path j p e in
      let rest = ancestors-IsChain fuel db (p.job_id ∷ path) p in
      let (apart, later) = tail_unseen p.job_id path _ rest.unseen in
      rw (e, ancestors)
        (record {
          bounded = omega (arith, rest.bounded);
          linked = (parent, rest.linked);
          unseen = (fresh, later);
          distinct = (apart, rest.distinct);
          ends = elim rest.ends [ inl q ↦ inl (ap suc q) | inr q ↦ inr q ];
        })
]

-- Why a lineage ends at a row: it is no rerun, it names no source, or its source is in the lineage
-- already or missing.
abbrev pub Ends : Db → List ℕ → Job → Type 0
Ends db ids j =
    ((j.run_mode ≡ RunMode.full) ⊎ (j.run_mode ≡ RunMode.news_collection))
    ⊎ ((j.source_job_id ≡ none)
        ⊎ ((id : ℕ) × ((j.source_job_id ≡ some id)
              × ((member id ids ≡ true) ⊎ (get_job_by_id id db ≡ none)))))

pub parent_of-Ends :
    (db : Db) (path : List ℕ) (j : Job) → parent_of db path j ≡ none → Ends db path j
unfolding parent_of
parent_of-Ends db path j h = elim (Bool-cases (is_rerun j.run_mode)) [
  | inr e ↦ inl (first_mode j.run_mode e)
  | inl e ↦ inr (by_source j.source_job_id refl (sym (rw (e, parent_of) refl) ∙ h))
]
  where
    by_source :
        (o : Option ℕ)
        → j.source_job_id ≡ o
        → (elim o [ none ↦ none | some id ↦ if member id path then none else get_job_by_id id db ])
          ≡ none
        → (j.source_job_id ≡ none)
          ⊎ ((id : ℕ) × ((j.source_job_id ≡ some id)
                × ((member id path ≡ true) ⊎ (get_job_by_id id db ≡ none))))
    by_source none q h = inl q
    by_source (some id) q h = inr (
      id,
      (
        q,
        elim (Bool-cases (member id path)) [ inl m ↦ inl m | inr m ↦ inr (ground (arith, m, h)) ],
      ),
    )

-- The ids of the path are those of the lineage.
pub member-path_after :
    (k : ℕ) (path : List ℕ) (rows : List Job)
    → member k (path_after path rows) ≡ (member k path || member k (ids_of rows))
member-path_after k path [] = ground arith
member-path_after k path (r ∷ rows) = ground (arith, member-path_after k (r.job_id ∷ path) rows)

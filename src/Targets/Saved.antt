-- ===== src/Targets/Saved.antt =====
-- What a later attempt reads of the targets that were committed, app/batch/steps/target_progress.py.
use stockapp.Prelude.{
  ℕ, ◌≡◌, refl, ap, ◌∙◌, subst, String, Bool, true, ◌||◌, Option, none, some, List, [], ◌∷◌, arith,
  All, In, inl, inr, Bool-cases, Option-cases, is_some, str_eq, eq_iff, sort_by, sort_by-any,
  text_leb,
}
use stockapp.Queue.Job.{Checkpoint, Job, Db}
use stockapp.Queue.Table.{find, has_id, holds_lease}
use stockapp.Queue.Lease.{save_checkpoint}
use stockapp.Queue.Admission.{get_job_by_id}
use stockapp.Queue.Rows.{find-hit, find-In, unique-All}
use stockapp.Queue.Select.{find-update_where-steady}
use stockapp.Queue.Consistency.{Consistent}
use stockapp.Targets.{
  DurableTargetProgress, holds_target, targets_of, set_targets, add_target, of_job, load,
  with_target, commit_with_token, commit_target,
}

targets-set :
    (step : String) (targets : List String) (progress : List (String × List String))
    → targets_of step (set_targets step targets progress) ≡ targets
unfolding set_targets
targets-set step targets [] = ground (arith, eq_iff step step)
targets-set step targets ((name, old) ∷ progress) =
    ground (arith, targets-set step targets progress)

holds-add :
    (key other : String) (targets : List String)
    → holds_target other (add_target key targets) ≡ (str_eq key other || holds_target other targets)
holds-add key other targets = elim (Bool-cases (holds_target key targets)) [
  | inl e ↦ rw e (elim (Bool-cases (str_eq key other)) [
    | inl q ↦
        let here = subst (λ z. holds_target z targets ≡ true) ((eq_iff key other).0 q) e in
        rw q here
    | inr q ↦ rw q refl
  ])
  | inr e ↦ rw e refl
]

unique-find :
    (p : Job → Bool) (rows : List Job) (x : Job)
    → All (λ r. p r ≡ true → r ≡ x) rows
    → In x rows
    → p x ≡ true
    → find p rows ≡ some x
unique-find p [] x only m h = elim m [ ]
unique-find p (r ∷ rows) x only m h = elim (Bool-cases (p r)) [
  | inl e ↦ rw e (ap some (only.0 e))
  | inr e ↦ (elim m [
    | inl q ↦ ground (arith, e, h, ap p q)
    | inr i ↦ rw e (unique-find p rows x only.1 i h)
  ])
]

-- The one row under the lease is the one that the id finds.
found_row :
    (now id token : ℕ) (db : Db)
    → Consistent db
    → is_some (find (holds_lease now id token) db.jobs) ≡ true
    → (j : Job) × ((find (has_id id) db.jobs ≡ some j) × (holds_lease now id token j ≡ true))
found_row now id token db c h = elim (Option-cases (find (holds_lease now id token) db.jobs)) [
  | inl e ↦ cc
  | inr (j, e) ↦
      let hit = find-hit (holds_lease now id token) db.jobs j e in
      let m = find-In (holds_lease now id token) db.jobs j e in
      let only = unique-All (has_id id) db.jobs j (c.unique_id id) m (ground (arith, hit)) in
      (j, (unique-find (has_id id) db.jobs j only m (ground (arith, hit)), hit))
]

stored-load :
    (now id token : ℕ) (step : String) (document : Checkpoint) (db : Db) (j : Job)
    → find (has_id id) db.jobs ≡ some j
    → holds_lease now id token j ≡ true
    → (load id step (save_checkpoint now id token step document db).1).completed_targets
      ≡ targets_of step document.target_progress
unfolding load of_job save_checkpoint get_job_by_id
stored-load now id token step document db j e h =
    rw
      (find-update_where-steady (has_id id) (holds_lease now id token)
        (λ j. record j { current_step = some step; checkpoint_json = document }) db.jobs
        (λ r. refl))
      (rw e (rw h refl))

-- A target that was committed under the lease, and whatever was complete before it, is what the next
-- attempt loads as complete, and nothing else.
pub commit-load :
    (now : ℕ) (key context : String) (p : DurableTargetProgress) (db : Db)
    → Consistent db
    → is_some p.lease_token ≡ true
    → (commit_target now key context p db).saved ≡ true
    → (other : String)
    → holds_target other
        (load p.job_id p.step_code (commit_target now key context p db).db).completed_targets
      ≡ (str_eq key other || holds_target other p.completed_targets)
unfolding commit_target
commit-load now key context p db c leased ok other = by_token p.lease_token leased ok
  where
    by_token :
        (o : Option ℕ)
        → is_some o ≡ true
        → (commit_with_token now key context p db o).saved ≡ true
        → holds_target other
            (load p.job_id p.step_code
              (commit_with_token now key context p db o).db).completed_targets
          ≡ (str_eq key other || holds_target other p.completed_targets)
    by_token none h k = cc
    by_token (some token) h k =
        let document = with_target key context p in
        let (j, (e, hit)) =
          found_row now p.job_id token db c (unfold commit_with_token save_checkpoint in k) in
        let sorted = sort_by text_leb (add_target key p.completed_targets) in
        unfold commit_with_token in
        (ap (holds_target other) (
            stored-load now p.job_id token p.step_code document db j e hit
            ∙ targets-set p.step_code sorted p.checkpoint.target_progress)
          ∙ (sort_by-any (λ t. str_eq t other) text_leb (add_target key p.completed_targets)
              ∙ holds-add key other p.completed_targets))

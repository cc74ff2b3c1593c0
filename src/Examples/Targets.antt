-- ===== src/Examples/Targets.antt =====
-- Targets of a step, app/batch/steps/target_progress.py: one is committed under a lease, and three
-- run at once of which one fails.
use stockapp.Prelude.{
  Bool, ◌++◌, count, if◌then◌else◌, ℕ, ◌≡◌, refl, String, ◌||◌, true, some, List, [], ◌∷◌, arith,
  str_eq,
}
use stockapp.Queue.Job.{Db, empty_checkpoint}
use stockapp.Queue.Requests.{Request, create, claim, replay}
use stockapp.Queue.Interleaving.{replay-Consistent}
use stockapp.Targets.{DurableTargetProgress, holds_target, load, commit_target}
use stockapp.Targets.Saved.{commit-load}
use stockapp.Targets.Calls.{
  Task, Result, Ended, finished, raised, result, failure, cancelled, run_target_calls,
}
use stockapp.Targets.Settled.{produces, settle, in_turn, Closes}
use stockapp.Targets.Delivered.{run-Delivered}
use stockapp.Examples.Tables.{daily, no_rows, no_rows-Consistent, nothing_locked}

abbrev leased : Db
leased = replay ((100, create daily) ∷ (110, claim nothing_locked "first" 7 60) ∷ []) no_rows

abbrev themes : DurableTargetProgress
themes = record {
  job_id = 1;
  step_code = "CLASSIFY_CLUSTER_THEMES";
  checkpoint = empty_checkpoint;
  lease_token = some 7;
  completed_targets = "KR:1" ∷ [];
}

is_saved : (commit_target 120 "KR:2" "{}" themes leased).saved ≡ true
unfolding commit_target stockapp.Targets.commit_with_token stockapp.Queue.Lease.save_checkpoint
    replay stockapp.Queue.Requests.perform stockapp.Queue.Lease.claim_next_job
    stockapp.Queue.Lease.earliest stockapp.Queue.Admission.create_job
    stockapp.Queue.Lease.is_claimable stockapp.Queue.Lease.claim_row
is_saved = refl

commit-load_example :
    holds_target "KR:1"
      (load 1 "CLASSIFY_CLUSTER_THEMES"
        (commit_target 120 "KR:2" "{}" themes leased).db).completed_targets
    ≡ (str_eq "KR:2" "KR:1" || holds_target "KR:1" themes.completed_targets)
commit-load_example =
    commit-load 120 "KR:2" "{}" themes leased
      (replay-Consistent ((100, create daily) ∷ (110, claim nothing_locked "first" 7 60) ∷ [])
        no_rows ((refl, omega arith), (tt, tt)) no_rows-Consistent)
      refl is_saved "KR:1"

-- The second task fails in the first wait; the third has a result all the same.
abbrev three_tasks : List (List (Task ℕ String))
three_tasks =
    (record { index = 1; target_key = "b"; outcome = failure "timeout"; when_cancelled = cancelled }
      ∷ record { index = 0; target_key = "a"; outcome = result 10; when_cancelled = cancelled }
      ∷ [])
    ∷ (record { index = 2; target_key = "c"; outcome = result 30; when_cancelled = result 30 } ∷ [])
    ∷ []

-- A callback that keeps the keys and loses its lease at the third.
abbrev keep_key : String → ℕ → List String → Ended String (List String)
keep_key key n keys =
    if str_eq key "c" then raised "lease lost" keys else finished (keys ++ key ∷ [])

run-Delivered_example :
    (results : List (Result ℕ)) × ((p : Result ℕ → Bool)
      → count p results ≡ count (produces p) (settle three_tasks))
    × Closes
        (settle three_tasks)
        (in_turn keep_key results [])
        (run_target_calls keep_key three_tasks [])
run-Delivered_example = run-Delivered keep_key three_tasks []

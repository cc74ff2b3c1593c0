-- ===== src/Targets/Calls.antt =====
-- run_target_calls and `_collect_task_results` of app/batch/steps/target_progress.py. The event loop
-- decides which tasks end in one wait: the rounds are any lists of tasks. A task that is cancelled
-- while it waits may still end with a result or a failure of its own.
use stockapp.Prelude.{ℕ, String, List, [], ◌∷◌, ◌++◌, map, leb, sort_by, if◌then◌else◌}

pub data TaskOutcome (P E : Type 0) : Type 0 where
  result : P → TaskOutcome P E
  failure : E → TaskOutcome P E
  cancelled : TaskOutcome P E

-- A call with its place in the list, how it ends by itself, and how it ends once it is cancelled.
pub record Task (P E : Type 0) : Type 0 where
  pub index : ℕ
  pub target_key : String
  pub outcome : TaskOutcome P E
  pub when_cancelled : TaskOutcome P E

-- A task that is done.
pub record Done (P E : Type 0) : Type 0 where
  pub at : ℕ
  pub key : String
  pub ended : TaskOutcome P E

pub record Result (P : Type 0) : Type 0 where
  pub at : ℕ
  pub key : String
  pub payload : P

-- What the caller's callback, or the whole run, ends with.
pub data Ended (E S : Type 0) : Type 0 where
  finished : S → Ended E S
  raised : E → S → Ended E S

-- min(failures, key=index): the first of the least.
unfoldable pub first_failure : {E : Type 0} → ℕ × E → List (ℕ × E) → ℕ × E
first_failure f [] = f
first_failure f (g ∷ rest) = let best = first_failure g rest in if leb f.0 best.0 then f else best

module _ {P E : Type 0} where
  abbrev pub own : Task P E → Done P E
  own t = record { at = t.index; key = t.target_key; ended = t.outcome }

  abbrev pub drained : Task P E → Done P E
  drained t = record { at = t.index; key = t.target_key; ended = t.when_cancelled }

  -- The two lists of _collect_task_results.
  abbrev pub add_result : Done P E → TaskOutcome P E → List (Result P) → List (Result P)
  add_result d (result p) rest = record { at = d.at; key = d.key; payload = p } ∷ rest
  add_result d _ rest = rest

  abbrev pub results_of : List (Done P E) → List (Result P)
  results_of [] = []
  results_of (d ∷ done) = add_result d d.ended (results_of done)

  abbrev pub add_failure : Done P E → TaskOutcome P E → List (ℕ × E) → List (ℕ × E)
  add_failure d (failure e) rest = (d.at, e) ∷ rest
  add_failure d _ rest = rest

  abbrev pub failures_of : List (Done P E) → List (ℕ × E)
  failures_of [] = []
  failures_of (d ∷ done) = add_failure d d.ended (failures_of done)

  abbrev pub pending_of : List (List (Task P E)) → List (Done P E)
  pending_of [] = []
  pending_of (round ∷ later) = map drained round ++ pending_of later

abbrev pub by_index : {P : Type 0} → List (Result P) → List (Result P)
by_index results = sort_by (λ a b. leb a.at b.at) results

abbrev pub then_run : {E S : Type 0} → Ended E S → (S → Ended E S) → Ended E S
then_run (finished s) next = next s
then_run (raised e s) next = raised e s

module _ {P E S : Type 0} (on_result : String → P → S → Ended E S) where
  unfoldable pub deliver : List (Result P) → S → Ended E S
  deliver [] s = finished s
  deliver (r ∷ results) s = elim (on_result r.key r.payload s) [
    | finished t ↦ deliver results t
    | raised e t ↦ raised e t
  ]

  unfoldable pub run_target_calls : List (List (Task P E)) → S → Ended E S
  run_target_calls [] s = finished s
  run_target_calls (round ∷ later) s =
      let done = map own round in
      let pending = pending_of later in
      elim (failures_of done) [
        | [] ↦ then_run (deliver (by_index (results_of done)) s) (λ t. run_target_calls later t)
        | f ∷ rest ↦
            then_run (deliver (by_index (results_of done ++ results_of pending)) s)
              (λ t. raised (first_failure f (rest ++ failures_of pending)).1 t)
      ]

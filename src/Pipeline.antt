-- ===== src/Pipeline.antt =====
-- The durable run of app/batch/orchestrators/market_daily.py: the loop over the steps, the
-- checkpoint after each and the resumption from it. The context is what the checkpoint restores;
-- step codes are numbers.
pub mod Resume
use stockapp.Prelude.{
  ℕ, ◌≡◌, Bool, true, false, List, [], ◌∷◌, ◌++◌, ◌==◌, any, if◌then◌else◌, Option, none, some,
}

-- The parts of `checkpoint_json` that the orchestrator owns.
pub record Saved (Ctx : Type 0) : Type 0 where
  pub completed_steps : List ℕ
  pub context : Ctx

-- How a step of an attempt ends: the context that it returns, if the lease still held when the
-- step began and when the checkpoint was saved; else the attempt raises.
pub data StepResult (Ctx : Type 0) : Type 0 where
  returned : Ctx → StepResult Ctx
  raised : StepResult Ctx
  lease_lost_before : StepResult Ctx
  lease_lost_after : StepResult Ctx

-- What an attempt leaves: the committed checkpoint and, if it reached the end, the last context.
pub record Attempt (Ctx : Type 0) : Type 0 where
  pub saved : Saved Ctx
  pub finished : Option Ctx

abbrev pub is_completed : ℕ → List ℕ → Bool
is_completed code completed_steps = any (λ c. c == code) completed_steps

module _ {Ctx : Type 0} (finalize_job : ℕ) where
  -- After a step: its code and the context are saved, except for the step that closes the job.
  unfoldable pub save_step : Saved Ctx → ℕ → Ctx → Saved Ctx
  save_step saved code ctx =
      if code == finalize_job
      then saved
      else record { completed_steps = saved.completed_steps ++ code ∷ []; context = ctx }

  -- The rest of the loop runs if the step returned; else the transaction is rolled back.
  unfoldable pub after_step :
      (Saved Ctx → Ctx → Attempt Ctx) → Saved Ctx → ℕ → StepResult Ctx → Attempt Ctx
  unfolding save_step
  after_step rest saved code (StepResult.returned ctx) = rest (save_step saved code ctx) ctx
  after_step rest saved code _ = record { saved = saved; finished = none }

  unfoldable pub run_steps : (ℕ → Ctx → StepResult Ctx) → List ℕ → Saved Ctx → Ctx → Attempt Ctx
  unfolding after_step
  run_steps execute [] saved ctx = record { saved = saved; finished = some ctx }
  run_steps execute (code ∷ steps) saved ctx =
      let skipped = run_steps execute steps saved ctx in
      let stepped = after_step (λ s c. run_steps execute steps s c) saved code (execute code ctx) in
      if is_completed code saved.completed_steps then skipped else stepped

  -- An attempt starts from the context of the checkpoint.
  unfoldable pub run : List ℕ → (ℕ → Ctx → StepResult Ctx) → Saved Ctx → Attempt Ctx
  unfolding run_steps
  run steps execute saved = run_steps execute steps saved saved.context

  unfoldable pub or_next : (Saved Ctx → Attempt Ctx) → Attempt Ctx → Attempt Ctx
  or_next next a = elim a.finished [ none ↦ next a.saved | some ctx ↦ a ]

  -- The attempts that the queue makes at a job, up to the first that reaches the end.
  unfoldable pub attempts : List ℕ → List (ℕ → Ctx → StepResult Ctx) → Saved Ctx → Attempt Ctx
  unfolding run or_next
  attempts steps [] saved = record { saved = saved; finished = none }
  attempts steps (execute ∷ others) saved =
      or_next (λ s. attempts steps others s) (run steps execute saved)

-- ===== src/Pipeline/Resume.antt =====
-- The attempts at a durable job of app/batch/orchestrators/market_daily.py against one run.
use stockapp.Prelude.{ℕ, ◌≡◌, List, [], ◌∷◌, ◌++◌, some}
use stockapp.Pipeline.{Saved, StepResult, Attempt}

module _ {Ctx : Type 0} (finalize_job : ℕ) (effect : ℕ → Ctx → Ctx) (body : List ℕ)
    (start : Ctx) where
  -- One run through the steps without an interruption.
  abbrev pub through : List ℕ → Ctx → Ctx
  through [] c = c
  through (code ∷ steps) c = through steps (effect code c)

  -- The steps of an attempt return what their effect makes of the context or do not return.
  abbrev pub Performs : (ℕ → Ctx → StepResult Ctx) → Type 0
  Performs execute =
      (code : ℕ) (c d : Ctx) → execute code c ≡ StepResult.returned d → d ≡ effect code c

  -- The checkpoint stands at some point of the one run.
  pub record Reached (saved : Saved Ctx) : Type 0 where
    pub rest : List ℕ
    pub split : body ≡ saved.completed_steps ++ rest
    pub restored : saved.context ≡ through saved.completed_steps start

  abbrev Ended : Attempt Ctx → Type 0
  Ended a =
      Reached a.saved
      × ((c : Ctx) → a.finished ≡ some c → c ≡ effect finalize_job (through body start))

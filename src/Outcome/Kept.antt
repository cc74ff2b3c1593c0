-- ===== src/Outcome/Kept.antt =====
-- Reasons that stay in a run's context, app/batch/models.py.
use stockapp.Prelude.{
  ◌≡◌, ◌⊎◌, refl, true, ◌||◌, Option, none, some, List, [], ◌∷◌, ◌++◌, arith, String, Bool-cases,
  inl, inr, is_some,
}
use stockapp.Queue.Job.{partial, failed}
use stockapp.Outcome.{
  BatchExecutionContext, holds_message, add_partial, is_text, is_filled, determine_batch_status,
}
use stockapp.Outcome.Recording.{holds-append}

holds-before :
    (s m : String) (messages : List String)
    → holds_message s messages ≡ true
    → holds_message s (messages ++ m ∷ []) ≡ true
holds-before s m [] h = cc
holds-before s m (x ∷ messages) h = ground (arith, h, holds-before s m messages)

pub add_partial-holds :
    (category reason : String) (warning : Option String) (c : BatchExecutionContext)
    → holds_message reason (add_partial category (some reason) warning c).partial_reasons ≡ true
unfolding add_partial
add_partial-holds category reason warning c =
    elim (Bool-cases (holds_message reason c.partial_reasons)) [
      | inl e ↦ rw e e
      | inr e ↦ rw e (holds-append reason c.partial_reasons)
    ]

pub add_partial-kept :
    (category : String) (reason warning : Option String) (s : String) (c : BatchExecutionContext)
    → holds_message s c.partial_reasons ≡ true
    → holds_message s (add_partial category reason warning c).partial_reasons ≡ true
unfolding add_partial
add_partial-kept category none warning s c h = h
add_partial-kept category (some reason) warning s c h =
    elim (Bool-cases (holds_message reason c.partial_reasons)) [
      | inl e ↦ rw e h
      | inr e ↦ rw e (holds-before s reason c.partial_reasons h)
    ]

-- A run with a reason does not succeed.
pub filled-degraded :
    (c : BatchExecutionContext)
    → is_filled c.partial_reasons ≡ true
    → (determine_batch_status c ≡ partial) ⊎ (determine_batch_status c ≡ failed)
unfolding determine_batch_status
filled-degraded c f = elim (Bool-cases (is_text c.error_code || is_text c.error_message)) [
  | inl e ↦ rw e (inr refl)
  | inr e ↦ rw e (elim (Bool-cases (is_some c.page_id)) [
    | inr p ↦ rw p (inr refl)
    | inl p ↦ rw p (elim (Bool-cases (is_text c.partial_message)) [
      | inl m ↦ rw m (inl refl)
      | inr m ↦ rw (m, f) (inl refl)
    ])
  ])
]

pub holds-degraded :
    (s : String) (c : BatchExecutionContext)
    → holds_message s c.partial_reasons ≡ true
    → (determine_batch_status c ≡ partial) ⊎ (determine_batch_status c ≡ failed)
holds-degraded s c h = filled-degraded c (filled c.partial_reasons h)
  where
    filled : (messages : List String) → holds_message s messages ≡ true → is_filled messages ≡ true
    filled [] h = cc
    filled (m ∷ messages) h = refl

-- ===== src/Queue/Candidate.antt =====
-- The candidate of a claim: ORDER BY available_at, queued_at, id LIMIT 1 over the claimable rows.
use stockapp.Prelude.{
  ℕ, ◌≡◌, refl, sym, subst, Bool, true, false, none, some, List, [], ◌∷◌, arith, select, All,
  All-imp, In, In-select, Bool-cases, Option-cases, inl, inr,
}
use stockapp.Queue.Job.{Job}
use stockapp.Queue.Lease.{before, earliest, is_claimable}
use stockapp.Queue.Admission.{is_open}

pub earliest-In : (js : List Job) (j : Job) → earliest js ≡ some j → In j js
unfolding earliest
earliest-In [] j h = cc
earliest-In (x ∷ js) j h = elim (Option-cases (earliest js)) [
  | inl e ↦ inl (ground (arith, e, h))
  | inr (k, e) ↦ (elim (Bool-cases (before k x)) [
    | inl b ↦ inr (earliest-In js j (ground (arith, e, b, h)))
    | inr b ↦ inl (ground (arith, e, b, h))
  ])
]

pub earliest-none : (js : List Job) → earliest js ≡ none → js ≡ []
unfolding earliest
earliest-none [] h = refl
earliest-none (x ∷ js) h = ground (arith, Option-cases (earliest js))

before_irrefl : (a : Job) → before a a ≡ false
before_irrefl a = ground arith

before_asym : (a b : Job) → before a b ≡ true → before b a ≡ false
before_asym a b h = ground arith

-- The negation is the order by the three keys, which is transitive.
not_before_trans : (r k x : Job) → before r k ≡ false → before k x ≡ false → before r x ≡ false
not_before_trans r k x h g = ground arith

-- No row goes before the one that is picked.
pub earliest-first :
    (js : List Job) (j : Job) → earliest js ≡ some j → All (λ r. before r j ≡ false) js
unfolding earliest
earliest-first [] j h = tt
earliest-first (x ∷ js) j h =
    let First = λ (z : Job). All (λ r. before r z ≡ false) (x ∷ js) in
    elim (Option-cases (earliest js)) [
      | inl e ↦
          let n : js ≡ [] = earliest-none js e in
          let q : x ≡ j = ground (arith, e, h) in
          subst First q (before_irrefl x, subst (All (λ r. before r x ≡ false)) (sym n) tt)
      | inr (k, e) ↦ (elim (Bool-cases (before k x)) [
        | inl b ↦
            let q : k ≡ j = ground (arith, e, b, h) in
            subst First q (before_asym k x b, earliest-first js k e)
        | inr b ↦
            let q : x ≡ j = ground (arith, e, b, h) in
            subst First q (
              before_irrefl x,
              All-imp js (λ r n. not_before_trans r k x n b) (earliest-first js k e),
            )
      ])
    ]

pub candidate-claimable :
    (now : ℕ) (locked : ℕ → Bool) (js : List Job) (j : Job)
    → earliest (select (is_claimable now locked) js) ≡ some j
    → In j js × (is_claimable now locked j ≡ true)
candidate-claimable now locked js j h =
    In-select (is_claimable now locked) js j (earliest-In (select (is_claimable now locked) js) j h)

pub claimable-is_open :
    (now : ℕ) (locked : ℕ → Bool) (j : Job)
    → is_claimable now locked j ≡ true
    → is_open j.status ≡ true
unfolding is_claimable
claimable-is_open now locked j h = ground arith

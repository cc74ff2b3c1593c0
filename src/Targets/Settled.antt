-- ===== src/Targets/Settled.antt =====
-- How the tasks of run_target_calls, app/batch/steps/target_progress.py, end, and what is collected
-- of them.
use stockapp.Prelude.{
  ℕ, suc, ◌≤◌, ◌≡◌, refl, sym, ap, ◌∙◌, subst, String, Bool, true, false, not, ◌||◌, List, [], ◌∷◌,
  ◌++◌, map, arith, leb, any, count, All, All-imp, In, inl, inr, if◌then◌else◌,
}
use stockapp.Targets.Calls.{
  TaskOutcome, result, failure, cancelled, Task, Done, Result, Ended, finished, raised, then_run,
  first_failure, own, drained, add_result, results_of, add_failure, failures_of, pending_of,
  deliver,
}

module _ {P E : Type 0} where
  abbrev pub is_failure : TaskOutcome P E → Bool
  is_failure (failure e) = true
  is_failure _ = false

  abbrev pub has_failed : Done P E → Bool
  has_failed d = is_failure d.ended

  -- Whether a task ended with a result that satisfies `p`.
  abbrev pub is_result : (Result P → Bool) → Done P E → TaskOutcome P E → Bool
  is_result p d (result x) = p (record { at = d.at; key = d.key; payload = x })
  is_result p d _ = false

  abbrev pub produces : (Result P → Bool) → Done P E → Bool
  produces p d = is_result p d d.ended

  abbrev pub all_drained : List (List (Task P E)) → List (Done P E)
  all_drained [] = []
  all_drained (round ∷ later) = map drained round ++ all_drained later

  -- How each task ends: by itself, until the first wait with a failure; those that are still
  -- pending then, as they end once they are cancelled.
  abbrev pub settle : List (List (Task P E)) → List (Done P E)
  settle [] = []
  settle (round ∷ later) =
      let done = map own round in
      let rest = settle later in done ++ (if any has_failed done then all_drained later else rest)

  -- The callback is told of one result after the other, until it raises.
  abbrev pub in_turn : {S : Type 0} → (String → P → S → Ended E S) → List (Result P) → S → Ended E S
  in_turn on_result [] s = finished s
  in_turn on_result (r ∷ results) s = elim (on_result r.key r.payload s) [
    | finished t ↦ in_turn on_result results t
    | raised e t ↦ raised e t
  ]

  -- One of the failures, of the least index.
  abbrev pub FirstFailure : List (Done P E) → E → Type 0
  FirstFailure settled e =
      (d : Done P E) × (In d settled
        × ((d.ended ≡ failure e)
            × All (λ (x : Done P E). (not (has_failed x) || leb d.at x.at) ≡ true) settled))

  -- How the run ends, by how the callback did: with its exception; or, where it was told of
  -- everything, without a failure or with the first.
  abbrev pub Closes : {S : Type 0} → List (Done P E) → Ended E S → Ended E S → Type 0
  Closes settled (raised e t) x = x ≡ raised e t
  Closes settled (finished t) (finished u) = (u ≡ t) × (any has_failed settled ≡ false)
  Closes settled (finished t) (raised e u) = (u ≡ t) × FirstFailure settled e

  pub deliver-in_turn :
      {S : Type 0} (f : String → P → S → Ended E S) (results : List (Result P)) (s : S)
      → deliver f results s ≡ in_turn f results s
  unfolding deliver
  deliver-in_turn f [] s = refl
  deliver-in_turn {S = S} f (r ∷ results) s =
      after (f r.key r.payload s) (λ t. deliver-in_turn f results t)
    where
      after :
          (x : Ended E S)
          → ((t : S) → deliver f results t ≡ in_turn f results t)
          → (elim x [ finished t ↦ deliver f results t | raised e t ↦ raised e t ])
            ≡ (elim x [ finished t ↦ in_turn f results t | raised e t ↦ raised e t ])
      after (finished t) ih = ih t
      after (raised e t) ih = refl

  pub in_turn-append :
      {S : Type 0} (f : String → P → S → Ended E S) (xs ys : List (Result P)) (s : S)
      → in_turn f (xs ++ ys) s ≡ then_run (in_turn f xs s) (λ t. in_turn f ys t)
  in_turn-append f [] ys s = refl
  in_turn-append {S = S} f (r ∷ xs) ys s =
      after (f r.key r.payload s) (λ t. in_turn-append f xs ys t)
    where
      after :
          (x : Ended E S)
          → ((t : S) → in_turn f (xs ++ ys) t ≡ then_run (in_turn f xs t) (λ u. in_turn f ys u))
          → (elim x [ finished t ↦ in_turn f (xs ++ ys) t | raised e t ↦ raised e t ])
            ≡ then_run
                (elim x [ finished t ↦ in_turn f xs t | raised e t ↦ raised e t ])
                (λ u. in_turn f ys u)
      after (finished t) ih = ih t
      after (raised e t) ih = refl

  pub pending-drained : (rounds : List (List (Task P E))) → pending_of rounds ≡ all_drained rounds
  pending-drained [] = refl
  pending-drained (round ∷ later) = ap (λ z. map drained round ++ z) (pending-drained later)

  pub count-results_of :
      (p : Result P → Bool) (done : List (Done P E))
      → count p (results_of done) ≡ count (produces p) done
  count-results_of p [] = refl
  count-results_of p (d ∷ done) = at d.ended (count-results_of p done)
    where
      at :
          (o : TaskOutcome P E)
          → count p (results_of done) ≡ count (produces p) done
          → count p (add_result d o (results_of done))
            ≡ (if is_result p d o then suc (count (produces p) done) else count (produces p) done)
      at (result x) e = ground (arith, e)
      at (failure x) e = e
      at cancelled e = e

  pub no_failure : (done : List (Done P E)) → failures_of done ≡ [] → any has_failed done ≡ false
  no_failure [] e = refl
  no_failure (d ∷ done) e = at d.ended e (no_failure done)
    where
      at :
          (o : TaskOutcome P E)
          → add_failure d o (failures_of done) ≡ []
          → (failures_of done ≡ [] → any has_failed done ≡ false)
          → (is_failure o || any has_failed done) ≡ false
      at (result x) e next = next e
      at (failure x) e next = cc
      at cancelled e next = next e

  pub some_failure :
      (done : List (Done P E)) (f : ℕ × E) (rest : List (ℕ × E))
      → failures_of done ≡ f ∷ rest
      → any has_failed done ≡ true
  some_failure [] f rest e = cc
  some_failure (d ∷ done) f rest e = at d.ended e (some_failure done f rest)
    where
      at :
          (o : TaskOutcome P E)
          → add_failure d o (failures_of done) ≡ f ∷ rest
          → (failures_of done ≡ f ∷ rest → any has_failed done ≡ true)
          → (is_failure o || any has_failed done) ≡ true
      at (result x) e next = next e
      at (failure x) e next = refl
      at cancelled e next = next e

  pub failures_of-append :
      (xs ys : List (Done P E)) → failures_of (xs ++ ys) ≡ failures_of xs ++ failures_of ys
  failures_of-append [] ys = refl
  failures_of-append (x ∷ xs) ys = at x.ended (failures_of-append xs ys)
    where
      at :
          (o : TaskOutcome P E)
          → failures_of (xs ++ ys) ≡ failures_of xs ++ failures_of ys
          → add_failure x o (failures_of (xs ++ ys))
            ≡ add_failure x o (failures_of xs) ++ failures_of ys
      at (failure p) e = ap (λ z. (x.at, p) ∷ z) e
      at (result p) e = e
      at cancelled e = e

  -- The failures are those of the tasks that failed.
  failure-task :
      (done : List (Done P E)) (i : ℕ) (e : E)
      → In (i, e) (failures_of done)
      → (d : Done P E) × (In d done × ((d.ended ≡ failure e) × (d.at ≡ i)))
  failure-task [] i e m = elim m [ ]
  failure-task (d ∷ done) i e m = at d.ended refl m (failure-task done i e)
    where
      later :
          ((x : Done P E) × (In x done × ((x.ended ≡ failure e) × (x.at ≡ i))))
          → (x : Done P E) × (In x (d ∷ done) × ((x.ended ≡ failure e) × (x.at ≡ i)))
      later (x, (k, q)) = (x, (inr k, q))

      at :
          (o : TaskOutcome P E)
          → d.ended ≡ o
          → In (i, e) (add_failure d o (failures_of done))
          → (In (i, e) (failures_of done)
              → (x : Done P E) × (In x done × ((x.ended ≡ failure e) × (x.at ≡ i))))
          → (x : Done P E) × (In x (d ∷ done) × ((x.ended ≡ failure e) × (x.at ≡ i)))
      at (result x) q k next = later (next k)
      at cancelled q k next = later (next k)
      at (failure x) q (inr k) next = later (next k)
      at (failure x) q (inl k) next =
          (d, (inl refl, (q ∙ ap (λ z. failure z.1) (sym k), ap (λ z. z.0) (sym k))))

  least-task :
      (done : List (Done P E)) (i : ℕ)
      → All (λ f. i ≤ f.0) (failures_of done)
      → All (λ (x : Done P E). (not (has_failed x) || leb i x.at) ≡ true) done
  least-task [] i a = tt
  least-task (d ∷ done) i a = at d.ended a (least-task done i)
    where
      at :
          (o : TaskOutcome P E)
          → All (λ f. i ≤ f.0) (add_failure d o (failures_of done))
          → (All (λ f. i ≤ f.0) (failures_of done)
              → All (λ (x : Done P E). (not (has_failed x) || leb i x.at) ≡ true) done)
          → ((not (is_failure o) || leb i d.at) ≡ true)
            × All (λ (x : Done P E). (not (has_failed x) || leb i x.at) ≡ true) done
      at (result x) a next = (refl, next a)
      at cancelled a next = (refl, next a)
      at (failure x) a next = (ground (arith, a.0), next a.1)

-- One of the failures, with the least index.
abbrev pub Least : {E : Type 0} → ℕ × E → List (ℕ × E) → Type 0
Least best failures = In best failures × All (λ g. best.0 ≤ g.0) failures

pick-Least :
    {E : Type 0} (f best : ℕ × E) (rest : List (ℕ × E)) (b : Bool)
    → leb f.0 best.0 ≡ b
    → Least best rest
    → Least (if b then f else best) (f ∷ rest)
pick-Least f best rest true e (m, least) = (
  inl refl,
  (omega arith, All-imp {P = λ g. best.0 ≤ g.0} rest (λ g h. ground (arith, e, h)) least),
)
pick-Least f best rest false e (m, least) = (inr m, (ground (arith, e), least))

pub first_failure-Least :
    {E : Type 0} (f : ℕ × E) (rest : List (ℕ × E)) → Least (first_failure f rest) (f ∷ rest)
unfolding first_failure
first_failure-Least f [] = (inl refl, (omega arith, tt))
first_failure-Least f (g ∷ rest) =
    pick-Least f (first_failure g rest) (g ∷ rest) (leb f.0 (first_failure g rest).0) refl
      (first_failure-Least g rest)

module _ {P E : Type 0} where
  pub FirstFailure-of :
      (settled : List (Done P E)) (best : ℕ × E)
      → Least best (failures_of settled)
      → FirstFailure settled best.1
  FirstFailure-of settled best (m, least) =
      let (d, (there, (f, at))) = failure-task settled best.0 best.1 m in
      (
        d,
        (
          there,
          (
            f,
            subst (λ i. All (λ (x : Done P E). (not (has_failed x) || leb i x.at) ≡ true) settled)
                (sym at) (least-task settled best.0 least),
          ),
        ),
      )

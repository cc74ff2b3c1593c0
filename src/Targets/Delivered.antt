-- ===== src/Targets/Delivered.antt =====
-- What the caller of run_target_calls, app/batch/steps/target_progress.py, is told of its targets.
use stockapp.Prelude.{
  ℕ, ◌≡◌, refl, sym, ap, ◌∙◌, subst, String, Bool, true, false, not, ◌||◌, List, [], ◌∷◌, ◌++◌, map,
  arith, leb, any, count, count-append, sort_by-count, All, All-append, In, inr,
}
use stockapp.Targets.Calls.{
  Task, Done, Result, Ended, finished, raised, then_run, first_failure, own, results_of,
  failures_of, pending_of, by_index, run_target_calls,
}
use stockapp.Targets.Settled.{
  has_failed, produces, all_drained, settle, in_turn, Closes, deliver-in_turn, in_turn-append,
  pending-drained, count-results_of, no_failure, some_failure, failures_of-append, Least,
  first_failure-Least, FirstFailure-of,
}

module _ {P E S : Type 0} where
  -- Tasks that did not fail, before the others.
  prepend-Closes :
      (done rest : List (Done P E)) (y x : Ended E S)
      → any has_failed done ≡ false
      → Closes rest y x
      → Closes (done ++ rest) y x
  prepend-Closes done rest (raised e t) x h c = c
  prepend-Closes done rest (finished t) (finished u) h (q, n) = (q, quiet done h)
    where
      quiet :
          (xs : List (Done P E)) → any has_failed xs ≡ false → any has_failed (xs ++ rest) ≡ false
      quiet [] h = n
      quiet (d ∷ xs) h = ground (arith, h, quiet xs (ground (arith, h)))
  prepend-Closes done rest (finished t) (raised e u) h (q, (d, (m, (f, least)))) =
      (q, (d, (after done, (f, All-append _ done rest (never done h) least))))
    where
      after : (xs : List (Done P E)) → In d (xs ++ rest)
      after [] = m
      after (x ∷ xs) = inr (after xs)

      never :
          (xs : List (Done P E))
          → any has_failed xs ≡ false
          → All (λ (x : Done P E). (not (has_failed x) || leb d.at x.at) ≡ true) xs
      never [] h = tt
      never (x ∷ xs) h = (ground (arith, h), never xs (ground (arith, h)))

module _ {P E S : Type 0} (on_result : String → P → S → Ended E S) (round : List (Task P E))
    (later : List (List (Task P E))) (s : S) where
  abbrev done : List (Done P E)
  done = map own round

  -- How a run over the waits, in the state `t`, may end.
  abbrev RunEnds : List (List (Task P E)) → S → Ended E S → Type 0
  RunEnds rounds t x =
      (results : List (Result P)) × ((p : Result P → Bool)
        → count p results ≡ count (produces p) (settle rounds))
      × Closes (settle rounds) (in_turn on_result results t) x

  sorted-count :
      (p : Result P → Bool) (found : List (Result P)) → count p (by_index found) ≡ count p found
  sorted-count p found = sort_by-count p (λ a b. leb a.at b.at) found

  clean :
      any has_failed done ≡ false
      → (x : Ended E S) → in_turn on_result (by_index (results_of done)) s ≡ x
      → ((t : S)
          → (results : List (Result P)) × ((p : Result P → Bool)
              → count p results ≡ count (produces p) (settle later))
            × Closes
                (settle later)
                (in_turn on_result results t)
                (run_target_calls on_result later t))
      → RunEnds (round ∷ later) s (then_run x (λ t. run_target_calls on_result later t))
  clean quiet (finished t) q next =
      let (results, told, closes) = next t in
      (
        by_index (results_of done) ++ results,
        λ p. rw quiet (
            omega (
              arith,
              count-append p (by_index (results_of done)) results,
              sorted-count p (results_of done),
              count-results_of p done,
              told p,
              count-append (produces p) done (settle later),
            )),
        rw quiet (
            subst (λ y. Closes (done ++ settle later) y (run_target_calls on_result later t))
              (sym (
                in_turn-append on_result (by_index (results_of done)) results s
                ∙ ap (λ y. then_run y (λ u. in_turn on_result results u)) q))
              (prepend-Closes done (settle later) (in_turn on_result results t)
                (run_target_calls on_result later t) quiet closes)),
      )
  clean quiet (raised e t) q next =
      let (results, told, closes) = next s in
      (
        by_index (results_of done) ++ results,
        λ p. rw quiet (
            omega (
              arith,
              count-append p (by_index (results_of done)) results,
              sorted-count p (results_of done),
              count-results_of p done,
              told p,
              count-append (produces p) done (settle later),
            )),
        subst (λ y. Closes (settle (round ∷ later)) y (raised e t))
            (sym (
              in_turn-append on_result (by_index (results_of done)) results s
              ∙ ap (λ y. then_run y (λ u. in_turn on_result results u)) q))
            refl,
      )

  abbrev found : List (Result P)
  found = results_of done ++ results_of (pending_of later)

  drained_count :
      any has_failed done ≡ true
      → (p : Result P → Bool)
      → count p (by_index found) ≡ count (produces p) (settle (round ∷ later))
  drained_count failing p = rw failing (
      omega (
        arith,
        sorted-count p found,
        count-append p (results_of done) (results_of (pending_of later)),
        count-results_of p done,
        ap (λ z. count p (results_of z)) (pending-drained later),
        count-results_of p (all_drained later),
        count-append (produces p) done (all_drained later),
      ))

  failing_end :
      (f : ℕ × E) (rest : List (ℕ × E))
      → failures_of done ≡ f ∷ rest
      → (x : Ended E S) → in_turn on_result (by_index found) s ≡ x
      → RunEnds
          (round ∷ later)
          s
          (then_run x (λ t. raised (first_failure f (rest ++ failures_of (pending_of later))).1 t))
  failing_end f rest e (raised k t) q =
      let failing = some_failure done f rest e in
      (
        by_index found,
        drained_count failing,
        subst (λ y. Closes (settle (round ∷ later)) y (raised k t)) (sym q) refl,
      )
  failing_end f rest e (finished t) q =
      let failing = some_failure done f rest e in
      let first = first_failure f (rest ++ failures_of (pending_of later)) in
      let all : failures_of (done ++ all_drained later)
          ≡ f ∷ (rest ++ failures_of (pending_of later)) =
        failures_of-append done (all_drained later)
        ∙ (ap (λ z. z ++ failures_of (all_drained later)) e
            ∙ ap (λ z. f ∷ (rest ++ failures_of z)) (sym (pending-drained later))) in
      (
        by_index found,
        drained_count failing,
        subst (λ y. Closes (settle (round ∷ later)) y (raised first.1 t)) (sym q)
            (
              refl,
              rw failing (
                  FirstFailure-of (done ++ all_drained later) first (
                    subst (Least first) (sym all)
                      (first_failure-Least f (rest ++ failures_of (pending_of later))))),
            ),
      )

  ends_by_failures :
      (failures : List (ℕ × E))
      → failures_of done ≡ failures
      → ((t : S)
          → (results : List (Result P)) × ((p : Result P → Bool)
              → count p results ≡ count (produces p) (settle later))
            × Closes
                (settle later)
                (in_turn on_result results t)
                (run_target_calls on_result later t))
      → RunEnds (round ∷ later) s (run_target_calls on_result (round ∷ later) s)
  unfolding run_target_calls
  ends_by_failures [] e next =
      let sorted = by_index (results_of done) in
      rw (e, run_target_calls)
        (rw (deliver-in_turn on_result sorted s)
          (clean (no_failure done e) (in_turn on_result sorted s) refl next))
  ends_by_failures (f ∷ rest) e next =
      rw (e, run_target_calls)
        (rw (deliver-in_turn on_result (by_index found) s)
          (failing_end f rest e (in_turn on_result (by_index found) s) refl))

module _ {P E S : Type 0} where
  -- However the event loop groups the tasks into waits, and whatever the callback does, raising
  -- included, it is told in turn, until it raises, of a list that holds every result as often as it
  -- was produced, those of the tasks that were cancelled and finished all the same included. The run
  -- then ends as it did: with the exception of the callback; or, if it never raised, without a
  -- failure where no task failed, and otherwise with the failure of the least index.
  pub run-Delivered :
      (on_result : String → P → S → Ended E S) (rounds : List (List (Task P E))) (s : S)
      → (results : List (Result P)) × ((p : Result P → Bool)
          → count p results ≡ count (produces p) (settle rounds))
        × Closes (settle rounds) (in_turn on_result results s) (run_target_calls on_result rounds s)
  unfolding run_target_calls
  run-Delivered on_result [] s = ([], λ p. refl, (refl, refl))
  run-Delivered on_result (round ∷ later) s =
      ends_by_failures on_result round later s (failures_of (map own round)) refl
        (run-Delivered on_result later)

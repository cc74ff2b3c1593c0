-- ===== src/Llm/CallRetries/Verdicts.antt =====
-- How often a model call of app/core/llm.py is issued, and what its caller is told in the end.
use stockapp.Prelude.{
  ℕ, zero, suc, ◌+◌, ◌-◌, ◌≤◌, ◌<◌, ◌≡◌, refl, Bool, true, false, arith, ltb, ◌==◌, if◌then◌else◌,
  Bool-cases, Option-cases, inl, inr, Option, none, some, max, sym, ap, ◌∙◌,
}
use stockapp.Llm.CallRetries.{
  is_transient_provider_error, is_retryable_provider_error, Answer, Verdict, judge, Run, settle,
  attempts, invoke_with_call_retries,
}

-- The call failed for a reason of the provider's own that clears within seconds.
abbrev pub is_blip : Answer → Bool
is_blip (Answer.failed chain) = is_transient_provider_error chain
is_blip _ = false

-- What a loop that starts at `attempt` and may use `left` attempts has done: the last answer, and
-- no other, settled the verdict, the others were blips outside the exhausted mode.
record Served (exhausted : Bool) (answers : ℕ → Answer) (attempt left : ℕ) (r : Run) : Type 0 where
  pub at_least : 1 ≤ r.calls
  pub at_most : r.calls ≤ left
  pub judged : judge exhausted (r.calls == left) (answers (attempt + r.calls - 1)) ≡ some r.verdict
  pub blips :
      (k : ℕ) → k + 1 < r.calls → (is_blip (answers (attempt + k)) ≡ true) × (exhausted ≡ false)

judge-none :
    (exhausted is_last : Bool) (a : Answer)
    → judge exhausted is_last a ≡ none
    → (is_blip a ≡ true) × (exhausted ≡ false) × (is_last ≡ false)
unfolding judge
judge-none exhausted is_last (Answer.replied r) h = ground (arith, h)
judge-none exhausted is_last Answer.timed_out h = ground (arith, h)
judge-none exhausted is_last (Answer.failed chain) h = ground (arith, h)

module _ (exhausted : Bool) (answers : ℕ → Answer) where
  same_judgement :
      (b c : Bool) (i j : ℕ) (o : Option Verdict)
      → b ≡ c
      → i ≡ j
      → judge exhausted b (answers i) ≡ o
      → judge exhausted c (answers j) ≡ o
  same_judgement b c i j o e q h =
      ap (λ (z : Bool). judge exhausted z (answers j)) (sym e)
      ∙ ap (λ (z : ℕ). judge exhausted b (answers z)) (sym q)
      ∙ h

  settled :
      (left attempt slot : ℕ) (rest : Run) (v : Verdict)
      → judge exhausted (left == 0) (answers attempt) ≡ some v
      → Served exhausted answers attempt (suc left) (settle slot rest (some v))
  unfolding settle
  settled left attempt slot rest v h = record {
    at_least = omega arith;
    at_most = omega arith;
    judged =
        same_judgement (left == 0) (1 == suc left) attempt (attempt + 1 - 1) _ (ground arith)
          (omega arith) h;
    blips = λ k few. ground (arith, few);
  }

  issued_again :
      (left attempt slot : ℕ) (rest : Run)
      → judge exhausted (left == 0) (answers attempt) ≡ none
      → Served exhausted answers (suc attempt) left rest
      → Served exhausted answers attempt (suc left) (settle slot rest none)
  unfolding settle
  issued_again left attempt slot rest h s = record {
    at_least = omega (arith, s.at_least);
    at_most = omega (arith, s.at_most);
    judged =
        same_judgement (rest.calls == left) (suc rest.calls == suc left)
          (suc attempt + rest.calls - 1) (attempt + suc rest.calls - 1) _ (ground arith)
          (omega (arith, s.at_least)) s.judged;
    blips = λ k few. earlier k few;
  }
    where
      earlier :
          (k : ℕ)
          → k + 1 < suc rest.calls
          → (is_blip (answers (attempt + k)) ≡ true) × (exhausted ≡ false)
      earlier zero few =
          let (blip, kept, _) = judge-none exhausted (left == 0) (answers attempt) h in
          let here : attempt + 0 ≡ attempt = omega arith in
          (ap (λ (z : ℕ). is_blip (answers z)) here ∙ blip, kept)
      earlier (suc k) few =
          let (blip, kept) = s.blips k (omega (arith, few)) in
          let there : attempt + suc k ≡ suc attempt + k = omega arith in
          (ap (λ (z : ℕ). is_blip (answers z)) there ∙ blip, kept)

  attempts-Served :
      (left attempt : ℕ)
      → Served exhausted answers attempt (suc left) (attempts exhausted answers attempt (suc left))
  unfolding attempts
  attempts-Served zero attempt = elim (Option-cases (judge exhausted true (answers attempt))) [
    | inl h ↦ let last = (judge-none exhausted true (answers attempt) h).2 in ground (arith, last)
    | inr (v, h) ↦ rw h (settled 0 attempt _ (attempts exhausted answers (suc attempt) 0) v h)
  ]
  attempts-Served (suc left) attempt =
      elim (Option-cases (judge exhausted (suc left == 0) (answers attempt))) [
        | inl h ↦ rw h (issued_again (suc left) attempt _ _ h (attempts-Served left (suc attempt)))
        | inr (v, h) ↦
            rw h (
              settled (suc left) attempt _ (attempts exhausted answers (suc attempt) (suc left)) v
                h)
      ]

  -- Each call but the first claims a slot of the rate limiter.
  attempts-acquired :
      (left attempt : ℕ)
      → 0 < attempt
      → (attempts exhausted answers attempt (suc left)).acquired + (if ltb 1 attempt then 0 else 1)
        ≡ (attempts exhausted answers attempt (suc left)).calls
  unfolding attempts settle
  attempts-acquired zero attempt pos =
      elim (Option-cases (judge exhausted true (answers attempt))) [
        | inl h ↦
            let last = (judge-none exhausted true (answers attempt) h).2 in ground (arith, last)
        | inr (v, h) ↦ rw h (ground (arith, pos))
      ]
  attempts-acquired (suc left) attempt pos =
      let rest = attempts-acquired left (suc attempt) (omega arith) in
      elim (Option-cases (judge exhausted (suc left == 0) (answers attempt))) [
        | inl h ↦ rw h (ground (arith, pos, rest))
        | inr (v, h) ↦ rw h (ground (arith, pos))
      ]

  -- A model call is issued at least once and at most as often as configured, with one slot of the
  -- rate limiter for each issue after the caller's own. The answer to the last issue decides what
  -- is returned or raised, by the branches of one attempt; each answer before it was a transient
  -- provider failure, outside the exhausted mode.
  pub invoke_with_call_retries_lem :
      (max_attempts : ℕ)
      → (1 ≤ (invoke_with_call_retries max_attempts exhausted answers).calls)
        × ((invoke_with_call_retries max_attempts exhausted answers).calls ≤ max 1 max_attempts)
        × ((invoke_with_call_retries max_attempts exhausted answers).acquired + 1
            ≡ (invoke_with_call_retries max_attempts exhausted answers).calls)
        × (judge exhausted
              ((invoke_with_call_retries max_attempts exhausted answers).calls
                == max 1 max_attempts)
              (answers (invoke_with_call_retries max_attempts exhausted answers).calls)
            ≡ some (invoke_with_call_retries max_attempts exhausted answers).verdict)
        × ((k : ℕ)
            → k + 1 < (invoke_with_call_retries max_attempts exhausted answers).calls
            → (is_blip (answers (k + 1)) ≡ true) × (exhausted ≡ false))
  unfolding invoke_with_call_retries
  invoke_with_call_retries_lem max_attempts =
      let left = max 1 max_attempts - 1 in
      let positive : max 1 max_attempts ≡ suc left = omega arith in rw positive (all_parts left)
    where
      all_parts :
          (left : ℕ)
          → (1 ≤ (attempts exhausted answers 1 (suc left)).calls)
            × ((attempts exhausted answers 1 (suc left)).calls ≤ suc left)
            × ((attempts exhausted answers 1 (suc left)).acquired + 1
                ≡ (attempts exhausted answers 1 (suc left)).calls)
            × (judge exhausted
                  ((attempts exhausted answers 1 (suc left)).calls == suc left)
                  (answers (attempts exhausted answers 1 (suc left)).calls)
                ≡ some (attempts exhausted answers 1 (suc left)).verdict)
            × ((k : ℕ)
                → k + 1 < (attempts exhausted answers 1 (suc left)).calls
                → (is_blip (answers (k + 1)) ≡ true) × (exhausted ≡ false))
      all_parts left =
          let r = attempts exhausted answers 1 (suc left) in
          let s = attempts-Served left 1 in
          let at_last =
            same_judgement (r.calls == suc left) (r.calls == suc left) (1 + r.calls - 1) r.calls _
              refl (omega arith) s.judged in
          let blips : (k : ℕ)
              → k + 1 < r.calls
              → (is_blip (answers (k + 1)) ≡ true) × (exhausted ≡ false) =
            λ k few.
              let (blip, kept) = s.blips k few in
              let moved : k + 1 ≡ 1 + k = omega arith in
              (ap (λ (z : ℕ). is_blip (answers z)) moved ∙ blip, kept) in
          (s.at_least, s.at_most, attempts-acquired left 1 (omega arith), at_last, blips)

-- What the worker or the client would try once more.
abbrev pub is_retried : Verdict → Bool
is_retried Verdict.llm_timeout = true
is_retried (Verdict.retryable _) = true
is_retried _ = false

judge-exhausted :
    (is_last : Bool) (a : Answer)
    → (v : Verdict) × (judge true is_last a ≡ some v) × (is_retried v ≡ false)
unfolding judge
judge-exhausted is_last (Answer.replied r) = (Verdict.reply r, refl, refl)
judge-exhausted is_last Answer.timed_out = (Verdict.retries_exhausted, refl, refl)
judge-exhausted is_last (Answer.failed chain) =
    elim (Bool-cases (is_retryable_provider_error chain)) [
      | inl e ↦ (Verdict.retries_exhausted, rw e refl, refl)
      | inr e ↦ (Verdict.reraised chain, rw e refl, refl)
    ]

-- In the exhausted mode a model call is issued once, whatever the provider answers, and no error
-- that asks for another try is raised.
pub invoke-exhausted :
    (max_attempts : ℕ) (answers : ℕ → Answer)
    → ((invoke_with_call_retries max_attempts true answers).calls ≡ 1)
      × (is_retried (invoke_with_call_retries max_attempts true answers).verdict ≡ false)
invoke-exhausted max_attempts answers =
    let r = invoke_with_call_retries max_attempts true answers in
    let (least, most, _, judged, blips) = invoke_with_call_retries_lem true answers max_attempts in
    let (v, is_v, final) = judge-exhausted (r.calls == max 1 max_attempts) (answers r.calls) in
    let same : v ≡ r.verdict = ground (arith, is_v, judged) in
    let once : r.calls ≡ 1 = elim (Bool-cases (ltb 1 r.calls)) [
      | inl more ↦ let impossible = (blips 0 (ground (arith, more))).1 in ground (arith, impossible)
      | inr few ↦ ground (arith, few, least)
    ] in
    (once, rw⁻¹ same final)

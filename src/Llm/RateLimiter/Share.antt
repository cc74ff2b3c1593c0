-- ===== src/Llm/RateLimiter/Share.antt =====
-- How many requests the limiter of app/core/llm.py lets through, and how soon.
use stockapp.Prelude.{
  count, count-append, ℕ, ◌+◌, ◌≤◌, ◌<◌, ◌≡◌, refl, sym, ap, ◌∙◌, Bool, ◌&&◌, List, [], ◌∷◌, ◌++◌,
  arith, leb, ltb, length, length-append, All, All-append, All-imp, ltb→lt, Bool-cases, inl, inr,
}
use mathlib.Core.List.{append_assoc}
use native.Mathlib.Nat.{le_refl}
use stockapp.Llm.RateLimiter.{
  Limiter, fresh, drop_expired, acquire_round, wait_seconds, acquire_rounds,
}

-- Readings of a monotonic clock, none before `from`.
abbrev pub Monotonic : ℕ → List ℕ → Type 0
Monotonic from [] = Unit
Monotonic from (t ∷ ts) = (from ≤ t) × Monotonic t ts

-- from <= t < from + window
abbrev pub in_window : ℕ → ℕ → ℕ → Bool
in_window window from t = leb from t && ltb t (from + window)

module _ (requests window : ℕ) where
  -- What has been dropped is out of every window that reaches the present, nothing lies in the
  -- future, and no window holds more than its share.
  record Inv (now : ℕ) (l : Limiter) : Type 0 where
    dropped : List ℕ
    split : l.granted ≡ dropped ++ l.request_times
    expired : All (λ t. t + window ≤ now) dropped
    past : All (λ t. t ≤ now) l.granted
    capped : length l.request_times ≤ requests
    share : (from : ℕ) → count (in_window window from) l.granted ≤ requests

  -- The timestamps that a round drops.
  drop_expired-split :
      (now : ℕ) (ts : List ℕ)
      → (gone : List ℕ) × (ts ≡ gone ++ drop_expired window now ts)
        × All (λ t. t + window ≤ now) gone
  unfolding drop_expired
  drop_expired-split now [] = ([], refl, tt)
  drop_expired-split now (t ∷ ts) = elim (Bool-cases (leb (t + window) now)) [
    | inl e ↦
        let (gone, q, all) = drop_expired-split now ts in
        (t ∷ gone, rw e (ap (λ (z : List ℕ). t ∷ z) q), (ground (arith, e), all))
    | inr e ↦ ([], rw e refl, tt)
  ]

  count-le-length : (p : ℕ → Bool) (ts : List ℕ) → count p ts ≤ length ts
  count-le-length p [] = omega arith
  count-le-length p (t ∷ ts) = ground (arith, count-le-length p ts)

  -- A window that reaches the present holds nothing that has expired.
  count_expired :
      (now from : ℕ) (ts : List ℕ)
      → now < from + window
      → All (λ t. t + window ≤ now) ts
      → count (in_window window from) ts ≡ 0
  count_expired now from [] h a = refl
  count_expired now from (t ∷ ts) h a = ground (arith, a.0, count_expired now from ts h a.1)

  -- The history after the drop: the dropped timestamps and those still counted.
  round_split :
      (now : ℕ) (l : Limiter) (dropped : List ℕ)
      → l.granted ≡ dropped ++ l.request_times
      → All (λ t. t + window ≤ now) dropped
      → (gone : List ℕ) × (l.granted ≡ gone ++ drop_expired window now l.request_times)
        × All (λ t. t + window ≤ now) gone
  round_split now l dropped q a =
      let (gone, e, all) = drop_expired-split now l.request_times in
      (
        dropped ++ gone,
        q ∙ ap (λ (z : List ℕ). dropped ++ z) e ∙ sym (append_assoc dropped gone _),
        All-append _ dropped gone a all,
      )

  drop_expired-le : (now : ℕ) (ts : List ℕ) → length (drop_expired window now ts) ≤ length ts
  unfolding drop_expired
  drop_expired-le now [] = omega arith
  drop_expired-le now (t ∷ ts) = ground (arith, drop_expired-le now ts)

  share_after :
      (now from : ℕ) (gone live granted : List ℕ)
      → granted ≡ gone ++ live
      → All (λ t. t + window ≤ now) gone
      → length live < requests
      → count (in_window window from) granted ≤ requests
      → count (in_window window from) (granted ++ now ∷ []) ≤ requests
  share_after now from gone live granted q a room old =
      elim (Bool-cases (in_window window from now)) [
        | inl now_in ↦
            let none_gone = count_expired now from gone (ground (arith, now_in)) a in
            let split =
              ap (count (in_window window from)) q
              ∙ count-append (in_window window from) gone live in
            ground (
              arith,
              now_in,
              split,
              none_gone,
              count-le-length (in_window window from) live,
              count-append (in_window window from) granted (now ∷ []),
            )
        | inr now_out ↦
            ground (arith, now_out, old, count-append (in_window window from) granted (now ∷ []))
      ]

  round-Inv :
      (before now : ℕ) (l : Limiter)
      → before ≤ now
      → Inv before l
      → Inv now (acquire_round requests window l now)
  unfolding acquire_round
  round-Inv before now l le i =
      let (gone, q, a) =
        round_split now l i.dropped i.split (All-imp i.dropped (λ t h. omega arith) i.expired) in
      let live = drop_expired window now l.request_times in
      let older : All (λ t. t ≤ now) l.granted = All-imp l.granted (λ t h. omega arith) i.past in
      elim (Bool-cases (ltb (length live) requests)) [
        | inl room ↦ rw room (record {
          dropped = gone;
          split = ap (λ (z : List ℕ). z ++ now ∷ []) q ∙ append_assoc gone live (now ∷ []);
          expired = a;
          past = All-append (λ t. t ≤ now) l.granted (now ∷ []) older (le_refl now, tt);
          capped = ground (arith, room, length-append live (now ∷ []));
          share = λ from.
              share_after now from gone live l.granted q a (ltb→lt (length live) requests room)
                (i.share from);
        })
        | inr full ↦ rw full (record {
          dropped = gone;
          split = q;
          expired = a;
          past = older;
          capped = omega (arith, i.capped, drop_expired-le now l.request_times);
          share = i.share;
        })
      ]

  rounds-Inv :
      (readings : List ℕ) (now : ℕ) (l : Limiter)
      → Monotonic now readings
      → Inv now l
      → (later : ℕ) × Inv later (acquire_rounds requests window l readings)
  unfolding acquire_rounds
  rounds-Inv [] now l m i = (now, i)
  rounds-Inv (t ∷ readings) now l m i =
      rounds-Inv readings t (acquire_round requests window l t) m.1 (round-Inv now t l m.0 i)

  -- Whatever the readings of a monotonic clock, no window of the configured length, wherever it
  -- starts, holds more than the configured number of requests that were let through.
  pub acquire-share :
      (readings : List ℕ) (from : ℕ)
      → Monotonic 0 readings
      → count (in_window window from) (acquire_rounds requests window fresh readings).granted
        ≤ requests
  acquire-share readings from m =
      let (later, i) = rounds-Inv readings 0 fresh m (record {
        dropped = [];
        split = refl;
        expired = tt;
        past = tt;
        capped = omega arith;
        share = λ from. omega arith;
      }) in
      i.share from

  drop_first :
      (later : ℕ) (live : List ℕ)
      → 0 < length live
      → wait_seconds window 0 live ≤ later
      → length (drop_expired window later live) < length live
  unfolding drop_expired wait_seconds
  drop_first later [] pos h = elim pos [ ]
  drop_first later (t ∷ ts) pos h = ground (arith, drop_expired-le later ts)

  wait-from :
      (now later : ℕ) (live : List ℕ)
      → now + wait_seconds window now live ≤ later
      → wait_seconds window 0 live ≤ later
  unfolding wait_seconds
  wait-from now later [] h = omega arith
  wait-from now later (t ∷ ts) h = omega arith

  -- A round that finds no slot has a timestamp to wait for, and a round after that wait lets the
  -- request through: every acquire takes two rounds at most if the sleeper sleeps long enough.
  pub acquire-two_rounds :
      (now later : ℕ) (l : Limiter)
      → 0 < requests
      → length l.request_times ≤ requests
      → requests ≤ length (drop_expired window now l.request_times)
      → now + wait_seconds window now (drop_expired window now l.request_times) ≤ later
      → (acquire_rounds requests window l (now ∷ later ∷ [])).granted ≡ l.granted ++ later ∷ []
  unfolding acquire_rounds acquire_round
  acquire-two_rounds now later l pos cap full wait =
      let live = drop_expired window now l.request_times in
      let shorter = drop_first later live (omega arith) (wait-from now later live wait) in
      ground (arith, full, cap, shorter, drop_expired-le now l.request_times)

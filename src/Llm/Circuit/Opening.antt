-- ===== src/Llm/Circuit/Opening.antt =====
-- When the circuit of app/core/llm.py is open, over every history of questions and verdicts.
use stockapp.Prelude.{
  ℕ, suc, ◌+◌, ◌-◌, ◌≤◌, ◌<◌, ◌≡◌, refl, Bool, true, false, ◌||◌, List, [], ◌∷◌, map, arith, ltb,
  is_some, Bool-cases, Option-cases, inl, inr, none, some, ap, ◌∙◌, any, ◌⊎◌, ◌↔◌, length,
}
use stockapp.Llm.Circuit.{
  Circuit, closed, is_cooling, allow_request, record_success, record_rejection, Event, react,
  history,
}

abbrev pub is_success : Event → Bool
is_success Event.succeeded = true
is_success _ = false

-- A rejection at `t` stands in the history and no success comes after it.
abbrev pub RejectedSince : ℕ → List Event → Type 0
RejectedSince t [] = ⊥
RejectedSince t (e ∷ events) =
    ((e ≡ Event.rejected t) × (any is_success events ≡ false)) ⊎ RejectedSince t events

module _ (threshold reset : ℕ) where
  react-opened :
      (c : Circuit) (e : Event) (t : ℕ)
      → (react threshold reset c e).opened_at ≡ some t
      → (e ≡ Event.rejected t) ⊎ ((c.opened_at ≡ some t) × (is_success e ≡ false))
  unfolding react allow_request record_success record_rejection
  react-opened c (Event.asked now) t h = elim (Option-cases c.opened_at) [
    | inl e ↦ inr (ground (arith, e, h), refl)
    | inr (o, e) ↦ elim (Bool-cases (is_cooling reset c.opened_at now)) [
      | inl cool ↦ inr (ground (arith, cool, e, h), refl)
      | inr warm ↦ ground (arith, warm, e, h)
    ]
  ]
  react-opened c Event.succeeded t h = ground (arith, h)
  react-opened c (Event.rejected now) t h =
      elim (Bool-cases (is_some c.opened_at || ltb (suc c.consecutive_rejections) threshold)) [
        | inl e ↦ inr (ground (arith, e, h), refl)
        | inr e ↦ let q : now ≡ t = ground (arith, e, h) in inl (ap Event.rejected q)
      ]

  opened-since :
      (events : List Event) (c : Circuit) (t : ℕ)
      → (history threshold reset c events).opened_at ≡ some t
      → ((c.opened_at ≡ some t) × (any is_success events ≡ false)) ⊎ RejectedSince t events
  unfolding history
  opened-since [] c t h = inl (h, refl)
  opened-since (e ∷ events) c t h = elim (opened-since events (react threshold reset c e) t h) [
    | inr since ↦ inr (inr since)
    | inl (still, none_later) ↦ elim (react-opened c e t still) [
      | inl is_it ↦ inr (inl (is_it, none_later))
      | inr (before, passed) ↦ inl (before, rw passed none_later)
    ]
  ]

  -- A request is refused only if, less than the reset time ago, a rejection came that no success
  -- has followed, whatever questions and verdicts the circuit has seen since it was built.
  pub refused-rejected :
      (events : List Event) (now : ℕ)
      → (allow_request threshold reset (history threshold reset closed events) now).0 ≡ false
      → (t : ℕ) × RejectedSince t events × (now < t + reset)
  unfolding allow_request
  refused-rejected events now h =
      elim (Option-cases (history threshold reset closed events).opened_at) [
        | inl q ↦ ground (arith, q, h)
        | inr (t, q) ↦ elim (opened-since events closed t q) [
          | inl (never, _) ↦ ground (arith, never)
          | inr since ↦ (t, since, ground (arith, q, h))
        ]
      ]

  opens-count :
      (times : List ℕ) (c : Circuit)
      → (is_some c.opened_at ≡ true → threshold ≤ c.consecutive_rejections)
      → (is_some c.opened_at ≡ false → c.consecutive_rejections < threshold)
      → (is_some (history threshold reset c (map Event.rejected times)).opened_at ≡ true)
        ↔ (threshold ≤ c.consecutive_rejections + length times)
  unfolding history react record_rejection
  opens-count [] c up down = ground (arith, up, down)
  opens-count (t ∷ times) c up down =
      let after = (record_rejection threshold c t).1 in
      let more : after.consecutive_rejections ≡ suc c.consecutive_rejections = ground (arith) in
      let rest =
        opens-count times after (λ h. ground (arith, h, up, more))
          (λ h. ground (arith, h, down, more)) in
      (λ h. omega (arith, rest.0 h, more), λ h. rest.1 (omega (arith, h, more)))

  -- With a positive threshold, rejections in a row open a circuit that has none exactly when there
  -- are as many of them as the threshold says.
  pub opens-threshold :
      (times : List ℕ)
      → 0 < threshold
      → (is_some (history threshold reset closed (map Event.rejected times)).opened_at ≡ true)
        ↔ (threshold ≤ length times)
  opens-threshold times pos =
      let counted = opens-count times closed (λ h. ground (arith, h)) (λ h. pos) in
      (λ h. omega (arith, counted.0 h), λ h. counted.1 (omega (arith, h)))

  asks_idle :
      (asks : List ℕ) (c : Circuit)
      → c.opened_at ≡ none
      → history threshold reset c (map Event.asked asks) ≡ c
  unfolding history react allow_request
  asks_idle [] c q = refl
  asks_idle (now ∷ asks) c q =
      let idle : react threshold reset c (Event.asked now) ≡ c = rw q refl in
      ap (λ (z : Circuit). history threshold reset z (map Event.asked asks)) idle
      ∙ asks_idle asks c q

  -- With a positive threshold, an open circuit whose reset time has passed admits a request, admits
  -- every further request until the first verdict, and opens again at a rejection.
  pub half_open-admits :
      (c : Circuit) (opened now : ℕ) (asks : List ℕ) (later verdict : ℕ)
      → 0 < threshold
      → c.opened_at ≡ some opened
      → opened + reset ≤ now
      → ((allow_request threshold reset c now).0 ≡ true)
        × ((allow_request threshold reset
              (history threshold reset c (Event.asked now ∷ map Event.asked asks))
              later).0
            ≡ true)
        × ((react threshold reset
              (history threshold reset c (Event.asked now ∷ map Event.asked asks))
              (Event.rejected verdict)).opened_at
            ≡ some verdict)
  unfolding history react allow_request record_rejection
  half_open-admits c opened now asks later verdict pos q passed =
      let probing : Circuit = record { consecutive_rejections = threshold - 1; opened_at = none } in
      let warm : ltb (now - opened) reset ≡ false = ground (arith, passed) in
      let opens : react threshold reset c (Event.asked now) ≡ probing =
        rw (react, allow_request, q, warm) refl in
      let idle : history threshold reset c (Event.asked now ∷ map Event.asked asks) ≡ probing =
        ap (λ (z : Circuit). history threshold reset z (map Event.asked asks)) opens
        ∙ asks_idle asks probing refl in
      (rw (q, warm) refl, rw idle refl, rw idle (ground (arith, pos)))

-- ===== src/Keys.antt =====
-- Sets of keys as lists without repetition: the target keys of app/batch/ai_retry and the step codes
-- of app/batch/orchestrators.
use stockapp.Prelude.{
  ℕ, ◌+◌, ◌≤◌, ◌≡◌, refl, Bool, true, false, List, [], ◌∷◌, ◌++◌, arith, ◌==◌, ==_iff, ==_refl,
  if◌then◌else◌, Bool-cases, inl, inr, In, count, any, ap, sym, subst,
}

abbrev pub member : ℕ → List ℕ → Bool
member k keys = any (λ j. j == k) keys

-- set(keys)
unfoldable pub distinct : List ℕ → List ℕ
distinct [] = []
distinct (k ∷ keys) = let rest = distinct keys in if member k rest then rest else k ∷ rest

pub member-In : (k : ℕ) (keys : List ℕ) → member k keys ≡ true → In k keys
member-In k [] h = ground (arith, h)
member-In k (j ∷ keys) h = elim (Bool-cases (j == k)) [
  | inl e ↦ inl (sym ((==_iff j k).0 e))
  | inr e ↦ inr (member-In k keys (ground (arith, e, h)))
]

pub In-member : (k : ℕ) (keys : List ℕ) → In k keys → member k keys ≡ true
In-member k [] m = elim m [ ]
In-member k (j ∷ keys) (inl e) = ground (arith, e)
In-member k (j ∷ keys) (inr m) = ground (arith, In-member k keys m)

abbrev pub NoRepeat : List ℕ → Type 0
NoRepeat [] = Unit
NoRepeat (k ∷ keys) = (member k keys ≡ false) × NoRepeat keys

pub distinct-NoRepeat : (keys : List ℕ) → NoRepeat (distinct keys)
unfolding distinct
distinct-NoRepeat [] = tt
distinct-NoRepeat (k ∷ keys) = elim (Bool-cases (member k (distinct keys))) [
  | inl e ↦ rw e (distinct-NoRepeat keys)
  | inr e ↦ rw e (e, distinct-NoRepeat keys)
]

pub In-distinct : (k : ℕ) (keys : List ℕ) → In k keys → In k (distinct keys)
unfolding distinct
In-distinct k [] m = m
In-distinct k (j ∷ keys) m = elim (Bool-cases (member j (distinct keys))) [
  | inl e ↦
      rw e (elim m [ inl q ↦ rw q (member-In j (distinct keys) e) | inr i ↦ In-distinct k keys i ])
  | inr e ↦ rw e (elim m [ inl q ↦ inl q | inr i ↦ inr (In-distinct k keys i) ])
]

pub distinct-In : (k : ℕ) (keys : List ℕ) → In k (distinct keys) → In k keys
unfolding distinct
distinct-In k [] m = m
distinct-In k (j ∷ keys) m = at_head (member j (distinct keys)) m (distinct-In k keys)
  where
    at_head :
        (b : Bool)
        → In k (if b then distinct keys else j ∷ distinct keys)
        → (In k (distinct keys) → In k keys)
        → In k (j ∷ keys)
    at_head true i f = inr (f i)
    at_head false (inl q) f = inl q
    at_head false (inr i) f = inr (f i)

-- The list without the first occurrence of the key.
drop_key : ℕ → List ℕ → List ℕ
drop_key k [] = []
drop_key k (j ∷ keys) = let rest = drop_key k keys in if j == k then keys else j ∷ rest

count-drop_key :
    (p : ℕ → Bool) (k : ℕ) (keys : List ℕ)
    → In k keys
    → count p keys ≡ count p (k ∷ []) + count p (drop_key k keys)
unfolding drop_key
count-drop_key p k [] m = elim m [ ]
count-drop_key p k (j ∷ keys) (inl q) =
    let e : (j == k) ≡ true = ground (arith, q) in let same = ap p q in rw e (ground (arith, same))
count-drop_key p k (j ∷ keys) (inr i) =
    let rest = count-drop_key p k keys i in
    elim (Bool-cases (j == k)) [
      | inl e ↦ let same = ap p ((==_iff j k).0 e) in rw e (ground (arith, same))
      | inr e ↦ rw e (ground (arith, rest))
    ]

In-drop_key : (k i : ℕ) (keys : List ℕ) → (i == k) ≡ false → In i keys → In i (drop_key k keys)
unfolding drop_key
In-drop_key k i [] d m = m
In-drop_key k i (j ∷ keys) d (inl q) =
    let e : (j == k) ≡ false = ground (arith, d, q) in rw e (inl q)
In-drop_key k i (j ∷ keys) d (inr m) =
    let rest = In-drop_key k i keys d m in
    elim (Bool-cases (j == k)) [ inl e ↦ rw e m | inr e ↦ rw e (inr rest) ]

member-other : (k i : ℕ) (keys : List ℕ) → member k keys ≡ false → In i keys → (i == k) ≡ false
member-other k i keys none_here m = elim (Bool-cases (i == k)) [
  | inl e ↦
      let here = subst (λ z. member z keys ≡ true) ((==_iff i k).0 e) (In-member i keys m) in
      ground (arith, here, none_here)
  | inr e ↦ e
]

-- Keys that all stand in another list are no more than there, whichever are counted.
pub NoRepeat-count-le :
    (p : ℕ → Bool) (keys others : List ℕ)
    → NoRepeat keys
    → ((k : ℕ) → In k keys → In k others)
    → count p keys ≤ count p others
NoRepeat-count-le p [] others n s = omega arith
NoRepeat-count-le p (k ∷ keys) others n s =
    let rest : count p keys ≤ count p (drop_key k others) =
      NoRepeat-count-le p keys (drop_key k others) n.1
        (λ i m. In-drop_key k i others (member-other k i keys n.0 m) (s i (inr m))) in
    ground (arith, rest, count-drop_key p k others (s k (inl refl)))

-- In a list without repetition a key does not stand before itself.
pub NoRepeat-before :
    (keys : List ℕ) (k : ℕ) (later : List ℕ) → NoRepeat (keys ++ k ∷ later) → member k keys ≡ false
NoRepeat-before [] k later n = refl
NoRepeat-before (j ∷ keys) k later n = elim (Bool-cases (j == k)) [
  | inl e ↦
      let q : j ≡ k = (==_iff j k).0 e in
      let here =
        subst (λ z. member z (keys ++ k ∷ later) ≡ true) (sym q) (member-middle keys k later) in
      ground (arith, here, n.0)
  | inr e ↦ ground (arith, e, NoRepeat-before keys k later n.1)
]
  where
    member-middle : (ks : List ℕ) (i : ℕ) (ls : List ℕ) → member i (ks ++ i ∷ ls) ≡ true
    member-middle [] i ls = ground (arith, ==_refl i)
    member-middle (h ∷ ks) i ls = ground (arith, member-middle ks i ls)

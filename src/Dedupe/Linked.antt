-- ===== src/Dedupe/Linked.antt =====
-- How the articles of app/batch/steps/dedupe_articles.py are linked.
use stockapp.Prelude.{
  ℕ, ◌≡◌, refl, sym, subst, true, false, some, List, [], ◌∷◌, ◌==◌, map, arith, inl, inr, is_some,
  Bool-cases, ==_refl, ==_iff,
}
use stockapp.Keys.{member, NoRepeat}
use stockapp.Dedupe.{
  RawArticle, unique_targets, content_by_key, content_of, holds_link, Group, group_of, Loop,
}

abbrev pub keys_of : List RawArticle → List ℕ
keys_of articles = map (λ (a : RawArticle). a.duplicate_key) articles

other_key :
    (k j : ℕ) (seen : List ℕ) → member k seen ≡ true → member j seen ≡ false → (j == k) ≡ false
other_key k j seen m u = elim (Bool-cases (j == k)) [
  | inl e ↦
      let here = subst (λ z. member z seen ≡ false) ((==_iff j k).0 e) u in ground (arith, m, here)
  | inr e ↦ e
]

-- The targets to fetch have each key once, and none that was seen.
pub unique_targets-Fresh :
    (seen : List ℕ) (articles : List RawArticle)
    → NoRepeat (keys_of (unique_targets seen articles))
      × ((k : ℕ) → member k seen ≡ true → member k (keys_of (unique_targets seen articles)) ≡ false)
unfolding unique_targets
unique_targets-Fresh seen [] = (tt, λ k m. refl)
unique_targets-Fresh seen (a ∷ articles) = elim (Bool-cases (member a.duplicate_key seen)) [
  | inl e ↦ rw e (unique_targets-Fresh seen articles)
  | inr e ↦
      let (once, new) = unique_targets-Fresh (a.duplicate_key ∷ seen) articles in
      rw e (
        (new a.duplicate_key (ground (arith, ==_refl a.duplicate_key)), once),
        λ k m. ground (arith, other_key k a.duplicate_key seen m e, new k (ground (arith, m))),
      )
]

module _ {C : Type 0} (fetch : RawArticle → C) where
  -- Each article's key is among the contents, unless it was seen before.
  pub fetched :
      (seen : List ℕ) (articles : List RawArticle) (k : ℕ)
      → member k (keys_of articles) ≡ true
      → member k seen ≡ false
      → is_some (content_of k (content_by_key fetch (unique_targets seen articles))) ≡ true
  unfolding unique_targets
  fetched seen [] k m u = cc
  fetched seen (a ∷ articles) k m u = elim (Bool-cases (a.duplicate_key == k)) [
    | inl q ↦
        let new : member a.duplicate_key seen ≡ false =
          subst (λ z. member z seen ≡ false) (sym ((==_iff a.duplicate_key k).0 q)) u in
        rw new (rw q refl)
    | inr q ↦
        let old = fetched seen articles k (ground (arith, m, q)) u in
        let rest =
          fetched (a.duplicate_key ∷ seen) articles k (ground (arith, m, q))
            (ground (arith, u, q)) in
        (elim (Bool-cases (member a.duplicate_key seen)) [
          | inl e ↦ rw e old
          | inr e ↦ rw e (rw q rest)
        ])
  ]

  -- An article is linked to the processed article of its market and key.
  abbrev pub IsLinked : Loop C → RawArticle → Type 0
  IsLinked st a =
      (g : Group) × ((group_of a st.groups ≡ some g)
        × (holds_link (a.raw_article_id, g.processed_id) st.tables.links ≡ true))

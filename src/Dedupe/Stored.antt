-- ===== src/Dedupe/Stored.antt =====
-- The processed articles that app/batch/steps/dedupe_articles.py stores for its groups.
use stockapp.Prelude.{
  ℕ, ◌<◌, ◌≡◌, refl, sym, ap, ◌∙◌, subst, false, Option, none, some, List, [], ◌∷◌, ◌++◌, map,
  arith, All, All-imp, All-append, In, inl, inr, Option-cases,
}
use stockapp.Keys.{member, NoRepeat}
use stockapp.Queue.Table.{find}
use stockapp.Queue.Rows.{find-hit, find-In}
use stockapp.Dedupe.{
  RawArticle, Processed, Tables, has_hash, content_of, insert_processed_article, Group, group_of,
  Loop, link, new_group, dedupe_article, dedupe_articles,
}

module _ {C : Type 0} where
  abbrev pub ids_of : List (Processed C) → List ℕ
  ids_of rows = map (λ (p : Processed C). p.processed_article_id) rows

  -- Ids are given out once.
  pub record IsKeyed (t : Tables C) : Type 0 where
    pub given : All (λ (p : Processed C). p.processed_article_id < t.next_id) t.processed
    pub once : NoRepeat (ids_of t.processed)

  -- A row of the date and the market, under the id and under the hash of an article.
  pub record IsRow (date market id : ℕ) (a : RawArticle) (p : Processed C) : Type 0 where
    pub same_date : p.business_date ≡ date
    pub same_market : p.market ≡ market
    pub same_id : p.processed_article_id ≡ id
    pub same_hash : p.hash ≡ a.dedupe_hash

  -- The row of a group is stored, under the hash of an article of the group.
  abbrev pub Backed : ℕ → List RawArticle → List (Processed C) → Group → Type 0
  Backed date whole rows g =
      (p : Processed C) × (a : RawArticle) × (In p rows
        × (IsRow date g.group_market g.processed_id a p
            × (In a whole × ((a.market_type ≡ g.group_market) × (a.duplicate_key ≡ g.group_key)))))

  pub record IsStored (date : ℕ) (whole : List RawArticle) (st : Loop C) : Type 0 where
    pub backed : All (Backed date whole st.tables.processed) st.groups
    pub keyed : IsKeyed st.tables

  In-more : (p q : Processed C) (rows : List (Processed C)) → In p rows → In p (rows ++ q ∷ [])
  In-more p q [] m = elim m [ ]
  In-more p q (x ∷ rows) (inl e) = inl e
  In-more p q (x ∷ rows) (inr m) = inr (In-more p q rows m)

  In-new : (q : Processed C) (rows : List (Processed C)) → In q (rows ++ q ∷ [])
  In-new q [] = inl refl
  In-new q (x ∷ rows) = inr (In-new q rows)

  NoRepeat-new :
      (q : Processed C) (rows : List (Processed C))
      → All (λ (p : Processed C). p.processed_article_id < q.processed_article_id) rows
      → NoRepeat (ids_of rows)
      → NoRepeat (ids_of (rows ++ q ∷ []))
  NoRepeat-new q [] a n = (refl, tt)
  NoRepeat-new q (x ∷ rows) a n = (apart rows n.0, NoRepeat-new q rows a.1 n.1)
    where
      apart :
          (later : List (Processed C))
          → member x.processed_article_id (ids_of later) ≡ false
          → member x.processed_article_id (ids_of (later ++ q ∷ [])) ≡ false
      apart [] h = ground (arith, a.0)
      apart (y ∷ later) h = ground (arith, h, apart later (ground (arith, h)))

  -- What an insert leaves: its row, and the rows that were there.
  pub record IsInserted (date : ℕ) (a : RawArticle) (t : Tables C) (x : Processed C × Tables C)
      : Type 0 where
    pub stored : In x.0 x.1.processed
    pub row : IsRow date a.market_type x.0.processed_article_id a x.0
    pub kept : (p : Processed C) → In p t.processed → In p x.1.processed
    pub keyed : IsKeyed x.1

  insert-IsInserted :
      (date : ℕ) (a : RawArticle) (c : C) (t : Tables C)
      → IsKeyed t
      → IsInserted date a t (insert_processed_article date a c t)
  unfolding insert_processed_article
  insert-IsInserted date a c t k = elim (Option-cases (find (has_hash date a) t.processed)) [
    | inr (p, e) ↦
        let hit = find-hit (has_hash date a) t.processed p e in
        rw (e, insert_processed_article)
          (record {
            stored = find-In (has_hash date a) t.processed p e;
            row = record {
              same_date = ground (arith, hit);
              same_market = ground (arith, hit);
              same_id = refl;
              same_hash = ground (arith, hit);
            };
            kept = λ q m. m;
            keyed = record {
              given = All-imp t.processed (λ q h. omega (arith, h)) k.given;
              once = k.once;
            };
          })
    | inl e ↦
        rw (e, insert_processed_article)
          (record {
            stored = In-new _ t.processed;
            row = record { same_date = refl; same_market = refl; same_id = refl; same_hash = refl };
            kept = λ q m. In-more q _ t.processed m;
            keyed = record {
              given =
                  All-append _ t.processed _ (All-imp t.processed (λ q h. omega (arith, h)) k.given)
                    (omega arith, tt);
              once = NoRepeat-new _ t.processed k.given k.once;
            };
          })
  ]

  module _ (date : ℕ) (whole : List RawArticle) where
    new-IsStored :
        (a : RawArticle) (st next : Loop C) (o : Option C)
        → In a whole
        → IsStored date whole st
        → new_group date a st o ≡ some next
        → IsStored date whole next
    unfolding new_group
    new-IsStored a st next none i s e = cc
    new-IsStored a st next (some c) i s e =
        let x = insert_processed_article date a c st.tables in
        let y = insert-IsInserted date a c st.tables s.keyed in
        subst (IsStored date whole) (ap (λ o. elim o [ none ↦ next | some z ↦ z ]) e) (record {
          backed = (
            (x.0, a, (y.stored, (y.row, (i, (refl, refl))))),
            All-imp st.groups (λ g (p, b, (m, rest)). (p, b, (y.kept p m, rest))) s.backed,
          );
          keyed = record { given = y.keyed.given; once = y.keyed.once };
        })

    article-IsStored :
        (contents : List (ℕ × C)) (a : RawArticle) (st next : Loop C)
        → In a whole
        → IsStored date whole st
        → dedupe_article date contents a st ≡ some next
        → IsStored date whole next
    unfolding dedupe_article
    article-IsStored contents a st next i s e = by_group (group_of a st.groups) e
      where
        by_group :
            (o : Option Group)
            → (elim o [
              | some g ↦ some (link a g.processed_id st)
              | none ↦ new_group date a st (content_of a.duplicate_key contents)
            ])
              ≡ some next
            → IsStored date whole next
        by_group (some g) q =
            subst (IsStored date whole) (ap (λ o. elim o [ none ↦ next | some z ↦ z ]) q) (record {
              backed = s.backed;
              keyed = record { given = s.keyed.given; once = s.keyed.once };
            })
        by_group none q = new-IsStored a st next _ i s q

    pub articles-IsStored :
        (contents : List (ℕ × C)) (articles : List RawArticle) (st final : Loop C)
        → ((a : RawArticle) → In a articles → In a whole)
        → IsStored date whole st
        → dedupe_articles date contents articles st ≡ some final
        → IsStored date whole final
    unfolding dedupe_articles
    articles-IsStored contents [] st final within s e =
        subst (IsStored date whole) (ap (λ o. elim o [ none ↦ final | some z ↦ z ]) e) s
    articles-IsStored contents (a ∷ articles) st final within s e =
        elim (Option-cases (dedupe_article date contents a st)) [
          | inl q ↦ absurd (none_left (sym (rw (q, dedupe_articles) refl) ∙ e))
          | inr (next, q) ↦
              articles-IsStored contents articles next final (λ b m. within b (inr m))
                (article-IsStored contents a st next (within a (inl refl)) s q)
                (sym (rw (q, dedupe_articles) refl) ∙ e)
        ]
      where
        none_left : ◌≡◌ {A = Option (Loop C)} none (some final) → ⊥
        none_left h = cc

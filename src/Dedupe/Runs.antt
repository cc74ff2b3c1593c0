-- ===== src/Dedupe/Runs.antt =====
-- The loop of app/batch/steps/dedupe_articles.py over the raw articles.
use stockapp.Prelude.{
  ℕ, ◌≡◌, ◌||◌, refl, sym, ap, ◌∙◌, subst, true, ◌&&◌, Option, none, some, List, [], ◌∷◌, ◌++◌,
  ◌==◌, arith, All, All-of_In, All-In, All-imp, In, inl, inr, is_some, Bool-cases, Option-cases,
  ==_refl,
}
use stockapp.Keys.{member, NoRepeat}
use stockapp.Queue.Table.{find}
use stockapp.Dedupe.{
  RawArticle, Processed, Tables, has_hash, unique_targets, content_by_key, content_of,
  insert_processed_article, holds_link, add_link, Group, is_group, group_of, Loop, link, new_group,
  dedupe_article, dedupe_articles, run_dedupe,
}
use stockapp.Queue.Rows.{find-hit, find-In}
use stockapp.Dedupe.Stored.{IsKeyed, IsRow, Backed, IsStored, articles-IsStored}
use stockapp.Dedupe.Linked.{keys_of, unique_targets-Fresh, fetched, IsLinked}

holds-append :
    (l k : ℕ × ℕ) (links : List (ℕ × ℕ))
    → holds_link l (links ++ k ∷ []) ≡ (holds_link l links || (k.0 == l.0 && k.1 == l.1))
holds-append l k [] = ground arith
holds-append l k (j ∷ links) = ground (arith, holds-append l k links)

holds_link-add : (l : ℕ × ℕ) (links : List (ℕ × ℕ)) → holds_link l (add_link l links) ≡ true
holds_link-add l links = elim (Bool-cases (holds_link l links)) [
  | inl e ↦ rw e e
  | inr e ↦ rw e (ground (arith, holds-append l l links, ==_refl l.0, ==_refl l.1))
]

holds_link-kept :
    (l k : ℕ × ℕ) (links : List (ℕ × ℕ))
    → holds_link l links ≡ true
    → holds_link l (add_link k links) ≡ true
holds_link-kept l k links h = elim (Bool-cases (holds_link k links)) [
  | inl e ↦ rw e h
  | inr e ↦ rw e (ground (arith, holds-append l k links, h))
]

keys-member :
    (a : RawArticle) (articles : List RawArticle)
    → In a articles
    → member a.duplicate_key (keys_of articles) ≡ true
keys-member a [] m = elim m [ ]
keys-member a (b ∷ articles) (inl e) = ground (arith, ap (λ (z : RawArticle). z.duplicate_key) e)
keys-member a (b ∷ articles) (inr m) = ground (arith, keys-member a articles m)

module _ {C : Type 0} (fetch : RawArticle → C) (date : ℕ) where
  insert-links :
      (a : RawArticle) (c : C) (t : Tables C)
      → (insert_processed_article date a c t).1.links ≡ t.links
  unfolding insert_processed_article
  insert-links a c t = elim (Option-cases (find (has_hash date a) t.processed)) [
    | inl e ↦ rw (e, insert_processed_article) refl
    | inr (p, e) ↦ rw (e, insert_processed_article) refl
  ]

  -- An article is taken in: it is linked, and so is every article that was.
  abbrev Taken : RawArticle → Loop C → Option (Loop C) → Type 0
  Taken a st o =
      (next : Loop C) × ((o ≡ some next)
        × (IsLinked fetch next a
            × ((b : RawArticle) → IsLinked fetch st b → IsLinked fetch next b)))

  link-Taken :
      (a : RawArticle) (st : Loop C) (g : Group)
      → group_of a st.groups ≡ some g
      → Taken a st (some (link a g.processed_id st))
  link-Taken a st g e = (
    link a g.processed_id st,
    (
      refl,
      (
        (g, (e, holds_link-add (a.raw_article_id, g.processed_id) st.tables.links)),
        λ b (h, (f, k)). (
          h,
          (
            f,
            holds_link-kept (b.raw_article_id, h.processed_id) (a.raw_article_id, g.processed_id)
                st.tables.links k,
          ),
        ),
      ),
    ),
  )

  -- The new group stands in the way of no other.
  group-kept :
      (a b : RawArticle) (id : ℕ) (groups : List Group) (h : Group)
      → group_of a groups ≡ none
      → group_of b groups ≡ some h
      → group_of b (
          record { group_market = a.market_type; group_key = a.duplicate_key; processed_id = id }
          ∷ groups)
        ≡ some h
  group-kept a b id groups h e f =
      elim (Bool-cases (a.market_type == b.market_type && a.duplicate_key == b.duplicate_key)) [
        | inr q ↦ rw q f
        | inl q ↦
            let m : a.market_type ≡ b.market_type = ground (arith, q) in
            let k : a.duplicate_key ≡ b.duplicate_key = ground (arith, q) in
            let there : find (is_group b.market_type b.duplicate_key) groups ≡ none =
              subst (λ z. find (is_group z b.duplicate_key) groups ≡ none) m
                (subst (λ z. find (is_group a.market_type z) groups ≡ none) k e) in
            cc
      ]

  new-Taken :
      (a : RawArticle) (st : Loop C) (o : Option C)
      → group_of a st.groups ≡ none
      → is_some o ≡ true
      → Taken a st (new_group date a st o)
  unfolding new_group
  new-Taken a st none e h = cc
  new-Taken a st (some c) e h =
      let (p, tables) = insert_processed_article date a c st.tables in
      let g : Group = record {
        group_market = a.market_type;
        group_key = a.duplicate_key;
        processed_id = p.processed_article_id;
      } in
      let st2 : Loop C = record st { groups = g ∷ st.groups; tables = tables } in
      let here : group_of a (g ∷ st.groups) ≡ some g =
        rw (==_refl a.market_type, ==_refl a.duplicate_key) refl in
      let (next, (q, (linked, kept))) = link-Taken a st2 g here in
      (
        next,
        (
          q,
          (
            linked,
            λ b (h, (f, k)). kept b (
              h,
              (
                group-kept a b p.processed_article_id st.groups h e f,
                subst (λ z. holds_link (b.raw_article_id, h.processed_id) z ≡ true)
                    (sym (insert-links a c st.tables)) k,
              ),
            ),
          ),
        ),
      )

  article-Taken :
      (contents : List (ℕ × C)) (a : RawArticle) (st : Loop C)
      → is_some (content_of a.duplicate_key contents) ≡ true
      → Taken a st (dedupe_article date contents a st)
  unfolding dedupe_article
  article-Taken contents a st h = elim (Option-cases (group_of a st.groups)) [
    | inl e ↦ rw (e, dedupe_article) (new-Taken a st _ e h)
    | inr (g, e) ↦ rw (e, dedupe_article) (link-Taken a st g e)
  ]

  articles-Taken :
      (contents : List (ℕ × C)) (articles : List RawArticle) (st : Loop C)
      → All (λ a. is_some (content_of a.duplicate_key contents) ≡ true) articles
      → (final : Loop C) × ((dedupe_articles date contents articles st ≡ some final)
          × (All (IsLinked fetch final) articles
              × ((b : RawArticle) → IsLinked fetch st b → IsLinked fetch final b)))
  unfolding dedupe_articles
  articles-Taken contents [] st h = (st, (refl, (tt, λ b l. l)))
  articles-Taken contents (a ∷ articles) st h =
      let (next, (q, (linked, kept))) = article-Taken contents a st h.0 in
      let (final, (r, (all_linked, all_kept))) = articles-Taken contents articles next h.1 in
      (
        final,
        (
          rw (q, dedupe_articles) r,
          ((all_kept a linked, all_linked), λ b l. all_kept b (kept b l)),
        ),
      )

  -- An article is linked to a stored row of the date and of its market, that of the group of its
  -- market and duplicate key, under the hash of an article of that group.
  abbrev pub IsProcessed : List RawArticle → Loop C → RawArticle → Type 0
  IsProcessed whole st a =
      (g : Group) × (p : Processed C) × (b : RawArticle) × ((group_of a st.groups ≡ some g)
        × ((holds_link (a.raw_article_id, p.processed_article_id) st.tables.links ≡ true)
            × (In p st.tables.processed
                × (IsRow date a.market_type g.processed_id b p
                    × (In b whole
                        × ((b.market_type ≡ a.market_type)
                            × (b.duplicate_key ≡ a.duplicate_key)))))))

  linked-IsProcessed :
      (whole : List RawArticle) (st : Loop C) (a : RawArticle)
      → IsStored date whole st
      → IsLinked fetch st a
      → IsProcessed whole st a
  linked-IsProcessed whole st a s (g, (e, k)) =
      let hit = find-hit (is_group a.market_type a.duplicate_key) st.groups g e in
      let same_market : g.group_market ≡ a.market_type = ground (arith, hit) in
      let same_key : g.group_key ≡ a.duplicate_key = ground (arith, hit) in
      let m = find-In (is_group a.market_type a.duplicate_key) st.groups g e in
      let (p, b, (stored, (row, (i, (market, key))))) =
        All-In (Backed date whole st.tables.processed) st.groups g s.backed m in
      (
        g,
        p,
        b,
        (
          e,
          (
            subst (λ z. holds_link (a.raw_article_id, z) st.tables.links ≡ true) (sym row.same_id)
                k,
            (
              stored,
              (
                subst (λ z. IsRow date z g.processed_id b p) same_market row,
                (i, (market ∙ same_market, key ∙ same_key)),
              ),
            ),
          ),
        ),
      )

  -- The content is fetched once for each duplicate key and the look for it never fails. In the end
  -- the group of each raw article, one for each market and duplicate key, has a stored row of the
  -- date and the market, under the hash of an article of that group, and the article is linked to
  -- that row. No id stands for two rows, if that was so before the run.
  pub run-IsLinked :
      (articles : List RawArticle) (tables : Tables C)
      → IsKeyed tables
      → NoRepeat (keys_of (unique_targets [] articles))
        × ((final : Loop C) × ((run_dedupe date fetch articles tables ≡ some final)
              × (IsKeyed final.tables × All (IsProcessed articles final) articles)))
  unfolding run_dedupe
  run-IsLinked articles tables keyed =
      let contents = content_by_key fetch (unique_targets [] articles) in
      let start : Loop C = record {
        groups = [];
        processed_ids = [];
        ids_by_market = [];
        tables = tables;
      } in
      let ready =
        All-of_In (λ (a : RawArticle). is_some (content_of a.duplicate_key contents) ≡ true)
          articles
          (λ a m. fetched fetch [] articles a.duplicate_key (keys-member a articles m) refl) in
      let (final, (q, (linked, kept))) = articles-Taken contents articles start ready in
      let stored =
        articles-IsStored date articles contents articles start final (λ a m. m)
          (record { backed = tt; keyed = keyed }) q in
      (
        (unique_targets-Fresh [] articles).0,
        (
          final,
          (
            q,
            (
              stored.keyed,
              All-imp articles (λ a l. linked-IsProcessed articles final a stored l) linked,
            ),
          ),
        ),
      )

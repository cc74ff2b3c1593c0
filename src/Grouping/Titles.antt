-- ===== src/Grouping/Titles.antt =====
-- `_group_articles` and `_rank_market_clusters` of app/batch/steps/cluster_enrichment.py.
use stockapp.Prelude.{
  ℕ, ◌≤◌, ◌<◌, ◌⊎◌, ◌∙◌, ◌≡◌, refl, Bool, true, false, not, ◌&&◌, ◌||◌, List, [], ◌∷◌, ◌++◌, map,
  arith, leb, ltb, ◌==◌, max, length, length-append, any, select, All, count, Option, none, some,
  sort_by, sort_by-count, sort_by-lexicographic, Pairwise, Pairwise-imp, Pairwise-of_all,
  All-append, lexicographic, Bool-cases, inl, inr,
}
use stockapp.Grouping.FirstFit.{
  first_fit, flatten, first_fit-count, first_fit-All, first_fit-Separated, Separated,
}

-- An article with the set of its title's tokens, each token by a number and none twice.
pub record Article : Type 0 where
  pub processed_article_id : ℕ
  pub title_tokens : List ℕ
  pub published_at : Option ℕ

abbrev pub by_id : Article → Article → Bool
by_id a b = leb a.processed_article_id b.processed_article_id

-- len(left & right)
abbrev pub overlap : List ℕ → List ℕ → ℕ
overlap left right = length (select (λ t. any (λ u. t == u) right) left)

-- len(group) >= max_articles_per_group
abbrev pub is_full : Option ℕ → List Article → Bool
is_full none g = false
is_full (some cap) g = leb cap (length g)

-- The test against the first article of a group; no group is empty.
abbrev pub matches_seed : Article → List Article → Bool
matches_seed a [] = true
matches_seed a (seed ∷ later) =
    not (length a.title_tokens == 0) && leb 2 (overlap a.title_tokens seed.title_tokens)

unfoldable pub accepts : Option ℕ → Article → List Article → Bool
accepts cap a g = not (is_full cap g) && matches_seed a g

unfoldable pub group_articles : Option ℕ → List Article → List (List Article)
unfolding accepts
group_articles cap articles = first_fit (accepts cap) [] (sort_by by_id articles)

-- published_at or datetime.min
abbrev pub published_or_min : Article → ℕ
published_or_min a = elim a.published_at [ none ↦ 0 | some t ↦ t ]

-- Newest first and the higher id first among equals.
abbrev pub newest_first : Article → Article → Bool
newest_first a b =
    ltb (published_or_min b) (published_or_min a)
    || ((published_or_min a == published_or_min b)
        && leb b.processed_article_id a.processed_article_id)

-- A key of the first article of a cluster; no cluster is empty.
abbrev pub of_first : (Article → ℕ) → List Article → ℕ
of_first key [] = 0
of_first key (a ∷ later) = key a

abbrev pub first_id : List Article → List Article → Bool
first_id g h =
    leb (of_first (λ a. a.processed_article_id) g) (of_first (λ a. a.processed_article_id) h)

abbrev pub first_published : List Article → List Article → Bool
first_published g h = leb (of_first published_or_min h) (of_first published_or_min g)

abbrev pub more_articles : List Article → List Article → Bool
more_articles g h = leb (length h) (length g)

-- Three stable sorts, the least significant key first.
unfoldable pub rank_market_clusters : List (List Article) → List (List Article)
rank_market_clusters clusters =
    sort_by more_articles
      (sort_by first_published (sort_by first_id (map (sort_by newest_first) clusters)))

-- Larger clusters first, then the one whose newest article is newer, then the lower id of it.
abbrev pub ranks_before : List Article → List Article → Bool
ranks_before g h =
    ltb (length h) (length g)
    || ((length g == length h)
        && (ltb (of_first published_or_min h) (of_first published_or_min g)
            || ((of_first published_or_min g == of_first published_or_min h) && first_id g h)))

-- A group whose later articles share two tokens with the first, no larger than the cap or 1.
abbrev pub Seeded : Option ℕ → List Article → Type 0
Seeded cap [] = ⊥
Seeded cap (seed ∷ later) =
    All (λ (a : Article). leb 2 (overlap a.title_tokens seed.title_tokens) ≡ true) later
    × (length (seed ∷ later) ≤ max 1 (elim cap [ none ↦ length (seed ∷ later) | some n ↦ n ]))

size_joined :
    (cap : Option ℕ) (g : List Article) (a : Article)
    → is_full cap g ≡ false
    → length g ≤ max 1 (elim cap [ none ↦ length g | some n ↦ n ])
    → length (g ++ a ∷ []) ≤ max 1 (elim cap [ none ↦ length (g ++ a ∷ []) | some n ↦ n ])
size_joined none g a e s = omega arith
size_joined (some n) g a e s = ground (arith, e, length-append g (a ∷ []))

joined-Seeded :
    (cap : Option ℕ) (a : Article) (g : List Article)
    → accepts cap a g ≡ true
    → Seeded cap g
    → Seeded cap (g ++ a ∷ [])
unfolding accepts
joined-Seeded cap a [] e s = elim s [ ]
joined-Seeded cap a (seed ∷ later) e s = (
  All-append _ later (a ∷ []) s.0 (ground (arith, e), tt),
  size_joined cap (seed ∷ later) a (ground (arith, e)) s.1,
)

full-append :
    (cap : Option ℕ) (g : List Article) (a : Article)
    → is_full cap g ≡ true
    → is_full cap (g ++ a ∷ []) ≡ true
full-append none g a e = e
full-append (some n) g a e = ground (arith, e, length-append g (a ∷ []))

refused-stays :
    (cap : Option ℕ) (x y : Article) (g : List Article)
    → accepts cap y g ≡ false
    → accepts cap y (g ++ x ∷ []) ≡ false
unfolding accepts
refused-stays cap x y [] e = ground (arith, e, full-append cap [] x)
refused-stays cap x y (seed ∷ later) e = elim (Bool-cases (is_full cap (seed ∷ later))) [
  | inl full ↦ ground (arith, full-append cap (seed ∷ later) x full)
  | inr room ↦ ground (arith, room, e)
]

-- Grouping by titles splits the articles up: each is in exactly one group, no group is empty or
-- larger than the cap (a cap of 0 still lets one article in), every later article of a group shares
-- two title tokens with the group's first article, and no group accepts the first article of a
-- later group.
pub group_articles_lem :
    (cap : Option ℕ) (articles : List Article)
    → ((p : Article → Bool) → count p (flatten (group_articles cap articles)) ≡ count p articles)
      × All (Seeded cap) (group_articles cap articles)
      × Separated (accepts cap) (group_articles cap articles)
unfolding group_articles
group_articles_lem cap articles =
    let ordered = sort_by by_id articles in
    let none_yet : All (Seeded cap) [] = tt in
    (
      λ p.
          omega (arith, first_fit-count (accepts cap) p ordered [], sort_by-count p by_id articles),
      first_fit-All (accepts cap) (Seeded cap) (λ a. (tt, omega arith)) (joined-Seeded cap) ordered
          [] none_yet,
      first_fit-Separated (accepts cap) (refused-stays cap) ordered [] tt,
    )

-- The same articles, each as often, the newest first and the higher id first among equals.
abbrev pub NewestFirst : List Article → List Article → Type 0
NewestFirst g h =
    ((p : Article → Bool) → count p h ≡ count p g)
    × Pairwise
        (λ a b.
          (published_or_min b < published_or_min a)
          ⊎ ((published_or_min a ≡ published_or_min b)
              × (b.processed_article_id ≤ a.processed_article_id)))
        h

-- Cluster by cluster.
abbrev pub EachNewestFirst : List (List Article) → List (List Article) → Type 0
EachNewestFirst [] [] = Unit
EachNewestFirst [] (h ∷ hs) = ⊥
EachNewestFirst (g ∷ gs) [] = ⊥
EachNewestFirst (g ∷ gs) (h ∷ hs) = NewestFirst g h × EachNewestFirst gs hs

newest_order :
    (a b : Article)
    → newest_first a b ≡ true
    → (published_or_min b < published_or_min a)
      ⊎ ((published_or_min a ≡ published_or_min b)
          × (b.processed_article_id ≤ a.processed_article_id))
newest_order a b e = elim (Bool-cases (ltb (published_or_min b) (published_or_min a))) [
  | inl l ↦ inl (ground (arith, l))
  | inr l ↦ inr (ground (arith, e, l), ground (arith, e, l))
]

sort_newest : (g : List Article) → NewestFirst g (sort_by newest_first g)
sort_newest g =
    let always : Article → Article → Bool = λ a b. true in
    (
      λ p. sort_by-count p newest_first g,
      Pairwise-imp _ _ (sort_by newest_first g) (λ a b e. newest_order a b (ground (arith, e)))
          (sort_by-lexicographic newest_first always (λ a b e. ground (arith, e))
            (λ a b c e f. ground (arith, e, f)) g
            (Pairwise-of_all (λ a b. always a b ≡ true) g (λ a b. refl))),
    )

sort_each :
    (clusters : List (List Article))
    → EachNewestFirst clusters (map (sort_by newest_first) clusters)
sort_each [] = tt
sort_each (g ∷ clusters) = (sort_newest g, sort_each clusters)

-- The clusters of a market come out each with its articles from the newest to the oldest, the
-- higher id first among equals, none lost and none added; and every pair of them stands by size,
-- then by the time of the newest article, then by its id.
pub rank_market_clusters_lem :
    (clusters : List (List Article))
    → (each : List (List Article)) × EachNewestFirst clusters each
      × ((p : List Article → Bool) → count p (rank_market_clusters clusters) ≡ count p each)
      × Pairwise (λ g h. ranks_before g h ≡ true) (rank_market_clusters clusters)
unfolding rank_market_clusters
rank_market_clusters_lem clusters =
    let each = map (sort_by newest_first) clusters in
    let always : List Article → List Article → Bool = λ g h. true in
    let ids =
      sort_by-lexicographic first_id always (λ g h e. ground (arith, e))
        (λ g h k e f. ground (arith, e, f)) each
        (Pairwise-of_all (λ g h. always g h ≡ true) each (λ g h. refl)) in
    let times =
      sort_by-lexicographic first_published (lexicographic first_id always)
        (λ g h e. ground (arith, e)) (λ g h k e f. ground (arith, e, f)) _ ids in
    let sizes =
      sort_by-lexicographic more_articles
        (lexicographic first_published (lexicographic first_id always)) (λ g h e. ground (arith, e))
        (λ g h k e f. ground (arith, e, f)) _ times in
    let by_ids = sort_by first_id each in
    let by_times = sort_by first_published by_ids in
    (
      each,
      sort_each clusters,
      λ p.
          sort_by-count p more_articles by_times
          ∙ (sort_by-count p first_published by_ids ∙ sort_by-count p first_id each),
      Pairwise-imp _ (λ g h. ranks_before g h ≡ true) _ (λ g h e. ground (arith, e)) sizes,
    )

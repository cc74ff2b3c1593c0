-- ===== src/Grouping/Similarity.antt =====
-- Complete-link grouping and the contradiction veto of app/batch/article_similarity.py. A score is
-- a whole number of some unit, the same for the scores and the threshold; dates, metrics, units
-- and values are numbered.
use stockapp.Prelude.{
  ℕ, ◌≡◌, Bool, true, false, not, ◌&&◌, ◌||◌, List, [], ◌∷◌, ◌++◌, arith, leb, ltb, ◌==◌, length,
  all, any, select, All, count, Option, none, some, sort_by, sort_by-count, Pairwise, Pairwise-snoc,
  if◌then◌else◌, ap,
}
use stockapp.Grouping.FirstFit.{
  first_fit, flatten, first_fit-count, first_fit-All, first_fit-Separated, Separated,
}

pub record StructuredNumericValue : Type 0 where
  pub metric : ℕ
  pub unit : ℕ
  pub value : ℕ

-- The features that the veto reads; the direction terms are a set of two possible members.
pub record LexicalFeatures : Type 0 where
  pub dates : List ℕ
  pub is_positive : Bool
  pub is_negative : Bool
  pub metric_values : List StructuredNumericValue

abbrev pub same_metric : StructuredNumericValue → StructuredNumericValue → Bool
same_metric i j = (i.metric == j.metric) && (i.unit == j.unit)

abbrev pub same_value : StructuredNumericValue → StructuredNumericValue → Bool
same_value i j = same_metric i j && (i.value == j.value)

-- The values that one side gives under the key of `i`.
abbrev pub under_key :
    StructuredNumericValue → List StructuredNumericValue → List StructuredNumericValue
under_key i values = select (same_metric i) values

-- left_by_metric[key] & right_by_metric[key]
abbrev pub share_value : List StructuredNumericValue → List StructuredNumericValue → Bool
share_value left right = any (λ i. any (λ j. same_value i j) right) left

-- Some key of both sides has no value in common.
unfoldable pub has_numeric_contradiction : LexicalFeatures → LexicalFeatures → Bool
has_numeric_contradiction left right =
    any
      (λ i.
        any (same_metric i) right.metric_values
        && not (share_value (under_key i left.metric_values) (under_key i right.metric_values)))
      left.metric_values

unfoldable pub has_date_contradiction : LexicalFeatures → LexicalFeatures → Bool
has_date_contradiction left right =
    not (length left.dates == 0)
    && (not (length right.dates == 0) && not (any (λ d. any (λ e. e == d) right.dates) left.dates))

unfoldable pub has_direction_contradiction : LexicalFeatures → LexicalFeatures → Bool
has_direction_contradiction left right =
    ((left.is_positive && not left.is_negative) && (right.is_negative && not right.is_positive))
    || ((left.is_negative && not left.is_positive) && (right.is_positive && not right.is_negative))

-- bool(_contradiction_reasons(left, right))
unfoldable pub has_contradiction : LexicalFeatures → LexicalFeatures → Bool
unfolding has_numeric_contradiction has_date_contradiction has_direction_contradiction
has_contradiction left right =
    has_numeric_contradiction left right
    || (has_date_contradiction left right || has_direction_contradiction left right)

pub record ArticleCandidate : Type 0 where
  pub processed_article_id : ℕ
  pub published_at : Option ℕ

pub record SimilarityResult : Type 0 where
  pub combined_score : ℕ
  pub contradiction_veto : Bool

-- The newest first, those without a time last, the lower id first among equals.
unfoldable pub article_sort : ArticleCandidate → ArticleCandidate → Bool
article_sort a b = sort_times a.published_at b.published_at
  where
    sort_times : Option ℕ → Option ℕ → Bool
    sort_times none none = leb a.processed_article_id b.processed_article_id
    sort_times none (some u) = false
    sort_times (some t) none = true
    sort_times (some t) (some u) =
        ltb u t || ((t == u) && leb a.processed_article_id b.processed_article_id)

unfoldable pub pair_key : ℕ → ℕ → ℕ × ℕ
pair_key left_id right_id =
    if ltb left_id right_id then (left_id, right_id) else (right_id, left_id)

-- The pair may share a group: its score reaches the threshold and nothing vetoes it.
unfoldable pub links : ℕ → (ℕ × ℕ → SimilarityResult) → ArticleCandidate → ArticleCandidate → Bool
unfolding pair_key
links threshold pair_scores a m =
    let pair = pair_scores (pair_key a.processed_article_id m.processed_article_id) in
    leb threshold pair.combined_score && not pair.contradiction_veto

-- Every member of the group passes.
unfoldable pub admits :
    ℕ → (ℕ × ℕ → SimilarityResult) → ArticleCandidate → List ArticleCandidate → Bool
unfolding links
admits threshold pair_scores a members = all (λ m. links threshold pair_scores a m) members

-- The groups, in the order in which they were opened, over the table of the pairs' scores.
unfoldable pub group_similar_articles :
    ℕ → (ℕ × ℕ → SimilarityResult) → List ArticleCandidate → List (List ArticleCandidate)
unfolding admits article_sort
group_similar_articles threshold pair_scores candidates =
    first_fit (admits threshold pair_scores) [] (sort_by article_sort candidates)

module _ (threshold : ℕ) (pair_scores : ℕ × ℕ → SimilarityResult) where
  all-append-false :
      (p : ArticleCandidate → Bool) (g : List ArticleCandidate) (x : ArticleCandidate)
      → all p g ≡ false
      → all p (g ++ x ∷ []) ≡ false
  all-append-false p [] x e = ground (arith, e)
  all-append-false p (y ∷ g) x e = ground (arith, e, all-append-false p g x)

  all-All :
      (p : ArticleCandidate → Bool) (g : List ArticleCandidate)
      → all p g ≡ true
      → All (λ m. p m ≡ true) g
  all-All p [] e = tt
  all-All p (y ∷ g) e = (ground (arith, e), all-All p g (ground (arith, e)))

  joined-Linked :
      (a : ArticleCandidate) (g : List ArticleCandidate)
      → admits threshold pair_scores a g ≡ true
      → Pairwise (λ m n. links threshold pair_scores n m ≡ true) g
      → Pairwise (λ m n. links threshold pair_scores n m ≡ true) (g ++ a ∷ [])
  unfolding admits
  joined-Linked a g e p =
      Pairwise-snoc (λ m n. links threshold pair_scores n m ≡ true) g a (all-All _ g e) p

  refused-stays :
      (x y : ArticleCandidate) (g : List ArticleCandidate)
      → admits threshold pair_scores y g ≡ false
      → admits threshold pair_scores y (g ++ x ∷ []) ≡ false
  unfolding admits
  refused-stays x y g e = all-append-false _ g x e

  -- Similarity grouping is a complete-link partition of the candidates: each is in exactly one
  -- group, any two of a group reach the threshold without a veto, and the first article of a later
  -- group has, in every earlier group, a member with which it does not.
  pub group_similar_articles_lem :
      (candidates : List ArticleCandidate)
      → ((p : ArticleCandidate → Bool)
          → count p (flatten (group_similar_articles threshold pair_scores candidates))
            ≡ count p candidates)
        × All
            (Pairwise (λ m n. links threshold pair_scores n m ≡ true))
            (group_similar_articles threshold pair_scores candidates)
        × Separated
            (admits threshold pair_scores)
            (group_similar_articles threshold pair_scores candidates)
  unfolding group_similar_articles
  group_similar_articles_lem candidates =
      let ordered = sort_by article_sort candidates in
      (
        λ p. omega (
          arith,
          first_fit-count (admits threshold pair_scores) p ordered [],
          sort_by-count p article_sort candidates,
        ),
        first_fit-All (admits threshold pair_scores)
            (Pairwise (λ m n. links threshold pair_scores n m ≡ true)) (λ a. (tt, tt)) joined-Linked
            ordered [] tt,
        first_fit-Separated (admits threshold pair_scores) refused-stays ordered [] tt,
      )

pair_key_comm : (x y : ℕ) → pair_key x y ≡ pair_key y x
unfolding pair_key
pair_key_comm x y = ground (arith)

-- Whether two articles may share a group does not depend on which of them comes first.
pub links_comm :
    (threshold : ℕ) (pair_scores : ℕ × ℕ → SimilarityResult) (a b : ArticleCandidate)
    → links threshold pair_scores a b ≡ links threshold pair_scores b a
unfolding links
links_comm threshold pair_scores a b =
    ap
      (λ (key : ℕ × ℕ).
        let pair = pair_scores key in
        leb threshold pair.combined_score && not pair.contradiction_veto)
      (pair_key_comm a.processed_article_id b.processed_article_id)

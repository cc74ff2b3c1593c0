-- ===== src/Examples/Articles.antt =====
-- Groups and themes of a few articles: article_similarity.py, steps/cluster_enrichment.py and
-- theme_classifier.py of app/batch.
use stockapp.Prelude.{
  In, count, map, ℕ, ◌≡◌, Bool, true, false, List, [], ◌∷◌, All, some, count, Pairwise, ◌+◌, ◌==◌,
  if◌then◌else◌,
}
use stockapp.Grouping.FirstFit.{flatten, Separated}
use stockapp.Grouping.Similarity.{
  ArticleCandidate, SimilarityResult, links, admits, group_similar_articles,
  group_similar_articles_lem,
}
use stockapp.Grouping.Titles.{
  EachNewestFirst, Article, accepts, group_articles, Seeded, group_articles_lem, ranks_before,
  rank_market_clusters, rank_market_clusters_lem,
}
use stockapp.Themes.{Candidate, ThemeAssignment, classify_theme_fallback}
use stockapp.Themes.Chosen.{numbered, IsChosen, Settled}
use stockapp.Themes.Choice.{classify_theme_fallback_lem}

abbrev candidate : ℕ → ArticleCandidate
candidate id = record { processed_article_id = id; published_at = some (100 + id) }

abbrev candidates : List ArticleCandidate
candidates = candidate 1 ∷ candidate 2 ∷ candidate 3 ∷ []

-- Articles 1 and 2 are alike, 3 is like neither.
abbrev score_table : ℕ × ℕ → SimilarityResult
score_table key = record {
  combined_score = if key.1 == 3 then 10 else 90;
  contradiction_veto = false;
}

group_similar_articles_lem_example :
    ((p : ArticleCandidate → Bool)
      → count p (flatten (group_similar_articles 80 score_table candidates)) ≡ count p candidates)
    × All
        (Pairwise (λ m n. links 80 score_table n m ≡ true))
        (group_similar_articles 80 score_table candidates)
    × Separated (admits 80 score_table) (group_similar_articles 80 score_table candidates)
group_similar_articles_lem_example = group_similar_articles_lem 80 score_table candidates

abbrev titled : ℕ → List ℕ → Article
titled id tokens = record {
  processed_article_id = id;
  title_tokens = tokens;
  published_at = some id;
}

abbrev titles : List Article
titles = titled 2 (1 ∷ 2 ∷ 3 ∷ []) ∷ titled 1 (2 ∷ 3 ∷ 4 ∷ []) ∷ titled 3 (7 ∷ 8 ∷ []) ∷ []

group_articles_lem_example :
    ((p : Article → Bool) → count p (flatten (group_articles (some 40) titles)) ≡ count p titles)
    × All (Seeded (some 40)) (group_articles (some 40) titles)
    × Separated (accepts (some 40)) (group_articles (some 40) titles)
group_articles_lem_example = group_articles_lem (some 40) titles

rank_market_clusters_lem_example :
    (each : List (List Article)) × EachNewestFirst (group_articles (some 40) titles) each
    × ((p : List Article → Bool)
        → count p (rank_market_clusters (group_articles (some 40) titles)) ≡ count p each)
    × Pairwise
        (λ g h. ranks_before g h ≡ true)
        (rank_market_clusters (group_articles (some 40) titles))
rank_market_clusters_lem_example = rank_market_clusters_lem (group_articles (some 40) titles)

-- Codes "A_1" and "A_2" under the parent "A", on the same evidence, and "B".
abbrev rule : ℕ → List ℕ → ℕ → Candidate
rule index code score = record {
  index = index;
  code = code;
  score = score;
  distinct_evidence_count = 2;
  qualified = true;
  evidence_keys = 7 ∷ [];
}

abbrev scored_rules : List Candidate
scored_rules = rule 0 (65 ∷ 95 ∷ 49 ∷ []) 8 ∷ rule 1 (65 ∷ 95 ∷ 50 ∷ []) 9 ∷ rule 2 (66 ∷ []) 6 ∷ []

classify_theme_fallback_lem_example :
    (selected : List Candidate) × IsChosen ((65 ∷ []) ∷ []) selected
    × ((c : Candidate) → In c selected → In c scored_rules)
    × ((c : Candidate)
        → In c scored_rules
        → c.qualified ≡ true
        → Settled ((65 ∷ []) ∷ []) selected c)
    × (map
          (λ (a : ThemeAssignment). a.theme_code)
          (classify_theme_fallback ((65 ∷ []) ∷ []) scored_rules)
        ≡ map (λ (c : Candidate). c.code) selected)
    × (map (λ (a : ThemeAssignment). a.rank) (classify_theme_fallback ((65 ∷ []) ∷ []) scored_rules)
        ≡ numbered 1 selected)
classify_theme_fallback_lem_example = classify_theme_fallback_lem ((65 ∷ []) ∷ []) scored_rules

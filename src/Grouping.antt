-- ===== src/Grouping.antt =====
-- How articles become groups: by the overlap of their titles in app/batch/steps/cluster_enrichment.py
-- and by complete-link similarity in app/batch/article_similarity.py, both first-fit.
pub mod FirstFit
pub mod Similarity
pub mod Titles

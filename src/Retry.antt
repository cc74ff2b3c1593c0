-- ===== src/Retry.antt =====
-- Which AI summaries a retry takes up again and how it is counted: app/batch/ai_retry.
pub mod Resolver
pub mod Effective
pub mod Selection
pub mod Counts
pub mod Tallied
pub mod Totals

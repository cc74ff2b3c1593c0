-- ===== src/Service.antt =====
-- The admission of batches, app/domains/batches/service.py, above the queue.
pub mod Start
mod Active
pub mod Answer
pub mod Refinement
pub mod Replay
pub mod Races
pub mod AiRetry
pub mod Enqueued
pub mod Retries
pub mod Chain
pub mod Lineage

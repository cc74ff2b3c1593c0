-- ===== src/Examples.antt =====
-- Concrete runs of the models of app/batch, app/core and app/db, and the theorems at them.
mod Tables
mod Batches
mod Diagnostics
mod Articles
mod Provider
mod Windows
mod Starts
mod Checkpoints
mod Targets
mod Retries
mod Duplicates
mod Redactions

-- ===== src/News.antt =====
-- News collection and its coverage: app/batch/policies, the slots of app/domains/batches/service.py
-- and the coverage test of app/db/repositories/news_collection_run_repo.py.
--
-- An instant is a number of microseconds since a midnight in Korea (KST has no daylight saving
-- time, so converting an aware datetime between UTC and KST does not change its number).
pub mod Slot
pub mod Coverage
pub mod Catchup
pub mod Session

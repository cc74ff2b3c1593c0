-- ===== src/Lib.antt =====
-- The batch pipeline of stockapp: a durable queue of jobs in PostgreSQL, the workers that run them,
-- and the steps that collect market news, group it, and have a language model summarise it.
--
-- Parts, and the files that model them:
--   * Queue: app/db/repositories/batch_job_repo.py, a method that is one SQL statement as one
--     function on the tables. Queue.Job has the rows (app/db/repositories/projections.py and
--     app/db/enums.py), Queue.Table the row updates and the lease test, Queue.Lease claim_next_job,
--     heartbeat_claim, begin_step, finish_step_run, save_checkpoint, release_failed_claim and
--     mark_job_completed, Queue.Recovery recover_expired_claims and
--     seconds_until_next_actionable_job, Queue.Admission create_job, retry_failed_job and the
--     lookups under the unique indexes of db/schema_postgresql.sql. Queue.Requests makes a history
--     of such statements, by any workers and at any times, a list. The other files of the folder
--     hold the invariants and the proofs.
--   * Service: app/domains/batches/service.py, the start of a market-daily batch above those
--     statements: the look for the idempotency key, the conflict with a job in flight or with a
--     page, the INSERT, and the requeueing of a failed job. Service.Start has the code,
--     Service.Active and Service.Answer the abstract service that it is compared with.
--     Service.AiRetry is retry_ai_summaries with resolve_source and enqueue of
--     app/db/repositories/ai_retry_repo.py; the CHECK on keys is an argument there. What other
--     sessions execute between two statements of the service is a list of requests of the queue.
--   * Worker: app/batch/worker.py, a round of a worker (recover, claim, dispatch, release) with the
--     retry policy for language-model failures; the dispatch is an argument.
--   * Pipeline: app/batch/orchestrators/market_daily.py, the loop over the steps of a leased job
--     and its checkpoint. A step is an argument; a raising step and a lost lease are outcomes.
--   * Outcome: app/batch/models.py and app/batch/policies/batch_status_policy.py, the recording of
--     diagnostics in a run's context and the status that follows from it.
--   * Context: the checkpoint of that context, to_checkpoint and from_checkpoint of
--     app/batch/models.py, on JSON documents (Context.Document).
--   * Targets: app/batch/steps/target_progress.py, the targets of a step that are already in the
--     job's checkpoint, and the concurrent calls of the others (Targets.Calls), whose grouping into
--     waits is any.
--   * Dedupe: app/batch/steps/dedupe_articles.py with the inserts of
--     app/db/repositories/news_article_processed_repo.py. Dedupe.Step is the run of the step from the
--     windows to the counters, Dedupe the loop over the raw articles.
--   * Finalize: app/batch/steps/finalize_job.py, the end of a run, with the redaction of
--     app/core/public_diagnostics.py. The bounded message is in Finalize, the log summary of
--     app/batch/diagnostics.py in Finalize.Summary.
--   * Retry: app/batch/ai_retry/resolver.py, which summaries a retry takes up and how it counts.
--   * Grouping: the first-fit loop that app/batch/article_similarity.py and
--     app/batch/steps/cluster_enrichment.py share, and the admission test and the order of each.
--   * Themes: app/batch/theme_classifier.py, the choice among the rules that scored.
--   * News: the half-hour slots (app/batch/policies/news_collection_slot.py and
--     resolve_news_collection_slot of app/domains/batches/service.py), the coverage test
--     (app/db/repositories/news_collection_run_repo.py), the catch-up of missed slots
--     (app/domains/batches/service.py) and the windows of app/batch/policies/market_session_policy.py.
--   * Llm: app/core/llm.py, the request limiter, the token limiter (`acquire` and `reconcile`), the circuit for
--     configuration errors and the retries of one call, each over every history of clock readings
--     or answers.
--   * Prelude, Keys: tests, lists, stable sorting and sets of keys. Examples: concrete runs.
--
-- A worker's round is the queue's recovery and claim with a dispatch between claim and release; the
-- pipeline is what the dispatch runs, and its checkpoint is a column of the job's row; the retry
-- exhausted mode of the worker is the flag that the call retries read.
--
-- Conventions. Times are microseconds since an epoch, in the limiter and the circuit any unit; ids,
-- lease tokens, calendar days, target keys and title tokens are numbers. A table is a list of rows.
-- A statement is atomic, and FOR UPDATE SKIP LOCKED is a set of locked ids, any set. A violated
-- unique index is `none`. The columns job_name, trigger_type, triggered_by_user_id, created_at and
-- updated_at are left out: nothing here reads them. An event of the service is kept, the others
-- are not, and the steps' events neither. The dedupe hash and the duplicate key of an article are
-- numbers that are derived already, and its content is what an argument fetches. The regular
-- expression for a diagnostic's scope, case folding and the decimals of a number are arguments. Similarity scores are whole
-- numbers of some unit and the table of the pairs' scores is an argument, since the scores are
-- floating point. The exchange calendar is a parameter with the lookups' documented behaviour.
--
-- Loops and fuel. The session loop has one round for each day up to the local day, since each round
-- moves to an earlier day; the catch-up two rounds for each hour of the horizon, since each steps
-- back by half an hour; the call loop max_attempts rounds, as in the source. The limiter's loop is a
-- list of rounds, one for each clock reading. All others are structural.
--
-- Not modelled: the HTTP API and its schemas, the SQL that reads pages, archives and clusters,
-- the text features and scores of articles (regular expressions and floating point), prompts and
-- parsers of the model's output, providers, page snapshots, the
-- scores of theme rules, logging and settings.
pub mod Prelude
pub mod Keys
pub mod Queue
pub mod Service
pub mod Worker
pub mod Pipeline
pub mod Outcome
pub mod Context
pub mod Targets
pub mod Dedupe
pub mod Finalize
pub mod Retry
pub mod Grouping
pub mod Themes
pub mod News
pub mod Llm
pub mod Examples

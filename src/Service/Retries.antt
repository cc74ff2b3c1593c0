-- ===== src/Service/Retries.antt =====
-- How BatchesService.retry_ai_summaries of app/domains/batches/service.py ends.
use stockapp.Prelude.{ℕ, ◌≡◌, String, true, false, Option, none, some}
use stockapp.Queue.Admission.{is_open}
use stockapp.Service.Start.{State}
use stockapp.Service.AiRetry.{
  AiRetrySource, Enqueued, queued, idempotency_conflict, Interference, RetryEnded, retry_payload,
  job_not_found, job_not_terminal, source_page_not_found, key_reused, retry_already_running,
  resolve_source,
}
use stockapp.Service.Enqueued.{EnqueuedFrom}

-- How a request to retry ends, by the source that it resolves to.
abbrev pub RetryAnswered : Interference → ℕ → Option String → State → RetryEnded × State → Type 0
RetryAnswered w id key s (retry_payload j created, after) =
    (source : AiRetrySource) × ((resolve_source id s.db ≡ some source)
      × ((is_open source.source_status ≡ false)
          × EnqueuedFrom w source key s.db (queued j created, after.db)))
RetryAnswered w id key s (job_not_found, after) = (resolve_source id s.db ≡ none) × (after ≡ s)
RetryAnswered w id key s (job_not_terminal, after) =
    (source : AiRetrySource) × ((resolve_source id s.db ≡ some source)
      × ((is_open source.source_status ≡ true) × (after ≡ s)))
RetryAnswered w id key s (source_page_not_found, after) =
    (source : AiRetrySource) × ((resolve_source id s.db ≡ some source)
      × ((source.source_page_id ≡ none) × (after ≡ s)))
RetryAnswered w id key s (key_reused, after) =
    (source : AiRetrySource) × ((resolve_source id s.db ≡ some source)
      × ((is_open source.source_status ≡ false)
          × EnqueuedFrom w source key s.db (idempotency_conflict, after.db)))
RetryAnswered w id key s (retry_already_running, after) = ⊥

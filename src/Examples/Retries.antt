-- ===== src/Examples/Retries.antt =====
-- Retries of AI summaries, app/domains/batches/service.py: of a finished batch, and the lineage of a
-- retry of it.
use stockapp.Prelude.{ℕ, ◌≡◌, refl, String, Bool, not, none, some, List, [], ◌∷◌, str_eq}
use stockapp.Queue.Admission.{get_job_by_id}
use stockapp.Queue.Job.{Db, Job, success, RunMode, no_counts}
use stockapp.Queue.Lease.{Completion}
use stockapp.Queue.Requests.{Request, create, claim, complete, replay}
use stockapp.Service.Start.{State}
use stockapp.Service.AiRetry.{
  Interference, AiRetrySource, source_of, resolve_source, ancestors, parent_of,
}
use stockapp.Service.Lineage.{IsLineage, Read, resolve-IsLineage}
use stockapp.Examples.Tables.{daily, no_rows, nothing_locked, waiting, one_waiting}

abbrev page_written : Completion
page_written = record {
  status = success;
  counts = no_counts;
  page_id = some 4;
  page_version_no = some 1;
  partial_message = none;
  error_code = none;
  error_message = none;
  log_summary = none;
}

abbrev one_batch : List (ℕ × Request)
one_batch =
    (100, create daily)
    ∷ (110, claim nothing_locked "first" 7 60)
    ∷ (120, complete (some 7) 1 page_written)
    ∷ []

abbrev finished_batch : State
finished_batch = record { db = replay one_batch no_rows; events = [] }

-- Another session starts the date's batch again before the INSERT.
abbrev restarted : Interference
restarted = record { before_insert = (130, create daily) ∷ []; before_lookup = [] }

abbrev not_empty : String → Bool
not_empty key = not (str_eq key "")

abbrev second_retry : Job
second_retry = record waiting { job_id = 2; run_mode = RunMode.ai_retry; source_job_id = some 1 }

-- The retry's lineage has two rows.
abbrev with_retry : Db
with_retry = record one_waiting { jobs = waiting ∷ second_retry ∷ []; next_job_id = 3 }

abbrev first_source : AiRetrySource
first_source = source_of with_retry second_retry

resolves : resolve_source 2 with_retry ≡ some first_source
unfolding resolve_source source_of ancestors parent_of stockapp.Queue.Admission.get_job_by_id
resolves = refl

resolve-IsLineage_example :
    (requested : Job) × (rows : List Job) × ((get_job_by_id 2 with_retry ≡ some requested)
      × (IsLineage with_retry requested rows × Read requested rows first_source))
resolve-IsLineage_example = resolve-IsLineage 2 with_retry first_source resolves

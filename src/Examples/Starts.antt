-- ===== src/Examples/Starts.antt =====
-- Starts of a market-daily batch, app/domains/batches/service.py: on an empty queue, and while
-- another session starts one for the same date.
use stockapp.Prelude.{ℕ, ◌≡◌, refl, true, false, Option, none, some, [], ◌∷◌, arith}
use stockapp.Queue.Job.{Job}
use stockapp.Queue.Admission.{create_job, new_row}
use stockapp.Queue.Requests.{create}
use stockapp.Service.Start.{
  StartRequest, PageSource, State, payload, Meanwhile, reply, create_params, after_insert,
  after_page, after_active, after_key, refuse_page, start_market_daily_batch,
}
use stockapp.Service.Answer.{alone, Refines}
use stockapp.Service.Refinement.{start-Refines}
use stockapp.Service.Replay.{start-again}
use stockapp.Service.Races.{Safe, start-Safe}
use stockapp.Examples.Tables.{daily, no_rows, no_rows-Consistent}

abbrev keyed_request : StartRequest
keyed_request = record {
  business_date = 20000;
  force = false;
  rebuild_page_only = false;
  idempotency_key = some "daily-20000";
}

abbrev nothing_started : State
nothing_started = record { db = no_rows; events = [] }

abbrev no_pages : ℕ → Option PageSource
no_pages date = none

start-Refines_example :
    Refines keyed_request none nothing_started
      (start_market_daily_batch 100 alone no_pages 3 keyed_request nothing_started)
start-Refines_example =
    start-Refines 100 no_pages 3 keyed_request nothing_started no_rows-Consistent

-- Another session starts the date's batch just before the INSERT.
abbrev overtaken : Meanwhile
overtaken = record alone { before_insert = (99, create daily) ∷ [] }

start-Safe_example :
    Safe keyed_request
      (start_market_daily_batch 100 overtaken no_pages 3 keyed_request nothing_started)
start-Safe_example =
    start-Safe 100 overtaken no_pages 3 keyed_request nothing_started
      (record { insert = ((refl, omega arith), tt); lookup = tt; retry = tt; report = tt })
      (omega arith) no_rows-Consistent

abbrev first_row : Job
first_row = new_row 100 1 (create_params 3 keyed_request none)

abbrev after_start : State
after_start =
    (reply true first_row "CREATE_JOB" "Manual market daily batch requested."
      (create_job 100 (create_params 3 keyed_request none) no_rows).1 []).1

starts :
    start_market_daily_batch 100 alone no_pages 3 keyed_request nothing_started
    ≡ (payload first_row true, after_start)
unfolding start_market_daily_batch after_key after_active after_page after_insert refuse_page reply
    stockapp.Queue.Admission.get_job_by_idempotency_key
    stockapp.Queue.Admission.find_active_job_id_for_business_date create_job
    stockapp.Queue.Requests.replay
starts = refl

start-again_example :
    start_market_daily_batch 160 alone no_pages 3 keyed_request after_start
    ≡ (payload first_row false, after_start)
start-again_example =
    start-again 100 160 alone no_pages no_pages 3 3 keyed_request nothing_started after_start
      "daily-20000" first_row true no_rows-Consistent refl starts

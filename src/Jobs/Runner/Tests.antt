-- ===== src/Jobs/Runner/Tests.antt =====
-- runner.py: rounds of the worker at concrete tables.
use mediaferry.Sql.{update, rowcount, get, first_by}
use mediaferry.Jobs.Runner.{calm, attempt, Handled, Texts, fail, settle, ran, run_one, round}
use mediaferry.Jobs.Life.{cancel_call, perform}
use mediaferry.Jobs.Leases.{run}
use mediaferry.Jobs.{
  cancelling, failed, Job, JobStore, JobContext, new_job, start_row, next_queued, claim_next,
  finish_row, finish, settle_row, finish_claimed, request_cancel, last_seq, emit,
}
use mediaferry.Base.{
  String, ◌≡◌, refl, true, false, Option, none, some, [], ◌∷◌, str_eq, if◌then◌else◌,
}

abbrev texts_one : Texts
texts_one = record { unregistered = λ job_type. job_type; failed_with = λ reason. reason }

-- The import is cancelled while it runs, and returns; anything else raises.
abbrev handlers_one : String → Option Handled
handlers_one job_type =
    if str_eq job_type "import"
    then some (record { during = (20, cancel_call "a") ∷ []; ended = 30; failure = none })
    else if str_eq job_type "merge"
    then some (record { during = []; ended = 30; failure = some "broken" })
    else none

abbrev queued_as : String → JobStore
queued_as job_type = record {
  jobs = new_job 5 "a" job_type "{}" ∷ [];
  events = [];
  lease_seconds = 60;
}

abbrev claimed_as : String → Job
claimed_as job_type = start_row 10 "t" 60_000_010 (new_job 5 "a" job_type "{}")

abbrev context_one : JobContext
context_one = record { job_id = "a"; lease_token = "t"; params_json = "{}" }

cancelled_test :
    round texts_one calm handlers_one 10 "t" false true (queued_as "import")
    ≡ ran (record (queued_as "import") {
      jobs = settle_row 30 (record (claimed_as "import") { status = cancelling }) ∷ [];
    })
unfolding round run_one claim_next next_queued first_by settle attempt finish_claimed run perform
    request_cancel get update rowcount
cancelled_test = refl

failed_test :
    round texts_one calm handlers_one 10 "t" false true (queued_as "merge")
    ≡ ran (record {
      jobs = finish_row 30 failed (some "broken") (claimed_as "merge") ∷ [];
      events =
          record {
            job_id = "a";
            seq = 1;
            level = "error";
            message = "broken";
            data_json = none;
            at = 30;
          }
          ∷ [];
      lease_seconds = 60;
    })
unfolding round run_one claim_next next_queued first_by settle attempt fail finish emit last_seq run
    get update rowcount
failed_test = refl

-- ===== src/Jobs/Runner.antt =====
-- app/src/mediaferry/jobs/runner.py: the one worker, a round of its loop at a time. A handler is what
-- happens to the job table while it runs, by itself and by others, and how it ends. Connections,
-- logs and the waiting are not in the model.
pub mod Verdict
mod Tests
use mediaferry.Sql.{
  update, rowcount, get, on_row, hits, or_else, IsKeyed, get-key, get-append, get-update,
  update-IsKeyed, rowcount-key, append-IsKeyed, first_by, first_by-holds, first_by-none,
  first_by-le, first_by-get, update-All,
}
use mediaferry.Jobs.{
  Status, queued, running, cancelling, cancelled, interrupted, succeeded, failed, Job, Event,
  JobStore, JobContext, JobError, lease_lost, integrity, Result, ok, err, key, is_queued,
  is_running, is_cancelling, is_active, holds, expires_after, expires_before, or_now, expiry,
  new_job, enqueue, start_row, claims, claim_row, next_queued, claim_next, owns, assert_lease,
  may_extend, extend_row, one_row, extend_lease, may_finish, finish_row, finish, settled,
  settle_row, finish_claimed, request_cancel, interrupt_row, sweep_interrupted, reap_expired_leases,
  last_seq, new_event, emit, is_cancelled, events,
}
use mediaferry.Jobs.Leases.{History, run}
use mediaferry.Base.{String, ℕ, Bool, true, false, Option, none, some, List, [], ◌∷◌, if◌then◌else◌}

-- The calls on the table until the handler ends, the time of its end, and the text of the exception,
-- if one comes out of it.
pub record Handled : Type 0 where
  pub during : History
  pub ended : ℕ
  pub failure : Option String

-- `unregistered` is the reason that names the type of the job, `failed_with` the text of the event.
pub record Texts : Type 0 where
  pub unregistered : String → String
  pub failed_with : String → String

-- What of the end breaks: the write of the end, of which nothing then stays, or that of the event.
pub data Upset : Type 0 where
  calm finish_breaks emit_breaks : Upset

-- A call goes through, or an exception comes out of it.
pub data Ran : Type 0 where
  ran escaped : JobStore → Ran

abbrev pub emit_after : Bool → Result (Unit {0}) × JobStore → ℕ → JobContext → String → Ran
emit_after breaks (err e, s) now ctx message = escaped s
emit_after true (ok u, s) now ctx message = escaped s
emit_after false (ok u, s) now ctx message = ran (emit now ctx.job_id "error" message none s).1

-- `_fail`: the end first, then the event.
unfoldable pub fail : Texts → Upset → ℕ → JobContext → String → JobStore → Ran
unfolding finish emit
fail texts finish_breaks now ctx reason s = escaped s
fail texts emit_breaks now ctx reason s =
    emit_after true (finish now ctx.job_id ctx.lease_token failed (some reason) s) now ctx
      (texts.failed_with reason)
fail texts calm now ctx reason s =
    emit_after false (finish now ctx.job_id ctx.lease_token failed (some reason) s) now ctx
      (texts.failed_with reason)

abbrev pub outcome : Result Status × JobStore → Ran
outcome (ok status, s) = ran s
outcome (err e, s) = escaped s

abbrev pub succeed : Upset → ℕ → JobContext → JobStore → Ran
succeed finish_breaks now ctx s = escaped s
succeed emit_breaks now ctx s = outcome (finish_claimed now ctx.job_id ctx.lease_token s)
succeed calm now ctx s = outcome (finish_claimed now ctx.job_id ctx.lease_token s)

-- The body of `_settle`.
unfoldable pub attempt : Texts → Upset → ℕ → JobContext → Option String → JobStore → Ran
unfolding fail finish_claimed
attempt texts upset now ctx none s = succeed upset now ctx s
attempt texts upset now ctx (some reason) s = fail texts upset now ctx reason s

-- `except Exception`: what has been written stays.
abbrev pub caught : Ran → Ran
caught (ran s) = ran s
caught (escaped s) = ran s

-- `_settle`
unfoldable pub settle : Texts → Upset → ℕ → JobContext → Option String → JobStore → Ran
unfolding attempt
settle texts upset now ctx failure s = caught (attempt texts upset now ctx failure s)

-- A job of a type that no handler is registered for fails at once.
abbrev pub work_of : Texts → ℕ → Job → Option Handled → Handled
work_of texts now j (some h) = h
work_of texts now j none = record {
  during = [];
  ended = now;
  failure = some (texts.unregistered j.type);
}

abbrev pub run_handled : Texts → Upset → JobContext → Handled → JobStore → Ran
run_handled texts upset ctx h s = settle texts upset h.ended ctx h.failure (run h.during s)

-- `row["type"]` of a row that is not there is a `TypeError`.
abbrev pub run_row :
    Texts → Upset → (String → Option Handled) → ℕ → JobContext → Option Job → JobStore → Ran
run_row texts upset handlers now ctx none s = escaped s
run_row texts upset handlers now ctx (some j) s =
    run_handled texts upset ctx (work_of texts now j (handlers j.type)) s

-- `_run_one`
unfoldable pub run_one : Texts → Upset → (String → Option Handled) → ℕ → JobContext → JobStore → Ran
unfolding settle
run_one texts upset handlers now ctx s =
    run_row texts upset handlers now ctx (get key ctx.job_id s.jobs) s

-- `_reap`
abbrev pub reap : ℕ → JobStore → JobStore
reap now s = (reap_expired_leases now s).1

abbrev pub after_claim :
    Texts → Upset → (String → Option Handled) → ℕ → Bool → Bool → Option JobContext × JobStore → Ran
after_claim texts upset handlers now is_stopping reap_is_due (none, s) =
    ran (if reap_is_due then reap now s else s)
after_claim texts upset handlers now is_stopping reap_is_due (some ctx, s) =
    run_one texts upset handlers now ctx
      (if is_stopping then (request_cancel now ctx.job_id s).1 else s)

-- One round of the loop of `run_forever`.
unfoldable pub round :
    Texts → Upset → (String → Option Handled) → ℕ → String → Bool → Bool → JobStore → Ran
unfolding run_one claim_next reap_expired_leases request_cancel
round texts upset handlers now token is_stopping reap_is_due s =
    after_claim texts upset handlers now is_stopping reap_is_due (claim_next now token s)

-- ===== src/Jobs/Tests.antt =====
-- The theorems on the job table at concrete histories, and runs of its methods.
use mediaferry.Jobs.Pulse.{fine, value, disowned_error, with_lease_pulse, cancel-with_lease_pulse}
use mediaferry.Sql.{update, rowcount, get, first_by}
use mediaferry.Base.{
  ◌≤◌, ◌<◌, ◌≡◌, refl, ap, ◌≢◌, true, false, Option, none, some, [], ◌∷◌, ◌++◌, arith, eq_iff, All,
}
use mediaferry.Jobs.{
  running, or_now, queued, cancelling, cancelled, succeeded, Job, JobStore, JobContext, lease_lost,
  ok, err, key, is_queued, new_job, enqueue, start_row, next_queued, claim_next, assert_lease,
  settle_row, finish_claimed, request_cancel, new_event, emit, events,
}
use mediaferry.Jobs.Life.{claim_call, extend_call, cancel_call, sweep_call, perform}
use mediaferry.Jobs.Leases.{History, run, settled_forever, cancel_is_final, lost_lease_stays_lost}
use mediaferry.Jobs.Claims.{IsSound, perform-IsSound, claim_next-some, claim_next-none}
use mediaferry.Jobs.Events.{events-emit}

abbrev empty : JobStore
empty = record { jobs = []; events = []; lease_seconds = 60 }

abbrev one_queued : JobStore
one_queued = record { jobs = new_job 5 "a" "import" "{}" ∷ []; events = []; lease_seconds = 60 }

abbrev leased : Job
leased = start_row 10 "t" 60_000_010 (new_job 5 "a" "import" "{}")

abbrev one_running : JobStore
one_running = record { jobs = leased ∷ []; events = []; lease_seconds = 60 }

abbrev cancelled_job : Job
cancelled_job = settle_row 20 (record leased { status = cancelling })

abbrev one_cancelled : JobStore
one_cancelled = record { jobs = cancelled_job ∷ []; events = []; lease_seconds = 60 }

enqueue_one : (enqueue 5 "a" "import" "{}" empty).1 ≡ one_queued
unfolding enqueue get
enqueue_one = refl

claim_one :
    claim_next 10 "t" one_queued
    ≡ (some (record { job_id = "a"; lease_token = "t"; params_json = "{}" }), one_running)
unfolding claim_next next_queued first_by update rowcount
claim_one = refl

cancel_then_finish :
    (finish_claimed 20 "a" "t" (request_cancel 15 "a" one_running).1).0 ≡ ok cancelled
unfolding finish_claimed request_cancel get update rowcount
cancel_then_finish = refl

abbrev later : History
later = (30, claim_call "u") ∷ (40, cancel_call "a") ∷ (50, sweep_call) ∷ []

settled_forever_example : get key "a" (run later one_cancelled).jobs ≡ some cancelled_job
unfolding get
settled_forever_example = settled_forever later "a" one_cancelled cancelled_job refl refl

cancel_is_final_example :
    (assert_lease 60 "a" "t" (run later (request_cancel 20 "a" one_running).1) ≡ err lease_lost)
    × ((k : Job)
        → get key "a" (run later (request_cancel 20 "a" one_running).1).jobs ≡ some k
        → k.status ≢ succeeded)
unfolding request_cancel rowcount get update
cancel_is_final_example = cancel_is_final 20 "a" one_running (refl, tt) refl later 60 "t"

lost_lease_stays_lost_example :
    assert_lease 60_000_060 "a" "t"
      (run ((60_000_020, extend_call "a" "t" none) ∷ (60_000_050, claim_call "u") ∷ []) one_running)
    ≡ err lease_lost
unfolding assert_lease get
lost_lease_stays_lost_example =
    lost_lease_stays_lost 60_000_015 "a" "t" one_running leased refl refl
      ((60_000_020, extend_call "a" "t" none) ∷ (60_000_050, claim_call "u") ∷ []) (omega arith)
      ((λ e. cc e), (differ, tt)) 60_000_060 (omega arith)
  where
    differ : claim_call "u" ≡ claim_call "t" → ⊥
    differ e = ground (arith, eq_iff "u" "t")

perform-IsSound_example : IsSound (perform 10 (claim_call "t") one_queued)
unfolding get
perform-IsSound_example = perform-IsSound 10 (claim_call "t") one_queued (record {
  keyed = (refl, tt);
  leased = (record { token_when_active = refl; expiry_with_token = refl }, tt);
})

claim_next-some_example :
    (j : Job) × (get key "a" one_queued.jobs ≡ some j)
    × (j.status ≡ queued)
    × All (λ r. is_queued r.status ≡ true → j.created_at ≤ r.created_at) one_queued.jobs
    × (get key "a" (claim_next 10 "t" one_queued).1.jobs
        ≡ some (record j {
          status = running;
          lease_token = some "t";
          lease_expires_at = some 60_000_010;
          started_at = or_now 10 j.started_at;
        }))
    × (assert_lease 10 "a" "t" (claim_next 10 "t" one_queued).1 ≡ ok tt)
unfolding get
claim_next-some_example =
    claim_next-some 10 "t" one_queued (refl, tt)
      (record { job_id = "a"; lease_token = "t"; params_json = "{}" })
      (ap (λ (r : Option JobContext × JobStore). r.0) claim_one)

claim_next-none_example : All (λ r. is_queued r.status ≡ false) one_cancelled.jobs
unfolding claim_next next_queued first_by get
claim_next-none_example = claim_next-none 10 "t" one_cancelled (refl, tt) refl

events-emit_example :
    (events "a" 0 (emit 10 "a" "info" "m" none one_running).1
      ≡ events "a" 0 one_running ++ new_event 10 "a" "info" "m" none one_running ∷ [])
    × All
        (λ e. e.job_id ≡ "a" → e.seq < (new_event 10 "a" "info" "m" none one_running).seq)
        one_running.events
unfolding emit get
events-emit_example = events-emit 10 "a" "info" "m" none one_running refl "a" 0 (omega arith)

cancel_running : (request_cancel 5 "a" one_running).0 ≡ true
unfolding request_cancel rowcount update
cancel_running = refl

cancel-with_lease_pulse_example :
    with_lease_pulse
      (record { job_id = "a"; lease_token = "t"; params_json = "{}" })
      (record { between = []; now = 20; progress = none; also = fine } ∷ [])
      (value "sent")
      (request_cancel 5 "a" one_running).1
    ≡ disowned_error
unfolding get
cancel-with_lease_pulse_example =
    cancel-with_lease_pulse 5 (record { job_id = "a"; lease_token = "t"; params_json = "{}" })
      one_running (refl, tt) cancel_running
      (record { between = []; now = 20; progress = none; also = fine }) [] (value "sent")

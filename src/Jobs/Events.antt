-- ===== src/Jobs/Events.antt =====
-- The events of a job: `emit` and `events` of app/src/mediaferry/db/jobs.py, which the progress
-- stream reads from the last number that it has seen.
use mediaferry.Base.{
  ℕ, ◌+◌, ◌≤◌, ◌<◌, String, ◌≡◌, refl, ◌&&◌, Option, List, [], ◌∷◌, ◌++◌, arith, str_eq, eq_iff,
  ltb, if◌then◌else◌, keep, All, keep-append,
}
use mediaferry.Jobs.{Event, JobStore, ok, last_seq, new_event, emit, events}

none_after_last :
    (job_id : String) (es : List Event) (n : ℕ)
    → last_seq job_id es ≤ n
    → keep (λ e. str_eq e.job_id job_id && ltb n e.seq) es ≡ []
unfolding last_seq
none_after_last job_id [] n le = refl
none_after_last job_id (e ∷ es) n le = ground (arith, none_after_last job_id es n)

-- A reader that has seen the last number gets nothing.
pub events-last_seq :
    (job_id : String) (s : JobStore) → events job_id (last_seq job_id s.events) s ≡ []
unfolding events
events-last_seq job_id s = none_after_last job_id s.events (last_seq job_id s.events) (omega arith)

below-last_seq :
    (job_id : String) (es : List Event) (n : ℕ)
    → last_seq job_id es ≤ n
    → All (λ e. e.job_id ≡ job_id → e.seq < n + 1) es
unfolding last_seq
below-last_seq job_id [] n le = tt
below-last_seq job_id (e ∷ es) n le =
    (λ same. ground (arith, eq_iff e.job_id job_id), below-last_seq job_id es n (ground arith))

-- A reader that has seen up to `n`, no further than the last number, gets one more event after an
-- `emit` for its job, at the end, with a number of its own; a reader of another job sees no change.
pub events-emit :
    (now : ℕ) (job_id level message : String) (payload : Option String) (s : JobStore)
    → (emit now job_id level message payload s).0 ≡ ok tt
    → (reader : String) (n : ℕ) → n ≤ last_seq reader s.events
    → (events reader n (emit now job_id level message payload s).1
        ≡ events reader n s
          ++ (if str_eq job_id reader
              then new_event now job_id level message payload s ∷ []
              else []))
      × All
          (λ e. e.job_id ≡ job_id → e.seq < (new_event now job_id level message payload s).seq)
          s.events
unfolding events emit
events-emit now job_id level message payload s said reader n le = (
  ground (
    arith,
    said,
    keep-append (λ (e : Event). str_eq e.job_id reader && ltb n e.seq) s.events
        (new_event now job_id level message payload s ∷ []),
    eq_iff job_id reader,
  ),
  below-last_seq job_id s.events (last_seq job_id s.events) (omega arith),
)

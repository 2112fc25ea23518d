-- ===== src/Jobs.antt =====
-- app/src/mediaferry/db/jobs.py: the job table, its leases and its events. Every method is a
-- function from the store, and a method that raises gives back the store that it leaves behind.
-- A time is a number of microseconds (the ISO texts of the table sort as the instants do), and
-- the clock reads of one call return one value, `now`. A fresh id is an argument.
pub mod Life
pub mod Leases
pub mod Claims
pub mod Events
pub mod Pulse
pub mod Runner
mod Tests
use mediaferry.Sql.{update, rowcount, get, first_by}
use mediaferry.Base.{
  ℕ, zero, suc, ◌+◌, ◌-◌, ◌*◌, ◌/◌, ◌%◌, ◌^◌, ◌≤◌, ◌<◌, min, max, String, ◌≡◌, refl, sym, ap, ◌∙◌,
  ◌≢◌, ◌↔◌, ◌⊎◌, inl, inr, Bool, true, false, not, ◌&&◌, ◌||◌, Option, none, some, List, [], ◌∷◌,
  ◌++◌, map, arith, str_eq, eq_iff, eq_refl, ltb, leb, ◌==◌, if◌then◌else◌, ltb→lt, lt→ltb, leb→le,
  ==_iff, tests, Bool-cases, Option-cases, length, get_elem?, length-append, any, all, keep, All,
  All-imp,
}

pub data Status : Type 0 where
  queued running cancelling cancelled interrupted succeeded failed : Status

pub record Job : Type 0 where
  pub id : String
  pub type : String
  pub status : Status
  pub params_json : String
  pub progress_json : Option String
  pub lease_token : Option String
  pub lease_expires_at : Option ℕ
  pub created_at : ℕ
  pub started_at : Option ℕ
  pub finished_at : Option ℕ
  pub error : Option String

pub record Event : Type 0 where
  pub job_id : String
  pub seq : ℕ
  pub level : String
  pub message : String
  pub data_json : Option String
  pub at : ℕ

pub record JobStore : Type 0 where
  pub jobs : List Job
  pub events : List Event
  pub lease_seconds : ℕ

pub record JobContext : Type 0 where
  pub job_id : String
  pub lease_token : String
  pub params_json : String

-- `LeaseLost`, and the `IntegrityError` of a duplicate primary key.
pub data JobError : Type 0 where
  lease_lost integrity : JobError

pub data Result {ℓ} (A : Type ℓ) : Type ℓ where
  ok : A → Result A
  err : JobError → Result A

abbrev pub key : Job → String
key j = j.id

abbrev pub is_queued : Status → Bool
is_queued queued = true
is_queued _ = false

abbrev pub is_running : Status → Bool
is_running running = true
is_running _ = false

abbrev pub is_cancelling : Status → Bool
is_cancelling cancelling = true
is_cancelling _ = false

-- `status IN ('running', 'cancelling')`
abbrev pub is_active : Status → Bool
is_active s = is_running s || is_cancelling s

-- `lease_token = ?`; NULL equals nothing.
abbrev pub holds : String → Option String → Bool
holds token none = false
holds token (some t) = str_eq t token

-- `lease_expires_at > ?`
abbrev pub expires_after : ℕ → Option ℕ → Bool
expires_after now none = false
expires_after now (some t) = ltb now t

-- `lease_expires_at < ?`
abbrev pub expires_before : ℕ → Option ℕ → Bool
expires_before now none = false
expires_before now (some t) = ltb t now

abbrev pub or_now : ℕ → Option ℕ → Option ℕ
or_now now none = some now
or_now now (some t) = some t

abbrev pub expiry : ℕ → JobStore → ℕ
expiry now s = now + s.lease_seconds * 1_000_000

abbrev pub new_job : ℕ → String → String → String → Job
new_job now job_id job_type params = record {
  id = job_id;
  type = job_type;
  status = queued;
  params_json = params;
  progress_json = none;
  lease_token = none;
  lease_expires_at = none;
  created_at = now;
  started_at = none;
  finished_at = none;
  error = none;
}

unfoldable pub enqueue : ℕ → String → String → String → JobStore → Result String × JobStore
enqueue now job_id job_type params s = elim (get key job_id s.jobs) [
  | some _ ↦ (err integrity, s)
  | none ↦ (ok job_id, record s { jobs = s.jobs ++ new_job now job_id job_type params ∷ [] })
]

abbrev pub start_row : ℕ → String → ℕ → Job → Job
start_row now token expires j = record j {
  status = running;
  lease_token = some token;
  lease_expires_at = some expires;
  started_at = or_now now j.started_at;
}

abbrev pub claims : Job → Job → Bool
claims row j = str_eq j.id row.id && is_queued j.status

abbrev pub claim_row : ℕ → String → JobStore → Option Job → Option JobContext × JobStore
claim_row now token s none = (none, s)
claim_row now token s (some row) =
    let s' = record s { jobs = update (claims row) (start_row now token (expiry now s)) s.jobs } in
    let ctx : JobContext = record {
      job_id = row.id;
      lease_token = token;
      params_json = row.params_json;
    } in
    if rowcount (claims row) s.jobs == 1 then (some ctx, s') else (none, s')

-- The oldest queued row, or none.
unfoldable pub next_queued : JobStore → Option Job
next_queued s = first_by (λ j. j.created_at) (λ j. is_queued j.status) s.jobs

-- The write lock is held from the `SELECT` to the `UPDATE`, so both see one table.
unfoldable pub claim_next : ℕ → String → JobStore → Option JobContext × JobStore
claim_next now token s = claim_row now token s (next_queued s)

abbrev pub owns : ℕ → String → Job → Bool
owns now token j =
    holds token j.lease_token && is_running j.status && expires_after now j.lease_expires_at

unfoldable pub assert_lease : ℕ → String → String → JobStore → Result (Unit {0})
assert_lease now job_id token s = elim (get key job_id s.jobs) [
  | none ↦ err lease_lost
  | some j ↦ if owns now token j then ok tt else err lease_lost
]

abbrev pub may_extend : ℕ → String → Job → Bool
may_extend now token j =
    holds token j.lease_token && is_active j.status && expires_after now j.lease_expires_at

-- Without progress the column keeps its value.
abbrev pub extend_row : ℕ → Option String → Job → Job
extend_row expires none j = record j { lease_expires_at = some expires }
extend_row expires (some p) j = record j { lease_expires_at = some expires; progress_json = some p }

abbrev pub one_row : (Job → Bool) → (Job → Job) → JobStore → Result (Unit {0}) × JobStore
one_row p f s = (
  if rowcount p s.jobs == 1 then ok tt else err lease_lost,
  record s { jobs = update p f s.jobs },
)

unfoldable pub extend_lease :
    ℕ → String → String → Option String → JobStore → Result (Unit {0}) × JobStore
extend_lease now job_id token progress s =
    one_row (λ j. str_eq j.id job_id && may_extend now token j) (extend_row (expiry now s) progress)
      s

abbrev pub may_finish : String → Job → Bool
may_finish token j = holds token j.lease_token && is_active j.status

abbrev pub finish_row : ℕ → Status → Option String → Job → Job
finish_row now status error j = record j {
  status = status;
  error = error;
  finished_at = some now;
  progress_json = none;
  lease_token = none;
  lease_expires_at = none;
}

unfoldable pub finish :
    ℕ → String → String → Status → Option String → JobStore → Result (Unit {0}) × JobStore
finish now job_id token status error s =
    one_row (λ j. str_eq j.id job_id && may_finish token j) (finish_row now status error) s

-- `CASE WHEN status = 'cancelling' THEN 'cancelled' ELSE 'succeeded' END`
abbrev pub settled : Status → Status
settled cancelling = cancelled
settled _ = succeeded

abbrev pub settle_row : ℕ → Job → Job
settle_row now j = record j {
  status = settled j.status;
  finished_at = some now;
  lease_token = none;
  lease_expires_at = none;
  progress_json = none;
}

-- The row that `RETURNING status` gives back is the updated one, if there is one.
unfoldable pub finish_claimed : ℕ → String → String → JobStore → Result Status × JobStore
finish_claimed now job_id token s = (
  elim (get key job_id s.jobs) [
    | none ↦ err lease_lost
    | some j ↦ if may_finish token j then ok (settled j.status) else err lease_lost
  ],
  record s {
    jobs = update (λ j. str_eq j.id job_id && may_finish token j) (settle_row now) s.jobs;
  },
)

unfoldable pub request_cancel : ℕ → String → JobStore → Bool × JobStore
request_cancel now job_id s =
    let waiting = λ (j : Job). str_eq j.id job_id && is_queued j.status in
    let busy = λ (j : Job). str_eq j.id job_id && is_running j.status in
    let s' = record s {
      jobs = update waiting (λ j. record j { status = cancelled; finished_at = some now }) s.jobs;
    } in
    if rowcount waiting s.jobs == 1 then (true, s') else (
      rowcount busy s'.jobs == 1,
      record s' { jobs = update busy (λ j. record j { status = cancelling }) s'.jobs },
    )

abbrev pub interrupt_row : ℕ → Job → Job
interrupt_row now j = record j {
  status = interrupted;
  finished_at = some now;
  lease_token = none;
  lease_expires_at = none;
}

unfoldable pub sweep_interrupted : ℕ → JobStore → ℕ × JobStore
sweep_interrupted now s =
    let left = λ (j : Job). is_active j.status in
    (rowcount left s.jobs, record s { jobs = update left (interrupt_row now) s.jobs })

unfoldable pub reap_expired_leases : ℕ → JobStore → ℕ × JobStore
reap_expired_leases now s =
    let left = λ (j : Job). is_active j.status && expires_before now j.lease_expires_at in
    (rowcount left s.jobs, record s { jobs = update left (interrupt_row now) s.jobs })

-- `COALESCE(MAX(seq), 0)` over the events of one job.
unfoldable pub last_seq : String → List Event → ℕ
last_seq job_id [] = 0
last_seq job_id (e ∷ es) =
    let rest = last_seq job_id es in if str_eq e.job_id job_id then max e.seq rest else rest

abbrev pub new_event : ℕ → String → String → String → Option String → JobStore → Event
new_event now job_id level message payload s = record {
  job_id = job_id;
  seq = last_seq job_id s.events + 1;
  level = level;
  message = message;
  data_json = payload;
  at = now;
}

-- An event of a job that is not there violates the foreign key.
unfoldable pub emit :
    ℕ → String → String → String → Option String → JobStore → Result (Unit {0}) × JobStore
emit now job_id level message payload s = elim (get key job_id s.jobs) [
  | none ↦ (err integrity, s)
  | some _ ↦
      (ok tt, record s { events = s.events ++ new_event now job_id level message payload s ∷ [] })
]

-- `JobContext.cancelled`
unfoldable pub is_cancelled : String → JobStore → Bool
is_cancelled job_id s = elim (get key job_id s.jobs) [
  | none ↦ true
  | some j ↦ not (is_running j.status)
]

-- `SELECT * FROM job_event WHERE job_id = ? AND seq > ?`, in the order of `seq` in which `emit` adds.
unfoldable pub events : String → ℕ → JobStore → List Event
events job_id after_seq s = keep (λ e. str_eq e.job_id job_id && ltb after_seq e.seq) s.events

-- ===== src/Jobs/Runner/Verdict.antt =====
-- runner.py: how a job ends that the worker has taken.
use mediaferry.Sql.{get}
use mediaferry.Jobs.Runner.{
  Upset, calm, finish_breaks, emit_breaks, Handled, Texts, Ran, ran, escaped,
}
use mediaferry.Jobs.{
  Status, queued, running, cancelling, cancelled, interrupted, succeeded, failed, Job, JobStore,
  JobContext, key, is_active, may_finish, new_event,
}
use mediaferry.Jobs.Leases.{run}
use mediaferry.Base.{ℕ, String, ◌≡◌, ◌⊎◌, true, Option, none, some, [], ◌∷◌, ◌++◌, if◌then◌else◌}

-- The life of a job, as its status shows it.
pub data Moves (s : Status) (t : Status) : Type 0 where
  start : s ≡ queued → t ≡ running → Moves s t
  drop : s ≡ queued → t ≡ cancelled → Moves s t
  ask : s ≡ running → t ≡ cancelling → Moves s t
  succeed : s ≡ running → t ≡ succeeded → Moves s t
  stop : s ≡ cancelling → t ≡ cancelled → Moves s t
  fail_step : is_active s ≡ true → t ≡ failed → Moves s t
  lose : is_active s ≡ true → t ≡ interrupted → Moves s t

pub data Reaches (s : Status) : Status → Type 0 where
  here : Reaches s s
  next : {t u : Status} → Reaches s t → Moves t u → Reaches s u

abbrev Stays : Status → Status → Type 0
Stays s t = (t ≡ s) ⊎ Moves s t

abbrev pub end_status : Status → Status
end_status cancelling = cancelled
end_status _ = succeeded

-- The row of a job that ends: as a failure with its reason, or as its status says.
abbrev pub end_row : ℕ → Option String → Job → Job
end_row now none j = record j {
  status = end_status j.status;
  finished_at = some now;
  lease_token = none;
  lease_expires_at = none;
  progress_json = none;
}
end_row now (some reason) j = record j {
  status = failed;
  error = some reason;
  finished_at = some now;
  lease_token = none;
  lease_expires_at = none;
  progress_json = none;
}

-- What becomes of the row: it ends if the token still owns it, and stays as it is if not, or if its
-- end cannot be written.
abbrev pub verdict : Upset → ℕ → String → Option String → Job → Job
verdict finish_breaks now token failure j = j
verdict emit_breaks now token failure j = if may_finish token j then end_row now failure j else j
verdict calm now token failure j = if may_finish token j then end_row now failure j else j

abbrev store_of : Ran → JobStore
store_of (ran s) = s
store_of (escaped s) = s

-- The events: a job that fails says so, after its end has been written, unless one of the two breaks.
abbrev pub IsAnnounced :
    Texts → Upset → ℕ → JobContext → Option String → Job → JobStore → JobStore → Type 0
IsAnnounced texts upset now ctx none k s s' = s'.events ≡ s.events
IsAnnounced texts finish_breaks now ctx (some reason) k s s' = s'.events ≡ s.events
IsAnnounced texts emit_breaks now ctx (some reason) k s s' = s'.events ≡ s.events
IsAnnounced texts calm now ctx (some reason) k s s' = s'.events ≡ (
    if may_finish ctx.lease_token k
    then s.events ++ (new_event now ctx.job_id "error" (texts.failed_with reason) none s ∷ [])
    else s.events)

-- The round of a job that the worker has taken: no exception comes out of it, and the row is what the
-- verdict makes of the row at the handler's end.
abbrev pub IsVerdict : Texts → Upset → Handled → JobContext → Job → JobStore → Ran → Type 0
IsVerdict texts upset h ctx j s (escaped s') = ⊥
IsVerdict texts upset h ctx j s (ran s') =
    (k : Job) × (get key ctx.job_id (run h.during s).jobs ≡ some k)
    × (get key ctx.job_id s'.jobs ≡ some (verdict upset h.ended ctx.lease_token h.failure k))
    × Reaches j.status (verdict upset h.ended ctx.lease_token h.failure k).status
    × IsAnnounced texts upset h.ended ctx h.failure k (run h.during s) s'

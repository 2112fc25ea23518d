-- ===== src/Jobs/Pulse.antt =====
-- app/src/mediaferry/core/lease_pulse.py: the heartbeats during work that cannot be stopped. The work is
-- what it comes to and the beats that fall within it; between two beats others call the store.
-- An error that is no loss of ownership leaves the loop at once.
use mathlib.Core.Path.{subst}
use mediaferry.Base.{ℕ, String, ◌≡◌, refl, sym, ap, true, Option, List, [], ◌∷◌}
use mediaferry.Sql.{IsKeyed}
use mediaferry.Jobs.{
  Result, ok, err, lease_lost, JobStore, JobContext, assert_lease, extend_lease, request_cancel,
  key,
}
use mediaferry.Jobs.Leases.{History, run, cancel_is_final}

-- What `also` does: nothing, or an error of `ownership_errors`, or another.
pub data Also : Type 0 where
  fine disowned broken : Also

-- What others do before the beat, its time, its progress, and `also`.
pub record Beat : Type 0 where
  pub between : History
  pub now : ℕ
  pub progress : Option String
  pub also : Also

pub data Work : Type 0 where
  value : String → Work
  failure : String → Work

-- `disowned_error` is the loss of ownership, raised when the work is done; `escaped` leaves the work running.
pub data Outcome : Type 0 where
  returned : String → Outcome
  raised : String → Outcome
  disowned_error escaped : Outcome

pub data Pulse : Type 0 where
  beating lost out : Pulse

abbrev pub also_pulse : Also → Pulse
also_pulse fine = beating
also_pulse disowned = lost
also_pulse broken = out

abbrev pub beaten : Result (Unit {0}) → Also → Pulse
beaten (ok _) also = also_pulse also
beaten (err _) also = lost

abbrev pub extend_after : Result (Unit {0}) → JobContext → Beat → JobStore → Pulse × JobStore
extend_after (err _) ctx b s = (lost, s)
extend_after (ok _) ctx b s =
    let (r, s') = extend_lease b.now ctx.job_id ctx.lease_token b.progress s in
    (beaten r b.also, s')

-- `assert_lease`, then the heartbeat, then `also`.
unfoldable pub beat : JobContext → Beat → JobStore → Pulse × JobStore
unfolding assert_lease extend_lease
beat ctx b s = extend_after (assert_lease b.now ctx.job_id ctx.lease_token s) ctx b s

abbrev pub finish_work : Pulse → Work → Outcome
finish_work beating (value v) = returned v
finish_work beating (failure e) = raised e
finish_work lost w = disowned_error
finish_work out w = escaped

-- The loop: after a loss it only waits.
unfoldable pub pulse : JobContext → Pulse → List Beat → JobStore → Pulse × JobStore
unfolding beat
pulse ctx p [] s = (p, s)
pulse ctx lost (b ∷ bs) s = pulse ctx lost bs (run b.between s)
pulse ctx out (b ∷ bs) s = (out, s)
pulse ctx beating (b ∷ bs) s =
    pulse ctx (beat ctx b (run b.between s)).0 bs (beat ctx b (run b.between s)).1

unfoldable pub with_lease_pulse : JobContext → List Beat → Work → JobStore → Outcome
unfolding pulse
with_lease_pulse ctx bs w s = finish_work (pulse ctx beating bs s).0 w

lost_waits : (ctx : JobContext) (bs : List Beat) (s : JobStore) → (pulse ctx lost bs s).0 ≡ lost
unfolding pulse
lost_waits ctx [] s = refl
lost_waits ctx (b ∷ bs) s = lost_waits ctx bs (run b.between s)

beat-lost :
    (ctx : JobContext) (b : Beat) (s : JobStore)
    → assert_lease b.now ctx.job_id ctx.lease_token s ≡ err lease_lost
    → (beat ctx b s).0 ≡ lost
unfolding beat
beat-lost ctx b s e = rw e refl

-- A first beat that finds the lease lost decides the end.
pulse-lost :
    (ctx : JobContext) (b : Beat) (bs : List Beat) (s : JobStore)
    → (beat ctx b (run b.between s)).0 ≡ lost
    → (pulse ctx beating (b ∷ bs) s).0 ≡ lost
unfolding pulse
pulse-lost ctx b bs s e =
    subst (λ p. (pulse ctx p bs (beat ctx b (run b.between s)).1).0 ≡ lost) (sym e)
      (lost_waits ctx bs (beat ctx b (run b.between s)).1)

-- Once a cancel of the job has been answered with `true`, the work does not return its value if
-- one beat falls within it, whatever others do: the loss of ownership is raised, after the work
-- is done; the keys of the jobs are unique.
pub cancel-with_lease_pulse :
    (asked : ℕ) (ctx : JobContext) (s : JobStore)
    → IsKeyed key s.jobs
    → (request_cancel asked ctx.job_id s).0 ≡ true
    → (b : Beat) (bs : List Beat) (w : Work)
    → with_lease_pulse ctx (b ∷ bs) w (request_cancel asked ctx.job_id s).1 ≡ disowned_error
unfolding with_lease_pulse
cancel-with_lease_pulse asked ctx s keyed said b bs w =
    let after = (request_cancel asked ctx.job_id s).1 in
    let shut = (cancel_is_final asked ctx.job_id s keyed said b.between b.now ctx.lease_token).0 in
    ap (λ p. finish_work p w)
      (pulse-lost ctx b bs after (beat-lost ctx b (run b.between after) shut))

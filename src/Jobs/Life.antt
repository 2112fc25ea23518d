-- ===== src/Jobs/Life.antt =====
-- The life of one row of the job table: what any method may do to it, as a relation.
use mediaferry.Sql.{update, rowcount, get, get-update, get-append}
use mediaferry.Base.{
  ℕ, ◌≤◌, String, ◌≡◌, refl, inl, inr, Bool, true, ◌&&◌, Option, none, some, [], ◌∷◌, arith, str_eq,
  ◌==◌, if◌then◌else◌, Bool-cases,
}
use mediaferry.Jobs.{
  queued, running, cancelling, cancelled, failed, Job, JobStore, key, is_queued, is_running,
  is_active, expires_before, expiry, new_job, start_row, claims, claim_row, next_queued, may_extend,
  extend_row, may_finish, finish_row, settle_row, interrupt_row, enqueue, claim_next, extend_lease,
  finish, finish_claimed, request_cancel, sweep_interrupted, reap_expired_leases, emit,
}

-- One call of a method. The runner calls `finish` with the status `failed` alone.
pub data Call : Type 0 where
  enqueue_call : String → String → String → Call
  claim_call : String → Call
  extend_call : String → String → Option String → Call
  fail_call : String → String → Option String → Call
  finish_claimed_call : String → String → Call
  cancel_call : String → Call
  sweep_call : Call
  reap_call : Call
  emit_call : String → String → String → Option String → Call

unfoldable pub perform : ℕ → Call → JobStore → JobStore
unfolding enqueue claim_next extend_lease finish finish_claimed request_cancel sweep_interrupted
    reap_expired_leases emit
perform now (enqueue_call i type params) s = (enqueue now i type params s).1
perform now (claim_call token) s = (claim_next now token s).1
perform now (extend_call i token progress) s = (extend_lease now i token progress s).1
perform now (fail_call i token error) s = (finish now i token failed error s).1
perform now (finish_claimed_call i token) s = (finish_claimed now i token s).1
perform now (cancel_call i) s = (request_cancel now i s).1
perform now sweep_call s = (sweep_interrupted now s).1
perform now reap_call s = (reap_expired_leases now s).1
perform now (emit_call i level message payload) s = (emit now i level message payload s).1

-- What one call, at time `now`, may make of the row `j`.
pub data RowStep (now : ℕ) (c : Call) (j : Job) (k : Job) : Type 0 where
  untouched : k ≡ j → RowStep now c j k
  claimed :
      (token : String) (t : ℕ)
      → c ≡ claim_call token
      → now ≤ t
      → j.status ≡ queued
      → k ≡ start_row now token t j
      → RowStep now c j k
  extended :
      (token : String) (t : ℕ) (p : Option String)
      → now ≤ t
      → may_extend now token j ≡ true
      → k ≡ extend_row t p j
      → RowStep now c j k
  failed_row :
      (token : String) (e : Option String)
      → may_finish token j ≡ true
      → k ≡ finish_row now failed e j
      → RowStep now c j k
  settled_row :
      (token : String) → may_finish token j ≡ true → k ≡ settle_row now j → RowStep now c j k
  dropped :
      j.status ≡ queued
      → k ≡ record j { status = cancelled; finished_at = some now }
      → RowStep now c j k
  asked : j.status ≡ running → k ≡ record j { status = cancelling } → RowStep now c j k
  lost : is_active j.status ≡ true → k ≡ interrupt_row now j → RowStep now c j k

module _ {now : ℕ} {c : Call} where
  -- A guarded update of a row is a row step, if its update is one where the guard holds.
  guarded :
      (p : Job → Bool) (f : Job → Job) (j : Job)
      → (p j ≡ true → RowStep now c j (f j))
      → RowStep now c j (if p j then f j else j)
  guarded p f j h = elim (Bool-cases (p j)) [ inl e ↦ rw e (h e) | inr e ↦ rw e (untouched refl) ]

abbrev After : ℕ → Call → String → Job → JobStore → Type 0
After now c i j s = (k : Job) × (get key i s.jobs ≡ some k) × RowStep now c j k

module _ (now : ℕ) (c : Call) (i : String) (j : Job) (s : JobStore)
    (here : get key i s.jobs ≡ some j) where
  updated :
      (p : Job → Bool) (f : Job → Job)
      → ((r : Job) → (f r).id ≡ r.id)
      → (p j ≡ true → RowStep now c j (f j))
      → After now c i j (record s { jobs = update p f s.jobs })
  updated p f keeps h =
      ((if p j then f j else j), rw (get-update key p f keeps i s.jobs) (rw here), guarded p f j h)

  claim-After :
      (token : String)
      → c ≡ claim_call token
      → (o : Option Job) → After now c i j (claim_row now token s o).1
  claim-After token e none = (j, here, untouched refl)
  claim-After token e (some row) = rw (branches token row) (
      updated (claims row) (start_row now token (expiry now s)) (λ r. refl)
        λ h. claimed token (expiry now s) e (omega arith) (queued_of row j h) refl)
    where
      branches :
          (token : String) (row : Job)
          → (claim_row now token s (some row)).1
            ≡ record s { jobs = update (claims row) (start_row now token (expiry now s)) s.jobs }
      branches token row = ground arith

      queued_of : (row r : Job) → claims row r ≡ true → r.status ≡ queued
      queued_of row r h = ground arith

abbrev pub waits : String → Job → Bool
waits i j = str_eq j.id i && is_queued j.status

abbrev pub busy : String → Job → Bool
busy i j = str_eq j.id i && is_running j.status

abbrev pub drop_row : ℕ → Job → Job
drop_row now j = record j { status = cancelled; finished_at = some now }

abbrev pub ask_row : Job → Job
ask_row j = record j { status = cancelling }

module _ (now : ℕ) (c : Call) (i : String) (j : Job) (s : JobStore)
    (here : get key i s.jobs ≡ some j) where
  both_updates :
      (job_id : String)
      → After now c i j (record s {
        jobs = update (busy job_id) ask_row (update (waits job_id) (drop_row now) s.jobs);
      })
  both_updates job_id = (
    (let k = if waits job_id j then drop_row now j else j in
        if busy job_id k then ask_row k else k),
    rw
        (get-update key (busy job_id) ask_row (λ r. refl) i
          (update (waits job_id) (drop_row now) s.jobs))
        (rw (get-update key (waits job_id) (drop_row now) (λ r. refl) i s.jobs) (rw here)),
    row_moved,
  )
    where
      row_moved : RowStep now c j (
          let k = if waits job_id j then drop_row now j else j in
          if busy job_id k then ask_row k else k)
      row_moved = elim (Bool-cases (waits job_id j)) [
        | inl e ↦ dropped (ground arith) (ground (arith, e))
        | inr e ↦ elim (Bool-cases (busy job_id j)) [
          | inl b ↦ asked (ground arith) (ground (arith, e, b))
          | inr b ↦ untouched (ground (arith, e, b))
        ]
      ]

  cancel-After : (job_id : String) → After now c i j (request_cancel now job_id s).1
  unfolding request_cancel
  cancel-After job_id = elim (Bool-cases (rowcount (waits job_id) s.jobs == 1)) [
    | inl e ↦ rw e (
        updated now c i j s here (waits job_id) (drop_row now) (λ r. refl)
          (λ h. dropped (ground arith) refl))
    | inr e ↦ rw e (both_updates job_id)
  ]

pub extend_row-id : (t : ℕ) (p : Option String) (r : Job) → (extend_row t p r).id ≡ r.id
extend_row-id t none r = refl
extend_row-id t (some p) r = refl

-- Whatever the call, the row that was there is there still, and a row step has moved it.
pub perform-After :
    (now : ℕ) (c : Call) (i : String) (j : Job) (s : JobStore)
    → get key i s.jobs ≡ some j
    → (k : Job) × (get key i (perform now c s).jobs ≡ some k) × RowStep now c j k
unfolding perform
perform-After now (enqueue_call a b p) i j s h =
    (j, ground (arith, get-append key i s.jobs (new_job now a b p ∷ [])), untouched refl)
perform-After now (claim_call t) i j s h =
    claim-After now (claim_call t) i j s h t refl (next_queued s)
perform-After now (extend_call a t p) i j s h =
    updated now (extend_call a t p) i j s h (λ r. str_eq r.id a && may_extend now t r)
      (extend_row (expiry now s) p) (extend_row-id (expiry now s) p)
      λ e. extended t (expiry now s) p (omega arith) (ground arith) refl
perform-After now (fail_call a t e) i j s h =
    updated now (fail_call a t e) i j s h (λ r. str_eq r.id a && may_finish t r)
      (finish_row now failed e) (λ r. refl) λ q. failed_row t e (ground arith) refl
perform-After now (finish_claimed_call a t) i j s h =
    updated now (finish_claimed_call a t) i j s h (λ r. str_eq r.id a && may_finish t r)
      (settle_row now) (λ r. refl) λ q. settled_row t (ground arith) refl
perform-After now (cancel_call a) i j s h = cancel-After now (cancel_call a) i j s h a
perform-After now sweep_call i j s h =
    updated now sweep_call i j s h (λ r. is_active r.status) (interrupt_row now) (λ r. refl)
      (λ e. lost e refl)
perform-After now reap_call i j s h =
    updated now reap_call i j s h (λ r. is_active r.status && expires_before now r.lease_expires_at)
      (interrupt_row now) (λ r. refl) (λ e. lost (ground arith) refl)
perform-After now (emit_call a b m p) i j s h = (j, ground arith, untouched refl)

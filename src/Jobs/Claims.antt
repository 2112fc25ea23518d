-- ===== src/Jobs/Claims.antt =====
-- `claim_next` and the invariant of the job table (app/src/mediaferry/db/jobs.py).
use mediaferry.Sql.{
  update, rowcount, get, on_row, hits, IsKeyed, get-update, update-IsKeyed, rowcount-key,
  append-IsKeyed, first_by-holds, first_by-none, first_by-le, first_by-get, update-All,
}
use mediaferry.Base.{
  ℕ, ◌+◌, ◌*◌, ◌≤◌, String, ◌≡◌, refl, inl, inr, Bool, true, false, ◌&&◌, Option, none, some, [],
  ◌∷◌, arith, str_eq, eq_iff, ltb, ◌==◌, if◌then◌else◌, Bool-cases, Option-cases, All, All-append,
}
use mediaferry.Jobs.{
  running, or_now, queued, failed, Job, JobStore, JobContext, lease_lost, ok, err, key, is_queued,
  is_active, expires_before, expiry, new_job, enqueue, start_row, claims, claim_row, next_queued,
  claim_next, assert_lease, may_extend, extend_row, may_finish, finish_row, settle_row,
  request_cancel, interrupt_row, emit,
}
use mediaferry.Jobs.Life.{
  Call, enqueue_call, claim_call, extend_call, fail_call, finish_claimed_call, cancel_call,
  sweep_call, reap_call, emit_call, perform, waits, busy, drop_row, ask_row, extend_row-id,
}

abbrev is_some {ℓ} : {A : Type ℓ} → Option A → Bool
is_some none = false
is_some (some a) = true

-- A row has a lease, with its time, exactly while its status is `running` or `cancelling`.
pub record IsLeased (j : Job) : Type 0 where
  pub token_when_active : is_some j.lease_token ≡ is_active j.status
  pub expiry_with_token : is_some j.lease_expires_at ≡ is_some j.lease_token

pub record IsSound (s : JobStore) : Type 0 where
  pub keyed : IsKeyed key s.jobs
  pub leased : All IsLeased s.jobs

module _ (s : JobStore) (h : IsSound s) where
  updated-IsSound :
      (p : Job → Bool) (f : Job → Job)
      → ((r : Job) → (f r).id ≡ r.id)
      → ((r : Job) → p r ≡ true → IsLeased r → IsLeased (f r))
      → IsSound (record s { jobs = update p f s.jobs })
  updated-IsSound p f keeps lease = record {
    keyed = update-IsKeyed key p f keeps s.jobs h.keyed;
    leased = update-All p f s.jobs lease h.leased;
  }

  claim_row-IsSound :
      (now : ℕ) (token : String) (o : Option Job) → IsSound (claim_row now token s o).1
  claim_row-IsSound now token none = h
  claim_row-IsSound now token (some row) = elim (Bool-cases (rowcount (claims row) s.jobs == 1)) [
    | inl e ↦ rw e (
        updated-IsSound (claims row) (start_row now token (expiry now s)) (λ r. refl)
          (λ r c l. ground arith))
    | inr e ↦ rw e (
        updated-IsSound (claims row) (start_row now token (expiry now s)) (λ r. refl)
          (λ r c l. ground arith))
  ]

  enqueue-IsSound : (now : ℕ) (a b p : String) → IsSound (enqueue now a b p s).1
  unfolding enqueue
  enqueue-IsSound now a b p = elim (Option-cases (get key a s.jobs)) [
    | inl e ↦
        rw (e, enqueue)
          (record {
            keyed = append-IsKeyed key s.jobs (new_job now a b p) h.keyed e;
            leased =
                All-append IsLeased s.jobs (new_job now a b p ∷ []) h.leased
                  (record { token_when_active = refl; expiry_with_token = refl }, tt);
          })
    | inr (r, e) ↦ rw (e, enqueue) h
  ]

module _ (now : ℕ) (s : JobStore) (h : IsSound s) where
  cancel-IsSound : (i : String) → IsSound (request_cancel now i s).1
  unfolding request_cancel
  cancel-IsSound i =
      let s' : IsSound (record s { jobs = update (waits i) (drop_row now) s.jobs }) =
        updated-IsSound s h (waits i) (drop_row now) (λ r. refl) (λ r c l. ground arith) in
      elim (Bool-cases (rowcount (waits i) s.jobs == 1)) [
        | inl e ↦ rw e s'
        | inr e ↦ rw e (
            updated-IsSound (record s { jobs = update (waits i) (drop_row now) s.jobs }) s' (busy i)
              ask_row (λ r. refl) (λ r c l. ground arith))
      ]

  emit-IsSound :
      (i level message : String) (p : Option String) → IsSound (emit now i level message p s).1
  unfolding emit
  emit-IsSound i level message p = elim (Option-cases (get key i s.jobs)) [
    | inl e ↦ rw (e, emit) h
    | inr (r, e) ↦ rw (e, emit) (record { keyed = h.keyed; leased = h.leased })
  ]

extend_row-IsLeased :
    (t : ℕ) (token : String) (now : ℕ) (a : String) (p : Option String) (r : Job)
    → (str_eq r.id a && may_extend now token r) ≡ true
    → IsLeased r
    → IsLeased (extend_row t p r)
extend_row-IsLeased t token now a none r c l = ground arith
extend_row-IsLeased t token now a (some x) r c l = ground arith

-- Every call keeps the table sound: keys are unique, and a row has a token and a time of expiry
-- exactly while it is running or cancelling.
pub perform-IsSound : (now : ℕ) (c : Call) (s : JobStore) → IsSound s → IsSound (perform now c s)
unfolding perform
perform-IsSound now (enqueue_call a b p) s h = enqueue-IsSound s h now a b p
perform-IsSound now (claim_call t) s h = claim_row-IsSound s h now t (next_queued s)
perform-IsSound now (extend_call a t p) s h =
    updated-IsSound s h (λ r. str_eq r.id a && may_extend now t r) (extend_row (expiry now s) p)
      (extend_row-id (expiry now s) p) (extend_row-IsLeased (expiry now s) t now a p)
perform-IsSound now (fail_call a t e) s h =
    updated-IsSound s h (λ r. str_eq r.id a && may_finish t r) (finish_row now failed e) (λ r. refl)
      (λ r c l. ground arith)
perform-IsSound now (finish_claimed_call a t) s h =
    updated-IsSound s h (λ r. str_eq r.id a && may_finish t r) (settle_row now) (λ r. refl)
      (λ r c l. ground arith)
perform-IsSound now (cancel_call a) s h = cancel-IsSound now s h a
perform-IsSound now sweep_call s h =
    updated-IsSound s h (λ r. is_active r.status) (interrupt_row now) (λ r. refl)
      (λ r c l. ground arith)
perform-IsSound now reap_call s h =
    updated-IsSound s h (λ r. is_active r.status && expires_before now r.lease_expires_at)
      (interrupt_row now) (λ r. refl) (λ r c l. ground arith)
perform-IsSound now (emit_call a b m p) s h = emit-IsSound now s h a b m p

module _ (now : ℕ) (token : String) (s : JobStore) (keyed : IsKeyed key s.jobs) where
  claimed_count :
      (row : Job)
      → rowcount (claims row) s.jobs ≡ hits (λ r. is_queued r.status) (get key row.id s.jobs)
  claimed_count row = rowcount-key key row.id (λ r. is_queued r.status) s.jobs keyed

  claimed_row :
      (row : Job)
      → next_queued s ≡ some row
      → (get key row.id s.jobs ≡ some row) × (is_queued row.status ≡ true)
  unfolding next_queued
  claimed_row row e = (
    first_by-get (λ j. j.created_at) key (λ j. is_queued j.status) s.jobs row keyed e,
    first_by-holds (λ j. j.created_at) (λ j. is_queued j.status) s.jobs row e,
  )

  claimed_get :
      (row : Job)
      → get key row.id (update (claims row) (start_row now token (expiry now s)) s.jobs)
        ≡ on_row
            (λ r. if claims row r then start_row now token (expiry now s) r else r)
            (get key row.id s.jobs)
  claimed_get row =
      get-update key (claims row) (start_row now token (expiry now s)) (λ r. refl) row.id s.jobs

  stored :
      (row : Job)
      → next_queued s ≡ some row
      → get key row.id (claim_next now token s).1.jobs
        ≡ some (start_row now token (expiry now s) row)
  unfolding claim_next
  stored row e =
      ground (arith, e, claimed_row row e, claimed_get row, claimed_count row, eq_iff row.id row.id)

  given :
      (row : Job) (c : JobContext)
      → next_queued s ≡ some row
      → (claim_next now token s).0 ≡ some c
      → c.job_id ≡ row.id
  unfolding claim_next
  given row c e h = ground (arith, e, h)

  asserted :
      (row : Job)
      → next_queued s ≡ some row
      → assert_lease now row.id token (claim_next now token s).1
        ≡ (if ltb 0 s.lease_seconds then ok tt else err lease_lost)
  unfolding assert_lease
  asserted row e = ground (arith, stored row e, eq_iff token token)

  oldest :
      (row : Job)
      → next_queued s ≡ some row
      → All (λ r. is_queued r.status ≡ true → row.created_at ≤ r.created_at) s.jobs
  unfolding next_queued
  oldest row e = first_by-le (λ j. j.created_at) (λ j. is_queued j.status) s.jobs row e

  -- A claim that gives a context has taken a queued job that no queued job is older than, and has
  -- written on its row that it runs, the token, the time of expiry and, unless one was there, the time
  -- of its start; the new token passes `assert_lease` at once if a lease lasts at all. The keys are
  -- unique.
  pub claim_next-some :
      (c : JobContext)
      → (claim_next now token s).0 ≡ some c
      → (j : Job) × (get key c.job_id s.jobs ≡ some j)
        × (j.status ≡ queued)
        × All (λ r. is_queued r.status ≡ true → j.created_at ≤ r.created_at) s.jobs
        × (get key c.job_id (claim_next now token s).1.jobs
            ≡ some (record j {
              status = running;
              lease_token = some token;
              lease_expires_at = some (now + s.lease_seconds * 1_000_000);
              started_at = or_now now j.started_at;
            }))
        × (assert_lease now c.job_id token (claim_next now token s).1
            ≡ (if ltb 0 s.lease_seconds then ok tt else err lease_lost))
  unfolding claim_next
  claim_next-some c h = elim (Option-cases (next_queued s)) [
    | inl e ↦ absurd (ground (arith, e))
    | inr (row, e) ↦ rw (given row c e h) (
      row,
      (claimed_row row e).0,
      ground (arith, claimed_row row e),
      oldest row e,
      stored row e,
      asserted row e,
    )
  ]

  -- A claim that takes nothing means that no job is queued.
  pub claim_next-none :
      (claim_next now token s).0 ≡ none → All (λ r. is_queued r.status ≡ false) s.jobs
  unfolding claim_next next_queued
  claim_next-none h = elim (Option-cases (next_queued s)) [
    | inl e ↦ first_by-none (λ j. j.created_at) (λ j. is_queued j.status) s.jobs e
    | inr (row, e) ↦ absurd (ground (arith, e, claimed_count row, claimed_row row e))
  ]

-- ===== src/Jobs/Leases.antt =====
-- What a lease promises over any history of calls, by any workers: the methods of `JobStore`
-- (app/src/mediaferry/db/jobs.py) in sequence.
use mediaferry.Sql.{
  update, rowcount, get, on_row, hits, IsKeyed, get-key, get-update, update-IsKeyed, rowcount-key,
}
use mediaferry.Base.{
  ℕ, ◌≤◌, String, ◌≡◌, refl, ap, ◌∙◌, ◌≢◌, inl, inr, Bool, true, false, none, some, List, [], ◌∷◌,
  arith, eq_iff, if◌then◌else◌, Bool-cases, Option-cases,
}
use mediaferry.Jobs.{
  Status, cancelling, cancelled, interrupted, succeeded, failed, Job, JobStore, lease_lost, err,
  key, is_queued, is_running, owns, assert_lease, request_cancel,
}
use mediaferry.Jobs.Life.{
  Call, claim_call, perform, RowStep, untouched, claimed, extended, failed_row, settled_row,
  dropped, asked, lost, waits, busy, drop_row, ask_row, perform-After,
}

-- A history: calls with the times at which they ran.
abbrev pub History : Type 0
History = List (ℕ × Call)

unfoldable pub run : History → JobStore → JobStore
run [] s = s
run ((now, c) ∷ h) s = run h (perform now c s)

-- The clock never goes back.
abbrev pub InOrder : ℕ → History → Type 0
InOrder from [] = Unit
InOrder from ((now, c) ∷ h) = (from ≤ now) × InOrder now h

-- `new_id` never gives this token again.
abbrev pub IsFresh : String → History → Type 0
IsFresh token [] = Unit
IsFresh token ((now, c) ∷ h) = (c ≢ claim_call token) × IsFresh token h

-- A predicate on rows that every row step keeps holds of the row after any history.
module _ (P : Job → Type 0)
    (keeps : (now : ℕ) (c : Call) (j k : Job) → RowStep now c j k → P j → P k) where
  pub run_keeps :
      (h : History) (i : String) (s : JobStore) (j : Job)
      → get key i s.jobs ≡ some j
      → P j
      → (k : Job) × (get key i (run h s).jobs ≡ some k) × P k
  unfolding run
  run_keeps [] i s j here p = (j, here, p)
  run_keeps ((now, c) ∷ h) i s j here p =
      let (k, there, moved) = perform-After now c i j s here in
      run_keeps h i (perform now c s) k there (keeps now c j k moved p)

abbrev pub is_settled : Status → Bool
is_settled cancelled = true
is_settled interrupted = true
is_settled succeeded = true
is_settled failed = true
is_settled _ = false

settled_stays :
    (j : Job) (now : ℕ) (c : Call) (k l : Job)
    → RowStep now c k l
    → (k ≡ j) × (is_settled j.status ≡ true)
    → (l ≡ j) × (is_settled j.status ≡ true)
settled_stays j now c k l (untouched e) p = (e ∙ p.0, p.1)
settled_stays j now c k l (claimed token t a b q e) p = ground arith
settled_stays j now c k l (extended token t o b q e) p = ground arith
settled_stays j now c k l (failed_row token o q e) p = ground arith
settled_stays j now c k l (settled_row token q e) p = ground arith
settled_stays j now c k l (dropped q e) p = ground arith
settled_stays j now c k l (asked q e) p = ground arith
settled_stays j now c k l (lost q e) p = ground arith

-- A row that is cancelled, interrupted, succeeded or failed is the same row after any calls.
pub settled_forever :
    (h : History) (i : String) (s : JobStore) (j : Job)
    → get key i s.jobs ≡ some j
    → is_settled j.status ≡ true
    → get key i (run h s).jobs ≡ some j
settled_forever h i s j here t =
    let (k, there, same) =
      run_keeps (λ k. (k ≡ j) × (is_settled j.status ≡ true)) (settled_stays j) h i s j here
        (refl, t) in
    there ∙ ap some same.0

abbrev pub is_stopping : Status → Bool
is_stopping cancelling = true
is_stopping cancelled = true
is_stopping interrupted = true
is_stopping failed = true
is_stopping _ = false

stopping_stays :
    (now : ℕ) (c : Call) (j k : Job)
    → RowStep now c j k
    → is_stopping j.status ≡ true
    → is_stopping k.status ≡ true
stopping_stays now c j k (untouched e) p = ground arith
stopping_stays now c j k (claimed token t a b q e) p = ground arith
stopping_stays now c j k (extended token t none b q e) p = ground arith
stopping_stays now c j k (extended token t (some x) b q e) p = ground arith
stopping_stays now c j k (failed_row token o q e) p = ground arith
stopping_stays now c j k (settled_row token q e) p = ground arith
stopping_stays now c j k (dropped q e) p = ground arith
stopping_stays now c j k (asked q e) p = ground arith
stopping_stays now c j k (lost q e) p = ground arith

-- A cancel that is answered with `true` leaves the row on the way to an end.
module _ (now : ℕ) (i : String) (s : JobStore) (keyed : IsKeyed key s.jobs) where
  abbrev dropped_jobs : List Job
  dropped_jobs = update (waits i) (drop_row now) s.jobs

  waiting_count : rowcount (waits i) s.jobs ≡ hits (λ r. is_queued r.status) (get key i s.jobs)
  waiting_count = rowcount-key key i (λ r. is_queued r.status) s.jobs keyed

  busy_count :
      rowcount (busy i) dropped_jobs ≡ hits (λ r. is_running r.status) (get key i dropped_jobs)
  busy_count =
      rowcount-key key i (λ r. is_running r.status) dropped_jobs
        (update-IsKeyed key (waits i) (drop_row now) (λ r. refl) s.jobs keyed)

  get_dropped :
      get key i dropped_jobs
      ≡ on_row (λ r. if waits i r then drop_row now r else r) (get key i s.jobs)
  get_dropped = get-update key (waits i) (drop_row now) (λ r. refl) i s.jobs

  get_asked :
      get key i (update (busy i) ask_row dropped_jobs)
      ≡ on_row (λ r. if busy i r then ask_row r else r) (get key i dropped_jobs)
  get_asked = get-update key (busy i) ask_row (λ r. refl) i dropped_jobs

  cancel-stops :
      (request_cancel now i s).0 ≡ true
      → (k : Job) × (get key i (request_cancel now i s).1.jobs ≡ some k)
        × (is_stopping k.status ≡ true)
  unfolding request_cancel
  cancel-stops h = elim (Option-cases (get key i s.jobs)) [
    | inl e ↦ absurd (ground (arith, e, waiting_count, busy_count, get_dropped))
    | inr (j, e) ↦ elim (Bool-cases (is_queued j.status)) [
      | inl q ↦ (
        drop_row now j,
        ground (arith, e, q, waiting_count, get_dropped, get-key key i s.jobs j e, eq_iff j.id i),
        refl,
      )
      | inr q ↦ (
        ask_row j,
        ground (
          arith,
          e,
          q,
          h,
          waiting_count,
          busy_count,
          get_dropped,
          get_asked,
          get-key key i s.jobs j e,
          eq_iff j.id i,
        ),
        refl,
      )
    ]
  ]

-- Once a cancel has been answered with `true`, no `assert_lease` for that job passes again, by
-- whatever token, and the job never ends as `succeeded`, whatever calls follow.
pub cancel_is_final :
    (now : ℕ) (i : String) (s : JobStore)
    → IsKeyed key s.jobs
    → (request_cancel now i s).0 ≡ true
    → (h : History) (at : ℕ) (token : String)
    → (assert_lease at i token (run h (request_cancel now i s).1) ≡ err lease_lost)
      × ((k : Job)
          → get key i (run h (request_cancel now i s).1).jobs ≡ some k
          → k.status ≢ succeeded)
unfolding assert_lease
cancel_is_final now i s keyed said h at token =
    let (j, here, stops) = cancel-stops now i s keyed said in
    let (k, there, p) =
      run_keeps (λ r. is_stopping r.status ≡ true) stopping_stays h i (request_cancel now i s).1 j
        here stops in
    (ground (arith, there, p), λ l e d. ground (arith, there, p, e, d))

-- A row that `token` does not own is not owned by it later, unless it is claimed with it.
gone_stays :
    (token : String) (from now : ℕ) (c : Call) (j k : Job)
    → from ≤ now
    → c ≢ claim_call token
    → RowStep now c j k
    → owns from token j ≡ false
    → owns now token k ≡ false
gone_stays token from now c j k le fresh (untouched e) p = ground arith
gone_stays token from now c j k le fresh (claimed t x a b q e) p =
    ground (arith, eq_iff t token, λ (d : t ≡ token). fresh (a ∙ ap claim_call d))
gone_stays token from now c j k le fresh (extended t x none b q e) p = ground arith
gone_stays token from now c j k le fresh (extended t x (some y) b q e) p = ground arith
gone_stays token from now c j k le fresh (failed_row t o q e) p = ground arith
gone_stays token from now c j k le fresh (settled_row t q e) p = ground arith
gone_stays token from now c j k le fresh (dropped q e) p = ground arith
gone_stays token from now c j k le fresh (asked q e) p = ground arith
gone_stays token from now c j k le fresh (lost q e) p = ground arith

-- The time of the last call of a history, or `from`.
abbrev pub last_time : ℕ → History → ℕ
last_time from [] = from
last_time from ((now, c) ∷ h) = last_time now h

gone_runs :
    (token : String) (from : ℕ) (h : History) (i : String) (s : JobStore) (j : Job)
    → InOrder from h
    → IsFresh token h
    → get key i s.jobs ≡ some j
    → owns from token j ≡ false
    → (k : Job) × (get key i (run h s).jobs ≡ some k) × (owns (last_time from h) token k ≡ false)
unfolding run
gone_runs token from [] i s j o f here p = (j, here, p)
gone_runs token from ((now, c) ∷ h) i s j o f here p =
    let (k, there, moved) = perform-After now c i j s here in
    gone_runs token now h i (perform now c s) k o.1 f.1 there
      (gone_stays token from now c j k o.0 f.0 moved p)

-- A lease that has failed `assert_lease` once (cancelled, run out, or another's) fails it for ever:
-- nothing revives it, whatever calls by whatever workers follow, while the clock does not go back
-- and its token is not issued again.
pub lost_lease_stays_lost :
    (from : ℕ) (i token : String) (s : JobStore) (j : Job)
    → get key i s.jobs ≡ some j
    → assert_lease from i token s ≡ err lease_lost
    → (h : History) → InOrder from h
    → IsFresh token h
    → (at : ℕ) → last_time from h ≤ at
    → assert_lease at i token (run h s) ≡ err lease_lost
unfolding assert_lease
lost_lease_stays_lost from i token s j here e h o f at le =
    let (k, there, p) = gone_runs token from h i s j o f here (ground (arith, here, e)) in
    ground (arith, there, p, le)

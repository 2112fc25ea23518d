-- ===== src/Uploads/Records/Invalid.antt =====
-- app/src/mediaferry/db/uploads.py: what is invalid, and what is cancelled, is never sent.
use mathlib.Core.Path.{subst}
use mediaferry.Uploads.Records.Keeps.{run_keeps}
use mediaferry.Base.{
  ℕ, String, ◌≡◌, refl, inl, inr, Bool, true, false, not, ◌&&◌, Option, some, List, arith, str_eq,
  if◌then◌else◌,
}
use mediaferry.Sql.{rowcount, get, IsKeyed, rowcount-key}
use mediaferry.Jobs.{
  Result, JobContext, JobStore, ok, err, assert_lease, request_cancel, key, request_cancel, key,
}
use mediaferry.Jobs.Leases.{run as run_jobs}
use mediaferry.Uploads.Records.{
  State, Row, Fields, record_id, Fault, claim_lost, no_lease, bad_state, no_longer_eligible, Done,
  done, raised, and_then, left_by, is_terminal, write, write_one, set_fields, may_move, reopen_by,
  locked_cas, unclaim, move_to, expiry, by_lease,
}
use mediaferry.Uploads.Records.Moves.{advance_owned, finish_owned}
use mediaferry.Uploads.Records.Claims.{Tables, may_send, prepare_side_effect}
use mediaferry.Uploads.Records.Life.{Holds, Done-cases, Holds-reopen_by, IsInvalid, Call, run}

abbrev pub Raises : Done → Type 0
Raises d = (e : Fault) × (d ≡ raised e)

-- An update of one row that its row does not admit raises.
no_write :
    (i : String) (q : Row → Bool) (f : Row → Row) (rows : List Row) (r : Row)
    → IsKeyed record_id rows
    → get record_id i rows ≡ some r
    → q r ≡ false
    → Raises (write_one (λ x. str_eq x.id i && q x) f rows)
unfolding write_one
no_write i q f rows r k here shut = elim (Done-cases (write (λ x. str_eq x.id i && q x) f rows)) [
  | inl (rows', e) ↦ rw (e, miss) (claim_lost, refl)
  | inr (x, e) ↦ rw e (x, refl)
]
  where
    miss : rowcount (λ x. str_eq x.id i && q x) rows ≡ 0
    miss = ground (arith, rowcount-key record_id i q rows k, here, shut)

Raises-by_lease : (x : Result (Unit {0})) (d : Done) → Raises d → Raises (by_lease x d)
Raises-by_lease (ok u) d h = h
Raises-by_lease (err e) d h = (no_lease, refl)

Raises-and_then :
    (d : Done) (k : List Row → Done)
    → ((rows : List Row) → d ≡ done rows → Raises (k rows))
    → Raises (and_then d k)
Raises-and_then (done rows) k h = h rows refl
Raises-and_then (raised e) k h = (e, refl)

strict_shut :
    (now : ℕ) (token : String) (e : Option State) (r : Row)
    → IsInvalid r
    → may_move now token e true r ≡ false
strict_shut now token e r h = ground (arith, h)

-- An owner cannot move an invalid record in the strict way.
Raises-cas :
    (i : String) (rows : List Row)
    → Holds IsInvalid i rows
    → (now : ℕ) (token : String) (f : Row → Row) (e : Option State) (fields : Fields)
    → Raises (locked_cas now i token f e true fields rows)
unfolding locked_cas
Raises-cas i rows h now token f e fields =
    Raises-and_then (reopen_by i fields.remote_asset_id rows) _ (λ rows' d.
      let (k, (r, here, q)) =
        subst (λ x. Holds IsInvalid i (left_by x rows)) d
          (Holds-reopen_by IsInvalid i i fields.remote_asset_id rows (λ r q. q) h) in
      no_write i (may_move now token e true) (λ r. set_fields fields (f r)) rows' r k here
        (strict_shut now token e r q))

Raises-if : (b : Bool) (x : Fault) (d : Done) → Raises d → Raises (if b then raised x else d)
Raises-if true x d h = (x, refl)
Raises-if false x d h = h

-- A record that is invalid stays so through any calls of `UploadRepository`, requests, rechecks and
-- the writes of stacks included, and is then neither prepared for sending nor
-- moved on or finished by an owner: these calls raise, whatever the token, the time and the state
-- asked for; the keys are unique.
pub IsInvalid-is_final :
    (i : String) (rows : List Row)
    → Holds IsInvalid i rows
    → (h : List (ℕ × Call)) (now lease : ℕ) (ctx : JobContext) (state expect : State) (v : Bool)
      (fields : Fields) (t : Tables) (jobs : JobStore)
    → let after = run h rows in
      Holds IsInvalid i after
      × Raises (prepare_side_effect now lease ctx i expect v t jobs after)
      × Raises (advance_owned now ctx i state expect fields jobs after)
      × Raises (finish_owned now ctx i state expect fields jobs after)
unfolding prepare_side_effect advance_owned finish_owned
IsInvalid-is_final i rows q h now lease ctx state expect v fields t jobs =
    let (k, (r, here, bad)) = run_keeps h i rows q in
    (
      (k, (r, here, bad)),
      Raises-by_lease (assert_lease now ctx.job_id ctx.lease_token jobs) _ (
          Raises-if _ no_longer_eligible _ (
            no_write i (may_send now ctx.lease_token expect)
              (λ r. record r { claim_expires_at = some (expiry now lease) }) (run h rows) r k here
              (ground (arith, bad)))),
      Raises-by_lease (assert_lease now ctx.job_id ctx.lease_token jobs) _ (
          Raises-cas i (run h rows) (k, (r, here, bad)) now ctx.lease_token (move_to state)
            (some expect) fields),
      Raises-if (not (is_terminal state)) bad_state _ (
          Raises-by_lease (assert_lease now ctx.job_id ctx.lease_token jobs) _ (
            Raises-cas i (run h rows) (k, (r, here, bad)) now ctx.lease_token
              (λ r. unclaim (move_to state r)) (some expect) fields)),
    )

-- ===== src/Uploads/Records/Moves.antt =====
-- app/src/mediaferry/db/uploads.py: the operations of an owner, and those that take ownership away.
use mediaferry.Base.{
  ℕ, String, true, false, not, ◌&&◌, Option, none, some, List, str_eq, if◌then◌else◌,
}
use mediaferry.Jobs.{JobContext, JobStore}
use mediaferry.Uploads.Stacking.{is_none, same_id}
use mediaferry.Uploads.Records.{
  State, pending, fixing_datetime, awaiting_datetime_approval, needs_recheck, Row, Fields,
  claim_lost, bad_state, Done, done, raised, is_active, is_claimable, is_terminal, is_complete,
  is_awaiting, write, write_one, locked_cas, no_fields, unclaim, move_to, expiry, with_lease,
}

unfoldable pub extend_claim : ℕ → String → String → ℕ → List Row → Done
unfolding locked_cas
extend_claim now i token lease_seconds rows =
    locked_cas now i token (λ r. record r { claim_expires_at = some (expiry now lease_seconds) })
      none true no_fields rows

unfoldable pub advance_owned :
    ℕ → JobContext → String → State → State → Fields → JobStore → List Row → Done
unfolding locked_cas
advance_owned now ctx i state expect_state fields jobs rows =
    with_lease now ctx jobs
      (locked_cas now i ctx.lease_token (move_to state) (some expect_state) true fields rows)

unfoldable pub finish_owned :
    ℕ → JobContext → String → State → State → Fields → JobStore → List Row → Done
unfolding locked_cas
finish_owned now ctx i state expect_state fields jobs rows =
    if not (is_terminal state)
    then raised bad_state
    else with_lease now ctx jobs (
        locked_cas now i ctx.lease_token (λ r. unclaim (move_to state r)) (some expect_state) true
          fields rows)

unfoldable pub advance : ℕ → String → String → State → State → Fields → List Row → Done
unfolding locked_cas
advance now i token state expect_state fields rows =
    locked_cas now i token (move_to state) (some expect_state) true fields rows

unfoldable pub finish : ℕ → String → String → State → State → Fields → List Row → Done
unfolding locked_cas
finish now i token state expect_state fields rows =
    if not (is_terminal state)
    then raised bad_state
    else locked_cas now i token (λ r. unclaim (move_to state r)) (some expect_state) true fields
        rows

unfoldable pub release_to : ℕ → String → String → State → Fields → List Row → Done
unfolding locked_cas
release_to now i token state fields rows =
    if not (is_claimable state)
    then raised bad_state
    else locked_cas now i token (λ r. unclaim (move_to state r)) none false fields rows

abbrev pub coalesce {ℓ} : {A : Type ℓ} → Option A → A → Option A
coalesce none a = some a
coalesce (some b) a = some b

abbrev pub refuse_row : ℕ → String → Row → Row
refuse_row now reason r = record (unclaim (move_to pending r)) {
  invalidated_at = coalesce r.invalidated_at now;
  invalidated_reason = coalesce r.invalidated_reason reason;
}

unfoldable pub refuse : ℕ → String → String → String → List Row → Done
unfolding locked_cas
refuse now i token reason rows =
    locked_cas now i token (refuse_row now reason) none false no_fields rows

unfoldable pub invalidate_for_group : ℕ → String → String → List Row → Done
unfolding write
invalidate_for_group now group_id reason rows =
    write
      (λ r.
        same_id r.merge_group_id (some group_id)
        && is_none r.invalidated_at
        && not (is_complete r.state))
      (λ r. record r { invalidated_at = some now; invalidated_reason = some reason }) rows

abbrev pub approve_row : String → String → ℕ → Row → Row
approve_row job_id token expires r = record (move_to fixing_datetime r) {
  claim_job_id = some job_id;
  claim_token = some token;
  claim_expires_at = some expires;
}

unfoldable pub claim_for_approval : ℕ → String → String → String → ℕ → List Row → Done
unfolding write_one
claim_for_approval now i job_id token lease_seconds rows =
    write_one
      (λ r.
        str_eq r.id i
        && (is_awaiting r.state && is_none r.invalidated_at && is_none r.claim_job_id))
      (approve_row job_id token (expiry now lease_seconds)) rows

abbrev pub suppress : List Row → Done → Done
suppress rows (raised claim_lost) = done rows
suppress rows d = d

unfoldable pub release_from_approval : ℕ → String → String → List Row → Done
unfolding locked_cas
release_from_approval now i token rows = suppress rows (
    locked_cas now i token (λ r. unclaim (move_to awaiting_datetime_approval r)) none false
      no_fields rows)

unfoldable pub release_interrupted : List Row → Done
unfolding write
release_interrupted rows =
    write (λ r. is_active r.state) (λ r. unclaim (move_to needs_recheck r)) rows

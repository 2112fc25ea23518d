-- ===== src/Uploads/Records/Stacks.antt =====
-- app/src/mediaferry/db/uploads.py: what the second pass writes of a stack. A member is the row as it
-- was read when the stack was decided; the records of a finished upload have no claim.
pub mod Marked
mod Tests
use mediaferry.Base.{
  ℕ, zero, suc, ◌+◌, ◌-◌, ◌*◌, ◌/◌, ◌%◌, ◌^◌, ◌≤◌, ◌<◌, min, max, String, ◌≡◌, refl, sym, ap, ◌∙◌,
  ◌≢◌, ◌↔◌, ◌⊎◌, inl, inr, Bool, true, false, not, ◌&&◌, ◌||◌, Option, none, some, List, [], ◌∷◌,
  ◌++◌, map, arith, str_eq, eq_iff, eq_refl, ltb, leb, ◌==◌, if◌then◌else◌, ltb→lt, lt→ltb, leb→le,
  ==_iff, tests, Bool-cases, Option-cases, length, get_elem?, length-append, any, all, keep, All,
  All-imp, keep-append, All-append, Some, Apart, Apart-append, any-false, false-any,
}
use mediaferry.Sql.{
  update, rowcount, get, on_row, hits, or_else, IsKeyed, get-key, get-append, get-update,
  update-IsKeyed, rowcount-key, append-IsKeyed, first_by, first_by-holds, first_by-none,
  first_by-le, first_by-get, update-All,
}
use mediaferry.Jobs.{JobContext, JobStore, Result, assert_lease, ok, err}
use mediaferry.Uploads.Stacking.{
  Candidate, Identity, Reason, stack_off, not_an_extension, several_partners, no_partner, not_ours,
  unknown_asset, same_asset, other_profile, not_sent, Outcome, group, refusal, stem_prefix,
  extension_of, is_listed, SourceKey, source_key, key_eq, is_file, proof_of, same_proof, is_partner,
  has_id, add_id, Pairing, pair_one, pair_all, nobody, several, identity_partners, index_of,
  is_none, same_id, repeats, refuse_partner, refused, rank, settle_group, resolve_group,
}
use mediaferry.Uploads.Records.{
  State, pending, checking, uploading, asset_known, tagging, fixing_datetime,
  awaiting_datetime_approval, complete, failed, needs_recheck, StackState, stacked, skipped, Row,
  Fields, record_id, Fault, claim_lost, no_lease, bad_row, bad_state, no_longer_eligible,
  group_changed, destination_changed, Done, done, raised, and_then, left_by, is_active,
  is_claimable, is_terminal, is_complete, is_awaiting, state_eq, is_some, is_stacked, claim_fits,
  stack_shape, stack_fits, fits, keeps_asset, passes, write, write_one, unstack, in_stack, reopen,
  reopen_stack_of, set_fields, in_state, may_move, reopen_by, locked_cas, no_fields, unclaim,
  move_to, expiry, by_lease, with_lease,
}
use mediaferry.Uploads.Records.Claims.{
  Media, Destination, Revision, Tables, Refusal, file_missing, invalidated, destination_archived,
  destination_disabled, target_moved, not_current, rule_fails, or_empty, member_failed, is_free,
  check_rule, check_media, epoch_fits, check_destination, check_file, check_eligibility, may_send,
  renew, is_eligible, prepare_side_effect, usable, current_revision, claimable, is_free_at,
  check_row, can_check, claimed, claim_row, claim_with, claim_next,
}

-- `profile_revision.profile_id` and `device_profile.current_revision_id`, by the row's id.
pub record Profiles : Type 0 where
  pub profile_of : String → Option String
  pub current_of : String → Option String

abbrev pub is_current_of : Profiles → Option String → String → Bool
is_current_of profiles none revision_id = false
is_current_of profiles (some i) revision_id = same_id (profiles.current_of i) (some revision_id)

abbrev pub profile_fits : Profiles → String → Bool
profile_fits profiles revision_id =
    is_current_of profiles (profiles.profile_of revision_id) revision_id

-- The condition that the lease does not decide.
abbrev pub goes_where : Tables → Profiles → String → ℕ → String → Done → Done
goes_where t profiles destination_id epoch profile_revision_id d =
    if not (epoch_fits (current_revision t destination_id) epoch)
    then raised destination_changed
    else if not (profile_fits profiles profile_revision_id)
    then raised group_changed
    else d

-- `_assert_current`, before the rest of the transaction.
unfoldable pub assert_current :
    ℕ → JobContext → JobStore → Tables → Profiles → String → ℕ → String → Done → Done
assert_current now ctx jobs t profiles destination_id epoch profile_revision_id d =
    with_lease now ctx jobs (goes_where t profiles destination_id epoch profile_revision_id d)

-- Finished and valid, and still with the asset that was read.
abbrev pub is_as_read : ℕ → Row → Row → Bool
is_as_read epoch member r =
    r.target_epoch == epoch
    && state_eq r.state complete
    && is_none r.invalidated_at
    && same_id r.remote_asset_id member.remote_asset_id

abbrev pub is_skipped : Option StackState → Bool
is_skipped (some skipped) = true
is_skipped _ = false

-- `_member_moved`
unfoldable pub member_moved : ℕ → List Row → Row → Bool
member_moved epoch rows member =
    rowcount
      (λ r. str_eq r.id member.id && (is_as_read epoch member r && not (is_stacked r.stack_state)))
      rows
    == 0

unfoldable pub guard_stack_group :
    ℕ → JobContext → JobStore → Tables → Profiles → List Row → String → ℕ → String → List Row → Done
unfolding assert_current member_moved
guard_stack_group now ctx jobs t profiles members destination_id epoch profile_revision_id rows =
    assert_current now ctx jobs t profiles destination_id epoch profile_revision_id
      (if any (member_moved epoch rows) members then raised group_changed else done rows)

-- An update that has to hit one row.
unfoldable pub write_or_change : (Row → Bool) → (Row → Row) → List Row → Done
unfolding write
write_or_change p f rows =
    and_then (write p f rows)
      (λ rows'. if rowcount p rows == 1 then done rows' else raised group_changed)

abbrev pub may_stack : ℕ → Row → Row → Bool
may_stack epoch member r =
    is_as_read epoch member r && (is_none r.stack_state || is_skipped r.stack_state)

abbrev pub stack_as : String → Row → Row
stack_as stack_id r = record r {
  stack_state = some stacked;
  remote_stack_id = some stack_id;
  stack_reason = none;
}

unfoldable pub mark_members : ℕ → String → List Row → List Row → Done
unfolding write_or_change
mark_members epoch stack_id [] rows = done rows
mark_members epoch stack_id (m ∷ members) rows =
    and_then
      (write_or_change (λ r. str_eq r.id m.id && may_stack epoch m r) (stack_as stack_id) rows)
      (mark_members epoch stack_id members)

unfoldable pub mark_stacked :
    ℕ
    → JobContext
    → JobStore
    → Tables
    → Profiles
    → List Row
    → String
    → ℕ
    → String
    → String
    → List Row
    → Done
unfolding assert_current mark_members
mark_stacked now ctx jobs t profiles members destination_id epoch profile_revision_id stack_id
      rows =
    assert_current now ctx jobs t profiles destination_id epoch profile_revision_id
      (mark_members epoch stack_id members rows)

abbrev pub skip_for : String → Row → Row
skip_for reason r = record r {
  stack_state = some skipped;
  remote_stack_id = none;
  stack_reason = some reason;
}

unfoldable pub mark_skipped :
    ℕ
    → JobContext
    → JobStore
    → Tables
    → Profiles
    → Row
    → String
    → ℕ
    → String
    → String
    → List Row
    → Done
unfolding assert_current write_or_change
mark_skipped now ctx jobs t profiles member destination_id epoch profile_revision_id reason rows =
    assert_current now ctx jobs t profiles destination_id epoch profile_revision_id (
      write_or_change
        (λ r. str_eq r.id member.id && (is_as_read epoch member r && is_none r.stack_state))
        (skip_for reason) rows)

abbrev pub is_broken_in : String → ℕ → String → Row → Bool
is_broken_in destination_id epoch stack_id r =
    in_stack destination_id epoch stack_id r && is_none r.invalidated_at

-- How many stacks were reopened, and the table.
abbrev pub count_on : ℕ → Done → (List Row → ℕ × Done) → ℕ × Done
count_on n (raised e) k = (n, raised e)
count_on n (done rows) k = let rest : ℕ × Done = k rows in (n + rest.0, rest.1)

unfoldable pub reopen_each : String → ℕ → List String → List Row → ℕ × Done
unfolding write
reopen_each destination_id epoch [] rows = (0, done rows)
reopen_each destination_id epoch (stack_id ∷ stack_ids) rows =
    count_on (if ltb 0 (rowcount (is_broken_in destination_id epoch stack_id) rows) then 1 else 0)
      (write (is_broken_in destination_id epoch stack_id) unstack rows)
      (reopen_each destination_id epoch stack_ids)

abbrev pub counted_by : Result (Unit {0}) → ℕ × Done → ℕ × Done
counted_by (ok _) d = d
counted_by (err _) d = (0, raised no_lease)

unfoldable pub reopen_stacks :
    ℕ → JobContext → JobStore → String → ℕ → List String → List Row → ℕ × Done
unfolding reopen_each
reopen_stacks now ctx jobs destination_id epoch stack_ids rows =
    counted_by (assert_lease now ctx.job_id ctx.lease_token jobs)
      (reopen_each destination_id epoch stack_ids rows)

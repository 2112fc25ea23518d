-- ===== src/Uploads/Records/Stamps.antt =====
-- app/src/mediaferry/db/uploads.py: what the recheck of finished records writes. `remote_checked_at`
-- and `remote_is_trashed` stand in the notes, whose first entry counts; `iso` writes a time as text,
-- and `is_trashed` is the text of its number.
pub mod Whole
mod Tests
use mediaferry.Base.{
  ℕ, zero, suc, ◌+◌, ◌-◌, ◌*◌, ◌/◌, ◌%◌, ◌^◌, ◌≤◌, ◌<◌, min, max, String, ◌≡◌, refl, sym, ap, ◌∙◌,
  ◌≢◌, ◌↔◌, ◌⊎◌, inl, inr, Bool, true, false, not, ◌&&◌, ◌||◌, Option, none, some, List, [], ◌∷◌,
  ◌++◌, map, arith, str_eq, eq_iff, eq_refl, ltb, leb, ◌==◌, if◌then◌else◌, ltb→lt, lt→ltb, leb→le,
  ==_iff, tests, Bool-cases, Option-cases, length, get_elem?, length-append, any, all, keep, All,
  All-imp, keep-append, All-append, Some, Apart, Apart-append, any-false, false-any,
}
use mediaferry.Sql.{
  update, rowcount, get, on_row, hits, or_else, IsKeyed, get-key, get-append, get-update,
  update-IsKeyed, rowcount-key, append-IsKeyed, first_by, first_by-holds, first_by-none,
  first_by-le, first_by-get, update-All,
}
use mediaferry.Jobs.{JobContext, JobStore, Result, assert_lease, ok, err}
use mediaferry.Uploads.Stacking.{
  Candidate, Identity, Reason, stack_off, not_an_extension, several_partners, no_partner, not_ours,
  unknown_asset, same_asset, other_profile, not_sent, Outcome, group, refusal, stem_prefix,
  extension_of, is_listed, SourceKey, source_key, key_eq, is_file, proof_of, same_proof, is_partner,
  has_id, add_id, Pairing, pair_one, pair_all, nobody, several, identity_partners, index_of,
  is_none, same_id, repeats, refuse_partner, refused, rank, settle_group, resolve_group,
}
use mediaferry.Uploads.Records.{
  State, pending, checking, uploading, asset_known, tagging, fixing_datetime,
  awaiting_datetime_approval, complete, failed, needs_recheck, StackState, stacked, skipped, Row,
  Fields, record_id, Fault, claim_lost, no_lease, bad_row, bad_state, no_longer_eligible,
  group_changed, destination_changed, Done, done, raised, and_then, left_by, is_active,
  is_claimable, is_terminal, is_complete, is_awaiting, state_eq, is_some, is_stacked, claim_fits,
  stack_shape, stack_fits, fits, keeps_asset, passes, write, write_one, unstack, in_stack, reopen,
  reopen_stack_of, set_fields, in_state, may_move, reopen_by, locked_cas, no_fields, unclaim,
  move_to, expiry, by_lease, with_lease,
}
use mediaferry.Uploads.Records.Moves.{coalesce}
use mediaferry.Uploads.Records.Claims.{Tables, Media, or_empty, check_rule}

-- The result for one record, and the record as it was when it was seen.
pub record Stamp : Type 0 where
  pub record_id : String
  pub asset_id : Option String
  pub is_trashed : String
  pub expect_asset_id : Option String
  pub expect_checked_at : Option String

unfoldable pub noted : String → List (String × Option String) → Option String
noted name [] = none
noted name ((n, v) ∷ notes) = if str_eq n name then v else noted name notes

-- The record is finished and is as it was seen.
unfoldable pub is_as_seen : Stamp → Row → Bool
unfolding noted
is_as_seen s r =
    state_eq r.state complete
    && same_id r.remote_asset_id s.expect_asset_id
    && same_id (noted "remote_checked_at" r.notes) s.expect_checked_at

-- `_reopen_stack_of` without a new asset: it is taken to change.
abbrev pub reopen_whole : Option Row → List Row → Done
reopen_whole none rows = done rows
reopen_whole (some row) rows = elim row.remote_stack_id [
  | none ↦ done rows
  | some stack_id ↦ write (in_stack row.destination_id row.target_epoch stack_id) unstack rows
]

abbrev pub reopen_changed : Stamp → List Row → Done
reopen_changed s rows =
    if same_id s.asset_id s.expect_asset_id
    then done rows
    else reopen_whole (get record_id s.record_id rows) rows

-- An asset that is gone makes the record invalid, if it was not.
abbrev pub stamp_row : (ℕ → String) → ℕ → Stamp → Row → Row
stamp_row iso checked_at s r = record r {
  remote_asset_id = s.asset_id;
  notes =
      ("remote_is_trashed", some s.is_trashed)
      ∷ ("remote_checked_at", some (iso checked_at))
      ∷ r.notes;
  invalidated_at =
      if is_none s.asset_id then coalesce r.invalidated_at checked_at else r.invalidated_at;
  invalidated_reason =
      if is_none s.asset_id
      then coalesce r.invalidated_reason "remote_missing"
      else r.invalidated_reason;
}

abbrev pub is_seen : Stamp → Row → Bool
is_seen s r = str_eq r.id s.record_id && is_as_seen s r

-- The ids written so far, and the table.
abbrev pub write_stamp : (ℕ → String) → ℕ → Stamp → List String → List Row → List String × Done
write_stamp iso checked_at s written rows = (
  if rowcount (is_seen s) rows == 1 then s.record_id ∷ written else written,
  write (is_seen s) (stamp_row iso checked_at s) rows,
)

abbrev pub stamp_reopened : (ℕ → String) → ℕ → Stamp → List String → Done → List String × Done
stamp_reopened iso checked_at s written (done rows) = write_stamp iso checked_at s written rows
stamp_reopened iso checked_at s written (raised e) = (written, raised e)

unfoldable pub stamp_one : (ℕ → String) → ℕ → Stamp → List String → List Row → List String × Done
unfolding write is_as_seen
stamp_one iso checked_at s written rows =
    if any (is_seen s) rows
    then stamp_reopened iso checked_at s written (reopen_changed s rows)
    else (written, done rows)

abbrev pub go_on :
    List String × Done → (List String → List Row → List String × Done) → List String × Done
go_on (written, done rows) k = k written rows
go_on (written, raised e) k = (written, raised e)

unfoldable pub stamp_all :
    (ℕ → String) → ℕ → List Stamp → List String → List Row → List String × Done
unfolding stamp_one
stamp_all iso checked_at [] written rows = (written, done rows)
stamp_all iso checked_at (s ∷ stamps) written rows =
    go_on (stamp_one iso checked_at s written rows) (stamp_all iso checked_at stamps)

abbrev pub if_leased : Result (Unit {0}) → List String × Done → List String × Done
if_leased (ok _) d = d
if_leased (err _) d = ([], raised no_lease)

unfoldable pub stamp_many :
    (ℕ → String) → ℕ → JobContext → JobStore → List Stamp → ℕ → List Row → List String × Done
unfolding stamp_all
stamp_many iso now ctx jobs stamps checked_at rows =
    if_leased (assert_lease now ctx.job_id ctx.lease_token jobs)
      (stamp_all iso checked_at stamps [] rows)

-- Whether it was written, and the table.
unfoldable pub stamp_remote_datetime :
    (ℕ → String) → String → Option String → ℕ → Option String → List Row → Bool × Done
unfolding write noted
stamp_remote_datetime iso i date_time_original checked_at expect_checked_at rows =
    let hit : Row → Bool = λ r.
      str_eq r.id i
      && state_eq r.state complete
      && same_id (noted "remote_checked_at" r.notes) expect_checked_at in
    (
      rowcount hit rows == 1,
      write hit
          (λ r. record r {
            notes =
                ("remote_datetime_original", date_time_original)
                ∷ ("remote_checked_at", some (iso checked_at))
                ∷ r.notes;
          })
          rows,
    )

-- `_stale_reason`: whether it gives one.
abbrev pub is_stale_media : Tables → Row → Option Media → Bool
is_stale_media t r none = true
is_stale_media t r (some media) =
    (str_eq media.role "derived" && not (t.group_is_current (or_empty r.merge_group_id) media.id))
    || not (is_none (check_rule t r media))

abbrev pub is_stale : Tables → Row → Bool
is_stale t r = not (is_none r.merge_group_id) && is_stale_media t r (t.media r.media_file_id)

-- The loop of `invalidate_stale`, with `why` for the texts: no row bears on another.
unfoldable pub invalidate_stale : ℕ → Tables → (Row → String) → List Row → Done
unfolding write check_rule
invalidate_stale now t why rows =
    write (λ r. (is_none r.invalidated_at && not (state_eq r.state complete)) && is_stale t r)
      (λ r. record r { invalidated_at = some now; invalidated_reason = some (why r) }) rows

unfoldable pub invalidate_old_epoch : ℕ → String → ℕ → String → List Row → Done
unfolding write
invalidate_old_epoch now destination_id current_epoch reason rows =
    write
      (λ r.
        str_eq r.destination_id destination_id
        && ltb r.target_epoch current_epoch
        && is_none r.invalidated_at
        && not (state_eq r.state complete))
      (λ r. record r { invalidated_at = some now; invalidated_reason = some reason }) rows

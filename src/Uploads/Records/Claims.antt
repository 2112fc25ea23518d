-- ===== src/Uploads/Records/Claims.antt =====
-- app/src/mediaferry/db/uploads.py: which record is sent next, and whether it still may be.
-- What the other tables answer is a record of functions; the text of a refusal is its reason.
use mediaferry.Base.{
  ℕ, String, Bool, true, false, not, ◌&&◌, ◌||◌, Option, none, some, List, str_eq, ◌==◌,
  if◌then◌else◌,
}
use mediaferry.Sql.{rowcount, get, first_by}
use mediaferry.Jobs.{JobContext, JobStore, holds, expires_after, expires_before}
use mediaferry.Uploads.Stacking.{is_none, same_id}
use mediaferry.Uploads.Records.{
  State, checking, Row, record_id, no_longer_eligible, Done, done, raised, is_claimable, state_eq,
  write, write_one, move_to, expiry, with_lease,
}

pub record Media : Type 0 where
  pub id : String
  pub missing : Bool
  pub role : String

pub record Destination : Type 0 where
  pub archived : Bool
  pub enabled : Bool
  pub current_revision_id : String

pub record Revision : Type 0 where
  pub id : String
  pub target_epoch : ℕ

-- `active_group` gives the group and its status for a file that is a member of an active group;
-- a file is in one such group at most.
pub record Tables : Type 0 where
  pub media : String → Option Media
  pub destination : String → Option Destination
  pub revision : Option String → Option Revision
  pub group_is_current : String → String → Bool
  pub active_group : String → Option (String × String)
  pub adopted : Option String → Bool

pub data Refusal : Type 0 where
  file_missing invalidated destination_archived destination_disabled : Refusal
  target_moved not_current rule_fails : Refusal

abbrev pub or_empty : Option String → String
or_empty none = ""
or_empty (some s) = s

-- The status of the active group that the file is in, if it is that of the record.
abbrev pub member_failed : Option (String × String) → Option String → Bool
member_failed none i = false
member_failed (some (g, status)) i = same_id (some g) i && str_eq status "failed"

abbrev pub is_free : Option (String × String) → Bool
is_free none = true
is_free (some (g, status)) = str_eq status "failed" || str_eq status "skipped"

unfoldable pub check_rule : Tables → Row → Media → Option Refusal
check_rule t row media =
    if str_eq row.selection_rule "failed_group_member"
    then (if member_failed (t.active_group media.id) row.merge_group_id
        then none
        else some rule_fails)
    else if str_eq row.selection_rule "adopted_derived"
    then (if t.adopted row.merge_group_id then none else some rule_fails)
    else if str_eq media.role "original" && not (is_free (t.active_group media.id))
    then some rule_fails
    else none

abbrev pub check_media : Tables → Row → Media → Option Refusal
check_media t row media =
    if str_eq media.role "derived"
      && not (t.group_is_current (or_empty row.merge_group_id) media.id)
    then some not_current
    else check_rule t row media

-- `revision["target_epoch"]`, of a revision that the foreign key says is there.
abbrev pub epoch_fits : Option Revision → ℕ → Bool
epoch_fits none epoch = false
epoch_fits (some r) epoch = r.target_epoch == epoch

abbrev pub check_destination : Tables → Row → Media → Option Destination → Option Refusal
check_destination t row media none = some destination_archived
check_destination t row media (some d) =
    if d.archived
    then some destination_archived
    else if not d.enabled
    then some destination_disabled
    else if not (epoch_fits (t.revision row.destination_revision_id) row.target_epoch)
    then some target_moved
    else check_media t row media

abbrev pub check_file : Tables → Row → Option Media → Option Refusal
check_file t row none = some file_missing
check_file t row (some media) =
    if media.missing
    then some file_missing
    else if not (is_none row.invalidated_at)
    then some invalidated
    else check_destination t row media (t.destination row.destination_id)

unfoldable pub check_eligibility : Tables → Row → Option Refusal
unfolding check_rule
check_eligibility t row = check_file t row (t.media row.media_file_id)

-- The guarded update of `prepare_side_effect`.
abbrev pub may_send : ℕ → String → State → Row → Bool
may_send now token expect_state r =
    holds token r.claim_token
    && state_eq r.state expect_state
    && is_none r.invalidated_at
    && expires_after now r.claim_expires_at

abbrev pub renew : ℕ → ℕ → JobContext → String → State → List Row → Done
renew now lease_seconds ctx i expect_state rows =
    write_one (λ r. str_eq r.id i && may_send now ctx.lease_token expect_state r)
      (λ r. record r { claim_expires_at = some (expiry now lease_seconds) }) rows

abbrev pub is_eligible : Tables → Option Row → Bool
is_eligible t none = false
is_eligible t (some r) = is_none (check_eligibility t r)

-- A record that is not there is a crash in the source; the model says that it is not eligible.
unfoldable pub prepare_side_effect :
    ℕ → ℕ → JobContext → String → State → Bool → Tables → JobStore → List Row → Done
unfolding write_one check_eligibility
prepare_side_effect now lease_seconds ctx i expect_state verify_eligibility t jobs rows =
    with_lease now ctx jobs (
      if verify_eligibility && not (is_eligible t (get record_id i rows))
      then raised no_longer_eligible
      else renew now lease_seconds ctx i expect_state rows)

abbrev pub usable : Option Destination → Option String
usable none = none
usable (some d) = if d.enabled && not d.archived then some d.current_revision_id else none

-- `_current_revision`
unfoldable pub current_revision : Tables → String → Option Revision
current_revision t destination_id = elim (usable (t.destination destination_id)) [
  | none ↦ none
  | some i ↦ t.revision (some i)
]

-- CLAIMABLE_CLAUSE
abbrev pub claimable : String → ℕ → Row → Bool
claimable destination_id epoch r =
    str_eq r.destination_id destination_id
    && r.target_epoch == epoch
    && is_none r.invalidated_at
    && is_claimable r.state

abbrev pub is_free_at : ℕ → Option ℕ → Bool
is_free_at now t = is_none t || expires_before now t

abbrev pub check_row : String → String → ℕ → String → Row → Row
check_row job_id token expires revision_id r = record (move_to checking r) {
  claim_job_id = some job_id;
  claim_token = some token;
  claim_expires_at = some expires;
  destination_revision_id = some revision_id;
}

abbrev pub can_check : Row → Row → Bool
can_check row r = str_eq r.id row.id && (is_none r.invalidated_at && is_claimable r.state)

-- The row that the call gives back is read after its update.
abbrev pub claimed : String → ℕ → Done → Option Row × Done
claimed i hit (done rows) = (if hit == 1 then get record_id i rows else none, done rows)
claimed i hit (raised e) = (none, raised e)

abbrev pub claim_row :
    ℕ → String → String → ℕ → Revision → Option Row → List Row → Option Row × Done
claim_row now job_id token lease_seconds revision none rows = (none, done rows)
claim_row now job_id token lease_seconds revision (some row) rows =
    claimed row.id (rowcount (can_check row) rows)
      (write (can_check row) (check_row job_id token (expiry now lease_seconds) revision.id) rows)

abbrev pub claim_with :
    ℕ → ℕ → String → String → String → Option Revision → List Row → Option Row × Done
claim_with now lease_seconds destination_id job_id token none rows = (none, done rows)
claim_with now lease_seconds destination_id job_id token (some revision) rows =
    claim_row now job_id token lease_seconds revision
      (first_by (λ r. r.created_at)
        (λ r. claimable destination_id revision.target_epoch r && is_free_at now r.claim_expires_at)
        rows)
      rows

unfoldable pub claim_next : ℕ → ℕ → Tables → String → String → String → List Row → Option Row × Done
unfolding write current_revision
claim_next now lease_seconds t destination_id job_id token rows =
    claim_with now lease_seconds destination_id job_id token (current_revision t destination_id)
      rows

-- ===== src/Uploads/Records.antt =====
-- app/src/mediaferry/db/uploads.py: who owns an upload record, and what moves it. A call that raises
-- rolls its transaction back, so a result that is not `done` leaves the table as it was. The clock
-- reads of one call return one value, `now`, in microseconds; `updated_at` is not modelled.
-- The checks and triggers of app/src/mediaferry/db/migrations/0001_initial.sql on the columns
-- below are part of the model, its foreign keys are not.
pub mod Moves
pub mod Claims
pub mod Life
pub mod Keeps
pub mod Invalid
pub mod Restart
pub mod Requests
pub mod Stacks
pub mod Stamps
use mediaferry.Base.{
  ℕ, zero, suc, ◌+◌, ◌-◌, ◌*◌, ◌/◌, ◌%◌, ◌^◌, ◌≤◌, ◌<◌, min, max, String, ◌≡◌, refl, sym, ap, ◌∙◌,
  ◌≢◌, ◌↔◌, ◌⊎◌, inl, inr, Bool, true, false, not, ◌&&◌, ◌||◌, Option, none, some, List, [], ◌∷◌,
  ◌++◌, map, arith, str_eq, eq_iff, eq_refl, ltb, leb, ◌==◌, if◌then◌else◌, ltb→lt, lt→ltb, leb→le,
  ==_iff, tests, Bool-cases, Option-cases, length, get_elem?, length-append, any, all, keep, All,
  All-imp, keep-append, All-append, Some, Apart, Apart-append, any-false, false-any,
}
use mediaferry.Sql.{
  update, rowcount, get, on_row, hits, or_else, IsKeyed, get-key, get-append, get-update,
  update-IsKeyed, rowcount-key, append-IsKeyed, first_by, first_by-holds, first_by-none,
  first_by-le, first_by-get, update-All,
}
use mediaferry.Jobs.{
  Result, JobContext, JobStore, JobError, lease_lost, integrity, ok, err, assert_lease, holds,
  expires_after, expires_before,
}
use mediaferry.Uploads.Stacking.{is_none, same_id}

pub data State : Type 0 where
  pending checking uploading asset_known tagging fixing_datetime : State
  awaiting_datetime_approval complete failed needs_recheck : State

pub data StackState : Type 0 where
  stacked skipped : StackState

-- `notes` holds the columns that are written by `**fields` and that no condition below reads.
pub record Row : Type 0 where
  pub id : String
  pub destination_id : String
  pub target_epoch : ℕ
  pub media_file_id : String
  pub state : State
  pub selection_rule : String
  pub remote_asset_id : Option String
  pub merge_group_id : Option String
  pub claim_job_id : Option String
  pub claim_token : Option String
  pub claim_expires_at : Option ℕ
  pub destination_revision_id : Option String
  pub invalidated_at : Option ℕ
  pub invalidated_reason : Option String
  pub created_at : ℕ
  pub stack_state : Option StackState
  pub remote_stack_id : Option String
  pub stack_reason : Option String
  pub notes : List (String × Option String)

pub record Fields : Type 0 where
  pub remote_asset_id : Option (Option String)
  pub notes : List (String × Option String)

abbrev pub record_id : Row → String
record_id r = r.id

-- `ClaimLost`, `LeaseLost`, `IntegrityError`, `ValueError`, `NoLongerEligible`, `StackGroupChanged`,
-- `DestinationChanged` and `UploadRequestInvalid`.
pub data Fault : Type 0 where
  claim_lost no_lease bad_row bad_state no_longer_eligible : Fault
  group_changed destination_changed bad_request : Fault

pub data Done : Type 0 where
  done : List Row → Done
  raised : Fault → Done

abbrev pub and_then : Done → (List Row → Done) → Done
and_then (done rows) k = k rows
and_then (raised e) k = raised e

-- The table after a call: that of the commit, or that of the rollback.
abbrev pub left_by : Done → List Row → List Row
left_by (done rows') rows = rows'
left_by (raised e) rows = rows

-- ACTIVE_STATES
abbrev pub is_active : State → Bool
is_active checking = true
is_active uploading = true
is_active asset_known = true
is_active tagging = true
is_active fixing_datetime = true
is_active _ = false

-- CLAIMABLE_STATES, and RELEASED_STATES.
abbrev pub is_claimable : State → Bool
is_claimable pending = true
is_claimable needs_recheck = true
is_claimable _ = false

-- TERMINAL_STATES
abbrev pub is_terminal : State → Bool
is_terminal complete = true
is_terminal failed = true
is_terminal awaiting_datetime_approval = true
is_terminal _ = false

abbrev pub is_complete : State → Bool
is_complete complete = true
is_complete _ = false

abbrev pub is_awaiting : State → Bool
is_awaiting awaiting_datetime_approval = true
is_awaiting _ = false

abbrev pub state_eq : State → State → Bool
state_eq pending pending = true
state_eq checking checking = true
state_eq uploading uploading = true
state_eq asset_known asset_known = true
state_eq tagging tagging = true
state_eq fixing_datetime fixing_datetime = true
state_eq awaiting_datetime_approval awaiting_datetime_approval = true
state_eq complete complete = true
state_eq failed failed = true
state_eq needs_recheck needs_recheck = true
state_eq _ _ = false

abbrev pub is_some {ℓ} : {A : Type ℓ} → Option A → Bool
is_some o = not (is_none o)

abbrev pub is_stacked : Option StackState → Bool
is_stacked (some stacked) = true
is_stacked _ = false

-- The triple of the claim is there or not as a whole, a record in an active state has one and
-- names a revision, any other has none, and a complete one names a revision.
abbrev pub claim_fits : Row → Bool
claim_fits r =
    (if is_active r.state
      then is_some r.claim_job_id && is_some r.destination_revision_id
      else is_none r.claim_job_id)
    && (if is_some r.claim_job_id
        then is_some r.claim_token && is_some r.claim_expires_at
        else is_none r.claim_token && is_none r.claim_expires_at)
    && (if is_complete r.state then is_some r.destination_revision_id else true)

abbrev pub stack_shape : Option StackState → Option String → Option String → Bool
stack_shape none i why = is_none i && is_none why
stack_shape (some stacked) i why = is_some i && is_none why
stack_shape (some skipped) i why = is_some why && is_none i

abbrev pub stack_fits : Row → Bool
stack_fits r =
    stack_shape r.stack_state r.remote_stack_id r.stack_reason
    && (if is_stacked r.stack_state then is_some r.remote_asset_id else true)

abbrev pub fits : Row → Bool
fits r = claim_fits r && stack_fits r

-- No update leaves a record stacked and changes its asset.
abbrev pub keeps_asset : Row → Row → Bool
keeps_asset old new =
    if is_stacked new.stack_state then same_id old.remote_asset_id new.remote_asset_id else true

abbrev pub passes : (Row → Bool) → (Row → Row) → Row → Bool
passes p f r = if p r then fits (f r) && keeps_asset r (f r) else true

-- `UPDATE upload_record SET f WHERE p`
unfoldable pub write : (Row → Bool) → (Row → Row) → List Row → Done
write p f rows = if all (passes p f) rows then done (update p f rows) else raised bad_row

-- The same, with `ClaimLost` unless it hits one row.
unfoldable pub write_one : (Row → Bool) → (Row → Row) → List Row → Done
unfolding write
write_one p f rows =
    and_then (write p f rows)
      (λ rows'. if rowcount p rows == 1 then done rows' else raised claim_lost)

abbrev pub unstack : Row → Row
unstack r = record r { stack_state = none; remote_stack_id = none; stack_reason = none }

abbrev pub in_stack : String → ℕ → String → Row → Bool
in_stack destination epoch stack_id r =
    str_eq r.destination_id destination
    && r.target_epoch == epoch
    && same_id r.remote_stack_id (some stack_id)
    && is_stacked r.stack_state

abbrev pub reopen : Option Row → Option String → List Row → Done
reopen none new_asset_id rows = done rows
reopen (some row) new_asset_id rows = elim row.remote_stack_id [
  | none ↦ done rows
  | some stack_id ↦
      if same_id new_asset_id row.remote_asset_id
      then done rows
      else write (in_stack row.destination_id row.target_epoch stack_id) unstack rows
]

unfoldable pub reopen_stack_of : String → Option String → List Row → Done
reopen_stack_of i new_asset_id rows = reopen (get record_id i rows) new_asset_id rows

abbrev pub set_fields : Fields → Row → Row
set_fields fields r = record r {
  remote_asset_id = elim fields.remote_asset_id [ none ↦ r.remote_asset_id | some a ↦ a ];
  notes = fields.notes ++ r.notes;
}

abbrev pub in_state : Option State → State → Bool
in_state none s = true
in_state (some e) s = state_eq s e

-- The condition of the update: `strict` asks for a claim that runs and a record that is valid.
abbrev pub may_move : ℕ → String → Option State → Bool → Row → Bool
may_move now token expect_state strict r =
    holds token r.claim_token
    && (if strict then expires_after now r.claim_expires_at && is_none r.invalidated_at else true)
    && in_state expect_state r.state

-- `if "remote_asset_id" in fields: self._reopen_stack_of(...)`
abbrev pub reopen_by : String → Option (Option String) → List Row → Done
reopen_by i none rows = done rows
reopen_by i (some a) rows = reopen_stack_of i a rows

unfoldable pub locked_cas :
    ℕ → String → String → (Row → Row) → Option State → Bool → Fields → List Row → Done
locked_cas now i token assignment expect_state strict fields rows =
    and_then (reopen_by i fields.remote_asset_id rows) (λ rows'.
      write_one (λ r. str_eq r.id i && may_move now token expect_state strict r)
        (λ r. set_fields fields (assignment r)) rows')

abbrev pub no_fields : Fields
no_fields = record { remote_asset_id = none; notes = [] }

abbrev pub unclaim : Row → Row
unclaim r = record r { claim_job_id = none; claim_token = none; claim_expires_at = none }

abbrev pub move_to : State → Row → Row
move_to state r = record r { state = state }

abbrev pub expiry : ℕ → ℕ → ℕ
expiry now lease_seconds = now + lease_seconds * 1_000_000

abbrev pub by_lease : Result (Unit {0}) → Done → Done
by_lease (ok _) d = d
by_lease (err _) d = raised no_lease

abbrev pub with_lease : ℕ → JobContext → JobStore → Done → Done
with_lease now ctx jobs d = by_lease (assert_lease now ctx.job_id ctx.lease_token jobs) d

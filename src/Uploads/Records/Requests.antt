-- ===== src/Uploads/Records/Requests.antt =====
-- app/src/mediaferry/db/uploads.py, `create_pairs`: a request to send files to destinations. What the
-- tables know of a file and of a destination comes with it; a new id is given for each pair.
pub mod Served
mod Tests
use mediaferry.Sql.{update}
use mediaferry.Uploads.Stacking.{is_none}
use mediaferry.Uploads.Records.{
  State, pending, checking, uploading, asset_known, tagging, fixing_datetime,
  awaiting_datetime_approval, complete, failed, needs_recheck, StackState, stacked, skipped, Row,
  Fields, record_id, Fault, claim_lost, no_lease, bad_row, bad_state, no_longer_eligible, Done,
  done, raised, and_then, left_by, is_active, is_claimable, is_terminal, is_complete, is_awaiting,
  state_eq, is_some, is_stacked, claim_fits, stack_shape, stack_fits, fits, keeps_asset, passes,
  write, write_one, unstack, in_stack, reopen, reopen_stack_of, set_fields, in_state, may_move,
  reopen_by, locked_cas, no_fields, unclaim, move_to, expiry, by_lease, with_lease,
}
use mediaferry.Base.{
  ℕ, zero, suc, ◌+◌, ◌-◌, ◌*◌, ◌/◌, ◌%◌, ◌^◌, ◌≤◌, ◌<◌, min, max, String, ◌≡◌, refl, sym, ap, ◌∙◌,
  ◌≢◌, ◌↔◌, ◌⊎◌, inl, inr, Bool, true, false, not, ◌&&◌, ◌||◌, Option, none, some, List, [], ◌∷◌,
  ◌++◌, map, arith, str_eq, eq_iff, eq_refl, ltb, leb, ◌==◌, if◌then◌else◌, ltb→lt, lt→ltb, leb→le,
  ==_iff, tests, Bool-cases, Option-cases, length, get_elem?, length-append, any, all, keep, All,
  All-imp, keep-append, All-append, Some, Apart, Apart-append, any-false, false-any,
}

-- The group that made a derived file, as `owner_group` and `group_is_current` find it.
pub record Owner : Type 0 where
  pub id : String
  pub status : String
  pub is_current : Bool
  pub is_adopted : Bool
  pub is_passed : Bool

-- A row of `media_file`, with the active group that the file is a member of.
pub record Source : Type 0 where
  pub id : String
  pub is_missing : Bool
  pub role : String
  pub member : Option (String × String)
  pub owner : Option Owner

pub record Target : Type 0 where
  pub id : String
  pub is_archived : Bool
  pub is_enabled : Bool
  pub target_epoch : Option ℕ

-- `eligibility_reason`
pub data Basis : Type 0 where
  missing_file plain_original : Basis
  failed_member active_member : String → Basis
  unknown_owner : Basis
  owner_unmerged : String → Basis
  owner_outdated verified_output adopted_output : Basis
  was_invalidated : Basis

pub record Choice : Type 0 where
  pub selection_rule : Option String
  pub merge_group_id : Option String
  pub eligibility_reason : Basis
  pub adopt_group_id : Option String

-- `RESULTS`
pub data Answer : Type 0 where
  created retry_queued already_complete already_active awaiting_approval rejected : Answer

pub record PairResult : Type 0 where
  pub media_file_id : String
  pub destination_id : String
  pub result : Answer
  pub record_id : Option String
  pub reason : Option Basis

-- The upload records, and the groups that have been adopted since.
pub record Asked : Type 0 where
  pub rows : List Row
  pub adopted : List String

abbrev pub refusal : Basis → Choice
refusal reason = record {
  selection_rule = none;
  merge_group_id = none;
  eligibility_reason = reason;
  adopt_group_id = none;
}

abbrev pub choose_member : Option (String × String) → Choice
choose_member none = record {
  selection_rule = some "default";
  merge_group_id = none;
  eligibility_reason = plain_original;
  adopt_group_id = none;
}
choose_member (some (group_id, status)) =
    if str_eq status "failed" || str_eq status "skipped"
    then record {
      selection_rule = some "failed_group_member";
      merge_group_id = some group_id;
      eligibility_reason = failed_member status;
      adopt_group_id = none;
    }
    else refusal (active_member status)

-- `_choose_original`
abbrev pub choose_original : Source → Choice
choose_original media = choose_member media.member

abbrev pub choose_owner : List String → Option Owner → Choice
choose_owner adopted none = refusal unknown_owner
choose_owner adopted (some group) =
    if not (str_eq group.status "merged")
    then refusal (owner_unmerged group.status)
    else if not group.is_current
    then refusal owner_outdated
    else if (group.is_adopted || any (λ (i : String). str_eq i group.id) adopted) || group.is_passed
    then record {
      selection_rule = some "default";
      merge_group_id = some group.id;
      eligibility_reason = verified_output;
      adopt_group_id = none;
    }
    else record {
      selection_rule = some "adopted_derived";
      merge_group_id = some group.id;
      eligibility_reason = adopted_output;
      adopt_group_id = some group.id;
    }

-- `_choose_derived`
abbrev pub choose_derived : List String → Source → Choice
choose_derived adopted media = choose_owner adopted media.owner

-- `_choose`
unfoldable pub choose : List String → Source → Choice
choose adopted media =
    if media.is_missing
    then refusal missing_file
    else if str_eq media.role "derived"
    then choose_derived adopted media
    else choose_original media

abbrev pub is_live_of : String → ℕ → String → Row → Bool
is_live_of destination_id target_epoch media_file_id r =
    (str_eq r.destination_id destination_id && r.target_epoch == target_epoch)
    && (str_eq r.media_file_id media_file_id && is_none r.invalidated_at)

unfoldable pub find : (Row → Bool) → List Row → Option Row
find p [] = none
find p (r ∷ rows) = if p r then some r else find p rows

abbrev pub answer : Source → String → Answer → Option String → Option Basis → PairResult
answer media destination_id result record_id reason = record {
  media_file_id = media.id;
  destination_id = destination_id;
  result = result;
  record_id = record_id;
  reason = reason;
}

abbrev pub is_failed : State → Bool
is_failed failed = true
is_failed _ = false

abbrev pub requeue_row : Row → Row
requeue_row r = record r {
  state = pending;
  claim_job_id = none;
  claim_token = none;
  claim_expires_at = none;
}

-- The update that puts a failed record back in the queue.
abbrev pub requeue : String → List Row → List Row
requeue i = update (λ r. str_eq r.id i && is_failed r.state) requeue_row

-- `_existing`, by the state of the record
abbrev pub existing_in : State → Source → String → Row → Asked → PairResult × Asked
existing_in complete media d r s = (answer media d already_complete (some r.id) none, s)
existing_in checking media d r s = (answer media d already_active (some r.id) none, s)
existing_in uploading media d r s = (answer media d already_active (some r.id) none, s)
existing_in asset_known media d r s = (answer media d already_active (some r.id) none, s)
existing_in tagging media d r s = (answer media d already_active (some r.id) none, s)
existing_in fixing_datetime media d r s = (answer media d already_active (some r.id) none, s)
existing_in awaiting_datetime_approval media d r s =
    (answer media d awaiting_approval (some r.id) none, s)
existing_in failed media d r s =
    (answer media d retry_queued (some r.id) none, record s { rows = requeue r.id s.rows })
existing_in pending media d r s = (answer media d created (some r.id) none, s)
existing_in needs_recheck media d r s = (answer media d created (some r.id) none, s)

abbrev pub existing : Source → String → Row → Asked → PairResult × Asked
existing media d r s =
    if is_none r.invalidated_at
    then existing_in r.state media d r s
    else (answer media d rejected (some r.id) (some was_invalidated), s)

abbrev pub new_record : ℕ → String → Source → String → ℕ → String → Choice → Row
new_record now fresh media d target_epoch rule choice = record {
  id = fresh;
  destination_id = d;
  target_epoch = target_epoch;
  media_file_id = media.id;
  state = pending;
  selection_rule = rule;
  remote_asset_id = none;
  merge_group_id = choice.merge_group_id;
  claim_job_id = none;
  claim_token = none;
  claim_expires_at = none;
  destination_revision_id = none;
  invalidated_at = none;
  invalidated_reason = none;
  created_at = now;
  stack_state = none;
  remote_stack_id = none;
  stack_reason = none;
  notes = [];
}

abbrev pub adopt : Option String → List String → List String
adopt none adopted = adopted
adopt (some i) adopted = i ∷ adopted

abbrev pub create :
    Option String → ℕ → String → Source → String → ℕ → Choice → Asked → PairResult × Asked
create none now fresh media d target_epoch choice s =
    (answer media d rejected none (some choice.eligibility_reason), s)
create (some rule) now fresh media d target_epoch choice s = (
  answer media d created (some fresh) none,
  record {
    rows = s.rows ++ (new_record now fresh media d target_epoch rule choice ∷ []);
    adopted = adopt choice.adopt_group_id s.adopted;
  },
)

abbrev pub pair_found :
    Option Row → ℕ → String → Source → String → ℕ → Choice → Asked → PairResult × Asked
pair_found (some r) now fresh media d target_epoch choice s = existing media d r s
pair_found none now fresh media d target_epoch choice s =
    create choice.selection_rule now fresh media d target_epoch choice s

-- `_pair`
unfoldable pub pair : ℕ → String → Source → String → ℕ → Choice → Asked → PairResult × Asked
unfolding find update
pair now fresh media d target_epoch choice s =
    pair_found (find (is_live_of d target_epoch media.id) s.rows) now fresh media d target_epoch
      choice s

-- `_load_media`; `none` is `UploadRequestInvalid`.
abbrev pub and_list {ℓ} : {A : Type ℓ} → Option A → Option (List A) → Option (List A)
and_list none rest = none
and_list (some x) none = none
and_list (some x) (some xs) = some (x ∷ xs)

abbrev pub load_all {ℓ} : {A : Type ℓ} → (String → Option A) → List String → Option (List A)
load_all load [] = some []
load_all load (i ∷ is) = and_list (load i) (load_all load is)

abbrev pub load_some {ℓ} : {A : Type ℓ} → (String → Option A) → List String → Option (List A)
load_some load [] = none
load_some load (i ∷ is) = load_all load (i ∷ is)

abbrev pub at_epoch : String → Option ℕ → Option (String × ℕ)
at_epoch i none = none
at_epoch i (some e) = some (i, e)

-- The checks of `_load_destinations` on one destination, with the epoch of its current revision.
abbrev pub check_target : Option Target → Option (String × ℕ)
check_target none = none
check_target (some t) =
    if t.is_archived || not t.is_enabled then none else at_epoch t.id t.target_epoch

module _ (now : ℕ) (new_id : String → String → String) where
  -- The loop over the destinations, and that over the files.
  unfoldable pub pair_targets :
      Source → Choice → List (String × ℕ) → Asked → List PairResult × Asked
  unfolding pair
  pair_targets media choice [] s = ([], s)
  pair_targets media choice ((d, e) ∷ targets) s =
      let r = pair now (new_id media.id d) media d e choice s in
      let rest = pair_targets media choice targets r.1 in (r.0 ∷ rest.0, rest.1)

  unfoldable pub pair_all : List Source → List (String × ℕ) → Asked → List PairResult × Asked
  unfolding pair_targets choose
  pair_all [] targets s = ([], s)
  pair_all (media ∷ sources) targets s =
      let r = pair_targets media (choose s.adopted media) targets s in
      let rest = pair_all sources targets r.1 in (r.0 ++ rest.0, rest.1)

  abbrev pub pair_loaded :
      Option (List Source) → Option (List (String × ℕ)) → Asked → Option (List PairResult × Asked)
  pair_loaded none targets s = none
  pair_loaded (some sources) none s = none
  pair_loaded (some sources) (some targets) s = some (pair_all sources targets s)

  unfoldable pub create_pairs :
      (String → Option Source)
      → (String → Option Target)
      → List String
      → List String
      → Asked
      → Option (List PairResult × Asked)
  unfolding pair_all
  create_pairs media_of target_of media_ids destination_ids s =
      pair_loaded (load_some media_of media_ids)
        (load_some (λ (i : String). check_target (target_of i)) destination_ids) s

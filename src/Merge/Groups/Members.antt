-- ===== src/Merge/Groups/Members.antt =====
-- app/src/mediaferry/db/merges.py: the members of the groups, and the calls that make, replace, discard
-- and forget groups. The tables take part with their triggers and unique indexes; an error of
-- either rolls the call back. A group's profile and revision are not modelled.
pub mod Exclusive
pub mod Pending
use mediaferry.Sql.{
  update, rowcount, get, on_row, hits, or_else, IsKeyed, get-key, get-append, get-update,
  update-IsKeyed, rowcount-key, append-IsKeyed, first_by, first_by-holds, first_by-none,
  first_by-le, first_by-get, update-All,
}
use mediaferry.Jobs
use mediaferry.Jobs.{Job}
use mediaferry.Uploads.Records.{Row, is_active, is_claimable}
use mediaferry.Merge.Groups.{
  Status, detected, merging, merged, failed, skipped, Group, group_id, is_null,
}
use mediaferry.Base.{
  ℕ, zero, suc, ◌+◌, ◌-◌, ◌*◌, ◌/◌, ◌%◌, ◌^◌, ◌≤◌, ◌<◌, min, max, String, ◌≡◌, refl, sym, ap, ◌∙◌,
  ◌≢◌, ◌↔◌, ◌⊎◌, inl, inr, Bool, true, false, not, ◌&&◌, ◌||◌, Option, none, some, List, [], ◌∷◌,
  ◌++◌, map, arith, str_eq, eq_iff, eq_refl, ltb, leb, ◌==◌, if◌then◌else◌, ltb→lt, lt→ltb, leb→le,
  ==_iff, tests, Bool-cases, Option-cases, length, get_elem?, length-append, any, all, keep, All,
  All-imp, keep-append, All-append, Some, Apart, Apart-append, any-false, false-any,
}

pub record Member : Type 0 where
  pub merge_group_id : String
  pub media_file_id : String
  pub position : ℕ
  pub active : Bool

pub record Store : Type 0 where
  pub groups : List Group
  pub members : List Member
  pub records : List Row
  pub jobs : List Job

-- `GroupNotEditable`, and the `IntegrityError` that `supersede` and `save_detected` let through.
pub data Edit : Type 0 where
  edited : String → Store → Edit
  kept refused integrity : Edit

abbrev pub left_by : Edit → Store → Store
left_by (edited i s') s = s'
left_by kept s = s
left_by refused s = s
left_by integrity s = s

abbrev pub is_skipped : Status → Bool
is_skipped skipped = true
is_skipped _ = false

abbrev pub is_taken : String → List Member → Bool
is_taken media_file_id = any (λ (m : Member). m.active && str_eq m.media_file_id media_file_id)

abbrev pub new_member : String → String → ℕ → Member
new_member i media position = record {
  merge_group_id = i;
  media_file_id = media;
  position = position;
  active = true;
}

-- The inserts of the members of a new group, whose positions differ; `none` if the index
-- `merge_member_one_active_group` refuses one.
unfoldable pub insert_members : String → ℕ → List String → List Member → Option (List Member)
insert_members i position [] members = some members
insert_members i position (media ∷ rest) members =
    let others = insert_members i (suc position) rest (new_member i media position ∷ members) in
    if is_taken media members then none else others

abbrev pub new_group : String → String → Group
new_group i digest = record {
  id = i;
  status = detected;
  input_digest = digest;
  output_media_file_id = none;
  superseded_by_id = none;
  tool_version = none;
  verification_json = none;
  adopted_at = none;
  error = none;
}

-- The index on `input_digest WHERE superseded_by_id IS NULL`.
abbrev pub has_digest : String → List Group → Bool
has_digest digest = any (λ (g : Group). str_eq g.input_digest digest && is_null g.superseded_by_id)

abbrev pub with_members : Edit → String → List Group → Option (List Member) → Store → Edit
with_members failure i groups none s = failure
with_members failure i groups (some members) s =
    edited i (record s { groups = groups; members = members })

unfoldable pub save_detected : String → List String → String → Store → Edit
unfolding insert_members
save_detected fresh media_ids digest s =
    if has_digest digest s.groups
    then kept
    else if any (λ (media : String). is_taken media s.members) media_ids
    then kept
    else with_members integrity fresh (s.groups ++ (new_group fresh digest ∷ []))
        (insert_members fresh 0 media_ids s.members) s

-- `knows` tells which media files there are.
abbrev pub knows_first : (String → Bool) → List String → Bool
knows_first knows [] = false
knows_first knows (media ∷ rest) = knows media

unfoldable pub create_manual : (String → Bool) → String → List String → String → Store → Edit
unfolding insert_members
create_manual knows fresh media_ids digest s =
    if not (knows_first knows media_ids) || has_digest digest s.groups
    then refused
    else with_members refused fresh (s.groups ++ (new_group fresh digest ∷ []))
        (insert_members fresh 0 media_ids s.members) s

-- Some upload record of an active member of the group satisfies the test.
abbrev pub any_record : (Row → Bool) → String → Store → Bool
any_record p i s =
    any
      (λ (m : Member).
        str_eq m.merge_group_id i
        && m.active
        && any
            (λ (u : Row). str_eq u.media_file_id m.media_file_id && is_null u.invalidated_at && p u)
            s.records)
      s.members

abbrev pub is_open : Jobs.Status → Bool
is_open Jobs.queued = true
is_open Jobs.running = true
is_open _ = false

abbrev pub is_open_upload : (String → String → Bool) → Row → Job → Bool
is_open_upload mentions u j =
    str_eq j.type "upload" && is_open j.status && mentions j.params_json u.destination_id

module _ (mentions : String → String → Bool) where
  -- `_assert_editable` of a group that is there: `mentions` is the `LIKE` on the parameters of a job.
  abbrev pub is_editable : String → Store → Bool
  is_editable i s =
      not (any_record (λ u. is_active u.state) i s)
      && not (any_record (λ u. is_claimable u.state && any (is_open_upload mentions u) s.jobs) i s)

abbrev pub is_pending_of : String → List Member → Row → Bool
is_pending_of i members u =
    is_null u.invalidated_at
    && is_claimable u.state
    && any
        (λ (m : Member).
          str_eq m.merge_group_id i && m.active && str_eq m.media_file_id u.media_file_id)
        members

-- `_invalidate_pending`
abbrev pub invalidate_pending : ℕ → String → String → Store → Store
invalidate_pending now i reason s = record s {
  records =
      update (is_pending_of i s.members)
        (λ u. record u { invalidated_at = some now; invalidated_reason = some reason }) s.records;
}

-- What the triggers do to the members of a group that gets superseded or skipped; a group that was
-- skipped before has no active members to begin with.
unfoldable pub deactivate : String → List Member → List Member
deactivate i =
    map (λ (m : Member). if str_eq m.merge_group_id i then record m { active = false } else m)

-- `_point_at`, with its trigger
abbrev pub point_at : String → String → Store → Store
point_at i fresh s = record s {
  groups = update (λ g. str_eq g.id i) (λ g. record g { superseded_by_id = some fresh }) s.groups;
  members = deactivate i s.members;
}

-- The new group in the place of the old one, which points at it already.
abbrev pub replace_by : String → List String → String → Store → Edit
replace_by fresh media_ids digest s =
    if has_digest digest s.groups
    then integrity
    else with_members refused fresh (s.groups ++ (new_group fresh digest ∷ []))
        (insert_members fresh 0 media_ids s.members) s

abbrev pub skip_group : String → Store → Store
skip_group i s = record s {
  groups = update (λ g. str_eq g.id i) (λ g. record g { status = skipped }) s.groups;
  members = deactivate i s.members;
}

module _ (mentions : String → String → Bool) where
  -- A group that has been superseded keeps its pointer: the trigger aborts.
  abbrev pub supersede_found :
      Option Group → ℕ → String → String → List String → String → Store → Edit
  supersede_found none now fresh i media_ids digest s = refused
  supersede_found (some g) now fresh i media_ids digest s =
      if not (is_editable mentions i s)
      then refused
      else if not (is_null g.superseded_by_id)
      then integrity
      else replace_by fresh media_ids digest
          (point_at i fresh (invalidate_pending now i "superseded" s))

  unfoldable pub supersede : ℕ → String → String → List String → String → Store → Edit
  unfolding insert_members deactivate
  supersede now fresh i media_ids digest s =
      supersede_found (get group_id i s.groups) now fresh i media_ids digest s

  abbrev pub discard_found : Option Group → ℕ → String → Store → Edit
  discard_found none now i s = refused
  discard_found (some g) now i s =
      if is_editable mentions i s
      then edited i (skip_group i (invalidate_pending now i "discarded" s))
      else refused

  -- `discard` and `discard_locked`
  unfoldable pub discard : ℕ → String → Store → Edit
  unfolding deactivate
  discard now i s = discard_found (get group_id i s.groups) now i s

abbrev pub forget : String → Store → Store
forget i s = record s {
  groups = keep (λ (g : Group). not (str_eq g.id i)) s.groups;
  members = keep (λ (m : Member). not (str_eq m.merge_group_id i)) s.members;
}

-- `is_referenced`: a foreign key points at the group.
abbrev pub delete_found : Bool → Option Group → String → Store → Edit
delete_found is_referenced none i s = refused
delete_found is_referenced (some g) i s =
    if is_skipped g.status && is_null g.output_media_file_id && not is_referenced
    then edited i (forget i s)
    else refused

unfoldable pub delete_discarded : Bool → String → Store → Edit
delete_discarded is_referenced i s = delete_found is_referenced (get group_id i s.groups) i s

-- The calls, as data.
pub data Call : Type 0 where
  save_call : String → List String → String → Call
  manual_call : (String → Bool) → String → List String → String → Call
  supersede_call : ℕ → String → String → List String → String → Call
  discard_call : ℕ → String → Call
  delete_call : Bool → String → Call

unfoldable pub perform : (String → String → Bool) → Call → Store → Edit
unfolding save_detected create_manual supersede discard delete_discarded
perform mentions (save_call fresh media_ids digest) s = save_detected fresh media_ids digest s
perform mentions (manual_call knows fresh media_ids digest) s =
    create_manual knows fresh media_ids digest s
perform mentions (supersede_call now fresh i media_ids digest) s =
    supersede mentions now fresh i media_ids digest s
perform mentions (discard_call now i) s = discard mentions now i s
perform mentions (delete_call is_referenced i) s = delete_discarded is_referenced i s

-- ===== src/Merge/Groups/Tests.antt =====
-- db/merges.py: the members of groups at concrete tables.
use mediaferry.Sql.{update, get}
use mediaferry.Uploads.Records.{Row, pending}
use mediaferry.Merge.Groups.Members.{
  Store, refused, left_by, new_member, insert_members, new_group, create_manual, deactivate,
  supersede, Call, manual_call, supersede_call, discard_call, perform,
}
use mediaferry.Merge.Groups.Members.Exclusive.{IsExclusive, perform-IsExclusive}
use mediaferry.Merge.Groups.Members.Pending.{NoneOpen, perform-NoneOpen}
use mediaferry.Base.{String, ◌≡◌, refl, Bool, true, false, none, some, [], ◌∷◌}

abbrev record_of : String → Row
record_of media = record {
  id = media;
  destination_id = "home";
  target_epoch = 1;
  media_file_id = media;
  state = pending;
  selection_rule = "all";
  remote_asset_id = none;
  merge_group_id = none;
  claim_job_id = none;
  claim_token = none;
  claim_expires_at = none;
  destination_revision_id = none;
  invalidated_at = none;
  invalidated_reason = none;
  created_at = 1;
  stack_state = none;
  remote_stack_id = none;
  stack_reason = none;
  notes = [];
}

-- Two parts are a group, and one of them waits to be sent.
abbrev one_group : Store
one_group = record {
  groups = new_group "g" "d" ∷ [];
  members = new_member "g" "a" 0 ∷ new_member "g" "b" 1 ∷ [];
  records = record_of "a" ∷ [];
  jobs = [];
}

abbrev mentions_nothing : String → String → Bool
mentions_nothing params destination_id = false

abbrev shrink : Call
shrink = supersede_call 9 "h" "g" ("b" ∷ "c" ∷ []) "e"

shrink_test : left_by (perform mentions_nothing shrink one_group) one_group ≡ record {
  groups = record (new_group "g" "d") { superseded_by_id = some "h" } ∷ new_group "h" "e" ∷ [];
  members =
      new_member "h" "c" 1
      ∷ new_member "h" "b" 0
      ∷ record (new_member "g" "a" 0) { active = false }
      ∷ record (new_member "g" "b" 1) { active = false }
      ∷ [];
  records =
      record (record_of "a") { invalidated_at = some 9; invalidated_reason = some "superseded" }
      ∷ [];
  jobs = [];
}
unfolding perform supersede insert_members deactivate get update
shrink_test = refl

-- A file of a live group is refused.
taken_test :
    perform mentions_nothing (manual_call (λ m. true) "h" ("b" ∷ []) "e") one_group ≡ refused
unfolding perform create_manual insert_members
taken_test = refl

one_group-IsExclusive : IsExclusive one_group
unfolding get
one_group-IsExclusive = (((λ e. refl), ((λ e. refl), tt)), (refl, (refl, tt)))

perform-IsExclusive_example :
    IsExclusive (left_by (perform mentions_nothing shrink one_group) one_group)
unfolding get
perform-IsExclusive_example =
    perform-IsExclusive mentions_nothing shrink one_group one_group-IsExclusive
      (refl, (refl, (refl, tt)))

perform-NoneOpen_example :
    NoneOpen "g" one_group (perform mentions_nothing (discard_call 9 "g") one_group)
    × NoneOpen "g" one_group (perform mentions_nothing shrink one_group)
perform-NoneOpen_example =
    perform-NoneOpen mentions_nothing 9 "h" "g" "e" ("b" ∷ "c" ∷ []) one_group

-- ===== src/Uploads/Records/Stacks/Tests.antt =====
-- Runs of the second pass.
use mediaferry.Base.{
  String, ◌≡◌, refl, true, false, Option, none, some, List, [], ◌∷◌, arith, eq_iff, Apart,
}
use mediaferry.Sql.{update, rowcount, get, IsKeyed}
use mediaferry.Jobs.{running, Job, JobStore, JobContext, assert_lease}
use mediaferry.Uploads.Records.{
  complete, StackState, stacked, skipped, Row, record_id, group_changed, done, raised, write,
}
use mediaferry.Uploads.Records.Claims.{Tables, current_revision}
use mediaferry.Uploads.Records.Stacks.{
  Profiles, assert_current, member_moved, guard_stack_group, write_or_change, mark_members,
  mark_stacked, mark_skipped, reopen_each, reopen_stacks,
}
use mediaferry.Uploads.Records.Stacks.Marked.{IsMarked, mark_stacked-IsMarked}

abbrev sent : String → String → Option StackState → Row
sent i asset state = record {
  id = i;
  destination_id = "d";
  target_epoch = 1;
  media_file_id = "m";
  state = complete;
  selection_rule = "default";
  remote_asset_id = some asset;
  merge_group_id = none;
  claim_job_id = none;
  claim_token = none;
  claim_expires_at = none;
  destination_revision_id = some "v";
  invalidated_at = none;
  invalidated_reason = none;
  created_at = 1;
  stack_state = state;
  remote_stack_id = none;
  stack_reason = elim state [ none ↦ none | some _ ↦ some "no partner" ];
  notes = [];
}

abbrev tables : Tables
tables = record {
  media = λ i. some (record { id = i; missing = false; role = "original" });
  destination = λ i. some (record { archived = false; enabled = true; current_revision_id = "v" });
  revision = λ i. some (record { id = "v"; target_epoch = 1 });
  group_is_current = λ g m. true;
  active_group = λ m. none;
  adopted = λ g. false;
}

abbrev job : Job
job = record {
  id = "j";
  type = "upload";
  status = running;
  params_json = "{}";
  progress_json = none;
  lease_token = some "t";
  lease_expires_at = some 100;
  created_at = 0;
  started_at = some 1;
  finished_at = none;
  error = none;
}

abbrev jobs : JobStore
jobs = record { jobs = job ∷ []; events = []; lease_seconds = 60 }

abbrev ctx : JobContext
ctx = record { job_id = "j"; lease_token = "t"; params_json = "{}" }

abbrev profiles : Profiles
profiles = record { profile_of = λ i. some "p"; current_of = λ i. some "pr" }

-- A photo that has no stack yet, its raw file, which was passed over, and a file of neither.
abbrev photo : Row
photo = sent "r1" "a1" none

abbrev raw : Row
raw = sent "r2" "a2" (some skipped)

abbrev table : List Row
table = photo ∷ raw ∷ sent "r3" "a3" none ∷ []

table-IsKeyed : IsKeyed record_id table
unfolding get
table-IsKeyed = (refl, (refl, (refl, tt)))

members-Apart : Apart record_id (photo ∷ raw ∷ [])
members-Apart = ((λ q. ground (arith, q, eq_iff "r1" "r2"), tt), (tt, tt))

passes_guard :
    guard_stack_group 8 ctx jobs tables profiles (photo ∷ raw ∷ []) "d" 1 "pr" table ≡ done table
unfolding guard_stack_group assert_current member_moved assert_lease current_revision rowcount get
passes_guard = refl

mark_stacked-IsMarked_example :
    (rows' : List Row) × (mark_stacked 8 ctx jobs tables profiles
        (photo ∷ raw ∷ [])
        "d"
        1
        "pr"
        "s"
        table
      ≡ done rows')
    × IsMarked table rows' "s" (photo ∷ raw ∷ [])
mark_stacked-IsMarked_example =
    mark_stacked-IsMarked 8 ctx jobs tables profiles "d" 1 "pr" (photo ∷ raw ∷ []) table "s"
      table-IsKeyed (refl, (refl, (refl, tt))) (refl, (refl, tt)) members-Apart passes_guard

-- A member whose asset is not the one that was read stops the whole call.
stops_when_moved :
    mark_stacked 8 ctx jobs tables profiles (photo ∷ sent "r2" "a9" none ∷ []) "d" 1 "pr" "s" table
    ≡ raised group_changed
unfolding mark_stacked assert_current mark_members write_or_change write assert_lease
    current_revision rowcount update get
stops_when_moved = refl

passes_over :
    mark_skipped 8 ctx jobs tables profiles photo "d" 1 "pr" "no partner" (photo ∷ [])
    ≡ done (sent "r1" "a1" (some skipped) ∷ [])
unfolding mark_skipped assert_current write_or_change write assert_lease current_revision rowcount
    update get
passes_over = refl

abbrev in_s : String → Row
in_s i = record (sent i "a" none) { stack_state = some stacked; remote_stack_id = some "s" }

reopens_one :
    reopen_stacks 8 ctx jobs "d" 1 ("s" ∷ "none" ∷ []) (in_s "r1" ∷ in_s "r2" ∷ [])
    ≡ (1, done (sent "r1" "a" none ∷ sent "r2" "a" none ∷ []))
unfolding reopen_stacks reopen_each write rowcount update assert_lease get
reopens_one = refl

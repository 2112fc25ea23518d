-- ===== src/Uploads/Records/Stamps/Tests.antt =====
-- Runs of the recheck.
use mediaferry.Base.{String, ◌≡◌, refl, true, Option, none, some, List, [], ◌∷◌, All}
use mediaferry.Sql.{update, rowcount, get, IsKeyed}
use mediaferry.Jobs.{running, Job, JobStore, JobContext, ok, assert_lease}
use mediaferry.Uploads.Records.{complete, StackState, stacked, Row, record_id, done, write}
use mediaferry.Uploads.Records.Restart.{IsFit}
use mediaferry.Uploads.Records.Stamps.{
  Stamp, noted, is_as_seen, stamp_one, stamp_all, stamp_many, stamp_remote_datetime,
  invalidate_old_epoch,
}
use mediaferry.Uploads.Records.Stamps.Whole.{stamp_many-IsThrough}

abbrev sent : String → String → Option StackState → Row
sent i asset state = record {
  id = i;
  destination_id = "d";
  target_epoch = 1;
  media_file_id = "m";
  state = complete;
  selection_rule = "default";
  remote_asset_id = some asset;
  merge_group_id = none;
  claim_job_id = none;
  claim_token = none;
  claim_expires_at = none;
  destination_revision_id = some "v";
  invalidated_at = none;
  invalidated_reason = none;
  created_at = 1;
  stack_state = state;
  remote_stack_id = elim state [ none ↦ none | some _ ↦ some "s" ];
  stack_reason = none;
  notes = [];
}

abbrev job : Job
job = record {
  id = "j";
  type = "upload";
  status = running;
  params_json = "{}";
  progress_json = none;
  lease_token = some "t";
  lease_expires_at = some 100;
  created_at = 0;
  started_at = some 1;
  finished_at = none;
  error = none;
}

abbrev jobs : JobStore
jobs = record { jobs = job ∷ []; events = []; lease_seconds = 60 }

abbrev ctx : JobContext
ctx = record { job_id = "j"; lease_token = "t"; params_json = "{}" }

-- A stack of two.
abbrev table : List Row
table = sent "r1" "a1" (some stacked) ∷ sent "r2" "a2" (some stacked) ∷ []

-- The first asset is gone, and the second was not seen as it is now.
abbrev stamps : List Stamp
stamps =
    record {
      record_id = "r1";
      asset_id = none;
      is_trashed = "0";
      expect_asset_id = some "a1";
      expect_checked_at = none;
    }
    ∷ record {
      record_id = "r2";
      asset_id = none;
      is_trashed = "0";
      expect_asset_id = some "a2";
      expect_checked_at = some "then";
    }
    ∷ []

table-IsKeyed : IsKeyed record_id table
unfolding get
table-IsKeyed = (refl, (refl, tt))

lease_holds : assert_lease 8 ctx.job_id ctx.lease_token jobs ≡ ok tt
unfolding assert_lease get
lease_holds = refl

stamp_many-IsThrough_example :
    (ids : List String) × (rows' : List Row) × (stamp_many (λ t. "now") 8 ctx jobs stamps 7 table
      ≡ (ids, done rows'))
    × (IsKeyed record_id rows' × All IsFit rows')
stamp_many-IsThrough_example =
    stamp_many-IsThrough (λ t. "now") 8 ctx jobs stamps 7 table lease_holds table-IsKeyed
      (refl, (refl, tt))

abbrev gone : Row
gone = record (sent "r1" "a1" none) {
  remote_asset_id = none;
  invalidated_at = some 7;
  invalidated_reason = some "remote_missing";
  notes = ("remote_is_trashed", some "0") ∷ ("remote_checked_at", some "now") ∷ [];
}

-- The stack of the first is reopened for both, and the old sight of the second writes nothing.
opens_the_stack :
    stamp_many (λ t. "now") 8 ctx jobs stamps 7 table
    ≡ ("r1" ∷ [], done (gone ∷ sent "r2" "a2" none ∷ []))
unfolding stamp_many stamp_all stamp_one is_as_seen noted write assert_lease rowcount update get
opens_the_stack = refl

dates_the_record : (stamp_remote_datetime (λ t. "now") "r1" (some "d") 7 none table).0 ≡ true
unfolding stamp_remote_datetime noted rowcount
dates_the_record = refl

leaves_finished : invalidate_old_epoch 8 "d" 2 "moved" table ≡ done table
unfolding invalidate_old_epoch write update
leaves_finished = refl

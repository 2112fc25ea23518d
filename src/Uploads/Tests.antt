-- ===== src/Uploads/Tests.antt =====
-- Runs of the decisions and of the records.
use mediaferry.Uploads.Records.Restart.{IsFit, IsIdle, release_interrupted-IsIdle}
use mediaferry.Base.{ℕ, String, ◌≡◌, refl, ◌≢◌, ◌↔◌, true, false, none, some, List, [], ◌∷◌, All}
use mediaferry.Sql.{get}
use mediaferry.Profile.{ImmichRule}
use mediaferry.Jobs.{running, Job, JobStore, JobContext}
use mediaferry.Jobs.Leases.{run as run_jobs}
use mediaferry.Uploads.Decisions.{
  tags_to_apply, origin_after_upload, datetime_plan, change_needs_creation,
}
use mediaferry.Uploads.Records.{uploading, asset_known, Row, done, no_fields}
use mediaferry.Uploads.Records.Moves.{advance_owned, finish_owned, release_interrupted}
use mediaferry.Uploads.Records.Claims.{Tables, prepare_side_effect}
use mediaferry.Uploads.Records.Life.{
  Holds, IsInvalid, Call, extend_call, invalidate_call, datetime_call, epoch_call, run,
}
use mediaferry.Uploads.Records.Invalid.{Raises, IsInvalid-is_final}

abbrev tagging_rule : ImmichRule
tagging_rule = record {
  tags = "camera" ∷ [];
  tag_pre_existing = false;
  fix_datetime_after_upload = true;
}

change_needs_creation_example :
    ((datetime_plan tagging_rule "fixed" "t"
          (origin_after_upload (some "reject") "duplicate")).automatic
        ≡ true
      ↔ (tagging_rule.fix_datetime_after_upload ≡ true)
        × (◌≢◌ {A = String} "fixed" "none")
        × (◌≡◌ {A = String} "duplicate" "created"))
    × (◌≢◌ {A = String} "duplicate" "created"
        → tagging_rule.tag_pre_existing ≡ false
        → tags_to_apply tagging_rule (origin_after_upload (some "reject") "duplicate") ≡ [])
change_needs_creation_example =
    change_needs_creation tagging_rule "fixed" "t" (some "reject") "duplicate"

abbrev sending : Row
sending = record {
  id = "r1";
  destination_id = "d";
  target_epoch = 1;
  media_file_id = "m";
  state = uploading;
  selection_rule = "default";
  remote_asset_id = none;
  merge_group_id = none;
  claim_job_id = some "j";
  claim_token = some "t";
  claim_expires_at = some 100;
  destination_revision_id = some "v";
  invalidated_at = some 5;
  invalidated_reason = some "regrouped";
  created_at = 1;
  stack_state = none;
  remote_stack_id = none;
  stack_reason = none;
  notes = [];
}

abbrev tables : Tables
tables = record {
  media = λ i. some (record { id = i; missing = false; role = "original" });
  destination = λ i. some (record { archived = false; enabled = true; current_revision_id = "v" });
  revision = λ i. some (record { id = "v"; target_epoch = 1 });
  group_is_current = λ g m. true;
  active_group = λ m. none;
  adopted = λ g. false;
}

abbrev job : Job
job = record {
  id = "j";
  type = "upload";
  status = running;
  params_json = "{}";
  progress_json = none;
  lease_token = some "t";
  lease_expires_at = some 100;
  created_at = 0;
  started_at = some 1;
  finished_at = none;
  error = none;
}

abbrev jobs : JobStore
jobs = record { jobs = job ∷ []; events = []; lease_seconds = 60 }

abbrev ctx : JobContext
ctx = record { job_id = "j"; lease_token = "t"; params_json = "{}" }

abbrev later : List (ℕ × Call)
later =
    (6, invalidate_call "g" "again")
    ∷ (7, extend_call "r1" "t" 60)
    ∷ (7, datetime_call (λ t. "now") "r1" none 7 none)
    ∷ (7, epoch_call "d" 2 "moved")
    ∷ []

IsInvalid-held : Holds IsInvalid "r1" (sending ∷ [])
unfolding get
IsInvalid-held = ((refl, tt), (sending, refl, refl))

IsInvalid-is_final_example :
    let after = run later (sending ∷ []) in
    Holds IsInvalid "r1" after
    × Raises (prepare_side_effect 8 60 ctx "r1" uploading true tables jobs after)
    × Raises (advance_owned 8 ctx "r1" asset_known uploading no_fields jobs after)
    × Raises (finish_owned 8 ctx "r1" asset_known uploading no_fields jobs after)
IsInvalid-is_final_example =
    IsInvalid-is_final "r1" (sending ∷ []) IsInvalid-held later 8 60 ctx asset_known uploading true
      no_fields tables jobs

release_interrupted-IsIdle_example :
    (rows' : List Row) × (release_interrupted (sending ∷ []) ≡ done rows')
    × All IsFit rows'
    × All IsIdle rows'
release_interrupted-IsIdle_example = release_interrupted-IsIdle (sending ∷ []) (refl, tt)

-- ===== src/Publish.antt =====
-- app/src/mediaferry/adapters/publisher.py: how a file gets into the library, for imports and
-- merges alike. The world of one publication is the tree of files under the data root, the row of
-- `artifact_staging` that its id names, and the tables that the commit writes to. SHA-1 and the
-- fate of each step are parameters; fsync and directories leave no trace.
pub mod Steps
pub mod Links
pub mod Recovery
pub mod Restart
pub mod Request
pub mod Staged
pub mod Keeps
mod Tests
use mediaferry.Text.{
  Text, codes, text_eq, text_eq_iff, contains, starts_with, last_dot, has_stem, splitext,
  upper_code, upper, lstrip_dots, splitext-append,
}
use mediaferry.Base.{
  ℕ, zero, suc, ◌+◌, ◌-◌, ◌*◌, ◌/◌, ◌%◌, ◌^◌, ◌≤◌, ◌<◌, min, max, String, ◌≡◌, refl, sym, ap, ◌∙◌,
  ◌≢◌, ◌↔◌, ◌⊎◌, inl, inr, Bool, true, false, not, ◌&&◌, ◌||◌, Option, none, some, List, [], ◌∷◌,
  ◌++◌, map, arith, str_eq, eq_iff, eq_refl, ltb, leb, ◌==◌, if◌then◌else◌, ltb→lt, lt→ltb, leb→le,
  ==_iff, tests, Bool-cases, Option-cases, length, get_elem?, length-append, any, all, keep, All,
  All-imp, keep-append, All-append, Some, Apart, Apart-append, any-false, false-any,
}

pub record File : Type 0 where
  pub path : Text
  pub content : Text

abbrev pub look : Text → List File → Option Text
look path [] = none
look path (f ∷ fs) = if text_eq f.path path then some f.content else look path fs

abbrev pub unlink : Text → List File → List File
unlink path = keep (λ (f : File). not (text_eq f.path path))

abbrev pub add_file : Text → Text → List File → List File
add_file path content fs = record { path = path; content = content } ∷ fs

-- What `metadata_json` keeps for the row of `media_file`.
pub record Described : Type 0 where
  pub role : Text
  pub profile_id : ℕ
  pub profile_revision_id : ℕ
  pub kind : Text
  pub captured_at : Text
  pub captured_at_source : Text
  pub captured_at_tz : Option Text
  pub captured_at_note : Option Text
  pub container_wall : Option Text
  pub duration_seconds : Option ℕ
  pub probe_state : Text
  pub mtime_ns : ℕ

pub record Metadata : Type 0 where
  pub desired_rel_path : Text
  pub collision_stamp : Text
  pub described : Described

-- The columns that the schema wants from `staged` on.
pub record Facts : Type 0 where
  pub final_rel_path : Text
  pub expected_size : ℕ
  pub content_sha1 : Text
  pub metadata : Metadata

pub data Stage : Type 0 where
  writing : Stage
  staged published : Facts → Stage

pub record Staging : Type 0 where
  pub staging_rel_path : Text
  pub stage : Stage
  pub source_entry_id : Option ℕ
  pub merge_group_id : Option ℕ

pub record MediaFile : Type 0 where
  pub id : ℕ
  pub rel_path : Text
  pub size_bytes : ℕ
  pub sha1 : Text
  pub described : Described
  pub captured_at_revision_id : ℕ

pub record SourceEntry : Type 0 where
  pub id : ℕ
  pub media_file_id : Option ℕ
  pub is_published : Bool

pub record MergeGroup : Type 0 where
  pub id : ℕ
  pub output_media_file_id : Option ℕ

pub record World : Type 0 where
  pub row : Option Staging
  pub files : List File
  pub media : List MediaFile
  pub entries : List SourceEntry
  pub groups : List MergeGroup

pub record PublishedArtifact : Type 0 where
  pub media_file_id : ℕ
  pub rel_path : Text
  pub size_bytes : ℕ
  pub sha1 : Text
  pub reused_existing : Bool

pub data Failure : Type 0 where
  staging_lost publish_aborted publish_cancelled publish_interrupted : Failure
  write_failed probe_failed no_row io_failed : Failure

-- A call returns, raises, or the process dies in it.
pub data Outcome (A : Type 0) : Type 0 where
  returned : A → World → Outcome A
  raised : Failure → World → Outcome A
  died : World → Outcome A

abbrev pub and_then : {A B : Type 0} → Outcome A → (A → World → Outcome B) → Outcome B
and_then (returned a w) f = f a w
and_then (raised e w) f = raised e w
and_then (died w) f = died w

abbrev pub left_by : {A : Type 0} → Outcome A → World
left_by (returned a w) = w
left_by (raised e w) = w
left_by (died w) = w

-- At a step the process goes on or dies, or what the step asks of the system raises.
pub data Fate : Type 0 where
  goes dies breaks : Fate

-- `_checkpoint`, and the calls of the system next to it, which change nothing when they raise.
abbrev pub checkpoint : {A : Type 0} → Fate → World → Outcome A → Outcome A
checkpoint goes w rest = rest
checkpoint dies w rest = died w
checkpoint breaks w rest = raised io_failed w

pub data Step : Type 0 where
  writing_row verified_step metadata_step final_path_step staged_step : Step
  linked_step dir_fsynced_step staging_unlinked_step committing_step committed_step : Step
  discard_unlink_step discard_delete_step : Step
  link_step : ℕ → Step

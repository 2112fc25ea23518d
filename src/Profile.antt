-- ===== src/Profile.antt =====
-- app/src/mediaferry/core/profiles/model.py: the rules of a camera profile.
pub mod Matching
use mediaferry.Base.{ℕ, String, Bool, false, Option, List, []}

pub record Hints : Type 0 where
  pub usb_ids : List String
  pub volume_labels : List String

pub record Require : Type 0 where
  pub roots : List String
  pub filename_pattern : String
  pub min_matching_files : ℕ

pub record ScanRule : Type 0 where
  pub roots : List String
  pub extensions : List String

pub record TimestampRule : Type 0 where
  pub source : List String
  pub pattern : Option String
  pub format : Option String
  pub timezone_policy : String
  pub timezone : Option String
  pub mtime_semantics : String
  pub container_semantics : String

pub record KeepStreams : Type 0 where
  pub video : String
  pub audio : String
  pub timecode : Bool
  pub data_streams : Bool

pub record MergeRule : Type 0 where
  pub enabled : Bool
  pub tolerance_seconds : ℕ
  pub min_part_size_gib : ℕ
  pub sequence_pattern : String
  pub output_name : String
  pub keep_streams : KeepStreams

pub record StackRule : Type 0 where
  pub enabled : Bool
  pub extensions : List String

abbrev pub stack_disabled : StackRule
stack_disabled = record { enabled = false; extensions = [] }

pub record ImmichRule : Type 0 where
  pub tags : List String
  pub tag_pre_existing : Bool
  pub fix_datetime_after_upload : Bool

pub record ProfileDefinition : Type 0 where
  pub slug : String
  pub name : String
  pub hints : Hints
  pub require : Require
  pub scan : ScanRule
  pub timestamp : TimestampRule
  pub merge : MergeRule
  pub stack : StackRule
  pub immich : ImmichRule

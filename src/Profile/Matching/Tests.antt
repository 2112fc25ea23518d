-- ===== src/Profile/Matching/Tests.antt =====
-- A card that is matched.
use mediaferry.Base.{
  String, ◌≡◌, refl, ap, true, false, none, some, List, [], ◌∷◌, str_eq, if◌then◌else◌, Some,
}
use mediaferry.Profile.{KeepStreams, MergeRule, stack_disabled, ProfileDefinition}
use mediaferry.Profile.Matching.{
  VolumeFacts, SourceTree, Texts, hint_score, count_matching_files, adopted, choose,
  resolve_profile,
}
use mediaferry.Profile.Matching.Content.{HasContent, resolve_profile-HasContent}

abbrev keep_all : KeepStreams
keep_all = record { video = "all"; audio = "all"; timecode = true; data_streams = false }

abbrev no_merge : MergeRule
no_merge = record {
  enabled = false;
  tolerance_seconds = 0;
  min_part_size_gib = 0;
  sequence_pattern = "";
  output_name = "";
  keep_streams = keep_all;
}

abbrev profile : String → String → String → ProfileDefinition
profile slug root usb = record {
  slug = slug;
  name = slug;
  hints = record { usb_ids = usb ∷ []; volume_labels = [] };
  require = record { roots = root ∷ []; filename_pattern = "jpg"; min_matching_files = 1 };
  scan = record { roots = root ∷ []; extensions = "JPG" ∷ [] };
  timestamp = record {
    source = "exif" ∷ [];
    pattern = none;
    format = none;
    timezone_policy = "none";
    timezone = none;
    mtime_semantics = "utc";
    container_semantics = "utc";
  };
  merge = no_merge;
  stack = stack_disabled;
  immich = record { tags = []; tag_pre_existing = false; fix_datetime_after_upload = false };
}

abbrev profiles : List ProfileDefinition
profiles = profile "action" "CLIPS" "2ca3" ∷ profile "still" "DCIM" "04a9" ∷ []

abbrev matchers : Texts
matchers = record {
  usb_matches = λ v p pattern. str_eq v pattern;
  slug_before = λ a b. false;
  match = λ pattern name. some (str_eq name "a.jpg");
}

abbrev facts : VolumeFacts
facts = record { usb_vendor_id = "2ca3"; usb_product_id = "1"; fs_label = "" }

abbrev tree : SourceTree
tree = record {
  has_root = λ r. true;
  iter_names = λ r n. if str_eq r "DCIM" then "b.txt" ∷ "a.jpg" ∷ [] else [];
}

-- The hint is for the first profile, the content for the second.
found : resolve_profile matchers profiles facts tree none ≡ adopted (profile "still" "DCIM" "04a9")
unfolding resolve_profile choose hint_score count_matching_files
found = refl

resolve_profile-HasContent_example :
    Some (λ d. (d.slug ≡ "still") × HasContent matchers tree d) profiles
resolve_profile-HasContent_example =
    resolve_profile-HasContent matchers profiles facts tree none "still" (ap (λ o. o.slug) found)
      (ap (λ o. o.provisional) found)

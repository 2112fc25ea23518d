-- ===== src/Merge/Grouping/Tests.antt =====
-- Groupings of concrete recordings: a DJI camera's parts, cut at 16 GiB.
use mediaferry.Base.{
  ℕ, ◌*◌, String, ◌≡◌, refl, inl, true, false, some, List, [], ◌∷◌, map, if◌then◌else◌, length,
  keep, All,
}
use mediaferry.Base.Int.{pos, ◌+ℤ◌, ◌-ℤ◌, neg}
use mediaferry.Profile.{MergeRule}
use mediaferry.Merge.Grouping.{
  gib, MergePart, resolution_of, resolution, gap, is_usable, breaks, flush, scan_part, scan_parts,
  detect_groups,
}
use mediaferry.Merge.Grouping.Segments.{segments, candidates, detect_groups-segments}
use mediaferry.Merge.Grouping.Recordings.{
  IsGroup, detect_groups-IsGroup, join, join-segments, Grouped, neighbours-Grouped,
}

abbrev dji : MergeRule
dji = record {
  enabled = true;
  tolerance_seconds = 3;
  min_part_size_gib = 15;
  sequence_pattern = "";
  output_name = "";
  keep_streams = record {
    video = "primary";
    audio = "primary";
    timecode = true;
    data_streams = false;
  };
}

abbrev part : String → ℕ → ℕ → ℕ → MergePart
part id start length gibs = record {
  media_file_id = id;
  rel_path = id;
  sha1 = id;
  captured_at = pos start;
  duration = some (pos length);
  size_bytes = gibs * gib;
  probe_state = "ok";
  captured_at_source = "filename";
}

abbrev first : MergePart
first = part "a" 100_000_000 60_909_000 16

-- It starts 0.909 seconds before the end of the first, which the rounding to seconds explains.
abbrev second : MergePart
second = part "b" 160_000_000 10_000_000 2

-- Another recording.
abbrev third : MergePart
third = part "c" 171_000_000 5_000_000 1

abbrev card : List MergePart
card = first ∷ second ∷ third ∷ []

one_group : map (λ g. g.members) (detect_groups card dji) ≡ (first ∷ second ∷ []) ∷ []
unfolding detect_groups scan_parts scan_part flush is_usable breaks gap resolution resolution_of neg
    ◌-ℤ◌ ◌+ℤ◌
one_group = refl

detect_groups-segments_example :
    detect_groups card dji ≡ (if dji.enabled then candidates (segments dji card) else [])
detect_groups-segments_example = detect_groups-segments card dji

detect_groups-IsGroup_example : All (IsGroup dji) (detect_groups card dji)
detect_groups-IsGroup_example = detect_groups-IsGroup card dji

neighbours-Grouped_example : Grouped first second (detect_groups card dji)
unfolding is_usable breaks gap resolution resolution_of neg ◌-ℤ◌ ◌+ℤ◌
neighbours-Grouped_example =
    neighbours-Grouped dji first second refl refl refl card refl (inl (refl, refl))

join-segments_example : join (segments dji card) ≡ keep is_usable card
join-segments_example = join-segments dji card

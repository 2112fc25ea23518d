-- ===== src/Merge/Tests.antt =====
-- A merge of two parts that passes.
use mediaferry.Base.{
  ℕ, ◌*◌, String, ◌≡◌, refl, true, false, Option, none, some, List, [], ◌∷◌, str_eq, if◌then◌else◌,
}
use mediaferry.Base.Sort.{place, sort_by}
use mediaferry.Profile.{KeepStreams}
use mediaferry.Sql.{update, rowcount, get, IsKeyed}
use mediaferry.Merge.Groups.{
  detected, skipped, Group, group_id, taken, not_claimable, change, claim_for_merge,
}
use mediaferry.Merge.Groups.Life.{
  Call, claim_call, output_call, supersede_call, deleted_call, settle_call, run, IsSkipped,
  run-IsSkipped, claim_once,
}
use mediaferry.Merge.Streams.{Stream, kept_videos, kept_audios, selected_streams, stream_signature}
use mediaferry.Merge.Checks.{
  ProbedFile, concat_route, total, duration_check, count, covered, streams_check, video_frames,
  frames_check,
}
use mediaferry.Merge.Verify.{dropped_streams, seam_offsets, columns, size_check, verify}
use mediaferry.Merge.Verify.Verdicts.{StreamsKept, LengthKept, FramesKept, SizeKept, verify-passed}

abbrev keep_video : KeepStreams
keep_video = record { video = "primary"; audio = "all"; timecode = true; data_streams = false }

abbrev video : String → Stream
video frames = record {
  index = 0;
  codec_type = some "video";
  codec_name = some "hevc";
  codec_tag_string = some "hvc1";
  bit_rate = some "8";
  nb_frames = some frames;
  attached_pic = false;
}

abbrev file : ℕ → ℕ → String → ProbedFile
file seconds size frames = record {
  duration_seconds = some (seconds * 1_000_000);
  size_bytes = size;
  streams = video frames ∷ [];
}

abbrev read_number : String → Option ℕ
read_number s =
    if str_eq s "100"
    then some 100
    else if str_eq s "199"
    then some 199
    else if str_eq s "8"
    then some 8
    else none

passes_checks :
    (verify keep_video read_number read_number
      (file 50 0 "100" ∷ file 50 0 "100" ∷ [])
      (file 100 100 "199")
      concat_route
      []).passed
    ≡ true
unfolding verify duration_check streams_check frames_check size_check dropped_streams seam_offsets
    video_frames total covered count columns selected_streams kept_videos kept_audios sort_by place
    stream_signature
passes_checks = refl

verify-passed_example :
    LengthKept (file 50 0 "100" ∷ file 50 0 "100" ∷ []) (file 100 100 "199")
    × StreamsKept keep_video (file 50 0 "100" ∷ file 50 0 "100" ∷ []) (file 100 100 "199") []
    × FramesKept keep_video read_number
        (file 50 0 "100" ∷ file 50 0 "100" ∷ [])
        (file 100 100 "199")
    × SizeKept keep_video read_number
        (file 50 0 "100" ∷ file 50 0 "100" ∷ [])
        (file 100 100 "199")
        concat_route
verify-passed_example =
    verify-passed keep_video read_number read_number (file 50 0 "100" ∷ file 50 0 "100" ∷ [])
      (file 100 100 "199") concat_route [] passes_checks

abbrev pair : Group
pair = record {
  id = "g";
  status = detected;
  input_digest = "d";
  output_media_file_id = none;
  superseded_by_id = none;
  tool_version = none;
  verification_json = none;
  adopted_at = none;
  error = none;
}

abbrev around : List Call
around =
    claim_call "g" "d"
    ∷ output_call "g" "m"
    ∷ supersede_call "g" "h"
    ∷ deleted_call "m"
    ∷ settle_call (λ i. false)
    ∷ []

run-IsSkipped_example : IsSkipped "g" (run around (record pair { status = skipped } ∷ []))
unfolding get
run-IsSkipped_example =
    run-IsSkipped around "g" (record pair { status = skipped } ∷ [])
      (record pair { status = skipped }, refl, refl)

pair-IsKeyed : IsKeyed group_id (pair ∷ [])
unfolding get
pair-IsKeyed = (refl, tt)

claim_granted : (claim_for_merge "g" "d" (pair ∷ [])).0 ≡ taken
unfolding claim_for_merge change rowcount update
claim_granted = refl

claim_once_example :
    (claim_for_merge "g" "d" (claim_for_merge "g" "d" (pair ∷ [])).1).0 ≡ not_claimable
claim_once_example = claim_once "g" "d" "d" (pair ∷ []) pair-IsKeyed claim_granted

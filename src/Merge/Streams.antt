-- ===== src/Merge/Streams.antt =====
-- app/src/mediaferry/core/merge/streams.py: which streams of a file a merge keeps.
-- The fields of ffprobe's answer are options, `none` where it leaves one out.
use mediaferry.Base.{
  ℕ, String, Bool, false, not, ◌&&◌, Option, none, some, List, [], ◌∷◌, ◌++◌, map, str_eq,
  if◌then◌else◌, keep,
}
use mediaferry.Base.Sort.{sort_by}
use mediaferry.Profile.{KeepStreams}

pub record Stream : Type 0 where
  pub index : ℕ
  pub codec_type : Option String
  pub codec_name : Option String
  pub codec_tag_string : Option String
  pub bit_rate : Option String
  pub nb_frames : Option String
  pub attached_pic : Bool

abbrev pub is_text : String → Option String → Bool
is_text s none = false
is_text s (some t) = str_eq t s

-- A video that is not an embedded thumbnail.
abbrev pub is_video : Stream → Bool
is_video s = is_text "video" s.codec_type && not s.attached_pic

abbrev pub is_audio : Stream → Bool
is_audio s = is_text "audio" s.codec_type

abbrev pub is_data : Stream → Bool
is_data s = is_text "data" s.codec_type

abbrev pub is_timecode : Stream → Bool
is_timecode s = is_text "tmcd" s.codec_tag_string

-- `xs[:1]`
abbrev pub take_one {ℓ} : {A : Type ℓ} → List A → List A
take_one [] = []
take_one (x ∷ xs) = x ∷ []

unfoldable pub kept_videos : List Stream → KeepStreams → List Stream
kept_videos streams rule =
    if str_eq rule.video "primary" then take_one (keep is_video streams) else keep is_video streams

unfoldable pub kept_audios : List Stream → KeepStreams → List Stream
kept_audios streams rule =
    if str_eq rule.audio "primary"
    then take_one (keep is_audio streams)
    else if str_eq rule.audio "none"
    then []
    else keep is_audio streams

abbrev pub keeps_data : KeepStreams → Stream → Bool
keeps_data rule s = is_data s && (if is_timecode s then rule.timecode else rule.data_streams)

unfoldable pub selected_streams : List Stream → KeepStreams → List Stream
unfolding kept_videos kept_audios
selected_streams streams rule =
    sort_by (λ s. s.index)
      (kept_videos streams rule ++ kept_audios streams rule ++ keep (keeps_data rule) streams)

abbrev pub text_of : Option String → String
text_of none = ""
text_of (some s) = s

pub record Signature : Type 0 where
  pub kind : String
  pub name : String
  pub tag : String

abbrev pub signature_of : Stream → Signature
signature_of s = record {
  kind = text_of s.codec_type;
  name = text_of s.codec_name;
  tag = text_of s.codec_tag_string;
}

unfoldable pub stream_signature : List Stream → List Signature
stream_signature streams = map signature_of streams

-- `-map 0:<index>`, as the indices.
unfoldable pub map_arguments : List Stream → List ℕ
map_arguments streams = map (λ s. s.index) streams

abbrev pub is_ts_safe : Option String → Bool
is_ts_safe name = is_text "aac" name

abbrev pub blocks_ts : Stream → Bool
blocks_ts s = is_audio s && not (is_ts_safe s.codec_name)

unfoldable pub ts_route_blockers : List Stream → KeepStreams → List Stream
unfolding selected_streams
ts_route_blockers streams rule = keep blocks_ts (selected_streams streams rule)

-- ===== src/Merge/Verify.antt =====
-- app/src/mediaferry/core/merge/verify.py: the check of the size, and `verify` as a whole. A bit rate
-- is a whole number of bits, so the comparisons are exact; what `float` reads of a text is a
-- parameter.
pub mod Verdicts
use mediaferry.Base.{
  ℕ, zero, suc, ◌+◌, ◌-◌, ◌*◌, ◌/◌, ◌%◌, ◌^◌, ◌≤◌, ◌<◌, min, max, String, ◌≡◌, refl, sym, ap, ◌∙◌,
  ◌≢◌, ◌↔◌, ◌⊎◌, inl, inr, Bool, true, false, not, ◌&&◌, ◌||◌, Option, none, some, List, [], ◌∷◌,
  ◌++◌, map, arith, str_eq, eq_iff, eq_refl, ltb, leb, ◌==◌, if◌then◌else◌, ltb→lt, lt→ltb, leb→le,
  ==_iff, tests, Bool-cases, Option-cases, length, get_elem?, length-append, any, all, keep, All,
  All-imp, keep-append, All-append, Some, Apart, Apart-append, any-false, false-any,
}
use mediaferry.Profile.{
  Hints, Require, ScanRule, TimestampRule, KeepStreams, MergeRule, StackRule, stack_disabled,
  ImmichRule, ProfileDefinition,
}
use mediaferry.Merge.Streams.{
  Stream, is_text, is_video, is_audio, is_data, is_timecode, take_one, kept_videos, kept_audios,
  keeps_data, selected_streams, text_of, Signature, signature_of, stream_signature, map_arguments,
  is_ts_safe, blocks_ts, ts_route_blockers,
}
use mediaferry.Merge.Checks.{
  ProbedFile, Verdict, pass, fail, inconclusive, Route, concat_route, ts_route, Verification,
  is_fail, verdict, add_some, plus, total, durations, second, distance, check_duration,
  duration_check, sig_eq, sigs_eq, count, covered, signature, check_streams, streams_check,
  frames_of, video_frames, check_frames, frames_check,
}

-- `_dropped_streams`: what the selection leaves out of the first part; a stream is known by its index.
unfoldable pub dropped_streams : ProbedFile → KeepStreams → List Stream
dropped_streams part rule =
    keep (λ s. not (any (λ k. k.index == s.index) (selected_streams part.streams rule)))
      part.streams

abbrev pub seams_from : ℕ → List ProbedFile → Option (List ℕ)
seams_from t [] = some []
seams_from t (p ∷ []) = some []
seams_from t (p ∷ q ∷ parts) = elim p.duration_seconds [
  | none ↦ none
  | some d ↦ elim (seams_from (t + d) (q ∷ parts)) [ none ↦ none | some os ↦ some ((t + d) ∷ os) ]
]

abbrev pub or_nothing : Option (List ℕ) → List ℕ
or_nothing none = []
or_nothing (some os) = os

unfoldable pub seam_offsets : List ProbedFile → List ℕ
seam_offsets parts = or_nothing (seams_from 0 parts)

abbrev pub heads : List (List Stream) → List Stream
heads [] = []
heads ([] ∷ rows) = heads rows
heads ((s ∷ ss) ∷ rows) = s ∷ heads rows

abbrev pub tails : List (List Stream) → List (List Stream)
tails [] = []
tails ([] ∷ rows) = [] ∷ tails rows
tails ((s ∷ ss) ∷ rows) = ss ∷ tails rows

-- `zip(*selections, strict=True)`, of selections of one length.
unfoldable pub columns : List Stream → List (List Stream) → List (List Stream)
columns [] rows = []
columns (s ∷ ss) rows = (s ∷ heads rows) ∷ columns ss (tails rows)

abbrev pub sum : List ℕ → ℕ
sum [] = 0
sum (x ∷ xs) = x + sum xs

abbrev pub largest : List ℕ → ℕ
largest [] = 0
largest (x ∷ xs) = max x (largest xs)

abbrev pub least : ℕ → List ℕ → ℕ
least d [] = d
least d (x ∷ xs) = min x (least d xs)

-- The sum of rate times duration, in microbits.
abbrev pub weigh : List ℕ → List ℕ → ℕ
weigh (r ∷ rs) (d ∷ ds) = r * d + weigh rs ds
weigh _ _ = 0

abbrev pub gather : List (Option ℕ) → Option (List ℕ)
gather [] = some []
gather (none ∷ os) = none
gather (some n ∷ os) = elim (gather os) [ none ↦ none | some ns ↦ some (n ∷ ns) ]

-- The first of a column has a type whose rate must be known.
abbrev pub is_estimable : List Stream → Bool
is_estimable [] = false
is_estimable (s ∷ ss) = is_text "video" s.codec_type || is_text "audio" s.codec_type

-- `(max(rates) - min(rates)) / mean > 0.1`
abbrev pub is_spread : List ℕ → Bool
is_spread rates =
    ltb (sum rates) (10 * (length rates * (largest rates - least (largest rates) rates)))

-- What a column adds to the expected bits; `none` if the size cannot be told.
abbrev pub column_bits : Bool → Option (List ℕ) → List ℕ → Option ℕ
column_bits estimable none lengths = if estimable then none else some 0
column_bits estimable (some rates) lengths =
    if sum rates == 0 then some 0 else if is_spread rates then none else some (weigh rates lengths)

abbrev pub percent : Route → ℕ
percent concat_route = 2
percent ts_route = 5

-- `abs(size - expected) / expected <= tolerance`, with the expected size in eighths of a
-- millionth of a byte.
abbrev pub check_size : Route → ℕ → Option ℕ → Verdict
check_size route size none = inconclusive
check_size route size (some bits) =
    if bits == 0
    then inconclusive
    else verdict (leb (100 * distance (8_000_000 * size) bits) (percent route * bits))

abbrev pub same_lengths : List (List Stream) → Bool
same_lengths [] = true
same_lengths (s ∷ ss) = all (λ r. length r == length s) ss

abbrev pub column_list : List (List Stream) → List (List Stream)
column_list [] = []
column_list (s ∷ ss) = columns s ss

module _ (rule : KeepStreams) (read_rate : String → Option ℕ) where
  abbrev pub rate_of : Option String → Option ℕ
  rate_of none = none
  rate_of (some raw) = read_rate raw

  abbrev pub expected_bits : List ℕ → List (List Stream) → Option ℕ
  expected_bits lengths [] = some 0
  expected_bits lengths (c ∷ cs) =
      plus (column_bits (is_estimable c) (gather (map (λ s. rate_of s.bit_rate) c)) lengths)
        (expected_bits lengths cs)

  abbrev pub size_with : Option (List ℕ) → List (List Stream) → ProbedFile → Route → Verdict
  size_with none selections merged route = inconclusive
  size_with (some lengths) selections merged route =
      if not (same_lengths selections)
      then inconclusive
      else check_size route merged.size_bytes (expected_bits lengths (column_list selections))

  unfoldable pub size_check : List ProbedFile → ProbedFile → Route → Verdict
  unfolding columns
  size_check parts merged route =
      size_with (gather (durations parts)) (map (λ p. selected_streams p.streams rule) parts) merged
        route

module _ (rule : KeepStreams) (read_int read_rate : String → Option ℕ) where
  abbrev pub dropped_of : List ProbedFile → List Stream
  dropped_of [] = []
  dropped_of (p ∷ parts) = dropped_streams p rule

  unfoldable pub verify : List ProbedFile → ProbedFile → Route → List Stream → Verification
  unfolding duration_check streams_check frames_check size_check dropped_streams seam_offsets
  verify parts merged route route_dropped =
      let d = duration_check parts merged in
      let s = streams_check rule parts merged route_dropped in
      let f = frames_check rule read_int parts merged in
      let z = size_check rule read_rate parts merged route in
      record {
        passed = not (is_fail d) && (not (is_fail s) && (not (is_fail f) && not (is_fail z)));
        route = route;
        duration_check = d;
        streams_check = s;
        frames_check = f;
        size_check = z;
        dropped_streams = dropped_of parts;
        route_dropped_streams = route_dropped;
        seam_offsets = seam_offsets parts;
      }

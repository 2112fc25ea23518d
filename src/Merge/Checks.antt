-- ===== src/Merge/Checks.antt =====
-- app/src/mediaferry/core/merge/verify.py: the checks of duration, streams and frames of a merged
-- file. Seconds are whole microseconds; what `int` reads of a text is a parameter. The details
-- that are only shown are left out.
use mediaferry.Base.{
  ℕ, ◌+◌, ◌-◌, ◌*◌, String, Bool, true, false, ◌&&◌, Option, none, some, List, [], ◌∷◌, map, str_eq,
  leb, if◌then◌else◌, length, all, keep,
}
use mediaferry.Profile.{KeepStreams}
use mediaferry.Merge.Streams.{Stream, is_text, selected_streams, Signature, stream_signature}

pub record ProbedFile : Type 0 where
  pub duration_seconds : Option ℕ
  pub size_bytes : ℕ
  pub streams : List Stream

pub data Verdict : Type 0 where
  pass fail inconclusive : Verdict

-- SIZE_TOLERANCE knows these two.
pub data Route : Type 0 where
  concat_route ts_route : Route

pub record Verification : Type 0 where
  pub passed : Bool
  pub route : Route
  pub duration_check : Verdict
  pub streams_check : Verdict
  pub frames_check : Verdict
  pub size_check : Verdict
  pub dropped_streams : List Stream
  pub route_dropped_streams : List Stream
  pub seam_offsets : List ℕ

abbrev pub is_fail : Verdict → Bool
is_fail fail = true
is_fail _ = false

abbrev pub verdict : Bool → Verdict
verdict b = if b then pass else fail

abbrev pub add_some : ℕ → Option ℕ → Option ℕ
add_some n none = none
add_some n (some m) = some (n + m)

abbrev pub plus : Option ℕ → Option ℕ → Option ℕ
plus none o = none
plus (some n) o = add_some n o

-- The sum, if every part has a value.
unfoldable pub total : List (Option ℕ) → Option ℕ
total [] = some 0
total (o ∷ os) = plus o (total os)

abbrev pub durations : List ProbedFile → List (Option ℕ)
durations parts = map (λ p. p.duration_seconds) parts

abbrev pub second : ℕ
second = 1_000_000

-- `abs(a - b)`
abbrev pub distance : ℕ → ℕ → ℕ
distance a b = a - b + (b - a)

abbrev pub check_duration : ℕ → Option ℕ → Option ℕ → Verdict
check_duration parts none expected = fail
check_duration parts (some actual) none = inconclusive
check_duration parts (some actual) (some expected) =
    verdict (leb (distance actual expected) (second * parts))

unfoldable pub duration_check : List ProbedFile → ProbedFile → Verdict
unfolding total
duration_check parts merged =
    check_duration (length parts) merged.duration_seconds (total (durations parts))

abbrev pub sig_eq : Signature → Signature → Bool
sig_eq a b = str_eq a.kind b.kind && (str_eq a.name b.name && str_eq a.tag b.tag)

abbrev pub sigs_eq : List Signature → List Signature → Bool
sigs_eq [] [] = true
sigs_eq (x ∷ xs) (y ∷ ys) = sig_eq x y && sigs_eq xs ys
sigs_eq _ _ = false

-- How often a `Counter` of the list counts `x`.
unfoldable pub count : Signature → List Signature → ℕ
count x [] = 0
count x (y ∷ ys) = (if sig_eq x y then 1 else 0) + count x ys

-- `not (Counter(xs) - Counter(ys) - Counter(zs))`: no signature is in `xs` more often than in `ys`
-- and `zs` together.
unfoldable pub covered : List Signature → List Signature → List Signature → Bool
unfolding count
covered xs ys zs = all (λ x. leb (count x xs) (count x ys + count x zs)) xs

abbrev pub check_streams :
    List Signature → List (List Signature) → List Signature → List Signature → Verdict
check_streams [] others actual excused = fail
check_streams (x ∷ xs) others actual excused = verdict (
    all (sigs_eq (x ∷ xs)) others
    && (covered (x ∷ xs) actual excused && covered actual (x ∷ xs) []))

module _ (rule : KeepStreams) where
  abbrev pub signature : ProbedFile → List Signature
  signature p = stream_signature (selected_streams p.streams rule)

  -- The first part gives the signature that all the others must have.
  unfoldable pub streams_check : List ProbedFile → ProbedFile → List Stream → Verdict
  unfolding covered
  streams_check [] merged route_dropped = fail
  streams_check (p ∷ parts) merged route_dropped =
      check_streams (signature p) (map signature parts) (signature merged)
        (stream_signature route_dropped)

  module _ (read_int : String → Option ℕ) where
    abbrev pub frames_of : Option String → Option ℕ
    frames_of none = none
    frames_of (some raw) = read_int raw

    unfoldable pub video_frames : ProbedFile → Option ℕ
    unfolding total
    video_frames p = total (
        map (λ s. frames_of s.nb_frames)
          (keep (λ s. is_text "video" s.codec_type) (selected_streams p.streams rule)))

    abbrev pub check_frames : ℕ → Option ℕ → Option ℕ → Verdict
    check_frames parts none expected = inconclusive
    check_frames parts (some actual) none = inconclusive
    check_frames parts (some actual) (some expected) =
        verdict (leb expected (actual + (2 * (parts - 1) + 2)))

    unfoldable pub frames_check : List ProbedFile → ProbedFile → Verdict
    unfolding video_frames
    frames_check parts merged =
        check_frames (length parts) (video_frames merged) (total (map video_frames parts))

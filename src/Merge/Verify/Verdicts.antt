-- ===== src/Merge/Verify/Verdicts.antt =====
-- app/src/mediaferry/core/merge/verify.py: what a merge that passes has.
use mathlib.Core.Path.{subst}
use mediaferry.Base.{
  ℕ, ◌+◌, ◌-◌, ◌*◌, ◌≤◌, String, ◌≡◌, refl, sym, ◌≢◌, ◌↔◌, inl, inr, Bool, true, false, Option,
  some, List, [], ◌∷◌, map, arith, eq_iff, leb, Bool-cases, Option-cases, length, any, all, All,
}
use mediaferry.Profile.{KeepStreams}
use mediaferry.Merge.Streams.{Stream, selected_streams, Signature, stream_signature}
use mediaferry.Merge.Checks.{
  ProbedFile, Route, is_fail, total, durations, second, distance, duration_check, sig_eq, sigs_eq,
  count, covered, signature, check_streams, streams_check, video_frames, frames_check,
}
use mediaferry.Merge.Verify.{
  gather, percent, check_size, same_lengths, column_list, expected_bits, size_with, size_check,
  verify,
}

sig_eq_iff : (x y : Signature) → (sig_eq x y ≡ true) ↔ (x ≡ y)
sig_eq_iff x y = ground (arith, eq_iff x.kind y.kind, eq_iff x.name y.name, eq_iff x.tag y.tag)

sigs_eq_iff : (xs ys : List Signature) → (sigs_eq xs ys ≡ true) ↔ (xs ≡ ys)
sigs_eq_iff [] [] = ground arith
sigs_eq_iff [] (y ∷ ys) = ground arith
sigs_eq_iff (x ∷ xs) [] = ground arith
sigs_eq_iff (x ∷ xs) (y ∷ ys) = ground (arith, sig_eq_iff x y, sigs_eq_iff xs ys)

count-absent : (x : Signature) (xs : List Signature) → any (sig_eq x) xs ≡ false → count x xs ≡ 0
unfolding count
count-absent x [] h = refl
count-absent x (y ∷ ys) h = ground (arith, count-absent x ys)

all-any :
    (x : Signature) (p : Signature → Bool) (xs : List Signature)
    → all p xs ≡ true
    → any (sig_eq x) xs ≡ true
    → p x ≡ true
all-any x p [] h n = ground (arith, n)
all-any x p (y ∷ ys) h n = elim (Bool-cases (sig_eq x y)) [
  | inl e ↦ rw ((sig_eq_iff x y).0 e) (ground (arith, h))
  | inr e ↦ all-any x p ys (ground (arith, h)) (ground (arith, n, e))
]

-- Each signature is in `xs` no more often than in `ys` and `zs` together.
abbrev pub Within : List Signature → List Signature → List Signature → Type 0
Within xs ys zs = (x : Signature) → count x xs ≤ count x ys + count x zs

covered-Within : (xs ys zs : List Signature) → covered xs ys zs ≡ true → Within xs ys zs
unfolding covered
covered-Within xs ys zs h x = elim (Bool-cases (any (sig_eq x) xs)) [
  | inl e ↦ ground (arith, all-any x (λ y. leb (count y xs) (count y ys + count y zs)) xs h e)
  | inr e ↦ ground (arith, count-absent x xs e)
]

-- The parts agree on their streams and there are some; the merged file has them but for those that
-- the route could not carry, and has no others.
pub record StreamsKept (rule : KeepStreams) (parts : List ProbedFile) (merged : ProbedFile)
    (excused : List Stream) : Type 0 where
  pub common : List Signature
  pub some_stream : common ≢ []
  pub agree : All (λ p. signature rule p ≡ common) parts
  pub carried : Within common (signature rule merged) (stream_signature excused)
  pub no_others : Within (signature rule merged) common []

check_streams-pass :
    (xs : List Signature) (others : List (List Signature)) (actual excused : List Signature)
    → is_fail (check_streams xs others actual excused) ≡ false
    → (xs ≢ [])
      × (all (sigs_eq xs) others ≡ true)
      × (covered xs actual excused ≡ true)
      × (covered actual xs [] ≡ true)
check_streams-pass [] others actual excused h = absurd (ground (arith, h))
check_streams-pass (x ∷ xs) others actual excused h =
    ((λ e. cc), ground (arith, h), ground (arith, h), ground (arith, h))

all-agree :
    (rule : KeepStreams) (xs : List Signature) (parts : List ProbedFile)
    → all (sigs_eq xs) (map (signature rule) parts) ≡ true
    → All (λ p. signature rule p ≡ xs) parts
all-agree rule xs [] h = tt
all-agree rule xs (p ∷ parts) h = (
  sym ((sigs_eq_iff xs (signature rule p)).0 (ground (arith, h))),
  all-agree rule xs parts (ground (arith, h)),
)

streams_check-pass :
    (rule : KeepStreams) (parts : List ProbedFile) (merged : ProbedFile) (excused : List Stream)
    → is_fail (streams_check rule parts merged excused) ≡ false
    → StreamsKept rule parts merged excused
unfolding streams_check
streams_check-pass rule [] merged excused h = absurd (ground (arith, h))
streams_check-pass rule (p ∷ parts) merged excused h =
    let (some_left, same_all, kept, no_more) =
      check_streams-pass (signature rule p) (map (signature rule) parts) (signature rule merged)
        (stream_signature excused) h in
    record {
      common = signature rule p;
      some_stream = some_left;
      agree = (refl, all-agree rule (signature rule p) parts same_all);
      carried =
          covered-Within (signature rule p) (signature rule merged) (stream_signature excused) kept;
      no_others = covered-Within (signature rule merged) (signature rule p) [] no_more;
    }

-- The length is that of the parts, to a second for each of them.
abbrev pub LengthKept : List ProbedFile → ProbedFile → Type 0
LengthKept parts merged =
    (actual : ℕ) × (merged.duration_seconds ≡ some actual)
    × ((expected : ℕ)
        → total (durations parts) ≡ some expected
        → distance actual expected ≤ second * length parts)

duration_check-pass :
    (parts : List ProbedFile) (merged : ProbedFile)
    → is_fail (duration_check parts merged) ≡ false
    → LengthKept parts merged
unfolding duration_check
duration_check-pass parts merged h = elim (Option-cases merged.duration_seconds) [
  | inl e ↦ absurd (ground (arith, h, e))
  | inr (actual, e) ↦ (actual, e, λ expected q. ground (arith, h, e, q))
]

-- At most two frames are lost, and two for each seam, where the frames are known.
abbrev pub FramesKept : KeepStreams → (String → Option ℕ) → List ProbedFile → ProbedFile → Type 0
FramesKept rule read_int parts merged =
    (actual expected : ℕ)
    → video_frames rule read_int merged ≡ some actual
    → total (map (video_frames rule read_int) parts) ≡ some expected
    → expected ≤ actual + (2 * (length parts - 1) + 2)

frames_check-pass :
    (rule : KeepStreams) (read_int : String → Option ℕ) (parts : List ProbedFile)
    (merged : ProbedFile)
    → is_fail (frames_check rule read_int parts merged) ≡ false
    → FramesKept rule read_int parts merged
unfolding frames_check
frames_check-pass rule read_int parts merged h actual expected a b = ground (arith, h, a, b)

-- The size is within the tolerance of the route from what the rates of the kept streams say, where
-- they say anything.
abbrev pub SizeKept :
    KeepStreams → (String → Option ℕ) → List ProbedFile → ProbedFile → Route → Type 0
SizeKept rule read_rate parts merged route =
    let selections = map (λ p. selected_streams p.streams rule) parts in
    (lengths : List ℕ) (bits : ℕ)
    → gather (durations parts) ≡ some lengths
    → same_lengths selections ≡ true
    → expected_bits rule read_rate lengths (column_list selections) ≡ some bits
    → bits ≢ 0
    → 100 * distance (8_000_000 * merged.size_bytes) bits ≤ percent route * bits

check_size-pass :
    (route : Route) (size bits : ℕ)
    → is_fail (check_size route size (some bits)) ≡ false
    → bits ≢ 0
    → 100 * distance (8_000_000 * size) bits ≤ percent route * bits
check_size-pass route size bits h n = ground (arith, h, n)

size_with-some :
    (rule : KeepStreams) (read_rate : String → Option ℕ) (o : Option (List ℕ))
    (selections : List (List Stream)) (merged : ProbedFile) (route : Route) (lengths : List ℕ)
    (bits : ℕ)
    → o ≡ some lengths
    → same_lengths selections ≡ true
    → expected_bits rule read_rate lengths (column_list selections) ≡ some bits
    → size_with rule read_rate o selections merged route
      ≡ check_size route merged.size_bytes (some bits)
size_with-some rule read_rate o selections merged route lengths bits a b c = rw a (rw b (rw c refl))

size_check-pass :
    (rule : KeepStreams) (read_rate : String → Option ℕ) (parts : List ProbedFile)
    (merged : ProbedFile) (route : Route)
    → is_fail (size_check rule read_rate parts merged route) ≡ false
    → SizeKept rule read_rate parts merged route
unfolding size_check
size_check-pass rule read_rate parts merged route h lengths bits a b c n =
    check_size-pass route merged.size_bytes bits
      (subst (λ v. is_fail v ≡ false)
        (size_with-some rule read_rate (gather (durations parts))
          (map (λ p. selected_streams p.streams rule) parts) merged route lengths bits a b c)
        h)
      n

-- A merge that passes has a known length that is that of its parts to a second each, loses no frames
-- but two and two for each seam, has the streams that all parts agree on but for those that the
-- route cannot carry and no others, and has the size that the bit rates say within the tolerance;
-- lengths, frames and sizes as far as the parts tell them.
pub verify-passed :
    (rule : KeepStreams) (read_int read_rate : String → Option ℕ) (parts : List ProbedFile)
    (merged : ProbedFile) (route : Route) (dropped : List Stream)
    → (verify rule read_int read_rate parts merged route dropped).passed ≡ true
    → LengthKept parts merged
      × StreamsKept rule parts merged dropped
      × FramesKept rule read_int parts merged
      × SizeKept rule read_rate parts merged route
unfolding verify
verify-passed rule read_int read_rate parts merged route dropped h = (
  duration_check-pass parts merged (ground (arith, h)),
  streams_check-pass rule parts merged dropped (ground (arith, h)),
  frames_check-pass rule read_int parts merged (ground (arith, h)),
  size_check-pass rule read_rate parts merged route (ground (arith, h)),
)

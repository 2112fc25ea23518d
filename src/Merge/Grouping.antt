-- ===== src/Merge/Grouping.antt =====
-- app/src/mediaferry/core/merge/grouping.py: a list of parts in the order of their start is cut
-- into recordings. Times and durations are whole microseconds; the rounding of the source's
-- floats below a microsecond is left out.
pub mod Segments
pub mod Recordings
mod Tests
use mediaferry.Base.{
  ℕ, zero, suc, ◌+◌, ◌-◌, ◌*◌, ◌/◌, ◌%◌, ◌^◌, ◌≤◌, ◌<◌, min, max, String, ◌≡◌, refl, sym, ap, ◌∙◌,
  ◌≢◌, ◌↔◌, ◌⊎◌, inl, inr, Bool, true, false, not, ◌&&◌, ◌||◌, Option, none, some, List, [], ◌∷◌,
  ◌++◌, map, arith, str_eq, eq_iff, eq_refl, ltb, leb, ◌==◌, if◌then◌else◌, ltb→lt, lt→ltb, leb→le,
  ==_iff, tests, Bool-cases, Option-cases, length, get_elem?, length-append, any, all, keep, All,
  All-imp, keep-append, All-append,
}
use mediaferry.Base.Int.{
  ℤ, pos, negsuc, pos_part, neg_part, sub_ℕ, ◌+ℤ◌, ◌-ℤ◌, neg, ◌≤ℤ◌, ◌<ℤ◌, leb_ℤ, ltb_ℤ,
}
use mediaferry.Profile.{MergeRule}

abbrev pub gib : ℕ
gib = 1024 ^ 3

abbrev pub micros : ℕ
micros = 1_000_000

pub record MergePart : Type 0 where
  pub media_file_id : String
  pub rel_path : String
  pub sha1 : String
  pub captured_at : ℤ
  pub duration : Option ℤ
  pub size_bytes : ℕ
  pub probe_state : String
  pub captured_at_source : String

pub record GroupCandidate : Type 0 where
  pub members : List MergePart
  pub gaps : List ℤ

-- `_RESOLUTION_SECONDS.get(source, 0.0)`
unfoldable pub resolution_of : String → ℕ
resolution_of source =
    if str_eq source "filename"
    then micros
    else if str_eq source "exif"
    then micros
    else if str_eq source "container"
    then micros
    else 0

unfoldable pub resolution : MergePart → MergePart → ℕ
resolution previous following =
    max (resolution_of previous.captured_at_source) (resolution_of following.captured_at_source)

abbrev pub duration_or_zero : Option ℤ → ℤ
duration_or_zero none = pos 0
duration_or_zero (some d) = d

-- `_gap_seconds`; it is called on a part whose duration is there.
unfoldable pub gap : MergePart → MergePart → ℤ
gap previous following =
    following.captured_at -ℤ (previous.captured_at +ℤ duration_or_zero previous.duration)

abbrev pub has_value {ℓ} : {A : Type ℓ} → Option A → Bool
has_value none = false
has_value (some a) = true

-- The negation of the first test of the loop.
unfoldable pub is_usable : MergePart → Bool
is_usable part = str_eq part.probe_state "ok" && has_value part.duration

-- The test by which a new group starts.
unfoldable pub breaks : MergeRule → MergePart → MergePart → Bool
unfolding neg
breaks rule previous part =
    ltb previous.size_bytes (rule.min_part_size_gib * gib)
    || leb_ℤ (gap previous part) (neg (pos (resolution previous part)))
    || ltb_ℤ (pos (rule.tolerance_seconds * micros)) (gap previous part)

unfoldable pub flush : List MergePart → List ℤ → List GroupCandidate
flush current gaps =
    if ltb (length current) 2 then [] else record { members = current; gaps = gaps } ∷ []

abbrev pub get_last? {ℓ} : {A : Type ℓ} → List A → Option A
get_last? [] = none
get_last? (x ∷ []) = some x
get_last? (x ∷ y ∷ xs) = get_last? (y ∷ xs)

pub record Scan : Type 0 where
  pub groups : List GroupCandidate
  pub current : List MergePart
  pub gaps : List ℤ

abbrev pub extend_scan : MergeRule → Scan → MergePart → Option MergePart → Scan
extend_scan rule s part none = record s { current = part ∷ [] }
extend_scan rule s part (some previous) =
    if breaks rule previous part
    then record { groups = s.groups ++ flush s.current s.gaps; current = part ∷ []; gaps = [] }
    else record s { current = s.current ++ part ∷ []; gaps = s.gaps ++ gap previous part ∷ [] }

-- The body of the loop.
unfoldable pub scan_part : MergeRule → Scan → MergePart → Scan
scan_part rule s part =
    if is_usable part
    then extend_scan rule s part (get_last? s.current)
    else record { groups = s.groups ++ flush s.current s.gaps; current = []; gaps = [] }

unfoldable pub scan_parts : MergeRule → Scan → List MergePart → Scan
scan_parts rule s [] = s
scan_parts rule s (part ∷ parts) = scan_parts rule (scan_part rule s part) parts

abbrev pub finish_scan : Scan → List GroupCandidate
finish_scan s = s.groups ++ flush s.current s.gaps

unfoldable pub detect_groups : List MergePart → MergeRule → List GroupCandidate
detect_groups parts rule =
    if rule.enabled
    then finish_scan (scan_parts rule (record { groups = []; current = []; gaps = [] }) parts)
    else []

-- ===== src/Fingerprint.antt =====
-- app/src/mediaferry/core/fingerprint.py: which parts of a file the quick fingerprint reads, and what
-- it hands to SHA-1. The quotient `i * span / 15` is rounded to the nearest whole number; it is never
-- half-way between two.
pub mod Windows
mod Tests
use mediaferry.Text.{
  Text, codes, text_eq, text_eq_iff, contains, starts_with, last_dot, has_stem, splitext,
  upper_code, upper, lstrip_dots, splitext-append,
}
use mediaferry.Base.{
  ℕ, zero, suc, ◌+◌, ◌-◌, ◌*◌, ◌/◌, ◌%◌, ◌^◌, ◌≤◌, ◌<◌, min, max, String, ◌≡◌, refl, sym, ap, ◌∙◌,
  ◌≢◌, ◌↔◌, ◌⊎◌, inl, inr, Bool, true, false, not, ◌&&◌, ◌||◌, Option, none, some, List, [], ◌∷◌,
  ◌++◌, map, arith, str_eq, eq_iff, eq_refl, ltb, leb, ◌==◌, if◌then◌else◌, ltb→lt, lt→ltb, leb→le,
  ==_iff, tests, Bool-cases, Option-cases, length, get_elem?, length-append, any, all, keep, All,
  All-imp, keep-append, All-append, Some, Apart, Apart-append, any-false, false-any,
}
use mediaferry.Base.Sort.{sort_by, place}

abbrev pub window_bytes : ℕ
window_bytes = 64 * 1024

abbrev pub window_count : ℕ
window_count = 16

abbrev pub fingerprint_version : ℕ
fingerprint_version = 1

abbrev pub domain : Text
domain = codes "mfq"

-- `round(i * span / (WINDOW_COUNT - 1))`. The source divides floats; for files below 2 ^ 48 bytes, the
-- error of the quotient is less than the 1 / 30 by which it misses a tie, so the result is this one.
abbrev pub rounded : ℕ → ℕ → ℕ
rounded span i = (2 * (i * span) + 15) / 30

abbrev pub range : ℕ → ℕ → List ℕ
range i zero = []
range i (suc n) = i ∷ range (suc i) n

-- `set(xs)`, as the list of its elements
unfoldable pub distinct : List ℕ → List ℕ
distinct [] = []
distinct (x ∷ xs) = let rest = distinct xs in if any (λ (y : ℕ). y == x) xs then rest else x ∷ rest

unfoldable pub window_offsets : ℕ → List ℕ
unfolding distinct sort_by place
window_offsets size =
    if leb size (window_bytes * window_count)
    then 0 ∷ []
    else sort_by (λ (x : ℕ). x)
        (distinct (map (rounded (size - window_bytes)) (range 0 window_count)))

abbrev pub first : ℕ → Text → Text
first zero t = []
first (suc n) [] = []
first (suc n) (c ∷ t) = c ∷ first n t

abbrev pub take_from : ℕ → ℕ → Text → Text
take_from zero n t = first n t
take_from (suc offset) n [] = []
take_from (suc offset) n (c ∷ t) = take_from offset n t

-- `size.to_bytes(n, "little")` of a size that fits
abbrev pub little_endian : ℕ → ℕ → Text
little_endian zero size = []
little_endian (suc n) size = (size % 256) ∷ little_endian n (size / 256)

abbrev pub read_windows : ℕ → List ℕ → Text → Text
read_windows window [] content = []
read_windows window (offset ∷ offsets) content =
    take_from offset window content ++ read_windows window offsets content

-- What is hashed, of a file with this content; `none` is the `OverflowError` of a size that does not
-- fit into eight bytes.
unfoldable pub quick_fingerprint : Text → ℕ → Option Text
unfolding window_offsets
quick_fingerprint content size =
    if ltb size (2 ^ 64)
    then some (
        domain
        ++ (fingerprint_version
            ∷ (little_endian 8 size
                ++ read_windows
                    (if ltb (window_bytes * window_count) size then window_bytes else size)
                    (window_offsets size) content)))
    else none

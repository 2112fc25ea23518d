-- ===== src/Naming.antt =====
-- app/src/mediaferry/core/naming.py: the paths inside the library, as texts. What it takes from
-- Python's `str` and `PurePosixPath` is written out for relative paths. The endless iterator of
-- candidates is a function of the position.
pub mod Paths
pub mod Candidates
mod Tests
use mediaferry.Text.{
  Text, codes, text_eq, text_eq_iff, contains, starts_with, last_dot, has_stem, splitext,
  upper_code, upper, lstrip_dots, splitext-append,
}
use mediaferry.Base.{
  ℕ, zero, suc, ◌+◌, ◌-◌, ◌*◌, ◌/◌, ◌%◌, ◌^◌, ◌≤◌, ◌<◌, min, max, String, ◌≡◌, refl, sym, ap, ◌∙◌,
  ◌≢◌, ◌↔◌, ◌⊎◌, inl, inr, Bool, true, false, not, ◌&&◌, ◌||◌, Option, none, some, List, [], ◌∷◌,
  ◌++◌, map, arith, str_eq, eq_iff, eq_refl, ltb, leb, ◌==◌, if◌then◌else◌, ltb→lt, lt→ltb, leb→le,
  ==_iff, tests, Bool-cases, Option-cases, length, get_elem?, length-append, any, all, keep, All,
  All-imp, keep-append, All-append, Some, Apart, Apart-append, any-false, false-any,
}

abbrev pub onto : ℕ → List Text → List Text
onto c [] = (c ∷ []) ∷ []
onto c (p ∷ ps) = (c ∷ p) ∷ ps

-- `text.split("/")`
unfoldable pub split : Text → List Text
split [] = [] ∷ []
split (c ∷ t) = let rest = split t in if c == b'/' then [] ∷ rest else onto c rest

-- `"/".join(parts)`
unfoldable pub join : List Text → Text
join [] = []
join (p ∷ []) = p
join (p ∷ q ∷ ps) = p ++ (b'/' ∷ join (q ∷ ps))

abbrev pub dot : Text
dot = b'.' ∷ []

abbrev pub dot_dot : Text
dot_dot = b'.' ∷ b'.' ∷ []

abbrev pub is_empty : Text → Bool
is_empty [] = true
is_empty (c ∷ t) = false

abbrev pub is_unsafe : Text → Bool
is_unsafe part =
    is_empty part
    || text_eq part dot
    || text_eq part dot_dot
    || contains 0 part
    || contains b'\\' part

-- `none` is `UnsafePath`.
unfoldable pub safe_source_rel_path : Text → Option Text
unfolding split join
safe_source_rel_path rel_path =
    if is_empty rel_path || starts_with (b'/' ∷ []) rel_path
    then none
    else if any is_unsafe (split rel_path)
    then none
    else some (join (split rel_path))

abbrev pub under : Text → Text → Option Text → Option Text
under top profile_slug none = none
under top profile_slug (some path) = some (top ++ (b'/' ∷ (profile_slug ++ (b'/' ∷ path))))

abbrev pub top_of : Text → Text
top_of role = if text_eq role (codes "original") then codes "library" else codes "derived"

unfoldable pub library_rel_path : Text → Text → Text → Option Text
unfolding safe_source_rel_path
library_rel_path role profile_slug source_rel_path =
    under (top_of role) profile_slug (safe_source_rel_path source_rel_path)

unfoldable pub staging_rel_path : Text → Text → Text
staging_rel_path job_id artifact_id = codes "staging/" ++ (job_id ++ (b'/' ∷ artifact_id))

unfoldable pub work_rel_path : Text → Text
work_rel_path job_id = codes "work/" ++ job_id

-- The components of `PurePosixPath(path)`.
abbrev pub components : Text → List Text
components path = keep (λ (part : Text). not (is_empty part || text_eq part dot)) (split path)

abbrev pub last_or : Text → List Text → Text
last_or p [] = p
last_or p (q ∷ qs) = last_or q qs

abbrev pub but_last : Text → List Text → List Text
but_last p [] = []
but_last p (q ∷ qs) = p ∷ but_last q qs

-- `path.name`
abbrev pub name_of : List Text → Text
name_of [] = []
name_of (p ∷ ps) = last_or p ps

-- `path.parent`
abbrev pub parent_of : List Text → List Text
parent_of [] = []
parent_of (p ∷ ps) = but_last p ps

-- The decimal text of a number; as much fuel as the number is enough.
unfoldable pub digits : ℕ → ℕ → Text
digits zero n = []
digits (suc fuel) n =
    let front = digits fuel (n / 10) in
    if ltb n 10 then (b'0' + n) ∷ [] else front ++ ((b'0' + n % 10) ∷ [])

unfoldable pub str_int : ℕ → Text
unfolding digits
str_int n = digits (suc n) n

abbrev pub take : ℕ → Text → Text
take zero t = []
take (suc n) [] = []
take (suc n) (c ∷ t) = c ∷ take n t

abbrev pub sha1_prefix_chars : ℕ
sha1_prefix_chars = 8

-- What the candidate at a position has between stem and suffix.
unfoldable pub tag : Text → Text → ℕ → Text
unfolding str_int
tag stamp short zero = []
tag stamp short (suc zero) = b'_' ∷ stamp
tag stamp short (suc (suc zero)) = b'_' ∷ (stamp ++ (b'_' ∷ short))
tag stamp short (suc (suc (suc n))) = b'_' ∷ (stamp ++ (b'_' ∷ (short ++ (b'_' ∷ str_int (n + 2)))))

-- `str(parent / f"{stem}{tag}{suffix}")`
abbrev pub beside : List Text → Text → Text
beside parts between =
    let halves = splitext (name_of parts) in
    join (parent_of parts ++ ((halves.0 ++ (between ++ halves.1)) ∷ []))

unfoldable pub candidate_paths : Text → Text → Text → ℕ → Text
unfolding split join tag splitext
candidate_paths rel_path stamp sha1_hex zero = rel_path
candidate_paths rel_path stamp sha1_hex (suc n) =
    beside (components rel_path) (tag stamp (take sha1_prefix_chars sha1_hex) (suc n))

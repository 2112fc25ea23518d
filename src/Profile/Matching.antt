-- ===== src/Profile/Matching.antt =====
-- app/src/mediaferry/core/profiles/matching.py: which profile a card is read with. `fnmatch`, the pattern
-- matcher (`none` if it runs out of time), the order of slugs and the lower case of a text are
-- parameters; the texts of the reasons are left out.
pub mod Content
mod Tests
use mediaferry.Base.{
  ℕ, zero, suc, ◌+◌, ◌-◌, ◌*◌, ◌/◌, ◌%◌, ◌^◌, ◌≤◌, ◌<◌, min, max, String, ◌≡◌, refl, sym, ap, ◌∙◌,
  ◌≢◌, ◌↔◌, ◌⊎◌, inl, inr, Bool, true, false, not, ◌&&◌, ◌||◌, Option, none, some, List, [], ◌∷◌,
  ◌++◌, map, arith, str_eq, eq_iff, eq_refl, ltb, leb, ◌==◌, if◌then◌else◌, ltb→lt, lt→ltb, leb→le,
  ==_iff, tests, Bool-cases, Option-cases, length, get_elem?, length-append, any, all, keep, All,
  All-imp, keep-append, All-append, Some, Apart, Apart-append, any-false, false-any,
}
use mediaferry.Profile.{
  Hints, Require, ScanRule, TimestampRule, KeepStreams, MergeRule, StackRule, stack_disabled,
  ImmichRule, ProfileDefinition,
}

pub record VolumeFacts : Type 0 where
  pub usb_vendor_id : String
  pub usb_product_id : String
  pub fs_label : String

-- `iter_names` gives the names below a root, at most as many as the limit.
pub record SourceTree : Type 0 where
  pub has_root : String → Bool
  pub iter_names : String → ℕ → List String

pub record MatchOutcome : Type 0 where
  pub slug : Option String
  pub provisional : Bool

-- `usb_matches vendor product pattern` is `fnmatch` of the lower-case "vendor:product".
pub record Texts : Type 0 where
  pub usb_matches : String → String → String → Bool
  pub slug_before : String → String → Bool
  pub match : String → String → Option Bool

-- NAME_SCAN_LIMIT
abbrev pub name_scan_limit : ℕ
name_scan_limit = 2000

unfoldable pub hint_score : Texts → ProfileDefinition → VolumeFacts → ℕ
hint_score t defn facts =
    (if any (λ p. t.usb_matches facts.usb_vendor_id facts.usb_product_id p) defn.hints.usb_ids
      then 1
      else 0)
    + (if any (λ l. str_eq facts.fs_label l) defn.hints.volume_labels then 1 else 0)

-- How many names match, counted no further than `enough`; `none` if the matcher runs out of time.
abbrev pub count_names : Texts → String → ℕ → ℕ → List String → Option ℕ
count_names t pattern enough found [] = some found
count_names t pattern enough found (n ∷ ns) =
    let more = count_names t pattern enough (found + 1) ns in
    let same = count_names t pattern enough found ns in
    elim (t.match pattern n) [
      | none ↦ none
      | some hit ↦ if hit then (if leb enough (found + 1) then some (found + 1) else more) else same
    ]

abbrev pub names_below : SourceTree → List String → List String
names_below tree [] = []
names_below tree (r ∷ roots) = tree.iter_names r name_scan_limit ++ names_below tree roots

unfoldable pub count_matching_files :
    Texts → ProfileDefinition → SourceTree → List String → Option ℕ
count_matching_files t defn tree roots =
    count_names t defn.require.filename_pattern defn.require.min_matching_files 0
      (names_below tree roots)

abbrev pub roots_of : ProfileDefinition → SourceTree → List String
roots_of defn tree = keep tree.has_root defn.require.roots

abbrev pub is_slug : String → Option String → Bool
is_slug s none = false
is_slug s (some r) = str_eq s r

-- The key of the sort: a higher score first, then the remembered profile, the generic one last, and
-- the order of the slugs among equals.
abbrev pub before :
    Texts → VolumeFacts → Option String → ProfileDefinition → ProfileDefinition → Bool
before t facts remembered a b =
    let ka =
      (3 - hint_score t a facts) * 4
      + (if is_slug a.slug remembered then 0 else 2)
      + (if str_eq a.slug "generic-dcim" then 1 else 0) in
    let kb =
      (3 - hint_score t b facts) * 4
      + (if is_slug b.slug remembered then 0 else 2)
      + (if str_eq b.slug "generic-dcim" then 1 else 0) in
    ltb ka kb || (ka == kb && t.slug_before a.slug b.slug)

abbrev pub insert :
    (ProfileDefinition → ProfileDefinition → Bool)
    → ProfileDefinition
    → List ProfileDefinition
    → List ProfileDefinition
insert lt d [] = d ∷ []
insert lt d (e ∷ es) = let rest = insert lt d es in if lt e d then e ∷ rest else d ∷ e ∷ es

abbrev pub in_order :
    (ProfileDefinition → ProfileDefinition → Bool) → List ProfileDefinition → List ProfileDefinition
in_order lt [] = []
in_order lt (d ∷ ds) = insert lt d (in_order lt ds)

abbrev pub adopted : ProfileDefinition → MatchOutcome
adopted d = record { slug = some d.slug; provisional = false }

abbrev pub nothing : MatchOutcome
nothing = record { slug = none; provisional = false }

abbrev pub or_nothing : Option MatchOutcome → MatchOutcome
or_nothing none = nothing
or_nothing (some o) = o

-- `provisional`, after a profile that matches in its roots alone.
abbrev pub candidate :
    Texts → VolumeFacts → ProfileDefinition → Option MatchOutcome → Option MatchOutcome
candidate t facts d none =
    if ltb 0 (hint_score t d facts)
    then some (record { slug = some d.slug; provisional = true })
    else none
candidate t facts d (some o) = some o

abbrev pub is_empty : List String → Bool
is_empty [] = true
is_empty (x ∷ xs) = false

-- The loop.
unfoldable pub choose :
    Texts → VolumeFacts → SourceTree → Option MatchOutcome → List ProfileDefinition → MatchOutcome
unfolding hint_score count_matching_files
choose t facts tree p [] = or_nothing p
choose t facts tree p (d ∷ ds) =
    let skip = choose t facts tree p ds in
    let go_on = choose t facts tree (candidate t facts d p) ds in
    if is_empty (roots_of d tree)
    then skip
    else elim (count_matching_files t d tree (roots_of d tree)) [
      | none ↦ nothing
      | some n ↦ if leb d.require.min_matching_files n then adopted d else go_on
    ]

unfoldable pub resolve_profile :
    Texts → List ProfileDefinition → VolumeFacts → SourceTree → Option String → MatchOutcome
unfolding choose hint_score
resolve_profile t definitions facts tree remembered =
    choose t facts tree none (in_order (before t facts remembered) definitions)

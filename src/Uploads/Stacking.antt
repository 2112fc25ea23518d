-- ===== src/Uploads/Stacking.antt =====
-- app/src/mediaferry/core/uploads/stacking.py: which files of a card are one shot.
pub mod Evidence
pub mod Pairs
pub mod Groups
mod Tests
use mediaferry.Base.{
  ℕ, zero, suc, ◌+◌, ◌-◌, ◌*◌, ◌/◌, ◌%◌, ◌^◌, ◌≤◌, ◌<◌, min, max, String, ◌≡◌, refl, sym, ap, ◌∙◌,
  ◌≢◌, ◌↔◌, ◌⊎◌, inl, inr, Bool, true, false, not, ◌&&◌, ◌||◌, Option, none, some, List, [], ◌∷◌,
  ◌++◌, map, arith, str_eq, eq_iff, eq_refl, ltb, leb, ◌==◌, if◌then◌else◌, ltb→lt, lt→ltb, leb→le,
  ==_iff, tests, Bool-cases, Option-cases, length, get_elem?, length-append, any, all, keep, All,
  All-imp, keep-append, All-append,
}
use mediaferry.Base.Sort.{sort_by}
use mediaferry.Text.{Text, codes, text_eq, splitext, upper, lstrip_dots}
use mediaferry.Profile.{StackRule}

-- Texts that are only compared are `String`; the name on the card is read character by character.
pub record Candidate : Type 0 where
  pub record_id : String
  pub media_file_id : String
  pub profile_id : String
  pub volume_instance_id : String
  pub rel_path : Text
  pub copresent_key : Option String
  pub captured_at : String
  pub captured_at_source : String
  pub origin : String
  pub state : String
  pub remote_asset_id : Option String
  pub invalidated : Bool

pub record Identity : Type 0 where
  pub partners : List Candidate
  pub ambiguous : Bool

pub data Reason : Type 0 where
  stack_off not_an_extension several_partners no_partner not_ours unknown_asset same_asset : Reason
  other_profile not_sent : Reason

pub data Outcome : Type 0 where
  group : List Candidate → Outcome
  refusal : Reason → Outcome

unfoldable pub stem_prefix : Text → Text
unfolding splitext
stem_prefix rel_path = (splitext rel_path).0 ++ b'.' ∷ []

unfoldable pub extension_of : Text → Text
unfolding splitext
extension_of rel_path = upper (lstrip_dots (splitext rel_path).1)

-- `extension in rule.extensions`
abbrev pub is_listed : Text → List String → Bool
is_listed e xs = any (λ x. text_eq (codes x) e) xs

abbrev pub SourceKey : Type 0
SourceKey = String × Text

unfoldable pub source_key : Candidate → SourceKey
unfolding stem_prefix
source_key c = (c.volume_instance_id, stem_prefix c.rel_path)

abbrev pub key_eq : SourceKey → SourceKey → Bool
key_eq a b = str_eq a.0 b.0 && text_eq a.1 b.1

abbrev pub is_file : String → Candidate → Bool
is_file id c = str_eq c.media_file_id id

-- `proofs.get(key)` where the last observation of a key wins: `none` for a key that is not there.
unfoldable pub proof_of : SourceKey → List Candidate → Option (Option String)
proof_of k [] = none
proof_of k (c ∷ cs) =
    let later = proof_of k cs in
    elim later [
      | some p ↦ some p
      | none ↦ if key_eq (source_key c) k then some c.copresent_key else none
    ]

abbrev pub same_proof : Option (Option String) → Option String → Bool
same_proof (some (some p)) (some q) = str_eq q p
same_proof _ _ = false

-- The tests of the loop, those of `seen` apart: `own` are the observations of the primary.
unfoldable pub is_partner : Candidate → List Candidate → StackRule → Candidate → Bool
unfolding source_key extension_of
is_partner primary own rule c =
    not (is_file primary.media_file_id c)
    && any (λ o. key_eq (source_key o) (source_key c)) own
    && is_listed (extension_of c.rel_path) rule.extensions
    && same_proof (proof_of (source_key c) own) c.copresent_key

abbrev pub has_id : String → List String → Bool
has_id i xs = any (λ x. str_eq x i) xs

-- `by_extension.setdefault(extension, set()).add(id)`
unfoldable pub add_id : Text → String → List (Text × List String) → List (Text × List String)
add_id e i [] = (e, i ∷ []) ∷ []
add_id e i ((f, is) ∷ m) =
    if text_eq f e then (f, if has_id i is then is else i ∷ is) ∷ m else (f, is) ∷ add_id e i m

pub record Pairing : Type 0 where
  pub partners : List Candidate
  pub seen : List String
  pub by_extension : List (Text × List String)

-- The body of the loop.
unfoldable pub pair_one : Candidate → List Candidate → StackRule → Pairing → Candidate → Pairing
pair_one primary own rule s c =
    if is_partner primary own rule c && not (has_id c.media_file_id s.seen)
    then record {
      partners = s.partners ++ c ∷ [];
      seen = c.media_file_id ∷ s.seen;
      by_extension = add_id (extension_of c.rel_path) c.media_file_id s.by_extension;
    }
    else s

unfoldable pub pair_all :
    Candidate → List Candidate → StackRule → Pairing → List Candidate → Pairing
pair_all primary own rule s [] = s
pair_all primary own rule s (c ∷ cs) = pair_all primary own rule (pair_one primary own rule s c) cs

abbrev pub nobody : Identity
nobody = record { partners = []; ambiguous = false }

abbrev pub several : Text × List String → Bool
several e = ltb 1 (length e.1)

unfoldable pub identity_partners : Candidate → List Candidate → StackRule → Identity
identity_partners primary candidates rule =
    let own = keep (is_file primary.media_file_id) candidates in
    let s =
      pair_all primary own rule (record { partners = []; seen = []; by_extension = [] })
        candidates in
    if rule.enabled && is_listed (extension_of primary.rel_path) rule.extensions
    then record {
      partners = s.partners;
      ambiguous =
          any several (add_id (extension_of primary.rel_path) primary.media_file_id s.by_extension);
    }
    else nobody

-- `rule.extensions.index(extension)`; it is called on listed extensions alone.
abbrev pub index_of : Text → List String → ℕ
index_of e [] = 0
index_of e (x ∷ xs) = let rest = index_of e xs in if text_eq (codes x) e then 0 else rest + 1

abbrev pub is_none {ℓ} : {A : Type ℓ} → Option A → Bool
is_none none = true
is_none (some a) = false

abbrev pub same_id : Option String → Option String → Bool
same_id none none = true
same_id (some a) (some b) = str_eq a b
same_id _ _ = false

-- `len(set(identifiers)) != len(identifiers)`
unfoldable pub repeats : List (Option String) → Bool
repeats [] = false
repeats (x ∷ xs) = any (same_id x) xs || repeats xs

unfoldable pub refuse_partner : Candidate → List Candidate → Option Reason
refuse_partner primary [] = none
refuse_partner primary (p ∷ ps) =
    let rest = refuse_partner primary ps in
    if not (str_eq p.profile_id primary.profile_id)
    then some other_profile
    else if p.invalidated || not (str_eq p.state "complete")
    then some not_sent
    else rest

unfoldable pub refused : Candidate → List Candidate → Option Reason
unfolding repeats refuse_partner
refused primary partners =
    let members = primary ∷ partners in
    let ids = map (λ m. m.remote_asset_id) members in
    if any (λ m. not (str_eq m.origin "created_by_us")) members
    then some not_ours
    else if any is_none ids
    then some unknown_asset
    else if repeats ids
    then some same_asset
    else refuse_partner primary partners

abbrev pub rank : StackRule → Candidate → ℕ
rank rule c = index_of (extension_of c.rel_path) rule.extensions

abbrev pub settle_group : Candidate → StackRule → List Candidate → Option Reason → Outcome
settle_group primary rule [] r = refusal no_partner
settle_group primary rule (p ∷ ps) (some r) = refusal r
settle_group primary rule (p ∷ ps) none = group (sort_by (rank rule) (primary ∷ p ∷ ps))

unfoldable pub resolve_group : Candidate → List Candidate → StackRule → Outcome
resolve_group primary candidates rule =
    let identity = identity_partners primary candidates rule in
    if not rule.enabled
    then refusal stack_off
    else if not (is_listed (extension_of primary.rel_path) rule.extensions)
    then refusal not_an_extension
    else if identity.ambiguous
    then refusal several_partners
    else settle_group primary rule identity.partners (refused primary identity.partners)

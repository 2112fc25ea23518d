-- ===== src/Uploads/Stacking/Groups.antt =====
-- `resolve_group` of app/src/mediaferry/core/uploads/stacking.py: when a shot becomes a stack.
use mathlib.Core.List.{Perm}
use mediaferry.Base.{
  String, ◌≡◌, refl, sym, ap, ◌≢◌, ◌↔◌, Bool, true, false, not, Option, none, some, List, [], ◌∷◌,
  map, arith, str_eq, eq_iff, any, All, All-imp, Apart, any-false, false-any,
}
use mediaferry.Base.Sort.{sort_by, sort_by-perm, IsSorted, sort_by-IsSorted}
use mediaferry.Profile.{StackRule}
use mediaferry.Uploads.Stacking.{
  Candidate, Reason, Outcome, group, refusal, extension_of, is_listed, several, identity_partners,
  is_none, same_id, repeats, refuse_partner, refused, rank, settle_group, resolve_group,
}
use mediaferry.Uploads.Stacking.Pairs.{identity_partners-IsPartner}

abbrev pub GoodPartner : Candidate → Candidate → Type 0
GoodPartner primary p =
    (p.profile_id ≡ primary.profile_id) × (p.invalidated ≡ false) × (p.state ≡ "complete")

-- What a stack on the server needs of its members: it may touch none that another made, and it
-- needs the asset of each, all of them different.
pub record IsQualified (primary : Candidate) (partners : List Candidate) : Type 0 where
  pub ours : All (λ m. m.origin ≡ "created_by_us") (primary ∷ partners)
  pub known : All (λ m. m.remote_asset_id ≢ none) (primary ∷ partners)
  pub assets_apart : Apart (λ m. m.remote_asset_id) (primary ∷ partners)
  pub good : All (GoodPartner primary) partners

same_id_iff : (a b : Option String) → (same_id a b ≡ true) ↔ (a ≡ b)
same_id_iff none none = ((λ _. refl), (λ _. refl))
same_id_iff none (some b) = ((λ h. cc), (λ h. cc))
same_id_iff (some a) none = ((λ h. cc), (λ h. cc))
same_id_iff (some a) (some b) =
    ((λ h. ap some ((eq_iff a b).0 h)), (λ h. (eq_iff a b).1 (ground arith)))

abbrev assets : List Candidate → List (Option String)
assets ms = map (λ m. m.remote_asset_id) ms

no_same :
    (x : Option String) (ms : List Candidate)
    → any (same_id x) (assets ms) ≡ false
    → All (λ m. x ≢ m.remote_asset_id) ms
no_same x [] h = tt
no_same x (m ∷ ms) h =
    ((λ e. ground (arith, same_id_iff x m.remote_asset_id)), no_same x ms (ground arith))

same_none :
    (x : Option String) (ms : List Candidate)
    → All (λ m. x ≢ m.remote_asset_id) ms
    → any (same_id x) (assets ms) ≡ false
same_none x [] h = refl
same_none x (m ∷ ms) h = ground (arith, same_id_iff x m.remote_asset_id, h.0, same_none x ms h.1)

Apart-repeats :
    (ms : List Candidate) → repeats (assets ms) ≡ false → Apart (λ m. m.remote_asset_id) ms
unfolding repeats
Apart-repeats [] h = tt
Apart-repeats (m ∷ ms) h =
    (no_same m.remote_asset_id ms (ground arith), Apart-repeats ms (ground arith))

repeats-Apart :
    (ms : List Candidate) → Apart (λ m. m.remote_asset_id) ms → repeats (assets ms) ≡ false
unfolding repeats
repeats-Apart [] h = refl
repeats-Apart (m ∷ ms) h = ground (arith, same_none m.remote_asset_id ms h.0, repeats-Apart ms h.1)

known-assets :
    (ms : List Candidate) → any is_none (assets ms) ≡ false → All (λ m. m.remote_asset_id ≢ none) ms
known-assets [] h = tt
known-assets (m ∷ ms) h = ((λ e. ground (arith, e)), known-assets ms (ground arith))

assets-known :
    (ms : List Candidate) → All (λ m. m.remote_asset_id ≢ none) ms → any is_none (assets ms) ≡ false
assets-known [] h = refl
assets-known (m ∷ ms) h = ground (arith, h.0, assets-known ms h.1)

accepted :
    (primary : Candidate) (ps : List Candidate)
    → refuse_partner primary ps ≡ none
    → All (GoodPartner primary) ps
unfolding refuse_partner
accepted primary [] h = tt
accepted primary (p ∷ ps) h = (
  ground (arith, eq_iff p.profile_id primary.profile_id, eq_iff p.state "complete"),
  accepted primary ps (ground arith),
)

accepts :
    (primary : Candidate) (ps : List Candidate)
    → All (GoodPartner primary) ps
    → refuse_partner primary ps ≡ none
unfolding refuse_partner
accepts primary [] h = refl
accepts primary (p ∷ ps) h = ground (
  arith,
  h.0,
  accepts primary ps h.1,
  eq_iff p.profile_id primary.profile_id,
  eq_iff p.state "complete",
)

abbrev foreign : Candidate → Bool
foreign m = not (str_eq m.origin "created_by_us")

module _ (primary : Candidate) (ps : List Candidate) where
  IsQualified-refused : refused primary ps ≡ none → IsQualified primary ps
  unfolding refused
  IsQualified-refused h = record {
    ours =
        All-imp (primary ∷ ps) (λ m e. ground (arith, eq_iff m.origin "created_by_us"))
          (any-false foreign (primary ∷ ps) (ground arith));
    known = known-assets (primary ∷ ps) (ground arith);
    assets_apart = Apart-repeats (primary ∷ ps) (ground arith);
    good = accepted primary ps (ground arith);
  }

  refused-IsQualified : IsQualified primary ps → refused primary ps ≡ none
  unfolding refused
  refused-IsQualified q =
      let a =
        false-any foreign (primary ∷ ps) (
          All-imp (primary ∷ ps) (λ m e. ground (arith, eq_iff m.origin "created_by_us")) q.ours) in
      let b = assets-known (primary ∷ ps) q.known in
      let c = repeats-Apart (primary ∷ ps) q.assets_apart in
      let d = accepts primary ps q.good in rw a (rw b (rw c d))

settle_group-group :
    (primary : Candidate) (rule : StackRule) (ps : List Candidate) (r : Option Reason)
    (ms : List Candidate)
    → settle_group primary rule ps r ≡ group ms
    → (r ≡ none) × (ms ≡ sort_by (rank rule) (primary ∷ ps)) × (ps ≢ [])
settle_group-group primary rule [] r ms h = absurd (ground (arith, h))
settle_group-group primary rule (p ∷ ps) (some r) ms h = absurd (ground (arith, h))
settle_group-group primary rule (p ∷ ps) none ms h = (refl, sym (ap (members_or ms) h), (λ e. cc))
  where
    members_or : List Candidate → Outcome → List Candidate
    members_or d (group l) = l
    members_or d (refusal x) = d

settle_group-some :
    (primary : Candidate) (rule : StackRule) (ps : List Candidate)
    → ps ≢ []
    → settle_group primary rule ps none ≡ group (sort_by (rank rule) (primary ∷ ps))
settle_group-some primary rule [] n = absurd (n refl)
settle_group-some primary rule (p ∷ ps) n = refl

abbrev pub partners_of : Candidate → List Candidate → StackRule → List Candidate
partners_of primary candidates rule = (identity_partners primary candidates rule).partners

module _ (primary : Candidate) (candidates : List Candidate) (rule : StackRule) where
  past_guards :
      (ms : List Candidate)
      → resolve_group primary candidates rule ≡ group ms
      → ((identity_partners primary candidates rule).ambiguous ≡ false)
        × (settle_group primary rule
              (partners_of primary candidates rule)
              (refused primary (partners_of primary candidates rule))
            ≡ group ms)
  unfolding resolve_group
  past_guards ms h = (ground arith, ground arith)

  -- A group is the primary and its partners, all of them, in the order of the rule's extensions.
  -- It has a partner, all its files were sent by us and are on the server under different assets,
  -- and no two of them have one extension.
  pub resolve_group-group :
      (ms : List Candidate)
      → resolve_group primary candidates rule ≡ group ms
      → Perm ms (primary ∷ partners_of primary candidates rule)
        × IsSorted (rank rule) ms
        × (partners_of primary candidates rule ≢ [])
        × IsQualified primary (partners_of primary candidates rule)
        × Apart (λ m. extension_of m.rel_path) (primary ∷ partners_of primary candidates rule)
  resolve_group-group ms h =
      let (single, settled) = past_guards ms h in
      let (fine, sorted, several) =
        settle_group-group primary rule (partners_of primary candidates rule)
          (refused primary (partners_of primary candidates rule)) ms settled in
      rw sorted (
        sort_by-perm (rank rule) (primary ∷ partners_of primary candidates rule),
        sort_by-IsSorted (rank rule) (primary ∷ partners_of primary candidates rule),
        several,
        IsQualified-refused primary (partners_of primary candidates rule) fine,
        (identity_partners-IsPartner primary candidates rule).2 single,
      )

  -- And these conditions are enough: with the rule on, a listed extension, no ambiguity, a partner
  -- and qualified members the answer is a group.
  pub resolve_group-IsQualified :
      rule.enabled ≡ true
      → is_listed (extension_of primary.rel_path) rule.extensions ≡ true
      → (identity_partners primary candidates rule).ambiguous ≡ false
      → partners_of primary candidates rule ≢ []
      → IsQualified primary (partners_of primary candidates rule)
      → resolve_group primary candidates rule
        ≡ group (sort_by (rank rule) (primary ∷ partners_of primary candidates rule))
  unfolding resolve_group
  resolve_group-IsQualified on listed single some_partner q = ground (
    arith,
    refused-IsQualified primary (partners_of primary candidates rule) q,
    settle_group-some primary rule (partners_of primary candidates rule) some_partner,
  )

-- ===== src/Uploads/Stacking/Tests.antt =====
-- Runs of `resolve_group` on two cards.
use mediaferry.Uploads.Stacking.Evidence.{IsPartner}
use mediaferry.Base.{String, ◌≡◌, refl, ◌≢◌, true, false, some, List, [], ◌∷◌, All, Apart}
use mediaferry.Base.Sort.{place, sort_by, IsSorted}
use mediaferry.Text.{codes, splitext}
use mediaferry.Profile.{StackRule}
use mediaferry.Uploads.Stacking.{
  Candidate, group, stem_prefix, extension_of, source_key, proof_of, is_partner, add_id, pair_one,
  pair_all, identity_partners, repeats, refuse_partner, refused, rank, resolve_group,
}
use mediaferry.Uploads.Stacking.Pairs.{identity_partners-IsPartner}
use mediaferry.Uploads.Stacking.Groups.{IsQualified, partners_of, resolve_group-group}
use mathlib.Core.List.{Perm}

abbrev canon : StackRule
canon = record { enabled = true; extensions = "JPG" ∷ "CR2" ∷ [] }

abbrev shot : String → String → String → Candidate
shot file path asset = record {
  record_id = file;
  media_file_id = file;
  profile_id = "eos";
  volume_instance_id = "card";
  rel_path = codes path;
  copresent_key = some "scan:A";
  captured_at = "";
  captured_at_source = "exif";
  origin = "created_by_us";
  state = "complete";
  remote_asset_id = some asset;
  invalidated = false;
}

abbrev raw : Candidate
raw = shot "raw" "A.CR2" "a1"

abbrev jpg : Candidate
jpg = shot "jpg" "A.jpg" "a2"

abbrev other : Candidate
other = shot "other" "B.JPG" "a3"

abbrev shots : List Candidate
shots = raw ∷ jpg ∷ other ∷ []

paired : resolve_group raw shots canon ≡ group (jpg ∷ raw ∷ [])
unfolding resolve_group identity_partners pair_all pair_one is_partner proof_of add_id refused
    repeats refuse_partner source_key stem_prefix extension_of splitext sort_by place
paired = refl

identity_partners-IsPartner_example :
    let found = identity_partners raw shots canon in
    All (IsPartner raw shots canon) found.partners
    × Apart (λ p. p.media_file_id) (raw ∷ found.partners)
    × (found.ambiguous ≡ false → Apart (λ p. extension_of p.rel_path) (raw ∷ found.partners))
identity_partners-IsPartner_example = identity_partners-IsPartner raw shots canon

resolve_group-group_example :
    Perm (jpg ∷ raw ∷ []) (raw ∷ partners_of raw shots canon)
    × IsSorted (rank canon) (jpg ∷ raw ∷ [])
    × (partners_of raw shots canon ≢ [])
    × IsQualified raw (partners_of raw shots canon)
    × Apart (λ m. extension_of m.rel_path) (raw ∷ partners_of raw shots canon)
resolve_group-group_example = resolve_group-group raw shots canon (jpg ∷ raw ∷ []) paired

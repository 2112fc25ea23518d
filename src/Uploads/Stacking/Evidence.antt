-- ===== src/Uploads/Stacking/Evidence.antt =====
-- `identity_partners` of app/src/mediaferry/core/uploads/stacking.py: what the tests of its loop say.
use mediaferry.Base.{
  String, ◌≡◌, refl, ◌≢◌, ◌⊎◌, inl, inr, true, Option, none, some, List, [], ◌∷◌, arith, eq_iff,
  Bool-cases, Option-cases, keep, Some,
}
use mediaferry.Text.{text_eq_iff}
use mediaferry.Profile.{StackRule}
use mediaferry.Uploads.Stacking.{
  Candidate, extension_of, is_listed, SourceKey, source_key, key_eq, is_file, proof_of, same_proof,
  is_partner,
}

-- The evidence for a pair: an observation of the primary's file has the same volume, the same
-- stem, and the same proof that both were on the card at one time.
pub record SeenTogether (primary c o : Candidate) : Type 0 where
  pub own_file : o.media_file_id ≡ primary.media_file_id
  pub same_key : source_key o ≡ source_key c
  pub same_scan : (p : String) × (o.copresent_key ≡ some p) × (c.copresent_key ≡ some p)

pub record IsPartner (primary : Candidate) (candidates : List Candidate) (rule : StackRule)
    (c : Candidate) : Type 0 where
  pub other_file : c.media_file_id ≢ primary.media_file_id
  pub listed : is_listed (extension_of c.rel_path) rule.extensions ≡ true
  pub together : Some (SeenTogether primary c) candidates

key_eq_iff : (a b : SourceKey) → key_eq a b ≡ true → a ≡ b
key_eq_iff a b h = ground (arith, eq_iff a.0 b.0, text_eq_iff a.1 b.1)

pub same_proof-some :
    (x : Option (Option String)) (y : Option String)
    → same_proof x y ≡ true
    → (p : String) × (x ≡ some (some p)) × (y ≡ some p)
same_proof-some none y h = absurd (ground arith)
same_proof-some (some none) y h = absurd (ground arith)
same_proof-some (some (some p)) none h = absurd (ground arith)
same_proof-some (some (some p)) (some q) h = (p, refl, ground (arith, eq_iff q p))

pub proof_of-Some :
    (k : SourceKey) (cs : List Candidate) (x : Option String)
    → proof_of k cs ≡ some x
    → Some (λ o. (source_key o ≡ k) × (o.copresent_key ≡ x)) cs
unfolding proof_of
proof_of-Some k [] x h = cc
proof_of-Some k (c ∷ cs) x h = elim (Option-cases (proof_of k cs)) [
  | inl e ↦ elim (Bool-cases (key_eq (source_key c) k)) [
    | inl f ↦ inl (key_eq_iff (source_key c) k f, ground (arith, e, f))
    | inr f ↦ absurd (ground (arith, e, f))
  ]
  | inr (y, e) ↦ inr (proof_of-Some k cs x (ground (arith, e)))
]

own_first :
    {X Y : Type 0} (id : String) (P : Candidate → Type 0) (c : Candidate)
    → is_file id c ≡ true
    → (X → Y)
    → P c ⊎ X
    → (c.media_file_id ≡ id) × P c ⊎ Y
own_first id P c e f (inl p) = inl (ground (arith, eq_iff c.media_file_id id), p)
own_first id P c e f (inr q) = inr (f q)

-- An observation among those of the primary's file is one of the candidates.
Some-keep :
    (id : String) (P : Candidate → Type 0) (cs : List Candidate)
    → Some P (keep (is_file id) cs)
    → Some (λ o. (o.media_file_id ≡ id) × P o) cs
Some-keep id P [] h = h
Some-keep id P (c ∷ cs) h = elim (Bool-cases (is_file id c)) [
  | inl e ↦ own_first id P c e (Some-keep id P cs) (rw e at h)
  | inr e ↦ inr (Some-keep id P cs (rw e at h))
]

Some-imp :
    (P Q : Candidate → Type 0) (cs : List Candidate)
    → ((c : Candidate) → P c → Q c)
    → Some P cs
    → Some Q cs
Some-imp P Q [] f h = h
Some-imp P Q (c ∷ cs) f (inl p) = inl (f c p)
Some-imp P Q (c ∷ cs) f (inr h) = inr (Some-imp P Q cs f h)

abbrev pub own_of : Candidate → List Candidate → List Candidate
own_of primary candidates = keep (is_file primary.media_file_id) candidates

module _ (primary : Candidate) (candidates : List Candidate) (rule : StackRule) where
  pub IsPartner-is_partner :
      (c : Candidate)
      → is_partner primary (own_of primary candidates) rule c ≡ true
      → IsPartner primary candidates rule c
  unfolding is_partner
  IsPartner-is_partner c h =
      let (p, found, same) =
        same_proof-some (proof_of (source_key c) (own_of primary candidates)) c.copresent_key
          (ground arith) in
      record {
        other_file = ground (arith, eq_iff c.media_file_id primary.media_file_id);
        listed = ground arith;
        together =
            Some-imp _ _ candidates
              (λ o q. record { own_file = q.0; same_key = q.1.0; same_scan = (p, q.1.1, same) })
              (Some-keep primary.media_file_id _ candidates
                (proof_of-Some (source_key c) (own_of primary candidates) (some p) found));
      }

-- ===== src/Uploads/Stacking/Pairs.antt =====
-- `identity_partners` of app/src/mediaferry/core/uploads/stacking.py: who is paired, and why.
use mediaferry.Uploads.Stacking.Evidence.{IsPartner, own_of, IsPartner-is_partner}
use mediaferry.Base.{
  String, ◌≡◌, refl, sym, ap, ◌≢◌, inl, inr, Bool, true, false, not, ◌&&◌, List, [], ◌∷◌, arith,
  eq_iff, ltb, if◌then◌else◌, Bool-cases, length, any, All, All-imp, All-append, Apart,
  Apart-append,
}
use mediaferry.Text.{Text, text_eq, text_eq_iff}
use mediaferry.Profile.{StackRule}
use mediaferry.Uploads.Stacking.{
  Candidate, extension_of, is_listed, is_partner, has_id, add_id, Pairing, pair_one, pair_all,
  several, identity_partners,
}

abbrev pub ids_of : Text → List (Text × List String) → List String
ids_of e [] = []
ids_of e ((f, is) ∷ m) = if text_eq f e then is else ids_of e m

-- The dictionary of media files by extension.
ids_of-add_id :
    (e f : Text) (i : String) (m : List (Text × List String))
    → ids_of e (add_id f i m) ≡ (
        if text_eq f e
        then (if has_id i (ids_of e m) then ids_of e m else i ∷ ids_of e m)
        else ids_of e m)
unfolding add_id
ids_of-add_id e f i [] = refl
ids_of-add_id e f i ((g, is) ∷ m) =
    ground (arith, text_eq_iff g f, text_eq_iff g e, text_eq_iff f e, ids_of-add_id e f i m)

has_id-add_id :
    (e f : Text) (i j : String) (m : List (Text × List String))
    → has_id j (ids_of e m) ≡ true
    → has_id j (ids_of e (add_id f i m)) ≡ true
has_id-add_id e f i j m h = rw (ids_of-add_id e f i m) (ground arith)

has_id-add_id_self :
    (e : Text) (i : String) (m : List (Text × List String))
    → has_id i (ids_of e (add_id e i m)) ≡ true
has_id-add_id_self e i m = rw (ids_of-add_id e e i m) (ground (arith, text_eq_iff e e, eq_iff i i))

two_ids :
    (a b : String) (xs : List String)
    → has_id a xs ≡ true
    → has_id b xs ≡ true
    → a ≢ b
    → ltb 1 (length xs) ≡ true
two_ids a b [] h k n = cc
two_ids a b (x ∷ []) h k n = absurd (n (ground (arith, eq_iff x a, eq_iff x b)))
two_ids a b (x ∷ y ∷ ys) h k n = ground arith

any-several :
    (e : Text) (m : List (Text × List String))
    → any several m ≡ false
    → ltb 1 (length (ids_of e m)) ≡ false
any-several e [] h = refl
any-several e ((f, is) ∷ m) h = ground (arith, any-several e m)

-- What holds of the loop of `identity_partners` between two candidates.
record IsPairing (primary : Candidate) (candidates : List Candidate) (rule : StackRule)
    (s : Pairing) : Type 0 where
  partners_hold : All (IsPartner primary candidates rule) s.partners
  all_seen : All (λ p. has_id p.media_file_id s.seen ≡ true) s.partners
  files_apart : Apart (λ p. p.media_file_id) s.partners
  all_filed :
      All
        (λ p. has_id p.media_file_id (ids_of (extension_of p.rel_path) s.by_extension) ≡ true)
        s.partners

seen_apart :
    (b : Bool) (i j : String) (seen : List String)
    → has_id i seen ≡ true
    → (b && not (has_id j seen)) ≡ true
    → i ≢ j
seen_apart b i j seen h e d = ground (arith, ap (λ k. has_id k seen) d)

module _ (primary : Candidate) (candidates : List Candidate) (rule : StackRule) where
  pair_one-IsPairing :
      (s : Pairing) (c : Candidate)
      → IsPairing primary candidates rule s
      → IsPairing primary candidates rule (pair_one primary (own_of primary candidates) rule s c)
  unfolding pair_one
  pair_one-IsPairing s c h =
      elim (Bool-cases (
        is_partner primary (own_of primary candidates) rule c
        && not (has_id c.media_file_id s.seen))) [
          | inl e ↦ rw e (record {
            partners_hold =
                All-append _ s.partners (c ∷ []) h.partners_hold
                  (IsPartner-is_partner primary candidates rule c (ground arith), tt);
            all_seen =
                All-append _ s.partners (c ∷ [])
                  (All-imp s.partners (λ p q. ground arith) h.all_seen)
                  (ground (arith, eq_iff c.media_file_id c.media_file_id), tt);
            files_apart = Apart-append _ s.partners c h.files_apart (
                All-imp s.partners
                  (λ p q.
                    seen_apart (is_partner primary (own_of primary candidates) rule c)
                      p.media_file_id c.media_file_id s.seen q e)
                  h.all_seen);
            all_filed =
                All-append _ s.partners (c ∷ [])
                  (All-imp s.partners
                    (λ p q.
                      has_id-add_id (extension_of p.rel_path) (extension_of c.rel_path)
                        c.media_file_id p.media_file_id s.by_extension q)
                    h.all_filed)
                  (has_id-add_id_self (extension_of c.rel_path) c.media_file_id s.by_extension, tt);
          })
          | inr e ↦ rw e h
        ]

  pair_all-IsPairing :
      (cs : List Candidate) (s : Pairing)
      → IsPairing primary candidates rule s
      → IsPairing primary candidates rule (pair_all primary (own_of primary candidates) rule s cs)
  unfolding pair_all
  pair_all-IsPairing [] s h = h
  pair_all-IsPairing (c ∷ cs) s h =
      pair_all-IsPairing cs (pair_one primary (own_of primary candidates) rule s c)
        (pair_one-IsPairing s c h)

abbrev IsFiled : List (Text × List String) → Candidate → Type 0
IsFiled m p = has_id p.media_file_id (ids_of (extension_of p.rel_path) m) ≡ true

module _ (m : List (Text × List String)) (single : any several m ≡ false) where
  exts_apart :
      (x y : Candidate)
      → IsFiled m x
      → IsFiled m y
      → x.media_file_id ≢ y.media_file_id
      → extension_of x.rel_path ≢ extension_of y.rel_path
  exts_apart x y hx hy n e =
      let clash =
        two_ids x.media_file_id y.media_file_id (ids_of (extension_of x.rel_path) m) hx (rw e hy)
          n in
      cc (clash, any-several (extension_of x.rel_path) m single)

  exts_apart_from :
      (x : Candidate) (ps : List Candidate)
      → IsFiled m x
      → All (IsFiled m) ps
      → All (λ p. x.media_file_id ≢ p.media_file_id) ps
      → All (λ p. extension_of x.rel_path ≢ extension_of p.rel_path) ps
  exts_apart_from x [] hx h n = tt
  exts_apart_from x (p ∷ ps) hx h n = (exts_apart x p hx h.0 n.0, exts_apart_from x ps hx h.1 n.1)

  Apart-exts :
      (ps : List Candidate)
      → All (IsFiled m) ps
      → Apart (λ p. p.media_file_id) ps
      → Apart (λ p. extension_of p.rel_path) ps
  Apart-exts [] h a = tt
  Apart-exts (p ∷ ps) h a = (exts_apart_from p ps h.0 h.1 a.0, Apart-exts ps h.1 a.1)

-- The partners of a primary are other files of the card, each once, seen together with an
-- observation of the primary under one volume, stem and scan; if the answer is not ambiguous, no
-- two of primary and partners have one extension.
pub identity_partners-IsPartner :
    (primary : Candidate) (candidates : List Candidate) (rule : StackRule)
    → let found = identity_partners primary candidates rule in
      All (IsPartner primary candidates rule) found.partners
      × Apart (λ p. p.media_file_id) (primary ∷ found.partners)
      × (found.ambiguous ≡ false → Apart (λ p. extension_of p.rel_path) (primary ∷ found.partners))
unfolding identity_partners
identity_partners-IsPartner primary candidates rule =
    elim (Bool-cases (rule.enabled && is_listed (extension_of primary.rel_path) rule.extensions)) [
      | inl e ↦ rw e (
        h.partners_hold,
        (others, h.files_apart),
        λ single.
            Apart-exts (add_id (extension_of primary.rel_path) primary.media_file_id s.by_extension)
              single (primary ∷ s.partners)
              (
                has_id-add_id_self (extension_of primary.rel_path) primary.media_file_id
                    s.by_extension,
                All-imp s.partners
                    (λ p q.
                      has_id-add_id (extension_of p.rel_path) (extension_of primary.rel_path)
                        primary.media_file_id p.media_file_id s.by_extension q)
                    h.all_filed,
              )
              (others, h.files_apart),
      )
      | inr e ↦ rw e (tt, (tt, tt), λ _. (tt, tt))
    ]
  where
    s : Pairing
    s =
        pair_all primary (own_of primary candidates) rule
          (record { partners = []; seen = []; by_extension = [] }) candidates

    h : IsPairing primary candidates rule s
    h =
        pair_all-IsPairing primary candidates rule candidates
          (record { partners = []; seen = []; by_extension = [] })
          (record { partners_hold = tt; all_seen = tt; files_apart = tt; all_filed = tt })

    others : All (λ p. primary.media_file_id ≢ p.media_file_id) s.partners
    others = All-imp s.partners (λ p q e. q.other_file (sym e)) h.partners_hold

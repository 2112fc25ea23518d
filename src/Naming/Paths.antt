-- ===== src/Naming/Paths.antt =====
-- core/naming.py: which paths are let in, and where they lead.
use mediaferry.Naming.{
  onto, split, join, dot, dot_dot, is_unsafe, safe_source_rel_path, top_of, library_rel_path,
}
use mediaferry.Text.{Text, codes, text_eq, text_eq_iff, contains}
use mediaferry.Base.{
  ℕ, ◌≡◌, refl, ap, ◌∙◌, ◌≢◌, ◌⊎◌, inl, inr, true, false, Option, none, some, List, [], ◌∷◌, ◌++◌,
  arith, ◌==◌, Bool-cases, Option-cases, any, All, Some,
}

join-nil : (ps : List Text) → ps ≢ [] → join ([] ∷ ps) ≡ b'/' ∷ join ps
unfolding join
join-nil [] h = absurd (h refl)
join-nil (p ∷ ps) h = refl

join-onto : (c : ℕ) (ps : List Text) → ps ≢ [] → join (onto c ps) ≡ c ∷ join ps
unfolding join
join-onto c [] h = absurd (h refl)
join-onto c (p ∷ []) h = refl
join-onto c (p ∷ q ∷ ps) h = refl

onto-ne-nil : (c : ℕ) (ps : List Text) → onto c ps ≢ []
onto-ne-nil c [] h = cc
onto-ne-nil c (p ∷ ps) h = cc

pub split-ne-nil : (t : Text) → split t ≢ []
unfolding split
split-ne-nil [] = λ h. cc
split-ne-nil (c ∷ t) = elim (Bool-cases (c == b'/')) [
  | inl e ↦ rw e (λ h. cc)
  | inr e ↦ rw e (onto-ne-nil c (split t))
]

join_cut :
    (c : ℕ) (t : Text) → (c == b'/') ≡ true → join (split t) ≡ t → join ([] ∷ split t) ≡ c ∷ t
join_cut c t e h = join-nil (split t) (split-ne-nil t) ∙ ground (arith, e, h)

pub join-split : (t : Text) → join (split t) ≡ t
unfolding split join
join-split [] = refl
join-split (c ∷ t) = elim (Bool-cases (c == b'/')) [
  | inl e ↦ rw e (join_cut c t e (join-split t))
  | inr e ↦ rw e (join-onto c (split t) (split-ne-nil t) ∙ ground (arith, join-split t))
]

-- A component that names an entry of its directory, and neither the directory nor its parent.
abbrev pub IsSafePart : Text → Type 0
IsSafePart part =
    (part ≢ [])
    × (part ≢ dot)
    × (part ≢ dot_dot)
    × (contains b'/' part ≡ false)
    × (contains 0 part ≡ false)
    × (contains b'\\' part ≡ false)

split-part : (a t : Text) → contains b'/' a ≡ false → split (a ++ (b'/' ∷ t)) ≡ a ∷ split t
unfolding split
split-part [] t h = refl
split-part (c ∷ a) t h = elim (Bool-cases (c == b'/')) [
  | inl e ↦ ground (arith, e)
  | inr e ↦ rw e (rw (split-part a t (ground arith)) refl)
]

contains-onto :
    (c : ℕ) (ps : List Text)
    → (c == b'/') ≡ false
    → All (λ p. contains b'/' p ≡ false) ps
    → All (λ p. contains b'/' p ≡ false) (onto c ps)
contains-onto c [] e h = (ground arith, tt)
contains-onto c (p ∷ ps) e h = (ground (arith, e, h.0), h.1)

contains-split : (t : Text) → All (λ p. contains b'/' p ≡ false) (split t)
unfolding split
contains-split [] = (refl, tt)
contains-split (c ∷ t) = elim (Bool-cases (c == b'/')) [
  | inl e ↦ rw e (refl, contains-split t)
  | inr e ↦ rw e (contains-onto c (split t) e (contains-split t))
]

is_unsafe-IsSafePart : (p : Text) → contains b'/' p ≡ false → is_unsafe p ≡ false → IsSafePart p
is_unsafe-IsSafePart p c h = (
  (λ e. ground (arith, e)),
  (λ e. ground (arith, e, text_eq_iff p dot)),
  (λ e. ground (arith, e, text_eq_iff p dot_dot)),
  c,
  ground arith,
  ground arith,
)

parts-IsSafePart :
    (ps : List Text)
    → All (λ p. contains b'/' p ≡ false) ps
    → any is_unsafe ps ≡ false
    → All IsSafePart ps
parts-IsSafePart [] c h = tt
parts-IsSafePart (p ∷ ps) c h =
    (is_unsafe-IsSafePart p c.0 (ground arith), parts-IsSafePart ps c.1 (ground arith))

unsafe-Some : (ps : List Text) → any is_unsafe ps ≡ true → Some (λ p. ¬ IsSafePart p) ps
unsafe-Some [] h = cc
unsafe-Some (p ∷ ps) h = elim (Bool-cases (is_unsafe p)) [
  | inl e ↦ inl (λ s. ground (arith, s, e, text_eq_iff p dot, text_eq_iff p dot_dot))
  | inr e ↦ inr (unsafe-Some ps (ground (arith, e)))
]

safe_some : (t s : Text) → safe_source_rel_path t ≡ some s → (s ≡ t) × All IsSafePart (split t)
unfolding safe_source_rel_path
safe_some t s h = elim (Bool-cases (any is_unsafe (split t))) [
  | inl e ↦ ground (arith, e)
  | inr e ↦ (ground (arith, e, join-split t), parts-IsSafePart (split t) (contains-split t) e)
]

safe_none : (t : Text) → safe_source_rel_path t ≡ none → any is_unsafe (split t) ≡ true
unfolding safe_source_rel_path split
safe_none [] h = refl
safe_none (c ∷ t) h = elim (Bool-cases (c == b'/')) [
  | inl e ↦ rw e refl
  | inr e ↦ ground (arith, e)
]

library_some :
    (role slug t s path : Text)
    → safe_source_rel_path t ≡ some s
    → library_rel_path role slug t ≡ some path
    → path ≡ top_of role ++ (b'/' ∷ (slug ++ (b'/' ∷ t)))
unfolding library_rel_path
library_some role slug t s path e h = ground (arith, e, h, safe_some t s e)

library_none :
    (role slug t path : Text)
    → safe_source_rel_path t ≡ none
    → library_rel_path role slug t ≢ some path
unfolding library_rel_path
library_none role slug t path n e = ground (arith, n, e)

library_refused :
    (role slug t s : Text) → safe_source_rel_path t ≡ some s → library_rel_path role slug t ≢ none
unfolding library_rel_path
library_refused role slug t s p e = ground (arith, p, e)

top_of-IsSafePart : (role : Text) → IsSafePart (top_of role)
top_of-IsSafePart role = elim (Bool-cases (text_eq role (codes "original"))) [
  | inl e ↦ rw e ((λ h. cc), (λ h. cc), (λ h. cc), refl, refl, refl)
  | inr e ↦ rw e ((λ h. cc), (λ h. cc), (λ h. cc), refl, refl, refl)
]

split-library :
    (role slug t : Text)
    → IsSafePart slug
    → split (top_of role ++ (b'/' ∷ (slug ++ (b'/' ∷ t)))) ≡ top_of role ∷ slug ∷ split t
split-library role slug t h =
    split-part (top_of role) (slug ++ (b'/' ∷ t)) (top_of-IsSafePart role).3
    ∙ ap (λ ps. top_of role ∷ ps) (split-part slug t h.3)

library_accepted :
    (role slug t s path : Text)
    → IsSafePart slug
    → safe_source_rel_path t ≡ some s
    → library_rel_path role slug t ≡ some path
    → (split path ≡ top_of role ∷ slug ∷ split t) × All IsSafePart (split path)
library_accepted role slug t s path h e p =
    let cut : split path ≡ top_of role ∷ slug ∷ split t =
      ap split (library_some role slug t s path e p) ∙ split-library role slug t h in
    (cut, rw cut (top_of-IsSafePart role, (h, (safe_some t s e).1)))

-- What the answer says: the path with its components, or a component that is not let in.
abbrev pub IsPlaced : Text → Text → Text → Option Text → Type 0
IsPlaced role profile_slug source_rel_path none =
    Some (λ part. ¬ IsSafePart part) (split source_rel_path)
IsPlaced role profile_slug source_rel_path (some path) =
    (split path ≡ top_of role ∷ profile_slug ∷ split source_rel_path) × All IsSafePart (split path)

-- A path is put in the library under its role and profile, component by component, and all
-- components of the path that it gets are names of entries: never empty, `.` or `..`, and with no
-- separator or NUL in them. It is refused only if one of its components is not. The profile's name
-- is the name of an entry.
pub library_rel_path-IsPlaced :
    (role profile_slug source_rel_path : Text)
    → IsSafePart profile_slug
    → IsPlaced role profile_slug source_rel_path
        (library_rel_path role profile_slug source_rel_path)
library_rel_path-IsPlaced role slug t h =
    by_answer (library_rel_path role slug t) refl (Option-cases (safe_source_rel_path t))
  where
    by_answer :
        (o : Option Text)
        → library_rel_path role slug t ≡ o
        → (safe_source_rel_path t ≡ none) ⊎ ((s : Text) × (safe_source_rel_path t ≡ some s))
        → IsPlaced role slug t o
    by_answer (some path) e (inl n) = absurd (library_none role slug t path n e)
    by_answer (some path) e (inr (s, p)) = library_accepted role slug t s path h p e
    by_answer none e (inl n) = unsafe-Some (split t) (safe_none t n)
    by_answer none e (inr (s, p)) = absurd (library_refused role slug t s p e)

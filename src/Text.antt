-- ===== src/Text.antt =====
-- Texts as code points, and what the program uses of Python's `posixpath` and `str`: `splitext`,
-- `upper` (of ASCII letters; other letters stay as they are) and the split of a path.
use Prim.Native.Char.{code}
use Prim.Native.String.{String}
use mathlib.Core.List.{append-nil}
use mediaferry.Base.{
  ℕ, ◌-◌, String, ◌≡◌, refl, ◌↔◌, inl, inr, Bool, true, false, not, ◌&&◌, ◌||◌, Option, none, some,
  List, [], ◌∷◌, ◌++◌, map, arith, leb, ◌==◌, if◌then◌else◌, Option-cases,
}

abbrev pub Text : Type 0
Text = List ℕ

abbrev pub codes : String → Text
codes String.[] = []
codes (String.◌∷◌ c s) = code c ∷ codes s

abbrev pub text_eq : Text → Text → Bool
text_eq [] [] = true
text_eq [] (y ∷ ys) = false
text_eq (x ∷ xs) [] = false
text_eq (x ∷ xs) (y ∷ ys) = x == y && text_eq xs ys

pub text_eq_iff : (s t : Text) → (text_eq s t ≡ true) ↔ (s ≡ t)
text_eq_iff [] [] = ((λ _. refl), (λ _. refl))
text_eq_iff [] (y ∷ ys) = ((λ h. cc), (λ h. cc))
text_eq_iff (x ∷ xs) [] = ((λ h. cc), (λ h. cc))
text_eq_iff (x ∷ xs) (y ∷ ys) =
    ((λ h. ground (arith, text_eq_iff xs ys)), (λ h. ground (arith, text_eq_iff xs ys)))

abbrev pub contains : ℕ → Text → Bool
contains c [] = false
contains c (x ∷ xs) = x == c || contains c xs

-- Python's `str.startswith`
abbrev pub starts_with : Text → Text → Bool
starts_with [] t = true
starts_with (c ∷ s) [] = false
starts_with (c ∷ s) (d ∷ t) = c == d && starts_with s t

abbrev prefixed : ℕ → Option (Text × Text) → Option (Text × Text)
prefixed c none = none
prefixed c (some (a, b)) = some (c ∷ a, b)

abbrev or_here : Bool → Text → Option (Text × Text) → Option (Text × Text)
or_here here t (some ab) = some ab
or_here here t none = if here then some ([], t) else none

-- The text before the last dot of the last component, and from that dot on.
unfoldable pub last_dot : Text → Option (Text × Text)
last_dot [] = none
last_dot (c ∷ t) = or_here (c == b'.' && not (contains b'/' t)) (c ∷ t) (prefixed c (last_dot t))

-- Whether the last component has a character other than a dot.
unfoldable pub has_stem : Bool → Text → Bool
has_stem seen [] = seen
has_stem seen (c ∷ t) = has_stem (if c == b'/' then false else seen || not (c == b'.')) t

abbrev split_at_dot : Text → Option (Text × Text) → Text × Text
split_at_dot t none = (t, [])
split_at_dot t (some (a, b)) = if has_stem false a then (a, b) else (t, [])

-- `posixpath.splitext`: a name that begins with its dots has no extension.
unfoldable pub splitext : Text → Text × Text
unfolding last_dot has_stem
splitext t = split_at_dot t (last_dot t)

abbrev pub upper_code : ℕ → ℕ
upper_code c = if leb b'a' c && leb c b'z' then c - 32 else c

abbrev pub upper : Text → Text
upper = map upper_code

-- `lstrip(".")`
abbrev pub lstrip_dots : Text → Text
lstrip_dots [] = []
lstrip_dots (c ∷ t) = if c == b'.' then lstrip_dots t else c ∷ t

last_dot-append : (t a b : Text) → last_dot t ≡ some (a, b) → a ++ b ≡ t
unfolding last_dot
last_dot-append [] a b h = cc
last_dot-append (c ∷ t) a b h = elim (Option-cases (last_dot t)) [
  | inl e ↦ ground (arith, e)
  | inr ((x, y), e) ↦ ground (arith, e, last_dot-append t x y e)
]

-- The two parts of `splitext` make up the path.
pub splitext-append : (t : Text) → (splitext t).0 ++ (splitext t).1 ≡ t
unfolding splitext
splitext-append t = elim (Option-cases (last_dot t)) [
  | inl e ↦ rw (e, splitext) (append-nil t)
  | inr ((a, b), e) ↦ ground (arith, e, last_dot-append t a b e, append-nil t)
]

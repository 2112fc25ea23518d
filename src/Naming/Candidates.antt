-- ===== src/Naming/Candidates.antt =====
-- core/naming.py: the candidates of a path are different names.
use mathlib.Core.List.{append_assoc, append_cancel_left, append_cancel_right}
use mediaferry.Naming.{
  split, join, dot, is_empty, components, last_or, but_last, digits, str_int, take,
  sha1_prefix_chars, tag, beside, candidate_paths,
}
use mediaferry.Naming.Paths.{join-split, split-ne-nil, IsSafePart}
use mediaferry.Text.{Text, text_eq, text_eq_iff, splitext, splitext-append}
use mediaferry.Base.{
  ℕ, zero, suc, ◌+◌, ◌-◌, ◌*◌, ◌/◌, ◌%◌, ◌≤◌, ◌<◌, ◌≡◌, refl, sym, ap, ◌∙◌, ◌≢◌, inl, inr, not,
  ◌||◌, List, [], ◌∷◌, ◌++◌, arith, ltb, ltb→lt, Bool-cases, length, length-append, keep, All,
}

tail : {c d : ℕ} {s t : Text} → Path Text (c ∷ s) (d ∷ t) → s ≡ t
tail {c} {d} {s} {t} h = cc

-- What the digits of a text say, read on from a number.
abbrev value : ℕ → Text → ℕ
value n [] = n
value n (c ∷ t) = value (n * 10 + (c - b'0')) t

value-append : (n c : ℕ) (t : Text) → value n (t ++ (c ∷ [])) ≡ value n t * 10 + (c - b'0')
value-append n c [] = refl
value-append n c (d ∷ t) = value-append (n * 10 + (d - b'0')) c t

value-digits : (fuel n : ℕ) → n < fuel → value 0 (digits fuel n) ≡ n
unfolding digits
value-digits zero n h = omega arith
value-digits (suc fuel) n h = elim (Bool-cases (ltb n 10)) [
  | inl e ↦ rw e (omega arith)
  | inr e ↦ rw e (
      value-append 0 (b'0' + n % 10) (digits fuel (n / 10))
      ∙ ground (arith, value-digits fuel (n / 10)))
]

str_int-injective : (m n : ℕ) → str_int m ≡ str_int n → m ≡ n
unfolding str_int
str_int-injective m n h =
    sym (value-digits (suc m) m (omega arith))
    ∙ ap (value 0) h
    ∙ value-digits (suc n) n (omega arith)

-- How long a tag is, but for the number in it.
abbrev least : ℕ → ℕ → ℕ → ℕ
least stamp short zero = 0
least stamp short (suc zero) = stamp + 1
least stamp short (suc (suc zero)) = stamp + short + 2
least stamp short (suc (suc (suc n))) = stamp + short + 3

abbrev number : ℕ → Text
number (suc (suc (suc n))) = str_int (n + 2)
number n = []

length-tag :
    (stamp short : Text) (n : ℕ)
    → length (tag stamp short n) ≡ least (length stamp) (length short) n + length (number n)
unfolding tag
length-tag stamp short zero = refl
length-tag stamp short (suc zero) = omega arith
length-tag stamp short (suc (suc zero)) = ground (arith, length-append stamp (b'_' ∷ short))
length-tag stamp short (suc (suc (suc n))) = ground (
  arith,
  length-append stamp (b'_' ∷ (short ++ (b'_' ∷ str_int (n + 2)))),
  length-append short (b'_' ∷ str_int (n + 2)),
)

cut_number :
    (stamp short a b : Text)
    → b'_' ∷ (stamp ++ (b'_' ∷ (short ++ (b'_' ∷ a))))
      ≡ b'_' ∷ (stamp ++ (b'_' ∷ (short ++ (b'_' ∷ b))))
    → a ≡ b
cut_number stamp short a b h =
    tail (append_cancel_left short _ _ (tail (append_cancel_left stamp _ _ (tail h))))

later-tag :
    (stamp short : Text) (m n : ℕ)
    → tag stamp short (suc (suc (suc m))) ≡ tag stamp short (suc (suc (suc n)))
    → m ≡ n
unfolding tag
later-tag stamp short m n h =
    omega (arith, str_int-injective (m + 2) (n + 2) (cut_number stamp short _ _ h))

shown : ℕ → ℕ → ℕ → ℕ
unfolding str_int
shown stamp short n = least stamp short n + length (number n)

by_length : (s t m n : ℕ) → m < 3 → shown s t m ≡ shown s t n → m ≡ n
unfolding shown
by_length s t zero zero l h = refl
by_length s t zero (suc zero) l h = omega arith
by_length s t zero (suc (suc zero)) l h = omega arith
by_length s t zero (suc (suc (suc n))) l h = omega arith
by_length s t (suc zero) zero l h = omega arith
by_length s t (suc zero) (suc zero) l h = refl
by_length s t (suc zero) (suc (suc zero)) l h = omega arith
by_length s t (suc zero) (suc (suc (suc n))) l h = omega arith
by_length s t (suc (suc zero)) zero l h = omega arith
by_length s t (suc (suc zero)) (suc zero) l h = omega arith
by_length s t (suc (suc zero)) (suc (suc zero)) l h = refl
by_length s t (suc (suc zero)) (suc (suc (suc n))) l h = omega arith
by_length s t (suc (suc (suc m))) n l h = omega arith

same_length :
    (stamp short : Text) (m n : ℕ)
    → tag stamp short m ≡ tag stamp short n
    → shown (length stamp) (length short) m ≡ shown (length stamp) (length short) n
unfolding shown
same_length stamp short m n h =
    sym (length-tag stamp short m) ∙ ap length h ∙ length-tag stamp short n

both_later :
    (stamp short : Text) (m n : ℕ) → 3 ≤ m → 3 ≤ n → tag stamp short m ≡ tag stamp short n → m ≡ n
both_later stamp short (suc (suc (suc m))) (suc (suc (suc n))) a b h =
    omega (arith, later-tag stamp short m n h)
both_later stamp short (suc (suc (suc m))) zero a b h = omega arith
both_later stamp short (suc (suc (suc m))) (suc zero) a b h = omega arith
both_later stamp short (suc (suc (suc m))) (suc (suc zero)) a b h = omega arith
both_later stamp short zero n a b h = omega arith
both_later stamp short (suc zero) n a b h = omega arith
both_later stamp short (suc (suc zero)) n a b h = omega arith

tag-injective : (stamp short : Text) (m n : ℕ) → tag stamp short m ≡ tag stamp short n → m ≡ n
tag-injective stamp short m n h = elim (Bool-cases (ltb m 3)) [
  | inl e ↦ by_length _ _ m n (ltb→lt m 3 e) (same_length stamp short m n h)
  | inr e ↦ elim (Bool-cases (ltb n 3)) [
    | inl f ↦ sym (by_length _ _ n m (ltb→lt n 3 f) (sym (same_length stamp short m n h)))
    | inr f ↦ both_later stamp short m n (ground arith) (ground arith) h
  ]
]

-- What the directory of a path contributes to its text.
abbrev folder : List Text → Text
folder [] = []
folder (p ∷ ps) = p ++ (b'/' ∷ folder ps)

join-folder : (ps : List Text) (name : Text) → join (ps ++ (name ∷ [])) ≡ folder ps ++ name
unfolding join
join-folder [] name = refl
join-folder (p ∷ []) name = sym (append_assoc p (b'/' ∷ []) name)
join-folder (p ∷ q ∷ ps) name =
    rw (join-folder (q ∷ ps) name) (sym (append_assoc p (b'/' ∷ folder (q ∷ ps)) name))

but_last-last_or : (p : Text) (ps : List Text) → but_last p ps ++ (last_or p ps ∷ []) ≡ p ∷ ps
but_last-last_or p [] = refl
but_last-last_or p (q ∷ qs) = ap (λ rest. p ∷ rest) (but_last-last_or q qs)

spelled : Text → List Text → Text → Text
unfolding splitext
spelled p ps between =
    let halves = splitext (last_or p ps) in
    folder (but_last p ps) ++ (halves.0 ++ (between ++ halves.1))

beside-spelled :
    (p : Text) (ps : List Text) (between : Text) → beside (p ∷ ps) between ≡ spelled p ps between
unfolding spelled
beside-spelled p ps between = join-folder (but_last p ps) _

spelled-nil : (p : Text) (ps : List Text) → spelled p ps [] ≡ join (p ∷ ps)
unfolding spelled
spelled-nil p ps =
    ap (λ name. folder (but_last p ps) ++ name) (splitext-append (last_or p ps))
    ∙ sym (join-folder (but_last p ps) (last_or p ps))
    ∙ ap join (but_last-last_or p ps)

spelled-injective :
    (p : Text) (ps : List Text) (a b : Text) → spelled p ps a ≡ spelled p ps b → a ≡ b
unfolding spelled
spelled-injective p ps a b h =
    let halves = splitext (last_or p ps) in
    append_cancel_right a b halves.1
      (append_cancel_left halves.0 _ _ (append_cancel_left (folder (but_last p ps)) _ _ h))

-- The text of a candidate, whichever it is, if the path is in normal form.
candidate_text :
    (rel_path stamp sha1_hex p : Text) (ps : List Text)
    → components rel_path ≡ p ∷ ps
    → join (p ∷ ps) ≡ rel_path
    → (n : ℕ)
    → candidate_paths rel_path stamp sha1_hex n
      ≡ spelled p ps (tag stamp (take sha1_prefix_chars sha1_hex) n)
unfolding candidate_paths tag
candidate_text rel stamp sha p ps c j zero = sym (spelled-nil p ps ∙ j)
candidate_text rel stamp sha p ps c j (suc n) =
    ap (λ parts. beside parts (tag stamp (take sha1_prefix_chars sha) (suc n))) c
    ∙ beside-spelled p ps _

keep-IsSafePart :
    (ps : List Text)
    → All IsSafePart ps
    → keep (λ (part : Text). not (is_empty part || text_eq part dot)) ps ≡ ps
keep-IsSafePart [] h = refl
keep-IsSafePart ([] ∷ ps) h = absurd (h.0.0 refl)
keep-IsSafePart ((c ∷ p) ∷ ps) h =
    ground (arith, h.0.1, text_eq_iff (c ∷ p) dot, keep-IsSafePart ps h.1)

by_parts :
    (rel_path stamp sha1_hex : Text) (parts : List Text)
    → parts ≢ []
    → components rel_path ≡ parts
    → join parts ≡ rel_path
    → (m n : ℕ)
    → candidate_paths rel_path stamp sha1_hex m ≡ candidate_paths rel_path stamp sha1_hex n
    → m ≡ n
by_parts rel stamp sha [] ne c j m n h = absurd (ne refl)
by_parts rel stamp sha (p ∷ ps) ne c j m n h =
    tag-injective stamp (take sha1_prefix_chars sha) m n (
      spelled-injective p ps _ _ (
        sym (candidate_text rel stamp sha p ps c j m)
        ∙ h
        ∙ candidate_text rel stamp sha p ps c j n))

-- No two candidates of a path are the same name, whatever stamp and hash it has, if all components
-- of the path are names of entries.
pub candidate_paths-injective :
    (rel_path stamp sha1_hex : Text)
    → All IsSafePart (split rel_path)
    → (m n : ℕ)
    → candidate_paths rel_path stamp sha1_hex m ≡ candidate_paths rel_path stamp sha1_hex n
    → m ≡ n
candidate_paths-injective rel stamp sha h =
    by_parts rel stamp sha (split rel) (split-ne-nil rel) (keep-IsSafePart (split rel) h)
      (join-split rel)

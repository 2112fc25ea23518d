-- ===== src/Fingerprint/Windows.antt =====
-- core/fingerprint.py: where the windows lie.
use mediaferry.Fingerprint.{window_bytes, window_count, rounded, range, distinct, window_offsets}
use mediaferry.Base.Sort.{sort_by, place}
use mediaferry.Base.{
  ℕ, zero, suc, ◌+◌, ◌-◌, ◌*◌, ◌/◌, ◌≤◌, ◌<◌, ◌≡◌, refl, ap, ◌∙◌, false, some, List, [], ◌∷◌, map,
  arith, leb, ◌==◌, length, get_elem?, any, All,
}

-- Each window ends before the next begins.
abbrev pub Spaced : List ℕ → Type 0
Spaced [] = Unit
Spaced (x ∷ []) = Unit
Spaced (x ∷ y ∷ ys) = (x + window_bytes ≤ y) × Spaced (y ∷ ys)

Spaced-above : (x y : ℕ) (ys : List ℕ) → x < y → Spaced (y ∷ ys) → All (λ z. x < z) (y ∷ ys)
Spaced-above x y [] l h = (l, tt)
Spaced-above x y (z ∷ zs) l h = (l, Spaced-above x z zs (omega arith) h.1)

above-absent : (x : ℕ) (ys : List ℕ) → All (λ z. x < z) ys → any (λ (y : ℕ). y == x) ys ≡ false
above-absent x [] h = refl
above-absent x (y ∷ ys) h = ground (arith, above-absent x ys h.1)

absent : (x : ℕ) (xs : List ℕ) → Spaced (x ∷ xs) → any (λ (y : ℕ). y == x) xs ≡ false
absent x [] h = refl
absent x (y ∷ ys) h = above-absent x (y ∷ ys) (Spaced-above x y ys (omega arith) h.1)

Spaced-tail : (x : ℕ) (xs : List ℕ) → Spaced (x ∷ xs) → Spaced xs
Spaced-tail x [] h = tt
Spaced-tail x (y ∷ ys) h = h.1

distinct-Spaced : (xs : List ℕ) → Spaced xs → distinct xs ≡ xs
unfolding distinct
distinct-Spaced [] h = refl
distinct-Spaced (x ∷ xs) h =
    rw (absent x xs h) (ap (λ ys. x ∷ ys) (distinct-Spaced xs (Spaced-tail x xs h)))

place-first : (x : ℕ) (xs : List ℕ) → Spaced (x ∷ xs) → place (λ (y : ℕ). y) x xs ≡ x ∷ xs
unfolding place
place-first x [] h = refl
place-first x (y ∷ ys) h = ground (arith, h.0)

sort_by-Spaced : (xs : List ℕ) → Spaced xs → sort_by (λ (y : ℕ). y) xs ≡ xs
unfolding sort_by
sort_by-Spaced [] h = refl
sort_by-Spaced (x ∷ xs) h =
    ap (place (λ (y : ℕ). y) x) (sort_by-Spaced xs (Spaced-tail x xs h)) ∙ place-first x xs h

far :
    (t span : ℕ)
    → 15 * window_bytes ≤ span
    → (u : ℕ) → u ≡ t + span
    → (2 * t + 15) / 30 + window_bytes ≤ (2 * u + 15) / 30
far t span h u e = omega arith

step_apart :
    (span i : ℕ) → 15 * window_bytes ≤ span → rounded span i + window_bytes ≤ rounded span (suc i)
step_apart span i h = far (i * span) span h (suc i * span) (omega arith)

rounded-Spaced : (span i n : ℕ) → 15 * window_bytes ≤ span → Spaced (map (rounded span) (range i n))
rounded-Spaced span i zero h = tt
rounded-Spaced span i (suc zero) h = tt
rounded-Spaced span i (suc (suc n)) h = (step_apart span i h, rounded-Spaced span (suc i) (suc n) h)

large :
    (size : ℕ) → window_bytes * window_count < size → leb size (window_bytes * window_count) ≡ false
large size h = ground arith

offsets_of :
    (size : ℕ) (xs : List ℕ)
    → window_bytes * window_count < size
    → map (rounded (size - window_bytes)) (range 0 window_count) ≡ xs
    → Spaced xs
    → window_offsets size ≡ xs
unfolding window_offsets
offsets_of size xs h e s = rw (large size h) (
    ap (λ ys. sort_by (λ (y : ℕ). y) (distinct ys)) e
    ∙ ap (sort_by (λ (y : ℕ). y)) (distinct-Spaced xs s)
    ∙ sort_by-Spaced xs s)

-- The windows of a file of more than 1 MiB: sixteen of them, disjoint, the first at the start of the
-- file, the last at its end.
pub window_offsets-Spaced :
    (size : ℕ)
    → window_bytes * window_count < size
    → Spaced (window_offsets size)
      × (length (window_offsets size) ≡ window_count)
      × (get_elem? (window_offsets size) 0 ≡ some 0)
      × (get_elem? (window_offsets size) 15 ≡ some (size - window_bytes))
window_offsets-Spaced size h =
    let xs : List ℕ = map (rounded (size - window_bytes)) (range 0 window_count) in
    let s : Spaced xs = rounded-Spaced (size - window_bytes) 0 window_count (omega arith) in
    rw (offsets_of size xs h refl s) (s, refl, ap some (omega arith), ap some (omega arith))

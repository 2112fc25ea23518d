-- ===== src/Base/Sort.antt =====
-- Python's `sorted(xs, key=...)` for a key that is a number: the order is stable.
use mathlib.Core.List.{Perm}
use mathlib.Core.List.Perm
use mediaferry.Base.Tests.{leb, if◌then◌else◌, Bool-cases}
use mediaferry.Base.Lists.{All}
use Prim.Native.Nat.{ℕ, ◌≤◌}
use mathlib.Core.Logic.{inl, inr}
use mathlib.Core.List.{List, [], ◌∷◌}
use native.Mathlib.Omega.{arith}

module _ {ℓ} {A : Type ℓ} (key : A → ℕ) where
  unfoldable pub place : A → List A → List A
  place x [] = x ∷ []
  place x (y ∷ ys) = let rest = place x ys in if leb (key x) (key y) then x ∷ y ∷ ys else y ∷ rest

  unfoldable pub sort_by : List A → List A
  unfolding place
  sort_by [] = []
  sort_by (x ∷ xs) = place x (sort_by xs)

  place-perm : (x : A) (ys : List A) → Perm (place x ys) (x ∷ ys)
  unfolding place
  place-perm x [] = Perm.refl (x ∷ [])
  place-perm x (y ∷ ys) = elim (Bool-cases (leb (key x) (key y))) [
    | inl e ↦ rw e (Perm.refl (x ∷ y ∷ ys))
    | inr e ↦ rw e (Perm.trans (Perm.cons y (place-perm x ys)) (Perm.swap x y ys))
  ]

  pub sort_by-perm : (xs : List A) → Perm (sort_by xs) xs
  unfolding sort_by
  sort_by-perm [] = Perm.refl []
  sort_by-perm (x ∷ xs) = Perm.trans (place-perm x (sort_by xs)) (Perm.cons x (sort_by-perm xs))

  abbrev pub IsSorted : List A → Type 0
  IsSorted [] = Unit
  IsSorted (x ∷ xs) = All (λ y. key x ≤ key y) xs × IsSorted xs

  place-All :
      (m : ℕ) (x : A) (ys : List A)
      → m ≤ key x
      → All (λ y. m ≤ key y) ys
      → All (λ y. m ≤ key y) (place x ys)
  unfolding place
  place-All m x [] h a = (h, tt)
  place-All m x (y ∷ ys) h a = elim (Bool-cases (leb (key x) (key y))) [
    | inl e ↦ rw e (h, a)
    | inr e ↦ rw e (a.0, place-All m x ys h a.1)
  ]

  All-le : (m n : ℕ) (ys : List A) → m ≤ n → All (λ y. n ≤ key y) ys → All (λ y. m ≤ key y) ys
  All-le m n [] h a = tt
  All-le m n (y ∷ ys) h a = (omega arith, All-le m n ys h a.1)

  place-IsSorted : (x : A) (ys : List A) → IsSorted ys → IsSorted (place x ys)
  unfolding place
  place-IsSorted x [] s = (tt, tt)
  place-IsSorted x (y ∷ ys) s = elim (Bool-cases (leb (key x) (key y))) [
    | inl e ↦ rw e ((ground arith, All-le (key x) (key y) ys (ground arith) s.0), s)
    | inr e ↦ rw e (place-All (key y) x ys (ground arith) s.0, place-IsSorted x ys s.1)
  ]

  pub sort_by-IsSorted : (xs : List A) → IsSorted (sort_by xs)
  unfolding sort_by
  sort_by-IsSorted [] = tt
  sort_by-IsSorted (x ∷ xs) = place-IsSorted x (sort_by xs) (sort_by-IsSorted xs)

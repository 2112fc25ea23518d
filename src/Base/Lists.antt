-- ===== src/Base/Lists.antt =====
-- Lists measured and indexed by native numbers, under the library's names.
use Prim.Native.Nat.{ℕ, zero, suc, ◌+◌}
use mathlib.Core.Path.{◌≡◌}
use mathlib.Core.Bool.{Bool, true, false, ◌&&◌, ◌||◌}
use mathlib.Core.List.{List, [], ◌∷◌, ◌++◌}
use mathlib.Core.Option.{Option, none, some}
use mathlib.Core.Logic.{◌≢◌, ◌⊎◌}
use native.Mathlib.Omega.{arith}
use mediaferry.Base.Tests.{if◌then◌else◌}

module _ {ℓ} {A : Type ℓ} where
  abbrev pub length : List A → ℕ
  length [] = 0
  length (x ∷ xs) = suc (length xs)

  abbrev pub get_elem? : List A → ℕ → Option A
  get_elem? [] i = none
  get_elem? (x ∷ xs) zero = some x
  get_elem? (x ∷ xs) (suc i) = get_elem? xs i

  pub length-append : (xs ys : List A) → length (xs ++ ys) ≡ length xs + length ys
  length-append [] ys = omega arith
  length-append (x ∷ xs) ys = omega (arith, length-append xs ys)

  abbrev pub any : (A → Bool) → List A → Bool
  any p [] = false
  any p (x ∷ xs) = p x || any p xs

  abbrev pub all : (A → Bool) → List A → Bool
  all p [] = true
  all p (x ∷ xs) = p x && all p xs

  -- The comprehension `[x for x in xs if p(x)]`.
  abbrev pub keep : (A → Bool) → List A → List A
  keep p [] = []
  keep p (x ∷ xs) = let rest = keep p xs in if p x then x ∷ rest else rest

  abbrev pub All {κ} : (A → Type κ) → List A → Type κ
  All P [] = Unit
  All P (x ∷ xs) = P x × All P xs

module _ {ℓ κ μ} {A : Type ℓ} {P : A → Type κ} {Q : A → Type μ} where
  pub All-imp : (xs : List A) → ((x : A) → P x → Q x) → All P xs → All Q xs
  All-imp [] f h = tt
  All-imp (x ∷ xs) f h = (f x h.0, All-imp xs f h.1)

module _ {ℓ} {A : Type ℓ} where
  pub keep-append : (p : A → Bool) (xs ys : List A) → keep p (xs ++ ys) ≡ keep p xs ++ keep p ys
  keep-append p [] ys = ground arith
  keep-append p (x ∷ xs) ys = ground (arith, keep-append p xs ys)

module _ {ℓ κ} {A : Type ℓ} (P : A → Type κ) where
  pub All-append : (xs ys : List A) → All P xs → All P ys → All P (xs ++ ys)
  All-append [] ys hx hy = hy
  All-append (x ∷ xs) ys hx hy = (hx.0, All-append xs ys hx.1 hy)

module _ {ℓ} {A : Type ℓ} where
  -- Some element satisfies `P`, which is given with it.
  abbrev pub Some : (A → Type 0) → List A → Type 0
  Some P [] = ⊥
  Some P (x ∷ xs) = P x ⊎ Some P xs

module _ {ℓ κ} {A : Type ℓ} {B : Type κ} where
  -- No two elements have the same image.
  abbrev pub Apart : (A → B) → List A → Type κ
  Apart f [] = Unit
  Apart f (x ∷ xs) = All (λ y. f x ≢ f y) xs × Apart f xs

  pub Apart-append :
      (f : A → B) (xs : List A) (y : A)
      → Apart f xs
      → All (λ x. f x ≢ f y) xs
      → Apart f (xs ++ y ∷ [])
  Apart-append f [] y h a = (tt, tt)
  Apart-append f (x ∷ xs) y h a =
      (All-append (λ z. f x ≢ f z) xs (y ∷ []) h.0 (a.0, tt), Apart-append f xs y h.1 a.1)

module _ {ℓ} {A : Type ℓ} (p : A → Bool) where
  pub any-false : (xs : List A) → any p xs ≡ false → All (λ x. p x ≡ false) xs
  any-false [] h = tt
  any-false (x ∷ xs) h = (ground arith, any-false xs (ground arith))

  pub false-any : (xs : List A) → All (λ x. p x ≡ false) xs → any p xs ≡ false
  false-any [] h = ground arith
  false-any (x ∷ xs) h = ground (arith, false-any xs h.1)

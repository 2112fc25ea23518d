-- ===== src/Sql.antt =====
-- The parts of SQLite that the repositories rely on: a table is a list of rows with a text key,
-- `UPDATE ... WHERE` rewrites every row that satisfies its condition, and `rowcount` is how many.
use mathlib.Core.Bool.{false≢true}
use native.Mathlib.Nat.{le_trans}
use mediaferry.Base.{
  ℕ, ◌+◌, String, ◌≡◌, refl, Bool, true, false, ◌&&◌, Option, none, some, List, [], ◌∷◌, ◌++◌,
  str_eq, eq_iff, if◌then◌else◌, arith, All, Option-cases, Bool-cases, inl, inr, ltb, ◌≤◌, All-imp,
  sym, ◌∙◌,
}

module _ {ℓ} {R : Type ℓ} where
  -- `UPDATE t SET f WHERE p`
  unfoldable pub update : (R → Bool) → (R → R) → List R → List R
  update p f [] = []
  update p f (r ∷ rows) = (if p r then f r else r) ∷ update p f rows

  -- The `rowcount` of that statement.
  unfoldable pub rowcount : (R → Bool) → List R → ℕ
  rowcount p [] = 0
  rowcount p (r ∷ rows) = (if p r then 1 else 0) + rowcount p rows

  -- `SELECT * FROM t WHERE id = ?`
  unfoldable pub get : (R → String) → String → List R → Option R
  get key i [] = none
  get key i (r ∷ rows) = if str_eq (key r) i then some r else get key i rows

  abbrev pub on_row : (R → R) → Option R → Option R
  on_row f none = none
  on_row f (some r) = some (f r)

  abbrev pub hits : (R → Bool) → Option R → ℕ
  hits p none = 0
  hits p (some r) = if p r then 1 else 0

  abbrev pub or_else : Option R → Option R → Option R
  or_else none o = o
  or_else (some r) o = some r

  -- The primary key: no two rows share one.
  abbrev pub IsKeyed : (R → String) → List R → Type ℓ
  IsKeyed key [] = Unit
  IsKeyed key (r ∷ rows) = (get key (key r) rows ≡ none) × IsKeyed key rows

module _ {ℓ} {R : Type ℓ} (key : R → String) where
  pub get-key : (i : String) (rows : List R) (r : R) → get key i rows ≡ some r → key r ≡ i
  unfolding get
  get-key i [] r h = cc
  get-key i (x ∷ rows) r h = ground (arith, eq_iff (key x) i, get-key i rows r)

  pub get-append :
      (i : String) (xs ys : List R) → get key i (xs ++ ys) ≡ or_else (get key i xs) (get key i ys)
  unfolding get
  get-append i [] ys = refl
  get-append i (x ∷ xs) ys = ground (arith, get-append i xs ys)

  module _ (p : R → Bool) (f : R → R) (keeps : (r : R) → key (f r) ≡ key r) where
    -- An update that keeps the key acts on the row of each key alone.
    pub get-update :
        (i : String) (rows : List R)
        → get key i (update p f rows) ≡ on_row (λ r. if p r then f r else r) (get key i rows)
    unfolding get update
    get-update i [] = refl
    get-update i (x ∷ rows) = ground (arith, get-update i rows, keeps x)

    get-none-update :
        (i : String) (rows : List R) → get key i rows ≡ none → get key i (update p f rows) ≡ none
    get-none-update i rows h = ground (arith, get-update i rows)

    pub update-IsKeyed : (rows : List R) → IsKeyed key rows → IsKeyed key (update p f rows)
    unfolding update
    update-IsKeyed [] h = tt
    update-IsKeyed (x ∷ rows) h =
        (ground (arith, keeps x, get-none-update (key x) rows), update-IsKeyed rows h.1)

  none_hit :
      (i : String) (q : R → Bool) (rows : List R)
      → get key i rows ≡ none
      → rowcount (λ r. str_eq (key r) i && q r) rows ≡ 0
  unfolding get rowcount
  none_hit i q [] h = refl
  none_hit i q (x ∷ rows) h = ground (arith, none_hit i q rows)

  -- A condition on the key hits the row of that key and no other.
  pub rowcount-key :
      (i : String) (q : R → Bool) (rows : List R)
      → IsKeyed key rows
      → rowcount (λ r. str_eq (key r) i && q r) rows ≡ hits q (get key i rows)
  unfolding get rowcount
  rowcount-key i q [] h = refl
  rowcount-key i q (x ∷ rows) h =
      ground (arith, eq_iff (key x) i, none_hit i q rows, rowcount-key i q rows h.1)

  pub append-IsKeyed :
      (rows : List R) (r : R)
      → IsKeyed key rows
      → get key (key r) rows ≡ none
      → IsKeyed key (rows ++ r ∷ [])
  unfolding get
  append-IsKeyed [] r h n = (refl, tt)
  append-IsKeyed (x ∷ rows) r h n = (
    ground
        (arith, get-append (key x) rows (r ∷ []), eq_iff (key x) (key r), eq_iff (key r) (key x)),
    append-IsKeyed rows r h.1 (ground (arith, n)),
  )

-- Among the rows that satisfy `p`, the first of least `rank`: `ORDER BY rank LIMIT 1`.
-- SQLite leaves the order of ties open; the model takes the first.
module _ {ℓ} {R : Type ℓ} (rank : R → ℕ) where
  earlier : R → Option R → R
  earlier r none = r
  earlier r (some q) = if ltb (rank q) (rank r) then q else r

  unfoldable pub first_by : (R → Bool) → List R → Option R
  unfolding earlier
  first_by p [] = none
  first_by p (r ∷ rows) = let rest = first_by p rows in if p r then some (earlier r rest) else rest

  pub first_by-holds :
      (p : R → Bool) (rows : List R) (r : R) → first_by p rows ≡ some r → p r ≡ true
  unfolding first_by
  first_by-holds p [] r h = cc
  first_by-holds p (x ∷ rows) r h = elim (Option-cases (first_by p rows)) [
    | inl e ↦ ground (arith, e)
    | inr (q, e) ↦ ground (arith, e, first_by-holds p rows q e)
  ]

  pub first_by-none :
      (p : R → Bool) (rows : List R) → first_by p rows ≡ none → All (λ x. p x ≡ false) rows
  unfolding first_by
  first_by-none p [] h = tt
  first_by-none p (x ∷ rows) h = (ground arith, first_by-none p rows (ground arith))

  -- No other row that satisfies `p` comes before it.
  pub first_by-le :
      (p : R → Bool) (rows : List R) (r : R)
      → first_by p rows ≡ some r
      → All (λ x. p x ≡ true → rank r ≤ rank x) rows
  unfolding first_by
  first_by-le p [] r h = tt
  first_by-le p (x ∷ rows) r h = elim (Option-cases (first_by p rows)) [
    | inl e ↦ (
      ground (arith, e),
      All-imp rows (λ y n q. absurd (false≢true (sym n ∙ q))) (first_by-none p rows e),
    )
    | inr (q, e) ↦ (
      ground (arith, e),
      All-imp rows (λ y n t. le_trans (closer q e) (n t)) (first_by-le p rows q e),
    )
  ]
    where
      closer : (q : R) → first_by p rows ≡ some q → rank r ≤ rank q
      closer q e = ground (arith, e)

  pub first_by-get :
      (key : R → String) (p : R → Bool) (rows : List R) (r : R)
      → IsKeyed key rows
      → first_by p rows ≡ some r
      → get key (key r) rows ≡ some r
  unfolding first_by get
  first_by-get key p [] r k h = cc
  first_by-get key p (x ∷ rows) r k h = elim (Option-cases (first_by p rows)) [
    | inl e ↦ ground (arith, e, eq_iff (key x) (key r))
    | inr (q, e) ↦
        ground (
          arith,
          e,
          eq_iff (key x) (key r),
          eq_iff (key x) (key q),
          first_by-get key p rows q k.1 e,
        )
  ]

module _ {ℓ κ} {R : Type ℓ} {P : R → Type κ} (p : R → Bool) (f : R → R) where
  pub update-All :
      (rows : List R)
      → ((r : R) → p r ≡ true → P r → P (f r))
      → All P rows
      → All P (update p f rows)
  unfolding update
  update-All [] keeps h = tt
  update-All (r ∷ rows) keeps h = elim (Bool-cases (p r)) [
    | inl e ↦ (rw e (keeps r e h.0), update-All rows keeps h.1)
    | inr e ↦ (rw e h.0, update-All rows keeps h.1)
  ]

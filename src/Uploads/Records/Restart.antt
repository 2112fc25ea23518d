-- ===== src/Uploads/Records/Restart.antt =====
-- app/src/mediaferry/db/uploads.py: what `release_interrupted` leaves when the process starts.
use mediaferry.Base.{
  String, ◌≡◌, refl, inl, inr, true, false, Option, none, some, List, [], ◌∷◌, arith, eq_refl,
  eq_iff, Bool-cases, all, All,
}
use mediaferry.Sql.{update, update-All}
use mediaferry.Uploads.Stacking.{is_none, same_id}
use mediaferry.Uploads.Records.{
  needs_recheck, Row, done, is_active, fits, passes, write, unclaim, move_to,
}
use mediaferry.Uploads.Records.Moves.{release_interrupted}

-- What the database admits.
abbrev pub IsFit : Row → Type 0
IsFit r = fits r ≡ true

-- Nobody owns the record, and it is in no state of being sent.
abbrev pub IsIdle : Row → Type 0
IsIdle r = (is_active r.state ≡ false) × (r.claim_job_id ≡ none) × (r.claim_token ≡ none)

abbrev reset : Row → Row
reset r = unclaim (move_to needs_recheck r)

pub same_id-eq : (a b : Option String) → same_id a b ≡ true → a ≡ b
same_id-eq none none h = refl
same_id-eq none (some y) h = absurd (ground (arith, h))
same_id-eq (some x) none h = absurd (ground (arith, h))
same_id-eq (some x) (some y) h = ground (arith, h, eq_iff x y)

pub same_id_refl : (o : Option String) → same_id o o ≡ true
same_id_refl none = refl
same_id_refl (some s) = eq_refl s

fits-reset : (r : Row) → IsFit r → IsFit (reset r)
fits-reset r h = ground (arith, h)

passes-reset : (r : Row) → IsFit r → passes (λ x. is_active x.state) reset r ≡ true
passes-reset r h = ground (arith, fits-reset r h, same_id_refl r.remote_asset_id)

all_pass :
    (rows : List Row) → All IsFit rows → all (passes (λ x. is_active x.state) reset) rows ≡ true
all_pass [] h = refl
all_pass (r ∷ rows) h = ground (arith, passes-reset r h.0, all_pass rows h.1)

no_job : (o : Option String) → is_none o ≡ true → o ≡ none
no_job none h = refl
no_job (some s) h = absurd (ground (arith, h))

idle : (r : Row) → IsFit r → is_active r.state ≡ false → IsIdle r
idle r h e =
    (e, no_job r.claim_job_id (ground (arith, h, e)), no_job r.claim_token (ground (arith, h, e)))

all-IsIdle :
    (rows : List Row) → All IsFit rows → All IsIdle (update (λ x. is_active x.state) reset rows)
unfolding update
all-IsIdle [] h = tt
all-IsIdle (r ∷ rows) h = elim (Bool-cases (is_active r.state)) [
  | inl e ↦ rw e ((refl, refl, refl), all-IsIdle rows h.1)
  | inr e ↦ rw e (idle r h.0 e, all-IsIdle rows h.1)
]

all-IsFit :
    (rows : List Row) → All IsFit rows → All IsFit (update (λ x. is_active x.state) reset rows)
all-IsFit rows h = update-All (λ x. is_active x.state) reset rows (λ r e q. fits-reset r q) h

-- On a table that fits its checks, `release_interrupted` goes through, breaks none of them, and leaves
-- no record that is being sent or that anyone owns.
pub release_interrupted-IsIdle :
    (rows : List Row)
    → All IsFit rows
    → (rows' : List Row) × (release_interrupted rows ≡ done rows')
      × All IsFit rows'
      × All IsIdle rows'
unfolding release_interrupted write
release_interrupted-IsIdle rows h = (
  update (λ x. is_active x.state) reset rows,
  rw (all_pass rows h) refl,
  all-IsFit rows h,
  all-IsIdle rows h,
)

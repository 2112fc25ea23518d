-- ===== src/Uploads/Decisions.antt =====
-- app/src/mediaferry/core/uploads/decisions.py: what may be changed on an asset of the server.
-- The reasons of a plan are left out: they are shown and never read.
use mediaferry.Base.{
  String, ◌≡◌, refl, ap, ◌≢◌, ◌↔◌, inl, inr, Bool, true, false, not, ◌||◌, Option, none, some, List,
  [], arith, str_eq, eq_iff, if◌then◌else◌, Bool-cases,
}
use mediaferry.Base.Int.{ℤ, ◌-ℤ◌, eq_ℤ, eq_ℤ_iff}
use mediaferry.Profile.{ImmichRule}

pub record DatetimePlan : Type 0 where
  pub proposed : Option String
  pub automatic : Bool

unfoldable pub tags_to_apply : ImmichRule → String → List String
tags_to_apply rule origin =
    if str_eq origin "created_by_us" || rule.tag_pre_existing then rule.tags else []

unfoldable pub origin_after_upload : Option String → String → String
origin_after_upload none upload_status =
    if str_eq upload_status "created" then "created_by_us" else "unknown"
origin_after_upload (some first) upload_status =
    if str_eq upload_status "created"
    then "created_by_us"
    else if str_eq first "reject"
    then "pre_existing"
    else "unknown"

unfoldable pub datetime_plan : ImmichRule → String → String → String → DatetimePlan
datetime_plan rule policy captured_at origin =
    if not rule.fix_datetime_after_upload
    then record { proposed = none; automatic = false }
    else if str_eq policy "none"
    then record { proposed = none; automatic = false }
    else if str_eq origin "created_by_us"
    then record { proposed = some captured_at; automatic = true }
    else record { proposed = some captured_at; automatic = false }

-- What `datetime.fromisoformat` reads: microseconds on the wall clock, and the offset if the text
-- has one.
pub record Stamp : Type 0 where
  pub wall : ℤ
  pub offset : Option ℤ

-- A reading with an offset, as the instant that it is compared by.
abbrev pub aware : Option Stamp → Option ℤ
aware none = none
aware (some s) = elim s.offset [ none ↦ none | some o ↦ some (s.wall -ℤ o) ]

-- `left_at is not None and right_at is not None and left_at == right_at`
abbrev pub same : Option ℤ → Option ℤ → Bool
same (some a) (some b) = eq_ℤ a b
same _ _ = false

module _ (fromisoformat : String → Option Stamp) where
  unfoldable pub instant : Option String → Option ℤ
  instant none = none
  instant (some value) = aware (fromisoformat value)

  unfoldable pub same_instant : Option String → Option String → Bool
  unfolding instant
  same_instant left right = same (instant left) (instant right)

created_by_us_iff :
    (first : Option String) (status : String)
    → (origin_after_upload first status ≡ "created_by_us") ↔ (status ≡ "created")
unfolding origin_after_upload
created_by_us_iff none status = elim (Bool-cases (str_eq status "created")) [
  | inl e ↦ rw e (ground (arith, e, eq_iff status "created"))
  | inr e ↦ rw e (ground (arith, e, eq_iff status "created", eq_iff "unknown" "created_by_us"))
]
created_by_us_iff (some f) status = elim (Bool-cases (str_eq status "created")) [
  | inl e ↦ rw e (ground (arith, e, eq_iff status "created"))
  | inr e ↦ elim (Bool-cases (str_eq f "reject")) [
    | inl d ↦
        rw (e, d)
          (ground (arith, e, eq_iff status "created", eq_iff "pre_existing" "created_by_us"))
    | inr d ↦
        rw (e, d) (ground (arith, e, eq_iff status "created", eq_iff "unknown" "created_by_us"))
  ]
]

-- The date of an asset is written without being asked for exactly if the upload created the asset,
-- the profile corrects dates and the zone was resolved; an asset that the upload did not create
-- gets no tags unless the profile tags what was there before.
pub change_needs_creation :
    (rule : ImmichRule) (policy captured_at : String) (first : Option String) (status : String)
    → let origin = origin_after_upload first status in
      ((datetime_plan rule policy captured_at origin).automatic ≡ true
        ↔ (rule.fix_datetime_after_upload ≡ true) × (policy ≢ "none") × (status ≡ "created"))
      × (status ≢ "created" → rule.tag_pre_existing ≡ false → tags_to_apply rule origin ≡ [])
unfolding datetime_plan tags_to_apply
change_needs_creation rule policy captured_at first status = ground (
  arith,
  eq_iff status "created",
  eq_iff policy "none",
  created_by_us_iff first status,
  eq_iff (origin_after_upload first status) "created_by_us",
)

same_iff : (a b : Option ℤ) → (same a b ≡ true) ↔ ((a ≢ none) × (a ≡ b))
same_iff none b = ((λ h. absurd (ground arith)), (λ h. absurd (h.0 refl)))
same_iff (some a) none = ((λ h. absurd (ground arith)), (λ h. absurd (ground (arith, h.1))))
same_iff (some a) (some b) = (
  (λ h. ((λ e. ground (arith, e)), ap some ((eq_ℤ_iff a b).0 h))),
  (λ h. (eq_ℤ_iff a b).1 (ground (arith, h.1))),
)

-- Two dates are the same exactly if both can be read, both have an offset and their instants are
-- equal.
same_instant_iff :
    (fromisoformat : String → Option Stamp) (left right : Option String)
    → (same_instant fromisoformat left right ≡ true) ↔ (
        (instant fromisoformat left ≢ none)
        × (instant fromisoformat left ≡ instant fromisoformat right))
unfolding same_instant
same_instant_iff fromisoformat left right =
    same_iff (instant fromisoformat left) (instant fromisoformat right)

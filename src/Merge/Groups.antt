-- ===== src/Merge/Groups.antt =====
-- app/src/mediaferry/db/merges.py: the states of a merge group. A call that raises rolls back, and gives
-- the groups that it found. `updated_at` is not modelled.
pub mod Life
pub mod Members
mod Tests
use mediaferry.Base.{
  ℕ, zero, suc, ◌+◌, ◌-◌, ◌*◌, ◌/◌, ◌%◌, ◌^◌, ◌≤◌, ◌<◌, min, max, String, ◌≡◌, refl, sym, ap, ◌∙◌,
  ◌≢◌, ◌↔◌, ◌⊎◌, inl, inr, Bool, true, false, not, ◌&&◌, ◌||◌, Option, none, some, List, [], ◌∷◌,
  ◌++◌, map, arith, str_eq, eq_iff, eq_refl, ltb, leb, ◌==◌, if◌then◌else◌, ltb→lt, lt→ltb, leb→le,
  ==_iff, tests, Bool-cases, Option-cases, length, get_elem?, length-append, any, all, keep, All,
  All-imp, keep-append, All-append, Some, Apart, Apart-append, any-false, false-any,
}
use mediaferry.Sql.{
  update, rowcount, get, on_row, hits, or_else, IsKeyed, get-key, get-append, get-update,
  update-IsKeyed, rowcount-key, append-IsKeyed, first_by, first_by-holds, first_by-none,
  first_by-le, first_by-get, update-All,
}

pub data Status : Type 0 where
  detected merging merged failed skipped : Status

pub record Group : Type 0 where
  pub id : String
  pub status : Status
  pub input_digest : String
  pub output_media_file_id : Option String
  pub superseded_by_id : Option String
  pub tool_version : Option String
  pub verification_json : Option String
  pub adopted_at : Option ℕ
  pub error : Option String

abbrev pub group_id : Group → String
group_id g = g.id

-- `GroupNotClaimable`.
pub data Claim : Type 0 where
  taken not_claimable : Claim

abbrev pub is_null {ℓ} : {A : Type ℓ} → Option A → Bool
is_null none = true
is_null (some a) = false

-- CLAIMABLE
abbrev pub is_claimable : Status → Bool
is_claimable detected = true
is_claimable failed = true
is_claimable _ = false

abbrev pub is_merging : Status → Bool
is_merging merging = true
is_merging _ = false

abbrev pub is_merged : Status → Bool
is_merged merged = true
is_merged _ = false

-- A guarded update of the group `i` that raises unless it hits it.
unfoldable pub change : String → (Group → Bool) → (Group → Group) → List Group → Claim × List Group
change i p f groups =
    if rowcount (λ g. str_eq g.id i && p g) groups == 1
    then (taken, update (λ g. str_eq g.id i && p g) f groups)
    else (not_claimable, groups)

abbrev pub may_merge : String → Group → Bool
may_merge expected_digest g =
    str_eq g.input_digest expected_digest && (is_null g.superseded_by_id && is_claimable g.status)

unfoldable pub claim_for_merge : String → String → List Group → Claim × List Group
unfolding change
claim_for_merge i expected_digest groups =
    change i (may_merge expected_digest) (λ g. record g { status = merging; error = none }) groups

abbrev pub is_live_merging : Group → Bool
is_live_merging g = is_merging g.status && is_null g.superseded_by_id

unfoldable pub record_verification : String → String → String → List Group → Claim × List Group
unfolding change
record_verification i json tool groups =
    change i is_live_merging
      (λ g. record g { verification_json = some json; tool_version = some tool }) groups

abbrev pub is_proved : Group → Bool
is_proved g = not (is_null g.output_media_file_id) && not (is_null g.verification_json)

unfoldable pub mark_merged : String → List Group → Claim × List Group
unfolding change
mark_merged i groups =
    change i (λ g. is_live_merging g && is_proved g)
      (λ g. record g { status = merged; error = none }) groups

-- `_transition` from `merging`, the one state that it is called for.
unfoldable pub transition : String → Status → Option String → List Group → Claim × List Group
unfolding change
transition i target error groups =
    change i is_live_merging (λ g. record g { status = target; error = error }) groups

unfoldable pub mark_failed : String → String → List Group → Claim × List Group
unfolding transition
mark_failed i error groups = transition i failed (some error) groups

unfoldable pub release : String → List Group → Claim × List Group
unfolding transition
release i groups = transition i detected none groups

abbrev pub keep_first : ℕ → Option ℕ → Option ℕ
keep_first now none = some now
keep_first now (some t) = some t

abbrev pub may_adopt : Group → Bool
may_adopt g =
    is_null g.superseded_by_id && (is_merged g.status && not (is_null g.output_media_file_id))

-- A group that has been adopted keeps its time.
unfoldable pub adopt : ℕ → String → List Group → Claim × List Group
unfolding change
adopt now i groups =
    change i may_adopt (λ g. record g { adopted_at = keep_first now g.adopted_at }) groups

-- `is_editable` is what `_assert_editable` finds in the upload records and the jobs.
unfoldable pub discard : Bool → String → List Group → Claim × List Group
unfolding change
discard is_editable i groups =
    if is_editable
    then change i (λ g. true) (λ g. record g { status = skipped }) groups
    else (not_claimable, groups)

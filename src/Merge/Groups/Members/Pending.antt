-- ===== src/Merge/Groups/Members/Pending.antt =====
-- db/merges.py: an edit takes the files of its group out of every upload.
use mediaferry.Sql.{update, get}
use mediaferry.Uploads.Records.{Row, is_active, is_claimable}
use mediaferry.Merge.Groups.Members.{
  Member, Store, Edit, edited, refused, insert_members, new_group, has_digest, with_members,
  is_editable, is_pending_of, invalidate_pending, point_at, replace_by, supersede_found, supersede,
  discard_found, discard, supersede_call, discard_call, perform,
}
use mediaferry.Merge.Groups.{Group, group_id, is_null}
use mediaferry.Base.{
  ℕ, String, ◌≡◌, refl, inl, inr, Bool, true, false, ◌&&◌, ◌||◌, Option, none, some, List, [], ◌∷◌,
  ◌++◌, arith, str_eq, eq_iff, Bool-cases, any,
}

abbrev pub is_of : String → List Member → Row → Bool
is_of i members u =
    any
      (λ (m : Member).
        str_eq m.merge_group_id i && m.active && str_eq m.media_file_id u.media_file_id)
      members

-- A valid record of a file of the group that is under way, or may get so.
abbrev pub is_sendable_of : String → List Member → Row → Bool
is_sendable_of i members u =
    is_null u.invalidated_at && (is_active u.state || is_claimable u.state) && is_of i members u

-- None is under way: the loops over members and records in the other order.
record_absent :
    (p : Row → Bool) (i : String) (u : Row) (records : List Row) (members : List Member)
    → any
        (λ (m : Member).
          str_eq m.merge_group_id i
          && m.active
          && any
              (λ (v : Row).
                str_eq v.media_file_id m.media_file_id && is_null v.invalidated_at && p v)
              (u ∷ records))
        members
      ≡ false
    → (is_null u.invalidated_at && p u && is_of i members u) ≡ false
record_absent p i u records [] h = ground arith
record_absent p i u records (m ∷ ms) h = ground (
  arith,
  h,
  eq_iff u.media_file_id m.media_file_id,
  eq_iff m.media_file_id u.media_file_id,
  record_absent p i u records ms,
)

record_tail :
    (p : Row → Bool) (i : String) (u : Row) (records : List Row) (members : List Member)
    → any
        (λ (m : Member).
          str_eq m.merge_group_id i
          && m.active
          && any
              (λ (v : Row).
                str_eq v.media_file_id m.media_file_id && is_null v.invalidated_at && p v)
              (u ∷ records))
        members
      ≡ false
    → any
        (λ (m : Member).
          str_eq m.merge_group_id i
          && m.active
          && any
              (λ (v : Row).
                str_eq v.media_file_id m.media_file_id && is_null v.invalidated_at && p v)
              records)
        members
      ≡ false
record_tail p i u records [] h = refl
record_tail p i u records (m ∷ ms) h = ground (arith, h, record_tail p i u records ms)

invalidated :
    (now : ℕ) (i reason : String) (members : List Member) (records : List Row)
    → any
        (λ (m : Member).
          str_eq m.merge_group_id i
          && m.active
          && any
              (λ (v : Row).
                str_eq v.media_file_id m.media_file_id
                && is_null v.invalidated_at
                && is_active v.state)
              records)
        members
      ≡ false
    → any (is_sendable_of i members) (
        update
          (is_pending_of i members)
          (λ u. record u { invalidated_at = some now; invalidated_reason = some reason })
          records)
      ≡ false
unfolding update
invalidated now i reason members [] h = refl
invalidated now i reason members (u ∷ records) h =
    let rest =
      invalidated now i reason members records
        (record_tail (λ v. is_active v.state) i u records members h) in
    let idle = record_absent (λ v. is_active v.state) i u records members h in
    elim (Bool-cases (is_pending_of i members u)) [
      | inl e ↦ rw e (ground (arith, rest))
      | inr e ↦ rw e (ground (arith, rest, idle, e))
    ]

-- An edit that has gone through leaves no record open for the files that the group had.
abbrev pub NoneOpen : String → Store → Edit → Type 0
NoneOpen i s (edited j s') = any (is_sendable_of i s.members) s'.records ≡ false
NoneOpen i s other = Unit

NoneOpen-with_members :
    (i j : String) (s t : Store) (failure : Edit) (groups : List Group) (o : Option (List Member))
    → NoneOpen i s failure
    → any (is_sendable_of i s.members) t.records ≡ false
    → NoneOpen i s (with_members failure j groups o t)
NoneOpen-with_members i j s t failure groups none f h = f
NoneOpen-with_members i j s t failure groups (some members) f h = h

module _ (mentions : String → String → Bool) where
  after_editable :
      (now : ℕ) (i reason : String) (s : Store)
      → is_editable mentions i s ≡ true
      → any (is_sendable_of i s.members) (invalidate_pending now i reason s).records ≡ false
  after_editable now i reason s e = invalidated now i reason s.members s.records (ground (arith, e))

  discard-NoneOpen : (now : ℕ) (i : String) (s : Store) → NoneOpen i s (discard mentions now i s)
  unfolding discard
  discard-NoneOpen now i s = by_group (get group_id i s.groups)
    where
      by_group : (o : Option Group) → NoneOpen i s (discard_found mentions o now i s)
      by_group none = tt
      by_group (some g) = elim (Bool-cases (is_editable mentions i s)) [
        | inl e ↦ rw e (after_editable now i "discarded" s e)
        | inr e ↦ rw e tt
      ]

  supersede-NoneOpen :
      (now : ℕ) (fresh i digest : String) (media_ids : List String) (s : Store)
      → NoneOpen i s (supersede mentions now fresh i media_ids digest s)
  unfolding supersede
  supersede-NoneOpen now fresh i digest media_ids s = by_group (get group_id i s.groups)
    where
      t : Store
      t = point_at i fresh (invalidate_pending now i "superseded" s)

      by_digest :
          (b : Bool)
          → has_digest digest t.groups ≡ b
          → is_editable mentions i s ≡ true
          → NoneOpen i s (replace_by fresh media_ids digest t)
      by_digest true e ed = rw e tt
      by_digest false e ed = rw e (
          NoneOpen-with_members i fresh s t refused (t.groups ++ (new_group fresh digest ∷ []))
            (insert_members fresh 0 media_ids t.members) tt
            (after_editable now i "superseded" s ed))

      by_group :
          (o : Option Group)
          → NoneOpen i s (supersede_found mentions o now fresh i media_ids digest s)
      by_group none = tt
      by_group (some g) = elim (Bool-cases (is_editable mentions i s)) [
        | inl e ↦ elim (Bool-cases (is_null g.superseded_by_id)) [
          | inl l ↦ rw (e, l) (by_digest (has_digest digest t.groups) refl e)
          | inr l ↦ rw (e, l) tt
        ]
        | inr e ↦ rw e tt
      ]

-- If a group is discarded or replaced, no upload record of the files that were its active members is
-- valid and under way, or valid and waiting to be sent, afterwards.
pub perform-NoneOpen :
    (mentions : String → String → Bool) (now : ℕ) (fresh i digest : String)
    (media_ids : List String) (s : Store)
    → NoneOpen i s (perform mentions (discard_call now i) s)
      × NoneOpen i s (perform mentions (supersede_call now fresh i media_ids digest) s)
unfolding perform
perform-NoneOpen mentions now fresh i digest media_ids s =
    (discard-NoneOpen mentions now i s, supersede-NoneOpen mentions now fresh i digest media_ids s)

-- ===== src/Merge/Groups/Members/Exclusive.antt =====
-- db/merges.py: a file is in one live group at most, whatever is made, replaced, discarded or
-- forgotten.
use mathlib.Core.Path.{subst}
use mathlib.Core.Option.{some-injective}
use mediaferry.Sql.{update, get, on_row, get-key, get-append, get-update}
use mediaferry.Merge.Groups.Members.{
  Member, Store, Edit, refused, integrity, left_by, is_skipped, is_taken, new_member,
  insert_members, new_group, has_digest, with_members, save_detected, knows_first, create_manual,
  is_editable, invalidate_pending, deactivate, point_at, replace_by, skip_group, supersede_found,
  supersede, discard_found, discard, delete_found, delete_discarded, Call, save_call, manual_call,
  supersede_call, discard_call, delete_call, perform,
}
use mediaferry.Merge.Groups.{skipped, Group, group_id, is_null}
use mediaferry.Base.{
  ℕ, suc, String, ◌≡◌, refl, sym, ap, ◌∙◌, inl, inr, Bool, true, false, not, ◌&&◌, ◌||◌, Option,
  none, some, List, [], ◌∷◌, ◌++◌, arith, str_eq, eq_iff, eq_refl, if◌then◌else◌, Bool-cases,
  Option-cases, any, keep, All,
}

abbrev pub is_live : Option Group → Bool
is_live none = false
is_live (some g) = is_null g.superseded_by_id && not (is_skipped g.status)

-- No two active members are of one file.
abbrev pub OneActive : List Member → Type 0
OneActive [] = Unit
OneActive (m ∷ ms) = (m.active ≡ true → is_taken m.media_file_id ms ≡ false) × OneActive ms

-- The active members are those of the live groups.
abbrev pub Follows : List Group → List Member → Type 0
Follows groups members =
    All (λ m. m.active ≡ is_live (get group_id m.merge_group_id groups)) members

abbrev pub IsExclusive : Store → Type 0
IsExclusive s = OneActive s.members × Follows s.groups s.members

-- The id is not in use.
abbrev pub IsNew : String → Store → Type 0
IsNew i s =
    (get group_id i s.groups ≡ none) × All (λ m. str_eq m.merge_group_id i ≡ false) s.members

OneActive-insert_members :
    (i : String) (n : ℕ) (media_ids : List String) (ms out : List Member)
    → OneActive ms
    → insert_members i n media_ids ms ≡ some out
    → OneActive out
unfolding insert_members
OneActive-insert_members i n [] ms out h e = subst OneActive (some-injective ms out e) h
OneActive-insert_members i n (media ∷ rest) ms out h e = elim (Bool-cases (is_taken media ms)) [
  | inl t ↦ ground (arith, t, e)
  | inr t ↦
      OneActive-insert_members i (suc n) rest (new_member i media n ∷ ms) out ((λ _. t), h)
        (ground (arith, t, e))
]

Follows-insert_members :
    (i : String) (n : ℕ) (media_ids : List String) (groups : List Group) (ms out : List Member)
    → is_live (get group_id i groups) ≡ true
    → Follows groups ms
    → insert_members i n media_ids ms ≡ some out
    → Follows groups out
unfolding insert_members
Follows-insert_members i n [] groups ms out l h e =
    subst (Follows groups) (some-injective ms out e) h
Follows-insert_members i n (media ∷ rest) groups ms out l h e =
    elim (Bool-cases (is_taken media ms)) [
      | inl t ↦ ground (arith, t, e)
      | inr t ↦
          Follows-insert_members i (suc n) rest groups (new_member i media n ∷ ms) out l (sym l, h)
            (ground (arith, t, e))
    ]

taken-deactivate :
    (i media : String) (ms : List Member)
    → is_taken media ms ≡ false
    → is_taken media (deactivate i ms) ≡ false
unfolding deactivate
taken-deactivate i media [] h = refl
taken-deactivate i media (m ∷ ms) h = ground (arith, h, taken-deactivate i media ms)

OneActive-deactivate : (i : String) (ms : List Member) → OneActive ms → OneActive (deactivate i ms)
unfolding deactivate
OneActive-deactivate i [] h = tt
OneActive-deactivate i (m ∷ ms) h = elim (Bool-cases (str_eq m.merge_group_id i)) [
  | inl e ↦ rw e ((λ a. cc a), OneActive-deactivate i ms h.1)
  | inr e ↦
      rw e ((λ a. taken-deactivate i m.media_file_id ms (h.0 a)), OneActive-deactivate i ms h.1)
]

taken-keep :
    (p : Member → Bool) (media : String) (ms : List Member)
    → is_taken media ms ≡ false
    → is_taken media (keep p ms) ≡ false
taken-keep p media [] h = refl
taken-keep p media (m ∷ ms) h = ground (arith, h, taken-keep p media ms)

OneActive-keep : (p : Member → Bool) (ms : List Member) → OneActive ms → OneActive (keep p ms)
OneActive-keep p [] h = tt
OneActive-keep p (m ∷ ms) h = elim (Bool-cases (p m)) [
  | inl e ↦ rw e ((λ a. taken-keep p m.media_file_id ms (h.0 a)), OneActive-keep p ms h.1)
  | inr e ↦ rw e (OneActive-keep p ms h.1)
]

-- A group added under a new id changes nothing for the members of others.
Follows-append :
    (i : String) (g : Group) (groups : List Group) (ms : List Member)
    → g.id ≡ i
    → All (λ m. str_eq m.merge_group_id i ≡ false) ms
    → Follows groups ms
    → Follows (groups ++ (g ∷ [])) ms
unfolding get
Follows-append i g groups [] e n h = tt
Follows-append i g groups (m ∷ ms) e n h = (
  ground (
    arith,
    e,
    n.0,
    h.0,
    get-append group_id m.merge_group_id groups (g ∷ []),
    eq_iff g.id m.merge_group_id,
    eq_iff m.merge_group_id i,
    Option-cases (get group_id m.merge_group_id groups),
  ),
  Follows-append i g groups ms e n.1 h.1,
)

module _ (i : String) (f : Group → Group) (k : (g : Group) → (f g).id ≡ g.id) where
  live_after :
      (j : String) (groups : List Group)
      → ((g : Group) → is_live (some (f g)) ≡ false)
      → is_live (get group_id j (update (λ g. str_eq g.id i) f groups))
        ≡ (if str_eq j i then false else is_live (get group_id j groups))
  live_after j groups d = elim (Option-cases (get group_id j groups)) [
    | inl e ↦ rw (get-update group_id (λ (g : Group). str_eq g.id i) f k j groups, e) (ground arith)
    | inr (g, e) ↦
        rw (get-update group_id (λ (g : Group). str_eq g.id i) f k j groups, e)
          (ground (arith, d g, get-key group_id j groups g e))
  ]

-- An update that kills the group `i` and no other.
Follows-deactivate :
    (i : String) (f : Group → Group) (groups : List Group) (ms : List Member)
    → ((g : Group) → (f g).id ≡ g.id)
    → ((g : Group) → is_live (some (f g)) ≡ false)
    → Follows groups ms
    → Follows (update (λ g. str_eq g.id i) f groups) (deactivate i ms)
unfolding deactivate
Follows-deactivate i f groups [] k d h = tt
Follows-deactivate i f groups (m ∷ ms) k d h = (
  ground (arith, h.0, live_after i f k m.merge_group_id groups d),
  Follows-deactivate i f groups ms k d h.1,
)

get-keep :
    (i j : String) (groups : List Group)
    → str_eq j i ≡ false
    → get group_id j (keep (λ (g : Group). not (str_eq g.id i)) groups) ≡ get group_id j groups
unfolding get
get-keep i j [] h = refl
get-keep i j (g ∷ groups) h =
    ground (arith, h, eq_iff g.id i, eq_iff j i, eq_iff g.id j, get-keep i j groups h)

Follows-forget :
    (i : String) (groups : List Group) (ms : List Member)
    → Follows groups ms
    → Follows
        (keep (λ (g : Group). not (str_eq g.id i)) groups)
        (keep (λ (m : Member). not (str_eq m.merge_group_id i)) ms)
Follows-forget i groups [] h = tt
Follows-forget i groups (m ∷ ms) h = elim (Bool-cases (str_eq m.merge_group_id i)) [
  | inl e ↦ rw e (Follows-forget i groups ms h.1)
  | inr e ↦ rw e (
    (h.0 ∙ ap is_live (sym (get-keep i m.merge_group_id groups e))),
    Follows-forget i groups ms h.1,
  )
]

none-IsNew :
    (i digest : String) (groups : List Group)
    → get group_id i groups ≡ none
    → is_live (get group_id i (groups ++ (new_group i digest ∷ []))) ≡ true
unfolding get
none-IsNew i digest groups h =
    ground (arith, h, get-append group_id i groups (new_group i digest ∷ []), eq_refl i)

-- The end that all makers of groups share.
IsExclusive-with_members :
    (failure : Edit) (i digest : String) (media_ids : List String) (s t : Store)
    → left_by failure t ≡ t
    → IsExclusive t
    → IsExclusive s
    → IsNew i s
    → IsExclusive (
        left_by
          (with_members failure i
            (s.groups ++ (new_group i digest ∷ []))
            (insert_members i 0 media_ids s.members)
            s)
          t)
IsExclusive-with_members failure i digest media_ids s t f ht h n =
    elim (Option-cases (insert_members i 0 media_ids s.members)) [
      | inl e ↦ rw (e, f) ht
      | inr (out, e) ↦ rw e (
        OneActive-insert_members i 0 media_ids s.members out h.0 e,
        Follows-insert_members i 0 media_ids (s.groups ++ (new_group i digest ∷ [])) s.members out
            (none-IsNew i digest s.groups n.0)
            (Follows-append i (new_group i digest) s.groups s.members refl n.1 h.1) e,
      )
    ]

save_detected-IsExclusive :
    (i digest : String) (media_ids : List String) (s : Store)
    → IsExclusive s
    → IsNew i s
    → IsExclusive (left_by (save_detected i media_ids digest s) s)
unfolding save_detected
save_detected-IsExclusive i digest media_ids s h n =
    elim (Bool-cases (has_digest digest s.groups)) [
      | inl e ↦ rw e h
      | inr e ↦ elim (Bool-cases (any (λ (media : String). is_taken media s.members) media_ids)) [
        | inl t ↦ rw (e, t) h
        | inr t ↦ rw (e, t) (IsExclusive-with_members integrity i digest media_ids s s refl h h n)
      ]
    ]

create_manual-IsExclusive :
    (knows : String → Bool) (i digest : String) (media_ids : List String) (s : Store)
    → IsExclusive s
    → IsNew i s
    → IsExclusive (left_by (create_manual knows i media_ids digest s) s)
unfolding create_manual
create_manual-IsExclusive knows i digest media_ids s h n =
    elim (Bool-cases (not (knows_first knows media_ids) || has_digest digest s.groups)) [
      | inl e ↦ rw e h
      | inr e ↦ rw e (IsExclusive-with_members refused i digest media_ids s s refl h h n)
    ]

IsExclusive-point_at :
    (i fresh : String) (s : Store) → IsExclusive s → IsExclusive (point_at i fresh s)
IsExclusive-point_at i fresh s h = (
  OneActive-deactivate i s.members h.0,
  Follows-deactivate i (λ g. record g { superseded_by_id = some fresh }) s.groups s.members
      (λ g. refl) (λ g. refl) h.1,
)

IsExclusive-skip_group : (i : String) (s : Store) → IsExclusive s → IsExclusive (skip_group i s)
IsExclusive-skip_group i s h = (
  OneActive-deactivate i s.members h.0,
  Follows-deactivate i (λ g. record g { status = skipped }) s.groups s.members (λ g. refl)
      (λ (g : Group). ground arith) h.1,
)

deactivate-new :
    (fresh i : String) (ms : List Member)
    → All (λ m. str_eq m.merge_group_id fresh ≡ false) ms
    → All (λ m. str_eq m.merge_group_id fresh ≡ false) (deactivate i ms)
unfolding deactivate
deactivate-new fresh i [] h = tt
deactivate-new fresh i (m ∷ ms) h = (ground (arith, h.0), deactivate-new fresh i ms h.1)

IsNew-point_at : (i fresh : String) (s : Store) → IsNew fresh s → IsNew fresh (point_at i fresh s)
IsNew-point_at i fresh s n = (
  get-update group_id (λ (g : Group). str_eq g.id i)
        (λ g. record g { superseded_by_id = some fresh }) (λ g. refl) fresh s.groups
      ∙ ap (on_row _) n.0,
  deactivate-new fresh i s.members n.1,
)

module _ (mentions : String → String → Bool) where
  supersede-IsExclusive :
      (now : ℕ) (fresh i digest : String) (media_ids : List String) (s : Store)
      → IsExclusive s
      → IsNew fresh s
      → IsExclusive (left_by (supersede mentions now fresh i media_ids digest s) s)
  unfolding supersede
  supersede-IsExclusive now fresh i digest media_ids s h n = by_group (get group_id i s.groups)
    where
      t : Store
      t = point_at i fresh (invalidate_pending now i "superseded" s)

      by_digest :
          (b : Bool)
          → has_digest digest t.groups ≡ b
          → IsExclusive (left_by (replace_by fresh media_ids digest t) s)
      by_digest true e = rw e h
      by_digest false e = rw e (
          IsExclusive-with_members refused fresh digest media_ids t s refl h
            (IsExclusive-point_at i fresh (invalidate_pending now i "superseded" s) h)
            (IsNew-point_at i fresh (invalidate_pending now i "superseded" s) n))

      by_group :
          (o : Option Group)
          → IsExclusive (left_by (supersede_found mentions o now fresh i media_ids digest s) s)
      by_group none = h
      by_group (some g) = elim (Bool-cases (is_editable mentions i s)) [
        | inl e ↦ elim (Bool-cases (is_null g.superseded_by_id)) [
          | inl l ↦ rw (e, l) (by_digest (has_digest digest t.groups) refl)
          | inr l ↦ rw (e, l) h
        ]
        | inr e ↦ rw e h
      ]

  discard-IsExclusive :
      (now : ℕ) (i : String) (s : Store)
      → IsExclusive s
      → IsExclusive (left_by (discard mentions now i s) s)
  unfolding discard
  discard-IsExclusive now i s h = by_group (get group_id i s.groups)
    where
      by_group : (o : Option Group) → IsExclusive (left_by (discard_found mentions o now i s) s)
      by_group none = h
      by_group (some g) = elim (Bool-cases (is_editable mentions i s)) [
        | inl e ↦ rw e (IsExclusive-skip_group i (invalidate_pending now i "discarded" s) h)
        | inr e ↦ rw e h
      ]

  delete_discarded-IsExclusive :
      (is_referenced : Bool) (i : String) (s : Store)
      → IsExclusive s
      → IsExclusive (left_by (delete_discarded is_referenced i s) s)
  unfolding delete_discarded
  delete_discarded-IsExclusive is_referenced i s h = by_group (get group_id i s.groups)
    where
      by_group : (o : Option Group) → IsExclusive (left_by (delete_found is_referenced o i s) s)
      by_group none = h
      by_group (some g) =
          elim (Bool-cases
            (is_skipped g.status && is_null g.output_media_file_id && not is_referenced)) [
              | inl e ↦ rw e (
                OneActive-keep (λ m. not (str_eq m.merge_group_id i)) s.members h.0,
                Follows-forget i s.groups s.members h.1,
              )
              | inr e ↦ rw e h
            ]

-- The id that a call gives to a group.
abbrev pub fresh_of : Call → Option String
fresh_of (save_call fresh media_ids digest) = some fresh
fresh_of (manual_call knows fresh media_ids digest) = some fresh
fresh_of (supersede_call now fresh i media_ids digest) = some fresh
fresh_of (discard_call now i) = none
fresh_of (delete_call is_referenced i) = none

abbrev pub IsFresh : Option String → Store → Type 0
IsFresh none s = Unit
IsFresh (some i) s = IsNew i s

-- Whatever call is made to make, replace, discard or forget a group, no file becomes an active
-- member twice, and the active members are exactly those of groups that are neither superseded nor
-- skipped, if that holds before and the id of a new group is not in use.
pub perform-IsExclusive :
    (mentions : String → String → Bool) (c : Call) (s : Store)
    → IsExclusive s
    → IsFresh (fresh_of c) s
    → IsExclusive (left_by (perform mentions c s) s)
unfolding perform
perform-IsExclusive mentions (save_call fresh media_ids digest) s h n =
    save_detected-IsExclusive fresh digest media_ids s h n
perform-IsExclusive mentions (manual_call knows fresh media_ids digest) s h n =
    create_manual-IsExclusive knows fresh digest media_ids s h n
perform-IsExclusive mentions (supersede_call now fresh i media_ids digest) s h n =
    supersede-IsExclusive mentions now fresh i digest media_ids s h n
perform-IsExclusive mentions (discard_call now i) s h n = discard-IsExclusive mentions now i s h
perform-IsExclusive mentions (delete_call is_referenced i) s h n =
    delete_discarded-IsExclusive mentions is_referenced i s h

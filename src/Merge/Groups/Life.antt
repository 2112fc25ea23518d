-- ===== src/Merge/Groups/Life.antt =====
-- app/src/mediaferry/db/merges.py: what histories of calls keep of the groups. The calls are all that
-- rewrite a row of `merge_group`: those of the merge and of the user, the publisher, which enters
-- the output of a group whatever its state, the deletion of an output (db/media.py) and the
-- reconciliation when the process starts (jobs/reconcile.py). Groups that are made or forgotten are
-- the subject of Members.
use mediaferry.Base.{
  ℕ, String, ◌≡◌, refl, inl, inr, Bool, true, false, not, ◌&&◌, Option, none, some, List, [], ◌∷◌,
  arith, str_eq, eq_refl, ◌==◌, Bool-cases, Option-cases,
}
use mediaferry.Sql.{
  update, rowcount, get, IsKeyed, get-key, get-update, update-IsKeyed, rowcount-key,
}
use mediaferry.Merge.Groups.{
  Status, detected, is_merging, is_null, merging, merged, skipped, Group, group_id, Claim, taken,
  not_claimable, change, may_merge, claim_for_merge, is_live_merging, record_verification,
  mark_merged, transition, mark_failed, release, may_adopt, adopt, discard,
}

pub data Call : Type 0 where
  claim_call : String → String → Call
  verification_call : String → String → String → Call
  output_call : String → String → Call
  merged_call : String → Call
  failed_call : String → String → Call
  release_call : String → Call
  adopt_call : ℕ → String → Call
  discard_call : Bool → String → Call
  supersede_call : String → String → Call
  deleted_call : String → Call
  settle_call : (String → Bool) → Call

abbrev pub is_output : String → Group → Bool
is_output media g = same_output g.output_media_file_id
  where
    same_output : Option String → Bool
    same_output none = false
    same_output (some m) = str_eq m media

-- `delete_derived`: no group points at an output that goes.
abbrev pub forget_output : String → List Group → List Group
forget_output media = update (is_output media) (λ g. record g { output_media_file_id = none })

abbrev pub settled_status : Option String → Status
settled_status none = detected
settled_status (some m) = merged

-- `_settle_merges`: a group that was merging has its output or is merged anew, unless it is blocked
-- by a publication that has not come to its end.
abbrev pub settle_merges : (String → Bool) → List Group → List Group
settle_merges is_blocked =
    update (λ (g : Group). is_merging g.status && not (is_blocked g.id))
      (λ g. record g { status = settled_status g.output_media_file_id })

unfoldable pub perform : Call → List Group → Claim × List Group
unfolding change claim_for_merge record_verification mark_merged mark_failed release adopt discard
perform (claim_call i digest) groups = claim_for_merge i digest groups
perform (verification_call i json tool) groups = record_verification i json tool groups
perform (output_call i media) groups =
    change i (λ g. true) (λ g. record g { output_media_file_id = some media }) groups
perform (merged_call i) groups = mark_merged i groups
perform (failed_call i error) groups = mark_failed i error groups
perform (release_call i) groups = release i groups
perform (adopt_call now i) groups = adopt now i groups
perform (discard_call is_editable i) groups = discard is_editable i groups
perform (supersede_call i fresh) groups =
    change i (λ g. is_null g.superseded_by_id) (λ g. record g { superseded_by_id = some fresh })
      groups
perform (deleted_call media) groups = (taken, forget_output media groups)
perform (settle_call is_blocked) groups = (taken, settle_merges is_blocked groups)

unfoldable pub run : List Call → List Group → List Group
unfolding perform
run [] groups = groups
run (c ∷ h) groups = run h (perform c groups).1

-- The group is there and is discarded.
abbrev pub IsSkipped : String → List Group → Type 0
IsSkipped i groups = (g : Group) × (get group_id i groups ≡ some g) × (g.status ≡ skipped)

change-IsSkipped :
    (i j : String) (p : Group → Bool) (f : Group → Group) (groups : List Group)
    → ((x : Group) → (f x).id ≡ x.id)
    → ((x : Group) → x.status ≡ skipped → p x ≡ true → (f x).status ≡ skipped)
    → IsSkipped i groups
    → IsSkipped i (change j p f groups).1
unfolding change
change-IsSkipped i j p f groups keeps same (g, here, gone) =
    elim (Bool-cases (rowcount (λ x. str_eq x.id j && p x) groups == 1)) [
      | inl e ↦ rw e (elim (Bool-cases (str_eq g.id j && p g)) [
        | inl d ↦ (
          f g,
          ground (arith, here, d, get-update group_id (λ x. str_eq x.id j && p x) f keeps i groups),
          same g gone (ground (arith, d)),
        )
        | inr d ↦ (
          g,
          ground (arith, here, d, get-update group_id (λ x. str_eq x.id j && p x) f keeps i groups),
          gone,
        )
      ])
      | inr e ↦ rw e (g, here, gone)
    ]

update-IsSkipped :
    (i : String) (p : Group → Bool) (f : Group → Group) (groups : List Group)
    → ((x : Group) → (f x).id ≡ x.id)
    → ((x : Group) → x.status ≡ skipped → p x ≡ true → (f x).status ≡ skipped)
    → IsSkipped i groups
    → IsSkipped i (update p f groups)
update-IsSkipped i p f groups keeps same (g, here, gone) = elim (Bool-cases (p g)) [
  | inl d ↦ (f g, ground (arith, here, d, get-update group_id p f keeps i groups), same g gone d)
  | inr d ↦ (g, ground (arith, here, d, get-update group_id p f keeps i groups), gone)
]

perform-IsSkipped :
    (c : Call) (i : String) (groups : List Group)
    → IsSkipped i groups
    → IsSkipped i (perform c groups).1
unfolding perform claim_for_merge record_verification mark_merged mark_failed transition release
    adopt discard
perform-IsSkipped (claim_call j digest) i groups h =
    change-IsSkipped i j (may_merge digest) _ groups (λ x. refl)
      (λ x s p. absurd (ground (arith, p, s))) h
perform-IsSkipped (verification_call j json tool) i groups h =
    change-IsSkipped i j is_live_merging _ groups (λ x. refl) (λ x s p. s) h
perform-IsSkipped (output_call j media) i groups h =
    change-IsSkipped i j (λ x. true) _ groups (λ x. refl) (λ x s p. s) h
perform-IsSkipped (merged_call j) i groups h =
    change-IsSkipped i j _ _ groups (λ x. refl) (λ x s p. absurd (ground (arith, p, s))) h
perform-IsSkipped (failed_call j error) i groups h =
    change-IsSkipped i j is_live_merging _ groups (λ x. refl)
      (λ x s p. absurd (ground (arith, p, s))) h
perform-IsSkipped (release_call j) i groups h =
    change-IsSkipped i j is_live_merging _ groups (λ x. refl)
      (λ x s p. absurd (ground (arith, p, s))) h
perform-IsSkipped (adopt_call now j) i groups h =
    change-IsSkipped i j may_adopt _ groups (λ x. refl) (λ x s p. s) h
perform-IsSkipped (discard_call true j) i groups h =
    change-IsSkipped i j (λ x. true) _ groups (λ x. refl) (λ x s p. refl) h
perform-IsSkipped (discard_call false j) i groups h = h
perform-IsSkipped (supersede_call j fresh) i groups h =
    change-IsSkipped i j _ _ groups (λ x. refl) (λ x s p. s) h
perform-IsSkipped (deleted_call media) i groups h =
    update-IsSkipped i (is_output media) _ groups (λ x. refl) (λ x s p. s) h
perform-IsSkipped (settle_call is_blocked) i groups h =
    update-IsSkipped i (λ x. is_merging x.status && not (is_blocked x.id)) _ groups (λ x. refl)
      (λ x s p. absurd (ground (arith, p, s))) h

-- A group that has been discarded stays so through any calls that rewrite groups: those of merges, the
-- publisher, superseding, the deletion of an output and the reconciliation at the start.
pub run-IsSkipped :
    (h : List Call) (i : String) (groups : List Group)
    → IsSkipped i groups
    → IsSkipped i (run h groups)
unfolding run
run-IsSkipped [] i groups s = s
run-IsSkipped (c ∷ h) i groups s =
    run-IsSkipped h i (perform c groups).1 (perform-IsSkipped c i groups s)

module _ (i : String) (p : Group → Bool) (f : Group → Group) (groups : List Group) where
  change-taken :
      ((x : Group) → (f x).id ≡ x.id)
      → IsKeyed group_id groups
      → (change i p f groups).0 ≡ taken
      → (g : Group) × (get group_id i groups ≡ some g)
        × (p g ≡ true)
        × (get group_id i (change i p f groups).1 ≡ some (f g))
        × IsKeyed group_id (change i p f groups).1
  unfolding change
  change-taken keeps k got = elim (Bool-cases (rowcount (λ x. str_eq x.id i && p x) groups == 1)) [
    | inr e ↦ absurd (ground (arith, got, e))
    | inl e ↦ elim (Option-cases (get group_id i groups)) [
      | inl n ↦ absurd (ground (arith, e, n, rowcount-key group_id i p groups k))
      | inr (g, here) ↦ (
        g,
        here,
        hit e g here,
        rw e (after e g here),
        rw e (update-IsKeyed group_id (λ x. str_eq x.id i && p x) f keeps groups k),
      )
    ]
  ]
    where
      hit :
          (rowcount (λ x. str_eq x.id i && p x) groups == 1) ≡ true
          → (g : Group) → get group_id i groups ≡ some g
          → p g ≡ true
      hit e g here = ground (arith, e, here, rowcount-key group_id i p groups k)

      after :
          (e : (rowcount (λ x. str_eq x.id i && p x) groups == 1) ≡ true) (g : Group)
          → get group_id i groups ≡ some g
          → get group_id i (update (λ x. str_eq x.id i && p x) f groups) ≡ some (f g)
      after e g here = ground (
        arith,
        here,
        hit e g here,
        get-key group_id i groups g here,
        eq_refl i,
        get-update group_id (λ x. str_eq x.id i && p x) f keeps i groups,
      )

  change-refused :
      (g : Group)
      → IsKeyed group_id groups
      → get group_id i groups ≡ some g
      → p g ≡ false
      → (change i p f groups).0 ≡ not_claimable
  unfolding change
  change-refused g k here shut = ground (arith, here, shut, rowcount-key group_id i p groups k)

-- Of two claims of one group with nothing between them, at most one is granted; the ids are unique.
pub claim_once :
    (i digest digest' : String) (groups : List Group)
    → IsKeyed group_id groups
    → (claim_for_merge i digest groups).0 ≡ taken
    → (claim_for_merge i digest' (claim_for_merge i digest groups).1).0 ≡ not_claimable
unfolding claim_for_merge
claim_once i digest digest' groups k got =
    let (g, here, fits, there, k') =
      change-taken i (may_merge digest) (λ x. record x { status = merging; error = none }) groups
        (λ x. refl) k got in
    change-refused i (may_merge digest') (λ x. record x { status = merging; error = none })
      (claim_for_merge i digest groups).1 (record g { status = merging; error = none }) k' there
      (ground arith)

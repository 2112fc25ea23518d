-- ===== src/Uploads/Records/Stacks/Marked.antt =====
-- app/src/mediaferry/db/uploads.py: a group that passes the guard is recorded as a whole.
use mediaferry.Base.{
  ℕ, String, ◌≡◌, refl, sym, ◌∙◌, ◌≢◌, inl, inr, Bool, true, false, not, ◌&&◌, ◌||◌, Option, none,
  some, List, [], ◌∷◌, arith, str_eq, eq_iff, if◌then◌else◌, Bool-cases, Option-cases, any, all,
  All, Apart,
}
use mediaferry.Sql.{
  update, rowcount, get, on_row, hits, IsKeyed, get-key, get-update, update-IsKeyed, rowcount-key,
  update-All,
}
use mediaferry.Jobs.{JobContext, JobStore, Result, assert_lease, ok, err}
use mediaferry.Uploads.Stacking.{is_none}
use mediaferry.Uploads.Records.{
  State, pending, checking, uploading, asset_known, tagging, fixing_datetime,
  awaiting_datetime_approval, complete, failed, needs_recheck, StackState, stacked, skipped, Row,
  record_id, group_changed, destination_changed, Done, done, raised, state_eq, is_some, is_stacked,
  passes, write, by_lease,
}
use mediaferry.Uploads.Records.Claims.{Tables, epoch_fits, current_revision}
use mediaferry.Uploads.Records.Restart.{IsFit, same_id_refl, same_id-eq}
use mediaferry.Uploads.Records.Stacks.{
  Profiles, profile_fits, assert_current, is_as_read, is_skipped, member_moved, guard_stack_group,
  write_or_change, may_stack, stack_as, mark_members, mark_stacked,
}

-- The record of a member, as the guard wants it.
abbrev IsMovable : ℕ → List Row → Row → Type 0
IsMovable epoch rows m =
    (r : Row) × (get record_id m.id rows ≡ some r) × (may_stack epoch m r ≡ true)

abbrev pub HasAsset : Row → Type 0
HasAsset m = is_some m.remote_asset_id ≡ true

-- The record of a member is what it was, and names the stack.
abbrev pub IsStackedIn : List Row → List Row → String → Row → Type 0
IsStackedIn rows rows' stack_id m =
    (r : Row) × (get record_id m.id rows ≡ some r)
    × (get record_id m.id rows' ≡ some (stack_as stack_id r))
    × (r.state ≡ complete)
    × (r.invalidated_at ≡ none)
    × (r.remote_asset_id ≡ m.remote_asset_id)

-- The table of one call of `mark_stacked` that went through.
abbrev pub IsMarked : List Row → List Row → String → List Row → Type 0
IsMarked rows rows' stack_id members =
    IsKeyed record_id rows'
    × All IsFit rows'
    × All (IsStackedIn rows rows' stack_id) members
    × ((i : String) → All (λ m. i ≢ m.id) members → get record_id i rows' ≡ get record_id i rows)

state_eq-complete : (s : State) → state_eq s complete ≡ true → s ≡ complete
state_eq-complete complete h = refl
state_eq-complete pending h = absurd (ground (arith, h))
state_eq-complete checking h = absurd (ground (arith, h))
state_eq-complete uploading h = absurd (ground (arith, h))
state_eq-complete asset_known h = absurd (ground (arith, h))
state_eq-complete tagging h = absurd (ground (arith, h))
state_eq-complete fixing_datetime h = absurd (ground (arith, h))
state_eq-complete awaiting_datetime_approval h = absurd (ground (arith, h))
state_eq-complete failed h = absurd (ground (arith, h))
state_eq-complete needs_recheck h = absurd (ground (arith, h))

is_none-eq : {A : Type 0} (o : Option A) → is_none o ≡ true → o ≡ none
is_none-eq none h = refl
is_none-eq (some a) h = absurd (ground (arith, h))

not_stacked : (s : Option StackState) → (is_none s || is_skipped s) ≡ not (is_stacked s)
not_stacked none = refl
not_stacked (some stacked) = refl
not_stacked (some skipped) = refl

module _ (epoch : ℕ) (stack_id : String) where
  module _ (m : Row) (h : HasAsset m) where
    abbrev hit : Row → Bool
    hit r = str_eq r.id m.id && may_stack epoch m r

    fits-stack_as : (r : Row) → IsFit r → hit r ≡ true → IsFit (stack_as stack_id r)
    fits-stack_as r f e = ground (arith, f, e, h, same_id-eq r.remote_asset_id m.remote_asset_id)

    passes-stack_as : (r : Row) → IsFit r → passes hit (stack_as stack_id) r ≡ true
    passes-stack_as r f = elim (Bool-cases (hit r)) [
      | inl e ↦ rw (e, fits-stack_as r f e) (same_id_refl r.remote_asset_id)
      | inr e ↦ rw e refl
    ]

    all_pass : (rows : List Row) → All IsFit rows → all (passes hit (stack_as stack_id)) rows ≡ true
    all_pass [] f = refl
    all_pass (r ∷ rows) f = rw (passes-stack_as r f.0) (all_pass rows f.1)

    one_hit :
        (rows : List Row) → IsKeyed record_id rows → IsMovable epoch rows m → rowcount hit rows ≡ 1
    one_hit rows k (r, g, e) =
        rowcount-key record_id m.id (may_stack epoch m) rows k ∙ rw (g, e) refl

    write-done :
        (rows : List Row)
        → IsKeyed record_id rows
        → All IsFit rows
        → IsMovable epoch rows m
        → write_or_change hit (stack_as stack_id) rows ≡ done (update hit (stack_as stack_id) rows)
    unfolding write_or_change write
    write-done rows k f v = rw (all_pass rows f, one_hit rows k v) refl

    frame_row :
        (i : String) (o : Option Row)
        → i ≢ m.id
        → ((r : Row) → o ≡ some r → r.id ≡ i)
        → on_row (λ r. if hit r then stack_as stack_id r else r) o ≡ o
    frame_row i none n key = refl
    frame_row i (some r) n key = ground (arith, n, key r refl, eq_iff r.id m.id)

    frame :
        (rows : List Row) (i : String)
        → i ≢ m.id
        → get record_id i (update hit (stack_as stack_id) rows) ≡ get record_id i rows
    frame rows i n =
        get-update record_id hit (stack_as stack_id) (λ r. refl) i rows
        ∙ frame_row i (get record_id i rows) n (get-key record_id i rows)

    own_row :
        (rows : List Row) (r : Row)
        → get record_id m.id rows ≡ some r
        → may_stack epoch m r ≡ true
        → get record_id m.id (update hit (stack_as stack_id) rows) ≡ some (stack_as stack_id r)
    own_row rows r g e =
        get-update record_id hit (stack_as stack_id) (λ x. refl) m.id rows
        ∙ rw g (ground (arith, e, get-key record_id m.id rows r g, eq_iff r.id m.id))

    still-IsMovable :
        (rows members : List Row)
        → All (λ x. m.id ≢ x.id) members
        → All (IsMovable epoch rows) members
        → All (IsMovable epoch (update hit (stack_as stack_id) rows)) members
    still-IsMovable rows [] a v = tt
    still-IsMovable rows (x ∷ xs) a ((r, g, e), v) =
        ((r, frame rows x.id (λ q. a.0 (sym q)) ∙ g, e), still-IsMovable rows xs a.1 v)

    since-IsStackedIn :
        (rows rows' members : List Row)
        → All (λ x. m.id ≢ x.id) members
        → All (IsStackedIn (update hit (stack_as stack_id) rows) rows' stack_id) members
        → All (IsStackedIn rows rows' stack_id) members
    since-IsStackedIn rows rows' [] a v = tt
    since-IsStackedIn rows rows' (x ∷ xs) a ((r, g, e, s, i, o), v) = (
      (r, sym (frame rows x.id (λ q. a.0 (sym q))) ∙ g, e, s, i, o),
      since-IsStackedIn rows rows' xs a.1 v,
    )

    own-IsStackedIn :
        (rows rows' : List Row)
        → IsMovable epoch rows m
        → get record_id m.id rows' ≡ get record_id m.id (update hit (stack_as stack_id) rows)
        → IsStackedIn rows rows' stack_id m
    own-IsStackedIn rows rows' (r, g, e) same = (
      r,
      g,
      same ∙ own_row rows r g e,
      state_eq-complete r.state (ground (arith, e)),
      is_none-eq r.invalidated_at (ground (arith, e)),
      same_id-eq r.remote_asset_id m.remote_asset_id (ground (arith, e)),
    )

  mark_members-IsMarked :
      (members rows : List Row)
      → IsKeyed record_id rows
      → All IsFit rows
      → All HasAsset members
      → Apart record_id members
      → All (IsMovable epoch rows) members
      → (rows' : List Row) × (mark_members epoch stack_id members rows ≡ done rows')
        × IsMarked rows rows' stack_id members
  unfolding mark_members
  mark_members-IsMarked [] rows k f h a v = (rows, refl, (k, f, tt, λ i n. refl))
  mark_members-IsMarked (m ∷ ms) rows k f h a v =
      let rest : (rows' : List Row) × (mark_members epoch stack_id ms
              (update (hit m h.0) (stack_as stack_id) rows)
            ≡ done rows')
          × IsMarked (update (hit m h.0) (stack_as stack_id) rows) rows' stack_id ms =
        mark_members-IsMarked ms (update (hit m h.0) (stack_as stack_id) rows)
          (update-IsKeyed record_id (hit m h.0) (stack_as stack_id) (λ r. refl) rows k)
          (update-All (hit m h.0) (stack_as stack_id) rows (λ r e q. fits-stack_as m h.0 r q e) f)
          h.1 a.1 (still-IsMovable m h.0 rows ms a.0 v.1) in
      (
        rest.0,
        rw (write-done m h.0 rows k f v.0) rest.1,
        (
          rest.2.0,
          rest.2.1,
          (
            own-IsStackedIn m h.0 rows rest.0 v.0 (rest.2.3 m.id a.0),
            since-IsStackedIn m h.0 rows rest.0 ms a.0 rest.2.2,
          ),
          λ i n. rest.2.3 i n.1 ∙ frame m h.0 rows i n.0,
        ),
      )

  stays-IsMovable :
      (rows : List Row) (m : Row)
      → IsKeyed record_id rows
      → member_moved epoch rows m ≡ false
      → IsMovable epoch rows m
  unfolding member_moved
  stays-IsMovable rows m k e = elim (Option-cases (get record_id m.id rows)) [
    | inl n ↦ absurd (ground (arith, e, n, counted))
    | inr (r, g) ↦ (r, g, ground (arith, e, g, counted, not_stacked r.stack_state))
  ]
    where
      as_guarded : Row → Bool
      as_guarded r = is_as_read epoch m r && not (is_stacked r.stack_state)

      counted :
          rowcount (λ r. str_eq r.id m.id && as_guarded r) rows
          ≡ hits as_guarded (get record_id m.id rows)
      counted = rowcount-key record_id m.id as_guarded rows k

  all-IsMovable :
      (rows members : List Row)
      → IsKeyed record_id rows
      → any (member_moved epoch rows) members ≡ false
      → All (IsMovable epoch rows) members
  all-IsMovable rows [] k e = tt
  all-IsMovable rows (m ∷ ms) k e =
      (stays-IsMovable rows m k (ground (arith, e)), all-IsMovable rows ms k (ground (arith, e)))

  all-stay :
      (rows members : List Row)
      → IsKeyed record_id rows
      → (if any (member_moved epoch rows) members then raised group_changed else done rows)
        ≡ done rows
      → All (IsMovable epoch rows) members
  all-stay rows members k e = elim (Bool-cases (any (member_moved epoch rows) members)) [
    | inl b ↦ absurd (ground (arith, e, b))
    | inr b ↦ all-IsMovable rows members k b
  ]

goes_through :
    (x : Result (Unit {0})) (a b : Bool) (d : Done) (rows : List Row)
    → by_lease x
        (if not a then raised destination_changed else if not b then raised group_changed else d)
      ≡ done rows
    → (d ≡ done rows)
      × ((d' : Done)
          → by_lease x (
              if not a
              then raised destination_changed
              else if not b
              then raised group_changed
              else d')
            ≡ d')
goes_through (ok u) true true d rows e = (e, λ d'. refl)
goes_through (ok u) true false d rows e = absurd (ground (arith, e))
goes_through (ok u) false b d rows e = absurd (ground (arith, e))
goes_through (err x) a b d rows e = absurd (ground (arith, e))

module _ (now : ℕ) (ctx : JobContext) (jobs : JobStore) (t : Tables) (profiles : Profiles)
    (destination_id : String) (epoch : ℕ) (profile_revision_id : String) where
  abbrev Goes : Type 0
  Goes =
      (d : Done)
      → assert_current now ctx jobs t profiles destination_id epoch profile_revision_id d ≡ d

  goes :
      (d : Done) (rows : List Row)
      → assert_current now ctx jobs t profiles destination_id epoch profile_revision_id d
        ≡ done rows
      → (d ≡ done rows) × Goes
  unfolding assert_current
  goes d rows e =
      goes_through (assert_lease now ctx.job_id ctx.lease_token jobs)
        (epoch_fits (current_revision t destination_id) epoch)
        (profile_fits profiles profile_revision_id) d rows e

  -- When the guard passes, on a table that fits its checks and for distinct members with an asset,
  -- `mark_stacked` goes through: every member is in the stack, finished, valid and with the asset it
  -- was sent under, no other record changes, and the table still fits its checks.
  pub mark_stacked-IsMarked :
      (members rows : List Row) (stack_id : String)
      → IsKeyed record_id rows
      → All IsFit rows
      → All HasAsset members
      → Apart record_id members
      → guard_stack_group now ctx jobs t profiles members destination_id epoch profile_revision_id
          rows
        ≡ done rows
      → (rows' : List Row) × (mark_stacked now ctx jobs t profiles members destination_id epoch
            profile_revision_id stack_id rows
          ≡ done rows')
        × IsMarked rows rows' stack_id members
  unfolding guard_stack_group mark_stacked
  mark_stacked-IsMarked members rows stack_id k f h a e =
      let through : (_ : Path Done
            (if any (member_moved epoch rows) members then raised group_changed else done rows)
            (done rows))
          × Goes =
        goes _ rows e in
      let marked : (rows' : List Row) × (mark_members epoch stack_id members rows ≡ done rows')
          × IsMarked rows rows' stack_id members =
        mark_members-IsMarked epoch stack_id members rows k f h a
          (all-stay epoch stack_id rows members k through.0) in
      (marked.0, through.1 _ ∙ marked.1, marked.2)

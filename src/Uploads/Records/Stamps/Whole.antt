-- ===== src/Uploads/Records/Stamps/Whole.antt =====
-- app/src/mediaferry/db/uploads.py: the recheck writes all its stamps.
use mathlib.Core.Option.{some-injective}
use mediaferry.Base.{
  ℕ, String, ◌≡◌, refl, sym, ap, ◌∙◌, ◌⊎◌, inl, inr, Bool, true, false, ◌&&◌, Option, none, some,
  List, [], ◌∷◌, arith, str_eq, eq_iff, eq_refl, ◌==◌, if◌then◌else◌, ==_iff, Bool-cases, any, all,
  All, All-imp,
}
use mediaferry.Sql.{update, rowcount, get, on_row, IsKeyed, get-update, update-IsKeyed}
use mediaferry.Jobs.{JobContext, JobStore, assert_lease, ok}
use mediaferry.Uploads.Stacking.{same_id}
use mediaferry.Uploads.Records.{
  StackState, stacked, skipped, Row, record_id, Done, done, is_stacked, stack_shape, fits,
  keeps_asset, passes, write, unstack, in_stack,
}
use mediaferry.Uploads.Records.Restart.{IsFit, same_id_refl, same_id-eq}
use mediaferry.Uploads.Records.Stamps.{
  Stamp, is_as_seen, reopen_whole, stamp_row, is_seen, write_stamp, stamp_one, stamp_all,
  stamp_many,
}

abbrev IsSoundIn : List Row → Type 0
IsSoundIn rows = IsKeyed record_id rows × All IsFit rows

own : (rows : List Row) → IsKeyed record_id rows → All (λ r. get record_id r.id rows ≡ some r) rows
unfolding get
own [] k = tt
own (r ∷ rows) k = (
  ground (arith, eq_refl r.id),
  All-imp rows (λ x e. ground (arith, e, k.0, eq_iff r.id x.id)) (own rows k.1),
)

left_of : (a b : Bool) → (a && b) ≡ true → a ≡ true
left_of true b h = refl
left_of false b h = h

module _ (p : Row → Bool) (f : Row → Row) where
  abbrev IsAdmitted : Row → Type 0
  IsAdmitted r = p r ≡ true → (fits (f r) && keeps_asset r (f r)) ≡ true

  all_pass : (rows : List Row) → All IsAdmitted rows → all (passes p f) rows ≡ true
  all_pass [] k = refl
  all_pass (r ∷ rows) k = elim (Bool-cases (p r)) [
    | inl e ↦ rw (e, k.0 e) (all_pass rows k.1)
    | inr e ↦ rw e (all_pass rows k.1)
  ]

  all-IsFit : (rows : List Row) → All IsAdmitted rows → All IsFit rows → All IsFit (update p f rows)
  unfolding update
  all-IsFit [] k h = tt
  all-IsFit (r ∷ rows) k h = elim (Bool-cases (p r)) [
    | inl e ↦ rw e (left_of (fits (f r)) (keeps_asset r (f r)) (k.0 e), all-IsFit rows k.1 h.1)
    | inr e ↦ rw e (h.0, all-IsFit rows k.1 h.1)
  ]

  write-IsSoundIn :
      (rows : List Row)
      → ((r : Row) → (f r).id ≡ r.id)
      → All IsAdmitted rows
      → IsSoundIn rows
      → (write p f rows ≡ done (update p f rows)) × IsSoundIn (update p f rows)
  unfolding write
  write-IsSoundIn rows keeps k h = (
    rw (all_pass rows k) refl,
    (update-IsKeyed record_id p f keeps rows h.0, all-IsFit rows k h.1),
  )

stack_named : (r : Row) → IsFit r → r.remote_stack_id ≡ none → is_stacked r.stack_state ≡ false
stack_named r h e = named r.stack_state (ground (arith, h))
  where
    named :
        (o : Option StackState)
        → stack_shape o r.remote_stack_id r.stack_reason ≡ true
        → is_stacked o ≡ false
    named none q = refl
    named (some skipped) q = refl
    named (some stacked) q = absurd (ground (arith, q, e))

fits-unstack : (p : Row → Bool) (r : Row) → IsFit r → IsAdmitted p unstack r
fits-unstack p r h e = ground (arith, h)

IsFit-of :
    (i : String) (r : Row) (rows : List Row)
    → get record_id i rows ≡ some r
    → All IsFit rows
    → IsFit r
unfolding get
IsFit-of i r [] g h = absurd (ground (arith, g))
IsFit-of i r (x ∷ rows) g h = elim (Bool-cases (str_eq x.id i)) [
  | inl e ↦ ap fits (sym (some-injective x r (sym (rw e refl) ∙ g))) ∙ h.0
  | inr e ↦ IsFit-of i r rows (sym (rw e refl) ∙ g) h.1
]

-- After it no record of the id is in a stack.
abbrev IsOpen : String → List Row → Type 0
IsOpen i rows = (r : Row) → get record_id i rows ≡ some r → is_stacked r.stack_state ≡ false

module _ (i : String) (rows : List Row) (h : IsSoundIn rows) where
  opened :
      (r : Row) (stack_id : String)
      → get record_id i rows ≡ some r
      → r.remote_stack_id ≡ some stack_id
      → IsOpen i (update (in_stack r.destination_id r.target_epoch stack_id) unstack rows)
  opened r stack_id g e r' g' = ap (λ x. is_stacked x.stack_state) is_last ∙ closed
    where
      taken : Row → Bool
      taken = in_stack r.destination_id r.target_epoch stack_id

      closed : is_stacked (if taken r then unstack r else r).stack_state ≡ false
      closed = elim (Bool-cases (taken r)) [
        | inl t ↦ rw t refl
        | inr t ↦ rw t (
            ground (
              arith,
              t,
              e,
              eq_refl r.destination_id,
              eq_refl stack_id,
              ==_iff r.target_epoch r.target_epoch,
            ))
      ]

      is_last : r' ≡ (if taken r then unstack r else r)
      is_last = some-injective _ _ (
          sym g'
          ∙ get-update record_id taken unstack (λ x. refl) i rows
          ∙ ap (on_row (λ x. if taken x then unstack x else x)) g)

  reopen_stack-IsOpen :
      (r : Row)
      → get record_id i rows ≡ some r
      → (o : Option String) → r.remote_stack_id ≡ o
      → (rows' : List Row) × ((elim o [
        | none ↦ done rows
        | some stack_id ↦ write (in_stack r.destination_id r.target_epoch stack_id) unstack rows
      ])
          ≡ done rows')
        × IsSoundIn rows'
        × IsOpen i rows'
  reopen_stack-IsOpen r g none e = (
    rows,
    refl,
    h,
    λ r' q.
        stack_named r' (IsFit-of i r' rows q h.1)
          (ap (λ x. x.remote_stack_id) (some-injective r' r (sym q ∙ g)) ∙ e),
  )
  reopen_stack-IsOpen r g (some stack_id) e =
      let p : Row → Bool = in_stack r.destination_id r.target_epoch stack_id in
      let w : (write p unstack rows ≡ done (update p unstack rows))
          × IsSoundIn (update p unstack rows) =
        write-IsSoundIn p unstack rows (λ x. refl) (All-imp rows (λ x. fits-unstack p x) h.1) h in
      (update p unstack rows, w.0, w.1, opened r stack_id g e)

  reopen_whole-IsOpen :
      (o : Option Row)
      → get record_id i rows ≡ o
      → (rows' : List Row) × (reopen_whole o rows ≡ done rows') × IsSoundIn rows' × IsOpen i rows'
  reopen_whole-IsOpen none g = (rows, refl, h, λ r e. absurd (ground (arith, g, e)))
  reopen_whole-IsOpen (some r) g = reopen_stack-IsOpen r g r.remote_stack_id refl

abbrev SameAsset : Stamp → Type 0
SameAsset s = same_id s.asset_id s.expect_asset_id ≡ true

module _ (iso : ℕ → String) (checked_at : ℕ) (s : Stamp) where
  admits :
      (r : Row)
      → IsFit r
      → (SameAsset s ⊎ (is_stacked r.stack_state ≡ false))
      → IsAdmitted (is_seen s) (stamp_row iso checked_at s) r
  unfolding is_as_seen
  admits r h (inl q) e =
      let same : s.asset_id ≡ r.remote_asset_id =
        same_id-eq s.asset_id s.expect_asset_id q
        ∙ sym (same_id-eq r.remote_asset_id s.expect_asset_id (ground (arith, e))) in
      rw same (ground (arith, h, same_id_refl r.remote_asset_id))
  admits r h (inr q) e = ground (arith, h, q)

  -- The row that is stamped is that of the id, which is known not to be in a stack.
  all-IsAdmitted :
      (rows : List Row)
      → IsSoundIn rows
      → (SameAsset s ⊎ IsOpen s.record_id rows)
      → All (IsAdmitted (is_seen s) (stamp_row iso checked_at s)) rows
  all-IsAdmitted rows h (inl q) = All-imp rows (λ r f. admits r f (inl q)) h.1
  all-IsAdmitted rows h (inr q) = found rows h.1 (own rows h.0)
    where
      found :
          (xs : List Row)
          → All IsFit xs
          → All (λ r. get record_id r.id rows ≡ some r) xs
          → All (IsAdmitted (is_seen s) (stamp_row iso checked_at s)) xs
      found [] f g = tt
      found (r ∷ xs) f g = (
        λ e.
            admits r f.0
              (inr (
                q r (
                  ap (λ i. get record_id i rows) (sym (ground (arith, e, eq_iff r.id s.record_id)))
                  ∙ g.0)))
              e,
        found xs f.1 g.1,
      )

  -- What a call leaves: some ids, and a table that is sound.
  abbrev IsThrough : List String × Done → Type 0
  IsThrough d =
      (written : List String) × (rows' : List Row) × (d ≡ (written, done rows')) × IsSoundIn rows'

  write_stamp-IsThrough :
      (written : List String) (rows : List Row)
      → IsSoundIn rows
      → (SameAsset s ⊎ IsOpen s.record_id rows)
      → IsThrough (write_stamp iso checked_at s written rows)
  write_stamp-IsThrough written rows h q =
      let w : (write (is_seen s) (stamp_row iso checked_at s) rows
            ≡ done (update (is_seen s) (stamp_row iso checked_at s) rows))
          × IsSoundIn (update (is_seen s) (stamp_row iso checked_at s) rows) =
        write-IsSoundIn (is_seen s) (stamp_row iso checked_at s) rows (λ r. refl)
          (all-IsAdmitted rows h q) h in
      (
        if rowcount (is_seen s) rows == 1 then s.record_id ∷ written else written,
        update (is_seen s) (stamp_row iso checked_at s) rows,
        ap (λ d. (if rowcount (is_seen s) rows == 1 then s.record_id ∷ written else written, d))
            w.0,
        w.1,
      )

  stamp_one-IsThrough :
      (written : List String) (rows : List Row)
      → IsSoundIn rows
      → IsThrough (stamp_one iso checked_at s written rows)
  unfolding stamp_one
  stamp_one-IsThrough written rows h = elim (Bool-cases (any (is_seen s) rows)) [
    | inr e ↦ rw e (written, rows, refl, h)
    | inl e ↦ elim (Bool-cases (same_id s.asset_id s.expect_asset_id)) [
      | inl q ↦ rw (e, q) (write_stamp-IsThrough written rows h (inl q))
      | inr q ↦
          let o : (rows' : List Row) × (reopen_whole (get record_id s.record_id rows) rows
                ≡ done rows')
              × IsSoundIn rows'
              × IsOpen s.record_id rows' =
            reopen_whole-IsOpen s.record_id rows h (get record_id s.record_id rows) refl in
          rw (e, q, o.1) (write_stamp-IsThrough written o.0 o.2 (inr o.3))
    ]
  ]

stamp_all-IsThrough :
    (iso : ℕ → String) (checked_at : ℕ) (stamps : List Stamp) (written : List String)
    (rows : List Row)
    → IsSoundIn rows
    → (ids : List String) × (rows' : List Row) × (stamp_all iso checked_at stamps written rows
        ≡ (ids, done rows'))
      × IsSoundIn rows'
unfolding stamp_all
stamp_all-IsThrough iso checked_at [] written rows h = (written, rows, refl, h)
stamp_all-IsThrough iso checked_at (s ∷ stamps) written rows h =
    let one : (ids : List String) × (rows' : List Row) × (stamp_one iso checked_at s written rows
          ≡ (ids, done rows'))
        × IsSoundIn rows' =
      stamp_one-IsThrough iso checked_at s written rows h in
    rw one.2 (stamp_all-IsThrough iso checked_at stamps one.0 one.1 one.3)

-- While the lease holds, `stamp_many` goes through on a table with sound keys and checks, whatever
-- the stamps are, and leaves one: the stack of an asset that changes is reopened in time.
pub stamp_many-IsThrough :
    (iso : ℕ → String) (now : ℕ) (ctx : JobContext) (jobs : JobStore) (stamps : List Stamp)
    (checked_at : ℕ) (rows : List Row)
    → assert_lease now ctx.job_id ctx.lease_token jobs ≡ ok tt
    → IsKeyed record_id rows
    → All IsFit rows
    → (ids : List String) × (rows' : List Row) × (stamp_many iso now ctx jobs stamps checked_at rows
        ≡ (ids, done rows'))
      × (IsKeyed record_id rows' × All IsFit rows')
unfolding stamp_many
stamp_many-IsThrough iso now ctx jobs stamps checked_at rows e k f =
    rw e (stamp_all-IsThrough iso checked_at stamps [] rows (k, f))

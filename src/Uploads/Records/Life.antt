-- ===== src/Uploads/Records/Life.antt =====
-- app/src/mediaferry/db/uploads.py: what histories of calls keep of one record.
use mediaferry.Base.{
  ℕ, String, ◌≡◌, refl, ◌⊎◌, inl, inr, Bool, true, false, ◌&&◌, Option, none, some, List, [], ◌∷◌,
  arith, str_eq, ◌==◌, if◌then◌else◌, Bool-cases, Option-cases, all,
}
use mediaferry.Sql.{rowcount, get, IsKeyed, get-update, update-IsKeyed}
use mathlib.Core.Path.{subst}
use mediaferry.Jobs.{Result, JobContext, JobStore, JobError, ok, err}
use mediaferry.Uploads.Stacking.{is_none, same_id}
use mediaferry.Uploads.Records.{
  State, Row, Fields, record_id, Fault, group_changed, claim_lost, bad_row, bad_request, Done, done,
  raised, and_then, left_by, passes, write, write_one, unstack, in_stack, reopen, reopen_stack_of,
  set_fields, may_move, reopen_by, locked_cas, by_lease,
}
use mediaferry.Uploads.Records.Moves.{
  extend_claim, advance_owned, finish_owned, advance, finish, release_to, coalesce, refuse,
  invalidate_for_group, claim_for_approval, release_from_approval, release_interrupted,
}
use mediaferry.Uploads.Records.Requests.{Source, Target, PairResult, Asked, create_pairs}
use mediaferry.Uploads.Records.Stacks.{
  write_or_change, Profiles, mark_stacked, mark_skipped, reopen_stacks,
}
use mediaferry.Uploads.Records.Stamps.{
  Stamp, stamp_many, stamp_remote_datetime, invalidate_old_epoch, invalidate_stale,
}
use mediaferry.Uploads.Records.Claims.{Tables, prepare_side_effect, claim_next}

-- The keys are unique, and the row with key `i` is there and has `P`.
abbrev pub Holds {ℓ} : (P : Row → Type ℓ) → String → List Row → Type ℓ
Holds P i rows = IsKeyed record_id rows × ((r : Row) × (get record_id i rows ≡ some r) × P r)

pub Done-cases : (d : Done) → ((rows : List Row) × (d ≡ done rows)) ⊎ ((e : Fault) × (d ≡ raised e))
Done-cases (done rows) = inl (rows, refl)
Done-cases (raised e) = inr (e, refl)

pub Result-cases {ℓ} :
    {A : Type ℓ} (x : Result A) → ((a : A) × (x ≡ ok a)) ⊎ ((e : JobError) × (x ≡ err e))
Result-cases (ok a) = inl (a, refl)
Result-cases (err e) = inr (e, refl)

module _ {ℓ} (P : Row → Type ℓ) (i : String) where
  pub Holds-and_then :
      (d : Done) (k : List Row → Done) (rows : List Row)
      → Holds P i (left_by d rows)
      → ((rows' : List Row) → Holds P i rows' → Holds P i (left_by (k rows') rows'))
      → Holds P i rows
      → Holds P i (left_by (and_then d k) rows)
  Holds-and_then (raised e) k rows h step h0 = h0
  Holds-and_then (done rows') k rows h step h0 = elim (Done-cases (k rows')) [
    | inl (rows2, e) ↦ rw e (subst (λ d. Holds P i (left_by d rows')) e (step rows' h))
    | inr (x, e) ↦ rw e h0
  ]

  pub Holds-write :
      (p : Row → Bool) (f : Row → Row) (rows : List Row)
      → ((r : Row) → (f r).id ≡ r.id)
      → ((r : Row) → P r → P (f r))
      → Holds P i rows
      → Holds P i (left_by (write p f rows) rows)
  unfolding write
  Holds-write p f rows keeps step (k, (r, here, h)) = elim (Bool-cases (all (passes p f) rows)) [
    | inl e ↦ rw e (
      update-IsKeyed record_id p f keeps rows k,
      elim (Bool-cases (p r)) [
        | inl d ↦ (f r, ground (arith, here, d, get-update record_id p f keeps i rows), step r h)
        | inr d ↦ (r, ground (arith, here, d, get-update record_id p f keeps i rows), h)
      ],
    )
    | inr e ↦ rw e (k, (r, here, h))
  ]

  pub Holds-write_one :
      (p : Row → Bool) (f : Row → Row) (rows : List Row)
      → ((r : Row) → (f r).id ≡ r.id)
      → ((r : Row) → P r → P (f r))
      → Holds P i rows
      → Holds P i (left_by (write_one p f rows) rows)
  unfolding write_one
  Holds-write_one p f rows keeps step h =
      Holds-and_then (write p f rows)
        (λ rows'. if rowcount p rows == 1 then done rows' else raised claim_lost) rows
        (Holds-write p f rows keeps step h)
        (λ rows' h'. elim (Bool-cases (rowcount p rows == 1)) [ inl e ↦ rw e h' | inr e ↦ rw e h' ])
        h

  pub Holds-write_or_change :
      (p : Row → Bool) (f : Row → Row) (rows : List Row)
      → ((r : Row) → (f r).id ≡ r.id)
      → ((r : Row) → P r → P (f r))
      → Holds P i rows
      → Holds P i (left_by (write_or_change p f rows) rows)
  unfolding write_or_change
  Holds-write_or_change p f rows keeps step h =
      Holds-and_then (write p f rows)
        (λ rows'. if rowcount p rows == 1 then done rows' else raised group_changed) rows
        (Holds-write p f rows keeps step h)
        (λ rows' h'. elim (Bool-cases (rowcount p rows == 1)) [ inl e ↦ rw e h' | inr e ↦ rw e h' ])
        h

  Holds-reopen :
      (row : Option Row) (a : Option String) (rows : List Row)
      → ((r : Row) → P r → P (unstack r))
      → Holds P i rows
      → Holds P i (left_by (reopen row a rows) rows)
  Holds-reopen none a rows step h = h
  Holds-reopen (some row) a rows step h = elim (Option-cases row.remote_stack_id) [
    | inl e ↦ simp e h
    | inr (q, e) ↦ elim (Bool-cases (same_id a row.remote_asset_id)) [
      | inl d ↦ simp (e, d) h
      | inr d ↦
          simp (e, d)
            (Holds-write (in_stack row.destination_id row.target_epoch q) unstack rows (λ r. refl)
              step h)
    ]
  ]

  pub Holds-reopen_by :
      (j : String) (new : Option (Option String)) (rows : List Row)
      → ((r : Row) → P r → P (unstack r))
      → Holds P i rows
      → Holds P i (left_by (reopen_by j new rows) rows)
  unfolding reopen_stack_of
  Holds-reopen_by j none rows step h = h
  Holds-reopen_by j (some a) rows step h = Holds-reopen (get record_id j rows) a rows step h

  module _ (unstacks : (r : Row) → P r → P (unstack r))
      (sets : (fields : Fields) (r : Row) → P r → P (set_fields fields r)) where
    pub Holds-locked_cas :
        (now : ℕ) (j token : String) (f : Row → Row) (expect : Option State) (strict : Bool)
        (fields : Fields) (rows : List Row)
        → ((r : Row) → (f r).id ≡ r.id)
        → ((r : Row) → P r → P (f r))
        → Holds P i rows
        → Holds P i (left_by (locked_cas now j token f expect strict fields rows) rows)
    unfolding locked_cas
    Holds-locked_cas now j token f expect strict fields rows keeps step h =
        Holds-and_then (reopen_by j fields.remote_asset_id rows)
          (write_one (λ r. str_eq r.id j && may_move now token expect strict r)
            (λ r. set_fields fields (f r)))
          rows (Holds-reopen_by j fields.remote_asset_id rows unstacks h)
          (λ rows' h'.
            Holds-write_one (λ r. str_eq r.id j && may_move now token expect strict r)
              (λ r. set_fields fields (f r)) rows' keeps (λ r q. sets fields (f r) (step r q)) h')
          h

pub Holds-by_lease {ℓ} :
    (P : Row → Type ℓ) (i : String) (x : Result (Unit {0})) (d : Done) (rows : List Row)
    → Holds P i rows
    → Holds P i (left_by d rows)
    → Holds P i (left_by (by_lease x d) rows)
Holds-by_lease P i (ok u) d rows h h' = h'
Holds-by_lease P i (err e) d rows h h' = h

abbrev pub IsInvalid : Row → Type 0
IsInvalid r = is_none r.invalidated_at ≡ false

pub some_stays : (o : Option ℕ) (n : ℕ) → is_none o ≡ false → is_none (coalesce o n) ≡ false
some_stays none n h = ground (arith, h)
some_stays (some m) n h = refl

-- One call of the repository on the table, with the jobs and the other tables as it finds them.
pub data Call : Type 0 where
  claim_call : ℕ → Tables → String → String → String → Call
  prepare_call : ℕ → JobContext → String → State → Bool → Tables → JobStore → Call
  extend_call : String → String → ℕ → Call
  advance_owned_call : JobContext → String → State → State → Fields → JobStore → Call
  finish_owned_call : JobContext → String → State → State → Fields → JobStore → Call
  advance_call : String → String → State → State → Fields → Call
  finish_call : String → String → State → State → Fields → Call
  release_call : String → String → State → Fields → Call
  refuse_call : String → String → String → Call
  invalidate_call : String → String → Call
  approve_call : String → String → String → ℕ → Call
  step_down_call : String → String → Call
  interrupt_call : Call
  create_call :
      (String → String → String)
      → (String → Option Source)
      → (String → Option Target)
      → List String
      → List String
      → List String
      → Call
  stamp_call : (ℕ → String) → JobContext → JobStore → List Stamp → ℕ → Call
  datetime_call : (ℕ → String) → String → Option String → ℕ → Option String → Call
  stack_call :
      JobContext → JobStore → Tables → Profiles → List Row → String → ℕ → String → String → Call
  skip_call : JobContext → JobStore → Tables → Profiles → Row → String → ℕ → String → String → Call
  reopen_call : JobContext → JobStore → String → ℕ → List String → Call
  epoch_call : String → ℕ → String → Call
  stale_call : Tables → (Row → String) → Call

-- The primary key, which an INSERT breaks by raising.
abbrev pub is_unique : List Row → Bool
is_unique [] = true
is_unique (r ∷ rows) = is_none (get record_id r.id rows) && is_unique rows

abbrev pub created_by : Option (List PairResult × Asked) → Done
created_by none = raised bad_request
created_by (some (results, s)) = if is_unique s.rows then done s.rows else raised bad_row

unfoldable pub perform : ℕ → Call → List Row → Done
unfolding claim_next prepare_side_effect extend_claim advance_owned finish_owned advance finish
    release_to refuse invalidate_for_group claim_for_approval release_from_approval
    release_interrupted create_pairs stamp_many stamp_remote_datetime mark_stacked mark_skipped
    reopen_stacks invalidate_old_epoch invalidate_stale
perform now (claim_call lease t destination job token) rows =
    (claim_next now lease t destination job token rows).1
perform now (prepare_call lease ctx i e v t jobs) rows =
    prepare_side_effect now lease ctx i e v t jobs rows
perform now (extend_call i token lease) rows = extend_claim now i token lease rows
perform now (advance_owned_call ctx i s e fields jobs) rows =
    advance_owned now ctx i s e fields jobs rows
perform now (finish_owned_call ctx i s e fields jobs) rows =
    finish_owned now ctx i s e fields jobs rows
perform now (advance_call i token s e fields) rows = advance now i token s e fields rows
perform now (finish_call i token s e fields) rows = finish now i token s e fields rows
perform now (release_call i token s fields) rows = release_to now i token s fields rows
perform now (refuse_call i token reason) rows = refuse now i token reason rows
perform now (invalidate_call g reason) rows = invalidate_for_group now g reason rows
perform now (approve_call i job token lease) rows = claim_for_approval now i job token lease rows
perform now (step_down_call i token) rows = release_from_approval now i token rows
perform now interrupt_call rows = release_interrupted rows
perform now (create_call new_id media_of target_of media_ids destination_ids adopted) rows =
    created_by (
      create_pairs now new_id media_of target_of media_ids destination_ids
        (record { rows = rows; adopted = adopted }))
perform now (stamp_call iso ctx jobs stamps checked_at) rows =
    (stamp_many iso now ctx jobs stamps checked_at rows).1
perform now (datetime_call iso i date checked_at expect) rows =
    (stamp_remote_datetime iso i date checked_at expect rows).1
perform now (stack_call ctx jobs t profiles members d e v stack_id) rows =
    mark_stacked now ctx jobs t profiles members d e v stack_id rows
perform now (skip_call ctx jobs t profiles member d e v reason) rows =
    mark_skipped now ctx jobs t profiles member d e v reason rows
perform now (reopen_call ctx jobs d e stack_ids) rows =
    (reopen_stacks now ctx jobs d e stack_ids rows).1
perform now (epoch_call d e reason) rows = invalidate_old_epoch now d e reason rows
perform now (stale_call t why) rows = invalidate_stale now t why rows

unfoldable pub run : List (ℕ × Call) → List Row → List Row
unfolding perform
run [] rows = rows
run ((now, c) ∷ h) rows = run h (left_by (perform now c rows) rows)

-- ===== src/Uploads/Records/Keeps.antt =====
-- app/src/mediaferry/db/uploads.py: no call makes an invalid record valid again.
use mediaferry.Base.{
  ℕ, String, ◌≡◌, refl, ◌∙◌, inl, inr, Bool, true, false, not, ◌&&◌, Option, none, some, List, [],
  ◌∷◌, ◌++◌, arith, str_eq, ltb, if◌then◌else◌, Bool-cases, any,
}
use mediaferry.Sql.{rowcount, get, on_row, IsKeyed, get-append, get-update, first_by}
use mediaferry.Jobs.{JobContext, JobStore, Result, ok, err, assert_lease}
use mediaferry.Uploads.Records.Requests.{
  find, choose, Choice, Source, Asked, is_failed, requeue_row, requeue, existing_in, pair_found,
  create, new_record, is_live_of, pair, pair_targets, pair_all, pair_loaded, load_some,
  check_target, create_pairs,
}
use mediaferry.Uploads.Records.Stacks.{
  Profiles, profile_fits, assert_current, write_or_change, may_stack, stack_as, mark_members,
  mark_stacked, skip_for, mark_skipped, is_broken_in, count_on, reopen_each, counted_by,
  reopen_stacks,
}
use mediaferry.Uploads.Records.Stamps.{
  Stamp, reopen_whole, reopen_changed, stamp_row, is_seen, stamp_reopened, stamp_one, go_on,
  stamp_all, if_leased, stamp_many, stamp_remote_datetime, invalidate_stale, invalidate_old_epoch,
}
use mediaferry.Uploads.Stacking.{is_none, same_id}
use mediaferry.Uploads.Records.{
  State, pending, checking, uploading, asset_known, tagging, fixing_datetime,
  awaiting_datetime_approval, complete, failed, needs_recheck, Row, Fields, record_id, Fault,
  claim_lost, no_lease, bad_row, bad_state, no_longer_eligible, group_changed, destination_changed,
  bad_request, Done, done, raised, left_by, is_claimable, is_terminal, is_awaiting, write, unstack,
  in_stack, locked_cas, no_fields, unclaim, move_to, expiry,
}
use mediaferry.Uploads.Records.Moves.{
  extend_claim, advance_owned, finish_owned, advance, finish, release_to, refuse_row, refuse,
  invalidate_for_group, approve_row, claim_for_approval, suppress, release_from_approval,
  release_interrupted,
}
use mediaferry.Uploads.Records.Claims.{
  Revision, Tables, epoch_fits, may_send, renew, is_eligible, prepare_side_effect, current_revision,
  claimable, is_free_at, check_row, can_check, claimed, claim_row, claim_with, claim_next,
}
use mediaferry.Uploads.Records.Life.{
  Holds, Holds-and_then, Holds-write, Holds-write_one, Holds-write_or_change, Holds-locked_cas,
  Holds-by_lease, IsInvalid, some_stays, Call, claim_call, prepare_call, extend_call,
  advance_owned_call, finish_owned_call, advance_call, finish_call, release_call, refuse_call,
  invalidate_call, approve_call, step_down_call, interrupt_call, create_call, stamp_call,
  datetime_call, stack_call, skip_call, reopen_call, epoch_call, stale_call, is_unique, created_by,
  perform, run,
}

module _ (i : String) where
  -- The record is there and is invalid, whatever the keys.
  abbrev IsThere : List Row → Type 0
  IsThere rows = (r : Row) × (get record_id i rows ≡ some r) × IsInvalid r

  IsThere-requeue : (j : String) (rows : List Row) → IsThere rows → IsThere (requeue j rows)
  IsThere-requeue j rows (r, e, q) = elim (Bool-cases (str_eq r.id j && is_failed r.state)) [
    | inl b ↦ (requeue_row r, found ∙ rw (e, b) refl, q)
    | inr b ↦ (r, found ∙ rw (e, b) refl, q)
  ]
    where
      found :
          get record_id i (requeue j rows)
          ≡ on_row
              (λ x. if str_eq x.id j && is_failed x.state then requeue_row x else x)
              (get record_id i rows)
      found =
          get-update record_id (λ x. str_eq x.id j && is_failed x.state) requeue_row (λ x. refl) i
            rows

  IsThere-append : (rows new : List Row) → IsThere rows → IsThere (rows ++ new)
  IsThere-append rows new (r, e, q) = (r, get-append record_id i rows new ∙ rw e refl, q)

  IsThere-existing_in :
      (state : State) (media : Source) (d : String) (r : Row) (s : Asked)
      → IsThere s.rows
      → IsThere (existing_in state media d r s).1.rows
  IsThere-existing_in complete media d r s h = h
  IsThere-existing_in checking media d r s h = h
  IsThere-existing_in uploading media d r s h = h
  IsThere-existing_in asset_known media d r s h = h
  IsThere-existing_in tagging media d r s h = h
  IsThere-existing_in fixing_datetime media d r s h = h
  IsThere-existing_in awaiting_datetime_approval media d r s h = h
  IsThere-existing_in failed media d r s h = IsThere-requeue r.id s.rows h
  IsThere-existing_in pending media d r s h = h
  IsThere-existing_in needs_recheck media d r s h = h

  IsThere-pair_found :
      (o : Option Row) (now : ℕ) (fresh : String) (media : Source) (d : String) (e : ℕ)
      (choice : Choice) (s : Asked)
      → IsThere s.rows
      → IsThere (pair_found o now fresh media d e choice s).1.rows
  IsThere-pair_found (some r) now fresh media d e choice s h =
      elim (Bool-cases (is_none r.invalidated_at)) [
        | inl b ↦ rw b (IsThere-existing_in r.state media d r s h)
        | inr b ↦ rw b h
      ]
  IsThere-pair_found none now fresh media d e choice s h = made choice.selection_rule
    where
      made : (rule : Option String) → IsThere (create rule now fresh media d e choice s).1.rows
      made none = h
      made (some rule) = IsThere-append s.rows (new_record now fresh media d e rule choice ∷ []) h

  module _ (now : ℕ) (new_id : String → String → String) where
    IsThere-pair_targets :
        (media : Source) (choice : Choice) (targets : List (String × ℕ)) (s : Asked)
        → IsThere s.rows
        → IsThere (pair_targets now new_id media choice targets s).1.rows
    unfolding pair_targets pair
    IsThere-pair_targets media choice [] s h = h
    IsThere-pair_targets media choice ((d, e) ∷ targets) s h =
        IsThere-pair_targets media choice targets
          (pair now (new_id media.id d) media d e choice s).1
          (IsThere-pair_found (find (is_live_of d e media.id) s.rows) now (new_id media.id d) media
            d e choice s h)

    IsThere-pair_all :
        (sources : List Source) (targets : List (String × ℕ)) (s : Asked)
        → IsThere s.rows
        → IsThere (pair_all now new_id sources targets s).1.rows
    unfolding pair_all
    IsThere-pair_all [] targets s h = h
    IsThere-pair_all (media ∷ sources) targets s h =
        IsThere-pair_all sources targets
          (pair_targets now new_id media (choose s.adopted media) targets s).1
          (IsThere-pair_targets media (choose s.adopted media) targets s h)

-- What is left by a later part is as good as what it began with.
Holds-over :
    (i : String) (d : Done) (rows rows' : List Row)
    → Holds IsInvalid i (left_by d rows')
    → Holds IsInvalid i rows
    → Holds IsInvalid i (left_by d rows)
Holds-over i (done r) rows rows' h h0 = h
Holds-over i (raised e) rows rows' h h0 = h0

Holds-mark_members :
    (i : String) (epoch : ℕ) (stack_id : String) (members rows : List Row)
    → Holds IsInvalid i rows
    → Holds IsInvalid i (left_by (mark_members epoch stack_id members rows) rows)
unfolding mark_members
Holds-mark_members i epoch stack_id [] rows h = h
Holds-mark_members i epoch stack_id (m ∷ ms) rows h =
    Holds-and_then IsInvalid i
      (write_or_change (λ r. str_eq r.id m.id && may_stack epoch m r) (stack_as stack_id) rows)
      (mark_members epoch stack_id ms) rows
      (Holds-write_or_change IsInvalid i (λ r. str_eq r.id m.id && may_stack epoch m r)
        (stack_as stack_id) rows (λ r. refl) (λ r q. q) h)
      (λ rows' h'. Holds-mark_members i epoch stack_id ms rows' h') h

Holds-count_on :
    (i : String) (n : ℕ) (d : Done) (k : List Row → ℕ × Done) (rows : List Row)
    → Holds IsInvalid i (left_by d rows)
    → ((rows' : List Row) → Holds IsInvalid i rows' → Holds IsInvalid i (left_by (k rows').1 rows'))
    → Holds IsInvalid i rows
    → Holds IsInvalid i (left_by (count_on n d k).1 rows)
Holds-count_on i n (done rows') k rows h step h0 =
    Holds-over i (k rows').1 rows rows' (step rows' h) h0
Holds-count_on i n (raised e) k rows h step h0 = h0

Holds-reopen_each :
    (i destination_id : String) (epoch : ℕ) (stack_ids : List String) (rows : List Row)
    → Holds IsInvalid i rows
    → Holds IsInvalid i (left_by (reopen_each destination_id epoch stack_ids rows).1 rows)
unfolding reopen_each
Holds-reopen_each i d e [] rows h = h
Holds-reopen_each i d e (stack_id ∷ stack_ids) rows h =
    Holds-count_on i (if ltb 0 (rowcount (is_broken_in d e stack_id) rows) then 1 else 0)
      (write (is_broken_in d e stack_id) unstack rows) (reopen_each d e stack_ids) rows
      (Holds-write IsInvalid i (is_broken_in d e stack_id) unstack rows (λ r. refl) (λ r q. q) h)
      (λ rows' h'. Holds-reopen_each i d e stack_ids rows' h') h

IsInvalid-stamp_row :
    (iso : ℕ → String) (checked_at : ℕ) (s : Stamp) (r : Row)
    → IsInvalid r
    → IsInvalid (stamp_row iso checked_at s r)
IsInvalid-stamp_row iso checked_at s r q = elim (Bool-cases (is_none s.asset_id)) [
  | inl e ↦ rw e (some_stays r.invalidated_at checked_at q)
  | inr e ↦ rw e q
]

module _ (i : String) (iso : ℕ → String) (checked_at : ℕ) where
  Holds-reopen_changed :
      (s : Stamp) (rows : List Row)
      → Holds IsInvalid i rows
      → Holds IsInvalid i (left_by (reopen_changed s rows) rows)
  Holds-reopen_changed s rows h = elim (Bool-cases (same_id s.asset_id s.expect_asset_id)) [
    | inl e ↦ rw e h
    | inr e ↦ rw e (by_row (get record_id s.record_id rows))
  ]
    where
      by_stack :
          (row : Row) (o : Option String)
          → Holds IsInvalid i (
              left_by
                (elim o [
                  | none ↦ done rows
                  | some stack_id ↦
                      write (in_stack row.destination_id row.target_epoch stack_id) unstack rows
                ])
                rows)
      by_stack row none = h
      by_stack row (some stack_id) =
          Holds-write IsInvalid i (in_stack row.destination_id row.target_epoch stack_id) unstack
            rows (λ r. refl) (λ r q. q) h

      by_row : (o : Option Row) → Holds IsInvalid i (left_by (reopen_whole o rows) rows)
      by_row none = h
      by_row (some row) = by_stack row row.remote_stack_id

  Holds-stamp_reopened :
      (s : Stamp) (written : List String) (d : Done) (rows : List Row)
      → Holds IsInvalid i (left_by d rows)
      → Holds IsInvalid i rows
      → Holds IsInvalid i (left_by (stamp_reopened iso checked_at s written d).1 rows)
  Holds-stamp_reopened s written (done rows') rows h h0 =
      Holds-over i (write (is_seen s) (stamp_row iso checked_at s) rows') rows rows'
        (Holds-write IsInvalid i (is_seen s) (stamp_row iso checked_at s) rows' (λ r. refl)
          (IsInvalid-stamp_row iso checked_at s) h)
        h0
  Holds-stamp_reopened s written (raised e) rows h h0 = h0

  Holds-stamp_one :
      (s : Stamp) (written : List String) (rows : List Row)
      → Holds IsInvalid i rows
      → Holds IsInvalid i (left_by (stamp_one iso checked_at s written rows).1 rows)
  unfolding stamp_one
  Holds-stamp_one s written rows h = elim (Bool-cases (any (is_seen s) rows)) [
    | inl e ↦ rw e (
        Holds-stamp_reopened s written (reopen_changed s rows) rows (Holds-reopen_changed s rows h)
          h)
    | inr e ↦ rw e h
  ]

  Holds-go_on :
      (p : List String × Done) (k : List String → List Row → List String × Done) (rows : List Row)
      → Holds IsInvalid i (left_by p.1 rows)
      → ((w : List String) (rows' : List Row)
          → Holds IsInvalid i rows'
          → Holds IsInvalid i (left_by (k w rows').1 rows'))
      → Holds IsInvalid i rows
      → Holds IsInvalid i (left_by (go_on p k).1 rows)
  Holds-go_on (w, done rows') k rows h step h0 =
      Holds-over i (k w rows').1 rows rows' (step w rows' h) h0
  Holds-go_on (w, raised e) k rows h step h0 = h0

  Holds-stamp_all :
      (stamps : List Stamp) (written : List String) (rows : List Row)
      → Holds IsInvalid i rows
      → Holds IsInvalid i (left_by (stamp_all iso checked_at stamps written rows).1 rows)
  unfolding stamp_all
  Holds-stamp_all [] written rows h = h
  Holds-stamp_all (s ∷ stamps) written rows h =
      Holds-go_on (stamp_one iso checked_at s written rows) (stamp_all iso checked_at stamps) rows
        (Holds-stamp_one s written rows h) (λ w rows' h'. Holds-stamp_all stamps w rows' h') h

is_unique-IsKeyed : (rows : List Row) → is_unique rows ≡ true → IsKeyed record_id rows
is_unique-IsKeyed [] h = tt
is_unique-IsKeyed (r ∷ rows) h = (
  no_row (get record_id r.id rows) (ground (arith, h)),
  is_unique-IsKeyed rows (ground (arith, h)),
)
  where
    no_row : (o : Option Row) → is_none o ≡ true → o ≡ none
    no_row none q = refl
    no_row (some x) q = absurd (ground (arith, q))

module _ (i : String) (rows : List Row) (h : Holds IsInvalid i rows) where
  cas_keeps :
      (now : ℕ) (j token : String) (f : Row → Row) (expect : Option State) (strict : Bool)
      (fields : Fields)
      → ((r : Row) → (f r).id ≡ r.id)
      → ((r : Row) → IsInvalid r → IsInvalid (f r))
      → Holds IsInvalid i (left_by (locked_cas now j token f expect strict fields rows) rows)
  cas_keeps now j token f expect strict fields keeps step =
      Holds-locked_cas IsInvalid i (λ r q. q) (λ fs r q. q) now j token f expect strict fields rows
        keeps step h

  Invalid-if :
      (b : Bool) (d : Done)
      → Holds IsInvalid i (left_by d rows)
      → Holds IsInvalid i (left_by (if b then raised bad_state else d) rows)
  Invalid-if true d q = h
  Invalid-if false d q = q

  Invalid-prepare :
      (b : Bool) (d : Done)
      → Holds IsInvalid i (left_by d rows)
      → Holds IsInvalid i (left_by (if b then raised no_longer_eligible else d) rows)
  Invalid-prepare true d q = h
  Invalid-prepare false d q = q

  Invalid-suppress :
      (d : Done)
      → Holds IsInvalid i (left_by d rows)
      → Holds IsInvalid i (left_by (suppress rows d) rows)
  Invalid-suppress (done r) q = q
  Invalid-suppress (raised claim_lost) q = h
  Invalid-suppress (raised no_lease) q = h
  Invalid-suppress (raised bad_row) q = h
  Invalid-suppress (raised bad_state) q = h
  Invalid-suppress (raised no_longer_eligible) q = h
  Invalid-suppress (raised group_changed) q = h
  Invalid-suppress (raised destination_changed) q = h
  Invalid-suppress (raised bad_request) q = h

  Invalid-claimed :
      (j : String) (n : ℕ) (d : Done)
      → Holds IsInvalid i (left_by d rows)
      → Holds IsInvalid i (left_by (claimed j n d).1 rows)
  Invalid-claimed j n (done r) q = q
  Invalid-claimed j n (raised e) q = h

  Invalid-claim_row :
      (now : ℕ) (job token : String) (lease : ℕ) (revision : Revision) (row : Option Row)
      → Holds IsInvalid i (left_by (claim_row now job token lease revision row rows).1 rows)
  Invalid-claim_row now job token lease revision none = h
  Invalid-claim_row now job token lease revision (some row) =
      Invalid-claimed row.id (rowcount (can_check row) rows)
        (write (can_check row) (check_row job token (expiry now lease) revision.id) rows)
        (Holds-write IsInvalid i (can_check row)
          (check_row job token (expiry now lease) revision.id) rows (λ r. refl) (λ r q. q) h)

  Invalid-claim_with :
      (now lease : ℕ) (destination job token : String) (revision : Option Revision)
      → Holds IsInvalid i
          (left_by (claim_with now lease destination job token revision rows).1 rows)
  Invalid-claim_with now lease destination job token none = h
  Invalid-claim_with now lease destination job token (some revision) =
      Invalid-claim_row now job token lease revision (
        first_by (λ r. r.created_at)
          (λ r. claimable destination revision.target_epoch r && is_free_at now r.claim_expires_at)
          rows)

  Invalid-guard :
      (b : Bool) (e : Fault) (d : Done)
      → Holds IsInvalid i (left_by d rows)
      → Holds IsInvalid i (left_by (if b then raised e else d) rows)
  Invalid-guard true e d q = h
  Invalid-guard false e d q = q

  Invalid-current :
      (now : ℕ) (ctx : JobContext) (jobs : JobStore) (t : Tables) (profiles : Profiles) (j : String)
      (epoch : ℕ) (v : String) (d : Done)
      → Holds IsInvalid i (left_by d rows)
      → Holds IsInvalid i (left_by (assert_current now ctx jobs t profiles j epoch v d) rows)
  unfolding assert_current
  Invalid-current now ctx jobs t profiles j epoch v d q =
      Holds-by_lease IsInvalid i (assert_lease now ctx.job_id ctx.lease_token jobs) _ rows h (
        Invalid-guard (not (epoch_fits (current_revision t j) epoch)) destination_changed _
          (Invalid-guard (not (profile_fits profiles v)) group_changed d q))

  Invalid-counted_by :
      (x : Result (Unit {0})) (p : ℕ × Done)
      → Holds IsInvalid i (left_by p.1 rows)
      → Holds IsInvalid i (left_by (counted_by x p).1 rows)
  Invalid-counted_by (ok u) p q = q
  Invalid-counted_by (err e) p q = h

  Invalid-if_leased :
      (x : Result (Unit {0})) (p : List String × Done)
      → Holds IsInvalid i (left_by p.1 rows)
      → Holds IsInvalid i (left_by (if_leased x p).1 rows)
  Invalid-if_leased (ok u) p q = q
  Invalid-if_leased (err e) p q = h

  Invalid-created :
      (now : ℕ) (new_id : String → String → String) (sources : Option (List Source))
      (targets : Option (List (String × ℕ))) (adopted : List String)
      → Holds IsInvalid i (
          left_by
            (created_by
              (pair_loaded now new_id sources targets (record { rows = rows; adopted = adopted })))
            rows)
  Invalid-created now new_id none targets adopted = h
  Invalid-created now new_id (some sources) none adopted = h
  Invalid-created now new_id (some sources) (some targets) adopted =
      elim (Bool-cases (is_unique (pair_all now new_id sources targets start).1.rows)) [
        | inl e ↦ rw e (
          is_unique-IsKeyed (pair_all now new_id sources targets start).1.rows e,
          IsThere-pair_all i now new_id sources targets start h.1,
        )
        | inr e ↦ rw e h
      ]
    where
      start : Asked
      start = record { rows = rows; adopted = adopted }

  perform_keeps : (now : ℕ) (c : Call) → Holds IsInvalid i (left_by (perform now c rows) rows)
  unfolding perform claim_next prepare_side_effect extend_claim advance_owned finish_owned advance
      finish release_to refuse invalidate_for_group claim_for_approval release_from_approval
      release_interrupted create_pairs stamp_many stamp_remote_datetime mark_stacked mark_skipped
      reopen_stacks invalidate_old_epoch invalidate_stale
  perform_keeps now (claim_call lease t destination job token) =
      Invalid-claim_with now lease destination job token (current_revision t destination)
  perform_keeps now (prepare_call lease ctx j e v t jobs) =
      Holds-by_lease IsInvalid i (assert_lease now ctx.job_id ctx.lease_token jobs) _ rows h (
        Invalid-prepare (v && not (is_eligible t (get record_id j rows)))
          (renew now lease ctx j e rows)
          (Holds-write_one IsInvalid i (λ r. str_eq r.id j && may_send now ctx.lease_token e r)
            (λ r. record r { claim_expires_at = some (expiry now lease) }) rows (λ r. refl)
            (λ r q. q) h))
  perform_keeps now (extend_call j token lease) =
      cas_keeps now j token (λ r. record r { claim_expires_at = some (expiry now lease) }) none true
        no_fields (λ r. refl) (λ r q. q)
  perform_keeps now (advance_owned_call ctx j s e fields jobs) =
      Holds-by_lease IsInvalid i (assert_lease now ctx.job_id ctx.lease_token jobs)
        (locked_cas now j ctx.lease_token (move_to s) (some e) true fields rows) rows h
        (cas_keeps now j ctx.lease_token (move_to s) (some e) true fields (λ r. refl) (λ r q. q))
  perform_keeps now (finish_owned_call ctx j s e fields jobs) = Invalid-if (not (is_terminal s)) _ (
      Holds-by_lease IsInvalid i (assert_lease now ctx.job_id ctx.lease_token jobs)
        (locked_cas now j ctx.lease_token (λ r. unclaim (move_to s r)) (some e) true fields rows)
        rows h
        (cas_keeps now j ctx.lease_token (λ r. unclaim (move_to s r)) (some e) true fields
          (λ r. refl) (λ r q. q)))
  perform_keeps now (advance_call j token s e fields) =
      cas_keeps now j token (move_to s) (some e) true fields (λ r. refl) (λ r q. q)
  perform_keeps now (finish_call j token s e fields) = Invalid-if (not (is_terminal s)) _ (
      cas_keeps now j token (λ r. unclaim (move_to s r)) (some e) true fields (λ r. refl)
        (λ r q. q))
  perform_keeps now (release_call j token s fields) =
      Invalid-if (not (is_claimable s)) _ (
        cas_keeps now j token (λ r. unclaim (move_to s r)) none false fields (λ r. refl) (λ r q. q))
  perform_keeps now (refuse_call j token reason) =
      cas_keeps now j token (refuse_row now reason) none false no_fields (λ r. refl)
        (λ r q. some_stays r.invalidated_at now q)
  perform_keeps now (invalidate_call g reason) =
      Holds-write IsInvalid i _
        (λ r. record r { invalidated_at = some now; invalidated_reason = some reason }) rows
        (λ r. refl) (λ r q. refl) h
  perform_keeps now (approve_call j job token lease) =
      Holds-write_one IsInvalid i
        (λ r.
          str_eq r.id j
          && (is_awaiting r.state && is_none r.invalidated_at && is_none r.claim_job_id))
        (approve_row job token (expiry now lease)) rows (λ r. refl) (λ r q. q) h
  perform_keeps now (step_down_call j token) =
      Invalid-suppress
        (locked_cas now j token (λ r. unclaim (move_to awaiting_datetime_approval r)) none false
          no_fields rows)
        (cas_keeps now j token (λ r. unclaim (move_to awaiting_datetime_approval r)) none false
          no_fields (λ r. refl) (λ r q. q))
  perform_keeps now interrupt_call =
      Holds-write IsInvalid i _ (λ r. unclaim (move_to needs_recheck r)) rows (λ r. refl) (λ r q. q)
        h
  perform_keeps now (create_call new_id media_of target_of media_ids destination_ids adopted) =
      Invalid-created now new_id (load_some media_of media_ids)
        (load_some (λ (x : String). check_target (target_of x)) destination_ids) adopted
  perform_keeps now (stamp_call iso ctx jobs stamps checked_at) =
      Invalid-if_leased (assert_lease now ctx.job_id ctx.lease_token jobs) _
        (Holds-stamp_all i iso checked_at stamps [] rows h)
  perform_keeps now (datetime_call iso j date checked_at expect) =
      Holds-write IsInvalid i _ _ rows (λ r. refl) (λ r q. q) h
  perform_keeps now (stack_call ctx jobs t profiles members d e v stack_id) =
      Invalid-current now ctx jobs t profiles d e v _
        (Holds-mark_members i e stack_id members rows h)
  perform_keeps now (skip_call ctx jobs t profiles member d e v reason) =
      Invalid-current now ctx jobs t profiles d e v _
        (Holds-write_or_change IsInvalid i _ (skip_for reason) rows (λ r. refl) (λ r q. q) h)
  perform_keeps now (reopen_call ctx jobs d e stack_ids) =
      Invalid-counted_by (assert_lease now ctx.job_id ctx.lease_token jobs) _
        (Holds-reopen_each i d e stack_ids rows h)
  perform_keeps now (epoch_call d e reason) =
      Holds-write IsInvalid i _ _ rows (λ r. refl) (λ r q. refl) h
  perform_keeps now (stale_call t why) =
      Holds-write IsInvalid i _ _ rows (λ r. refl) (λ r q. refl) h

pub run_keeps :
    (h : List (ℕ × Call)) (i : String) (rows : List Row)
    → Holds IsInvalid i rows
    → Holds IsInvalid i (run h rows)
unfolding run
run_keeps [] i rows q = q
run_keeps ((now, c) ∷ h) i rows q =
    run_keeps h i (left_by (perform now c rows) rows) (perform_keeps i rows q now c)

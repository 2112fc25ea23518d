-- ===== src/Uploads/Records/Requests/Served.antt =====
-- db/uploads.py, `create_pairs`: a pair has one live record at most, and gets one unless it is refused.
use mathlib.Core.Path.{subst}
use mediaferry.Sql.{update}
use mediaferry.Uploads.Stacking.{is_none}
use mediaferry.Uploads.Records.Requests.{
  Source, Target, Choice, Answer, rejected, PairResult, Asked, choose, is_live_of, find, is_failed,
  requeue, existing_in, new_record, create, pair, load_some, check_target, pair_targets, pair_all,
  pair_loaded, create_pairs,
}
use mediaferry.Uploads.Records.{
  State, pending, checking, uploading, asset_known, tagging, fixing_datetime,
  awaiting_datetime_approval, complete, failed, needs_recheck, Row,
}
use mediaferry.Base.{
  ℕ, String, ◌≡◌, refl, sym, ◌∙◌, ◌≢◌, inl, inr, Bool, true, false, not, ◌&&◌, ◌||◌, Option, none,
  some, List, [], ◌∷◌, ◌++◌, arith, str_eq, eq_iff, eq_refl, if◌then◌else◌, Bool-cases,
  Option-cases, any, All, All-imp, All-append,
}

-- No two valid records have one destination, epoch and file.
abbrev pub OneLive : List Row → Type 0
OneLive [] = Unit
OneLive (r ∷ rows) =
    (is_none r.invalidated_at ≡ true
      → any (is_live_of r.destination_id r.target_epoch r.media_file_id) rows ≡ false)
    × OneLive rows

-- A valid record of this file and destination that is done, under way or will be sent.
abbrev pub serves : String → String → String → Row → Bool
serves i d m r =
    (str_eq r.id i && str_eq r.destination_id d)
    && (str_eq r.media_file_id m && (is_none r.invalidated_at && not (is_failed r.state)))

abbrev pub has_record : Option String → String → String → List Row → Bool
has_record none d m rows = false
has_record (some i) d m rows = any (serves i d m) rows

abbrev pub is_rejected : Answer → Bool
is_rejected rejected = true
is_rejected _ = false

-- A refusal names its reason and no record; any other answer names a record that serves the pair.
abbrev pub IsServed : List Row → PairResult → Type 0
IsServed rows p =
    if is_rejected p.result
    then p.reason ≢ none
    else has_record p.record_id p.destination_id p.media_file_id rows ≡ true

find-any : (p : Row → Bool) (rows : List Row) → find p rows ≡ none → any p rows ≡ false
unfolding find
find-any p [] h = refl
find-any p (r ∷ rows) h = ground (arith, h, find-any p rows)

any-append : (p : Row → Bool) (xs ys : List Row) → any p (xs ++ ys) ≡ (any p xs || any p ys)
any-append p [] ys = refl
any-append p (x ∷ xs) ys = ground (arith, any-append p xs ys)

OneLive-append :
    (rows : List Row) (x : Row)
    → any (is_live_of x.destination_id x.target_epoch x.media_file_id) rows ≡ false
    → OneLive rows
    → OneLive (rows ++ (x ∷ []))
OneLive-append [] x n h = ((λ e. refl), tt)
OneLive-append (r ∷ rows) x n h = (
  (λ (e : is_none r.invalidated_at ≡ true). ground (
    arith,
    e,
    n,
    h.0 e,
    any-append (is_live_of r.destination_id r.target_epoch r.media_file_id) rows (x ∷ []),
    eq_iff r.destination_id x.destination_id,
    eq_iff x.destination_id r.destination_id,
    eq_iff r.media_file_id x.media_file_id,
    eq_iff x.media_file_id r.media_file_id,
  )),
  OneLive-append rows x (ground (arith, n)) h.1,
)

live-requeue :
    (i d m : String) (e : ℕ) (rows : List Row)
    → any (is_live_of d e m) (requeue i rows) ≡ any (is_live_of d e m) rows
unfolding update
live-requeue i d m e [] = refl
live-requeue i d m e (r ∷ rows) = elim (Bool-cases (str_eq r.id i && is_failed r.state)) [
  | inl h ↦ rw h (ground (arith, live-requeue i d m e rows))
  | inr h ↦ rw h (ground (arith, live-requeue i d m e rows))
]

OneLive-requeue : (i : String) (rows : List Row) → OneLive rows → OneLive (requeue i rows)
unfolding update
OneLive-requeue i [] h = tt
OneLive-requeue i (r ∷ rows) h = elim (Bool-cases (str_eq r.id i && is_failed r.state)) [
  | inl e ↦ rw e (
    (λ l. live-requeue i r.destination_id r.media_file_id r.target_epoch rows ∙ h.0 l),
    OneLive-requeue i rows h.1,
  )
  | inr e ↦ rw e (
    (λ l. live-requeue i r.destination_id r.media_file_id r.target_epoch rows ∙ h.0 l),
    OneLive-requeue i rows h.1,
  )
]

-- What serves goes on serving.
serves-requeue :
    (j i d m : String) (rows : List Row)
    → any (serves i d m) rows ≡ true
    → any (serves i d m) (requeue j rows) ≡ true
unfolding update
serves-requeue j i d m [] h = h
serves-requeue j i d m (r ∷ rows) h = elim (Bool-cases (str_eq r.id j && is_failed r.state)) [
  | inl e ↦ rw e (ground (arith, e, h, serves-requeue j i d m rows))
  | inr e ↦ rw e (ground (arith, h, serves-requeue j i d m rows))
]

head-serves :
    (d m : String) (e : ℕ) (r : Row) (rows : List Row)
    → is_live_of d e m r ≡ true
    → is_failed r.state ≡ false
    → any (serves r.id d m) (r ∷ rows) ≡ true
head-serves d m e r rows l f = ground (arith, l, f, eq_refl r.id)

head-requeue :
    (d m : String) (e : ℕ) (r : Row) (rows : List Row)
    → is_live_of d e m r ≡ true
    → any (serves r.id d m) (requeue r.id (r ∷ rows)) ≡ true
unfolding update
head-requeue d m e r rows l = elim (Bool-cases (is_failed r.state)) [
  | inl f ↦ rw (eq_refl r.id, f) (ground (arith, l, eq_refl r.id))
  | inr f ↦ rw (eq_refl r.id, f) (ground (arith, l, f, eq_refl r.id))
]

first_is :
    (p : Row → Bool) (r x : Row) (rows : List Row) → find p (x ∷ rows) ≡ some r → p x ≡ true → x ≡ r
unfolding find
first_is p r x rows h l = ground (arith, h, l)

-- The record that was found serves once it has been put back.
found-requeue :
    (d m : String) (e : ℕ) (r : Row) (rows : List Row)
    → find (is_live_of d e m) rows ≡ some r
    → any (serves r.id d m) (requeue r.id rows) ≡ true
unfolding update find
found-requeue d m e r [] h = cc
found-requeue d m e r (x ∷ rows) h = elim (Bool-cases (is_live_of d e m x)) [
  | inl l ↦
      let q : x ≡ r = first_is (is_live_of d e m) r x rows h l in
      subst (λ y. any (serves r.id d m) (requeue r.id (y ∷ rows)) ≡ true) (sym q)
        (head-requeue d m e r rows (subst (λ y. is_live_of d e m y ≡ true) q l))
  | inr l ↦ ground (arith, found-requeue d m e r rows (rest_of x rows l h))
]
  where
    rest_of :
        (x : Row) (rows : List Row)
        → is_live_of d e m x ≡ false
        → find (is_live_of d e m) (x ∷ rows) ≡ some r
        → find (is_live_of d e m) rows ≡ some r
    rest_of x rows l h = ground (arith, l, h)

found-serves :
    (d m : String) (e : ℕ) (r : Row) (rows : List Row)
    → find (is_live_of d e m) rows ≡ some r
    → is_failed r.state ≡ false
    → any (serves r.id d m) rows ≡ true
unfolding find
found-serves d m e r [] h f = cc
found-serves d m e r (x ∷ rows) h f = elim (Bool-cases (is_live_of d e m x)) [
  | inl l ↦
      let q : x ≡ r = first_is (is_live_of d e m) r x rows h l in
      subst (λ y. any (serves r.id d m) (y ∷ rows) ≡ true) (sym q)
        (head-serves d m e r rows (subst (λ y. is_live_of d e m y ≡ true) q l) f)
  | inr l ↦ ground (arith, l, h, found-serves d m e r rows, f)
]

-- A step of the loops keeps the index and what serves.
abbrev pub Extends : List Row → List Row → Type 0
Extends rows rows' =
    (i d m : String) → any (serves i d m) rows ≡ true → any (serves i d m) rows' ≡ true

found-live :
    (d m : String) (e : ℕ) (r : Row) (rows : List Row)
    → find (is_live_of d e m) rows ≡ some r
    → is_live_of d e m r ≡ true
unfolding find
found-live d m e r [] h = cc
found-live d m e r (x ∷ rows) h = elim (Bool-cases (is_live_of d e m x)) [
  | inl l ↦ subst (λ y. is_live_of d e m y ≡ true) (first_is (is_live_of d e m) r x rows h l) l
  | inr l ↦ found-live d m e r rows (ground (arith, l, h))
]

abbrev pub IsStep : Asked → PairResult × Asked → Type 0
IsStep s r = OneLive r.1.rows × Extends s.rows r.1.rows × IsServed r.1.rows r.0

existing_in-IsStep :
    (st : State) (media : Source) (d : String) (e : ℕ) (r : Row) (s : Asked)
    → r.state ≡ st
    → OneLive s.rows
    → find (is_live_of d e media.id) s.rows ≡ some r
    → IsStep s (existing_in st media d r s)
existing_in-IsStep failed media d e r s q h f = (
  OneLive-requeue r.id s.rows h,
  (λ i d' m g. serves-requeue r.id i d' m s.rows g),
  found-requeue d media.id e r s.rows f,
)
existing_in-IsStep pending media d e r s q h f =
    (h, (λ i d' m g. g), found-serves d media.id e r s.rows f (ground (arith, q)))
existing_in-IsStep checking media d e r s q h f =
    (h, (λ i d' m g. g), found-serves d media.id e r s.rows f (ground (arith, q)))
existing_in-IsStep uploading media d e r s q h f =
    (h, (λ i d' m g. g), found-serves d media.id e r s.rows f (ground (arith, q)))
existing_in-IsStep asset_known media d e r s q h f =
    (h, (λ i d' m g. g), found-serves d media.id e r s.rows f (ground (arith, q)))
existing_in-IsStep tagging media d e r s q h f =
    (h, (λ i d' m g. g), found-serves d media.id e r s.rows f (ground (arith, q)))
existing_in-IsStep fixing_datetime media d e r s q h f =
    (h, (λ i d' m g. g), found-serves d media.id e r s.rows f (ground (arith, q)))
existing_in-IsStep awaiting_datetime_approval media d e r s q h f =
    (h, (λ i d' m g. g), found-serves d media.id e r s.rows f (ground (arith, q)))
existing_in-IsStep complete media d e r s q h f =
    (h, (λ i d' m g. g), found-serves d media.id e r s.rows f (ground (arith, q)))
existing_in-IsStep needs_recheck media d e r s q h f =
    (h, (λ i d' m g. g), found-serves d media.id e r s.rows f (ground (arith, q)))

create-IsStep :
    (rule : Option String) (now : ℕ) (fresh : String) (media : Source) (d : String) (e : ℕ)
    (choice : Choice) (s : Asked)
    → OneLive s.rows
    → any (is_live_of d e media.id) s.rows ≡ false
    → IsStep s (create rule now fresh media d e choice s)
create-IsStep none now fresh media d e choice s h n = (h, (λ i d' m g. g), (λ q. cc))
create-IsStep (some rule) now fresh media d e choice s h n =
    let x : Row = new_record now fresh media d e rule choice in
    (
      OneLive-append s.rows x n h,
      (λ i d' m g. any-append (serves i d' m) s.rows (x ∷ []) ∙ rw g refl),
      any-append (serves fresh d media.id) s.rows (x ∷ [])
          ∙ ground (arith, eq_refl fresh, eq_refl d, eq_refl media.id),
    )

pair-IsStep :
    (now : ℕ) (fresh : String) (media : Source) (d : String) (e : ℕ) (choice : Choice) (s : Asked)
    → OneLive s.rows
    → IsStep s (pair now fresh media d e choice s)
unfolding pair
pair-IsStep now fresh media d e choice s h =
    elim (Option-cases (find (is_live_of d e media.id) s.rows)) [
      | inl n ↦ rw n (
          create-IsStep choice.selection_rule now fresh media d e choice s h
            (find-any (is_live_of d e media.id) s.rows n))
      | inr (r, f) ↦
          rw (f, live_none d media.id e r (found-live d media.id e r s.rows f))
            (existing_in-IsStep r.state media d e r s refl h f)
    ]
  where
    live_none :
        (d m : String) (e : ℕ) (r : Row)
        → is_live_of d e m r ≡ true
        → is_none r.invalidated_at ≡ true
    live_none d m e r l = ground (arith, l)

IsServed-Extends :
    (rows rows' : List Row) (p : PairResult)
    → Extends rows rows'
    → IsServed rows p
    → IsServed rows' p
IsServed-Extends rows rows' p x h = elim (Bool-cases (is_rejected p.result)) [
  | inl e ↦ rw e (accepted e)
  | inr e ↦ rw e (served p.record_id (refused_not e))
]
  where
    accepted : is_rejected p.result ≡ true → p.reason ≢ none
    accepted e = rw e at h

    refused_not :
        is_rejected p.result ≡ false
        → has_record p.record_id p.destination_id p.media_file_id rows ≡ true
    refused_not e = rw e at h

    served :
        (o : Option String)
        → has_record o p.destination_id p.media_file_id rows ≡ true
        → has_record o p.destination_id p.media_file_id rows' ≡ true
    served none h = cc
    served (some i) h = x i p.destination_id p.media_file_id h

abbrev pub AreServed : Asked → List PairResult × Asked → Type 0
AreServed s r = OneLive r.1.rows × Extends s.rows r.1.rows × All (IsServed r.1.rows) r.0

module _ (now : ℕ) (new_id : String → String → String) where
  pair_targets-AreServed :
      (media : Source) (choice : Choice) (targets : List (String × ℕ)) (s : Asked)
      → OneLive s.rows
      → AreServed s (pair_targets now new_id media choice targets s)
  unfolding pair_targets
  pair_targets-AreServed media choice [] s h = (h, (λ i d m g. g), tt)
  pair_targets-AreServed media choice ((d, e) ∷ targets) s h =
      let r : PairResult × Asked = pair now (new_id media.id d) media d e choice s in
      let step : IsStep s r = pair-IsStep now (new_id media.id d) media d e choice s h in
      let rest : AreServed r.1 (pair_targets now new_id media choice targets r.1) =
        pair_targets-AreServed media choice targets r.1 step.0 in
      (
        rest.0,
        (λ i d' m g. rest.1 i d' m (step.1 i d' m g)),
        (
          IsServed-Extends r.1.rows (pair_targets now new_id media choice targets r.1).1.rows r.0
              rest.1 step.2,
          rest.2,
        ),
      )

  pair_all-AreServed :
      (sources : List Source) (targets : List (String × ℕ)) (s : Asked)
      → OneLive s.rows
      → AreServed s (pair_all now new_id sources targets s)
  unfolding pair_all
  pair_all-AreServed [] targets s h = (h, (λ i d m g. g), tt)
  pair_all-AreServed (media ∷ sources) targets s h =
      let r : List PairResult × Asked =
        pair_targets now new_id media (choose s.adopted media) targets s in
      let step : AreServed s r =
        pair_targets-AreServed media (choose s.adopted media) targets s h in
      let end : List PairResult × Asked = pair_all now new_id sources targets r.1 in
      let rest : AreServed r.1 end = pair_all-AreServed sources targets r.1 step.0 in
      (
        rest.0,
        (λ i d m g. rest.1 i d m (step.1 i d m g)),
        All-append (IsServed end.1.rows) r.0 end.0
            (All-imp r.0 (λ p q. IsServed-Extends r.1.rows end.1.rows p rest.1 q) step.2) rest.2,
      )

-- What a request comes to: nothing if it is invalid.
abbrev pub IsAnswered : Asked → Option (List PairResult × Asked) → Type 0
IsAnswered s none = Unit
IsAnswered s (some r) = AreServed s r

-- A request keeps at most one valid record for each destination, epoch and file. Each of its answers
-- is a refusal with a reason, or names a valid record of that file and destination that is done,
-- under way or going to be sent, also a failed one, which it puts back; and no record that was one of
-- these stops being so.
pub create_pairs-IsAnswered :
    (now : ℕ) (new_id : String → String → String) (media_of : String → Option Source)
    (target_of : String → Option Target) (media_ids destination_ids : List String) (s : Asked)
    → OneLive s.rows
    → IsAnswered s (create_pairs now new_id media_of target_of media_ids destination_ids s)
unfolding create_pairs
create_pairs-IsAnswered now new_id media_of target_of media_ids destination_ids s h =
    by_loads (load_some media_of media_ids)
      (load_some (λ (i : String). check_target (target_of i)) destination_ids)
  where
    by_loads :
        (sources : Option (List Source)) (targets : Option (List (String × ℕ)))
        → IsAnswered s (pair_loaded now new_id sources targets s)
    by_loads none targets = tt
    by_loads (some sources) none = tt
    by_loads (some sources) (some targets) = pair_all-AreServed now new_id sources targets s h

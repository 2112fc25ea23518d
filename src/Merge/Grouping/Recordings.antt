-- ===== src/Merge/Grouping/Recordings.antt =====
-- What `detect_groups` (app/src/mediaferry/core/merge/grouping.py) promises of its groups.
use mediaferry.Base.{
  ◌*◌, ◌≤◌, ◌≡◌, refl, ◌⊎◌, inl, inr, Bool, true, false, List, [], ◌∷◌, ◌++◌, arith, eq_iff, ltb,
  if◌then◌else◌, Bool-cases, length, keep, All,
}
use mediaferry.Base.Int.{pos, neg, ◌≤ℤ◌, ◌<ℤ◌}
use mediaferry.Profile.{MergeRule}
use mediaferry.Merge.Grouping.{
  gib, micros, MergePart, GroupCandidate, resolution, gap, is_usable, breaks, flush, detect_groups,
}
use mediaferry.Merge.Grouping.Segments.{
  attach, segments, seams, flushes, IsRecording, detect_groups-flushes,
}

-- The conditions of the design: the first part is as large as a split recording's, and the second
-- starts within the tolerance of its end, and before it by less than the resolution.
pub record Continues (rule : MergeRule) (previous following : MergePart) : Type 0 where
  pub probed : previous.probe_state ≡ "ok"
  pub large : rule.min_part_size_gib * gib ≤ previous.size_bytes
  pub no_overlap : neg (pos (resolution previous following)) <ℤ gap previous following
  pub near : gap previous following ≤ℤ pos (rule.tolerance_seconds * micros)

abbrev pub AllContinue : MergeRule → List MergePart → Type 0
AllContinue rule [] = Unit
AllContinue rule (p ∷ []) = Unit
AllContinue rule (p ∷ q ∷ ps) = Continues rule p q × AllContinue rule (q ∷ ps)

Continues-breaks :
    (rule : MergeRule) (p q : MergePart)
    → is_usable p ≡ true
    → breaks rule p q ≡ false
    → Continues rule p q
unfolding is_usable breaks
Continues-breaks rule p q u b = record {
  probed = ground (arith, eq_iff p.probe_state "ok");
  large = ground arith;
  no_overlap = ground arith;
  near = ground arith;
}

AllContinue-IsRecording :
    (rule : MergeRule) (ps : List MergePart) → IsRecording rule ps → AllContinue rule ps
AllContinue-IsRecording rule [] h = tt
AllContinue-IsRecording rule (p ∷ []) h = tt
AllContinue-IsRecording rule (p ∷ q ∷ ps) h =
    (Continues-breaks rule p q h.0 h.1, AllContinue-IsRecording rule (q ∷ ps) h.2)

attach-IsRecording :
    (rule : MergeRule) (p : MergePart) (segs : List (List MergePart))
    → is_usable p ≡ true
    → All (IsRecording rule) segs
    → All (IsRecording rule) (attach rule p segs)
attach-IsRecording rule p [] u h = (u, tt)
attach-IsRecording rule p ([] ∷ segs) u h = (u, h)
attach-IsRecording rule p ((q ∷ seg) ∷ segs) u h = elim (Bool-cases (breaks rule p q)) [
  | inl b ↦ rw b (u, h)
  | inr b ↦ rw b ((u, b, h.0), h.1)
]

segments-IsRecording :
    (rule : MergeRule) (ps : List MergePart) → All (IsRecording rule) (segments rule ps)
unfolding segments
segments-IsRecording rule [] = tt
segments-IsRecording rule (p ∷ ps) = elim (Bool-cases (is_usable p)) [
  | inl u ↦ rw u (attach-IsRecording rule p (segments rule ps) u (segments-IsRecording rule ps))
  | inr u ↦ rw u (tt, segments-IsRecording rule ps)
]

pub record IsGroup (rule : MergeRule) (g : GroupCandidate) : Type 0 where
  pub several : 2 ≤ length g.members
  pub continuous : AllContinue rule g.members
  pub seams_recorded : g.gaps ≡ seams g.members

flushes-IsGroup :
    (rule : MergeRule) (segs : List (List MergePart))
    → All (IsRecording rule) segs
    → All (IsGroup rule) (flushes segs)
unfolding flush
flushes-IsGroup rule [] h = tt
flushes-IsGroup rule (seg ∷ segs) h = elim (Bool-cases (ltb (length seg) 2)) [
  | inl e ↦ rw e (flushes-IsGroup rule segs h.1)
  | inr e ↦ rw e (
    record {
      several = ground arith;
      continuous = AllContinue-IsRecording rule seg h.0;
      seams_recorded = refl;
    },
    flushes-IsGroup rule segs h.1,
  )
]

-- Every group has two members or more, each continues the one before it by the rule's size,
-- tolerance and resolution, and its gaps are those at its seams.
pub detect_groups-IsGroup :
    (parts : List MergePart) (rule : MergeRule) → All (IsGroup rule) (detect_groups parts rule)
detect_groups-IsGroup parts rule = rw (detect_groups-flushes parts rule) (by_enabled rule.enabled)
  where
    by_enabled : (b : Bool) → All (IsGroup rule) (if b then flushes (segments rule parts) else [])
    by_enabled true = flushes-IsGroup rule (segments rule parts) (segments-IsRecording rule parts)
    by_enabled false = tt

abbrev pub join {ℓ} : {A : Type ℓ} → List (List A) → List A
join [] = []
join (xs ∷ xss) = xs ++ join xss

join-attach :
    (rule : MergeRule) (p : MergePart) (segs : List (List MergePart))
    → join (attach rule p segs) ≡ p ∷ join segs
join-attach rule p [] = refl
join-attach rule p ([] ∷ segs) = refl
join-attach rule p ((q ∷ seg) ∷ segs) = ground arith

-- No usable part is lost, repeated or moved by the cut.
pub join-segments :
    (rule : MergeRule) (ps : List MergePart) → join (segments rule ps) ≡ keep is_usable ps
unfolding segments
join-segments rule [] = refl
join-segments rule (p ∷ ps) =
    ground (arith, join-attach rule p (segments rule ps), join-segments rule ps)

-- `a` and `b` stand one after the other in the list.
abbrev pub Adjacent : MergePart → MergePart → List MergePart → Type 0
Adjacent a b [] = ⊥
Adjacent a b (x ∷ []) = ⊥
Adjacent a b (x ∷ y ∷ ys) = (x ≡ a) × (y ≡ b) ⊎ Adjacent a b (y ∷ ys)

abbrev Holds : MergePart → MergePart → List (List MergePart) → Type 0
Holds a b [] = ⊥
Holds a b (seg ∷ segs) = Adjacent a b seg ⊎ Holds a b segs

abbrev pub Grouped : MergePart → MergePart → List GroupCandidate → Type 0
Grouped a b [] = ⊥
Grouped a b (g ∷ gs) = Adjacent a b g.members ⊎ Grouped a b gs

Holds-attach :
    (rule : MergeRule) (a b p : MergePart) (segs : List (List MergePart))
    → Holds a b segs
    → Holds a b (attach rule p segs)
Holds-attach rule a b p [] h = absurd h
Holds-attach rule a b p ([] ∷ segs) (inl n) = absurd n
Holds-attach rule a b p ([] ∷ segs) (inr h) = inr (inr h)
Holds-attach rule a b p ((q ∷ seg) ∷ segs) h = elim (Bool-cases (breaks rule p q)) [
  | inl e ↦ rw e (inr h)
  | inr e ↦ rw e (elim h [ inl n ↦ inl (inr n) | inr m ↦ inr m ])
]

first_pair :
    (rule : MergeRule) (a b : MergePart) (segs : List (List MergePart))
    → breaks rule a b ≡ false
    → Holds a b (attach rule a (attach rule b segs))
first_pair rule a b [] h = rw h (inl (inl (refl, refl)))
first_pair rule a b ([] ∷ segs) h = rw h (inl (inl (refl, refl)))
first_pair rule a b ((q ∷ seg) ∷ segs) h = elim (Bool-cases (breaks rule b q)) [
  | inl e ↦ rw e (rw h (inl (inl (refl, refl))))
  | inr e ↦ rw e (rw h (inl (inl (refl, refl))))
]

module _ (rule : MergeRule) (a b : MergePart) (first_usable : is_usable a ≡ true)
    (second_usable : is_usable b ≡ true) (together : breaks rule a b ≡ false) where
  Holds-segments : (ps : List MergePart) → Adjacent a b ps → Holds a b (segments rule ps)
  unfolding segments
  Holds-segments [] h = absurd h
  Holds-segments (x ∷ []) h = absurd h
  Holds-segments (x ∷ y ∷ ys) (inl (e, f)) =
      rw (e, f)
        (rw first_usable (rw second_usable (first_pair rule a b (segments rule ys) together)))
  Holds-segments (x ∷ y ∷ ys) (inr h) = elim (Bool-cases (is_usable x)) [
    | inl u ↦ rw u (Holds-attach rule a b x (segments rule (y ∷ ys)) (Holds-segments (y ∷ ys) h))
    | inr u ↦ rw u (inr (Holds-segments (y ∷ ys) h))
  ]

  two_or_more : (seg : List MergePart) → Adjacent a b seg → ltb (length seg) 2 ≡ false
  two_or_more [] h = absurd h
  two_or_more (x ∷ []) h = absurd h
  two_or_more (x ∷ y ∷ ys) h = ground arith

  skip_flush :
      (seg : List MergePart) (gs : List GroupCandidate)
      → Grouped a b gs
      → Grouped a b (flush seg (seams seg) ++ gs)
  unfolding flush
  skip_flush seg gs h = elim (Bool-cases (ltb (length seg) 2)) [
    | inl e ↦ rw e h
    | inr e ↦ rw e (inr h)
  ]

  Grouped-flushes : (segs : List (List MergePart)) → Holds a b segs → Grouped a b (flushes segs)
  unfolding flush
  Grouped-flushes [] h = absurd h
  Grouped-flushes (seg ∷ segs) (inl h) = rw (two_or_more seg h) (inl h)
  Grouped-flushes (seg ∷ segs) (inr h) = skip_flush seg (flushes segs) (Grouped-flushes segs h)

  -- Two neighbours of the list that can be used and do not break stand together in one group.
  pub neighbours-Grouped :
      (parts : List MergePart)
      → rule.enabled ≡ true
      → Adjacent a b parts
      → Grouped a b (detect_groups parts rule)
  neighbours-Grouped parts on h =
      rw (detect_groups-flushes parts rule)
        (simp on (Grouped-flushes (segments rule parts) (Holds-segments parts h)))

-- ===== src/Merge/Grouping/Segments.antt =====
-- What a grouping is, without a loop: the list is cut between any two neighbours that break, and
-- around each part that cannot be used.
use mathlib.Core.List.{append_assoc, append-nil}
use mediaferry.Base.{
  ◌≡◌, refl, ap, ◌∙◌, inl, inr, true, false, not, ◌&&◌, some, List, [], ◌∷◌, ◌++◌, arith,
  if◌then◌else◌, Bool-cases,
}
use mediaferry.Base.Int.{ℤ}
use mediaferry.Profile.{MergeRule}
use mediaferry.Merge.Grouping.{
  MergePart, GroupCandidate, gap, is_usable, breaks, flush, get_last?, Scan, scan_part, scan_parts,
  finish_scan, detect_groups,
}

abbrev pub attach : MergeRule → MergePart → List (List MergePart) → List (List MergePart)
attach rule p [] = (p ∷ []) ∷ []
attach rule p ([] ∷ segs) = (p ∷ []) ∷ [] ∷ segs
attach rule p ((q ∷ seg) ∷ segs) =
    if breaks rule p q then (p ∷ []) ∷ (q ∷ seg) ∷ segs else (p ∷ q ∷ seg) ∷ segs

-- The segments of a list, an empty one for each part that cannot be used.
unfoldable pub segments : MergeRule → List MergePart → List (List MergePart)
segments rule [] = []
segments rule (p ∷ ps) =
    if is_usable p then attach rule p (segments rule ps) else [] ∷ segments rule ps

abbrev pub seams : List MergePart → List ℤ
seams [] = []
seams (p ∷ []) = []
seams (p ∷ q ∷ ps) = gap p q ∷ seams (q ∷ ps)

-- The segments of two parts or more.
abbrev pub candidates : List (List MergePart) → List GroupCandidate
candidates [] = []
candidates ([] ∷ segs) = candidates segs
candidates ((p ∷ []) ∷ segs) = candidates segs
candidates ((p ∷ q ∷ ps) ∷ segs) =
    record { members = p ∷ q ∷ ps; gaps = seams (p ∷ q ∷ ps) } ∷ candidates segs

-- The same, as the loop lets them go.
abbrev pub flushes : List (List MergePart) → List GroupCandidate
flushes [] = []
flushes (seg ∷ segs) = flush seg (seams seg) ++ flushes segs

flushes-candidates : (segs : List (List MergePart)) → flushes segs ≡ candidates segs
unfolding flush
flushes-candidates [] = refl
flushes-candidates ([] ∷ segs) = flushes-candidates segs
flushes-candidates ((p ∷ []) ∷ segs) = flushes-candidates segs
flushes-candidates ((p ∷ q ∷ ps) ∷ segs) = ground (arith, flushes-candidates segs)

-- Usable parts of which no neighbours break.
abbrev pub IsRecording : MergeRule → List MergePart → Type 0
IsRecording rule [] = Unit
IsRecording rule (p ∷ []) = is_usable p ≡ true
IsRecording rule (p ∷ q ∷ ps) =
    (is_usable p ≡ true) × (breaks rule p q ≡ false) × IsRecording rule (q ∷ ps)

-- The part behind the last one of a recording does not join it.
abbrev IsWall : MergeRule → MergePart → List MergePart → Type 0
IsWall rule p [] = Unit
IsWall rule p (q ∷ qs) = (is_usable q && not (breaks rule p q)) ≡ false

abbrev last_of : MergePart → List MergePart → MergePart
last_of p [] = p
last_of p (q ∷ ps) = last_of q ps

attach_break :
    (rule : MergeRule) (p q : MergePart) (segs : List (List MergePart))
    → breaks rule p q ≡ true
    → attach rule p (attach rule q segs) ≡ (p ∷ []) ∷ attach rule q segs
attach_break rule p q [] h = ground arith
attach_break rule p q ([] ∷ segs) h = ground arith
attach_break rule p q ((x ∷ seg) ∷ segs) h = ground arith

segments-wall :
    (rule : MergeRule) (p : MergePart) (ps qs : List MergePart)
    → IsRecording rule (p ∷ ps)
    → IsWall rule (last_of p ps) qs
    → segments rule (p ∷ ps ++ qs) ≡ (p ∷ ps) ∷ segments rule qs
unfolding segments
segments-wall rule p [] [] h w = ground arith
segments-wall rule p [] (q ∷ qs) h w = ground (arith, attach_break rule p q (segments rule qs))
segments-wall rule p (x ∷ ps) qs h w = ground (arith, segments-wall rule x ps qs h.2 w)

get_last?-last_of : (p : MergePart) (ps : List MergePart) → get_last? (p ∷ ps) ≡ some (last_of p ps)
get_last?-last_of p [] = refl
get_last?-last_of p (q ∷ ps) = get_last?-last_of q ps

seams-append :
    (p : MergePart) (ps : List MergePart) (x : MergePart)
    → seams ((p ∷ ps) ++ x ∷ []) ≡ seams (p ∷ ps) ++ gap (last_of p ps) x ∷ []
seams-append p [] x = refl
seams-append p (q ∷ ps) x = ap (λ l. gap p q ∷ l) (seams-append q ps x)

IsRecording-append :
    (rule : MergeRule) (p : MergePart) (ps : List MergePart) (x : MergePart)
    → IsRecording rule (p ∷ ps)
    → is_usable x ≡ true
    → breaks rule (last_of p ps) x ≡ false
    → IsRecording rule ((p ∷ ps) ++ x ∷ [])
IsRecording-append rule p [] x h u b = (h, b, u)
IsRecording-append rule p (q ∷ ps) x h u b = (h.0, h.1, IsRecording-append rule q ps x h.2 u b)

-- The loop from an open recording, against the segments of the recording and what follows it.
module _ (rule : MergeRule) where
  abbrev open_scan : List GroupCandidate → List MergePart → Scan
  open_scan gs cur = record { groups = gs; current = cur; gaps = seams cur }

  scan_wall :
      (gs : List GroupCandidate) (p : MergePart) (ps qs : List MergePart)
      → IsRecording rule (p ∷ ps)
      → IsWall rule (last_of p ps) qs
      → (gs ++ flush (p ∷ ps) (seams (p ∷ ps))) ++ flushes (segments rule qs)
        ≡ gs ++ flushes (segments rule (p ∷ ps ++ qs))
  scan_wall gs p ps qs h w =
      rw (segments-wall rule p ps qs h w)
        (append_assoc gs (flush (p ∷ ps) (seams (p ∷ ps))) (flushes (segments rule qs)))

  step_unusable :
      (gs : List GroupCandidate) (cur : List MergePart) (q : MergePart)
      → is_usable q ≡ false
      → scan_part rule (open_scan gs cur) q ≡ open_scan (gs ++ flush cur (seams cur)) []
  unfolding scan_part
  step_unusable gs cur q u = rw u

  step_first :
      (gs : List GroupCandidate) (q : MergePart)
      → is_usable q ≡ true
      → scan_part rule (open_scan gs []) q ≡ open_scan gs (q ∷ [])
  unfolding scan_part
  step_first gs q u = rw u

  step_break :
      (gs : List GroupCandidate) (p : MergePart) (ps : List MergePart) (q : MergePart)
      → is_usable q ≡ true
      → breaks rule (last_of p ps) q ≡ true
      → scan_part rule (open_scan gs (p ∷ ps)) q
        ≡ open_scan (gs ++ flush (p ∷ ps) (seams (p ∷ ps))) (q ∷ [])
  unfolding scan_part
  step_break gs p ps q u b = ground (arith, u, b, get_last?-last_of p ps)

  step_join :
      (gs : List GroupCandidate) (p : MergePart) (ps : List MergePart) (q : MergePart)
      → is_usable q ≡ true
      → breaks rule (last_of p ps) q ≡ false
      → scan_part rule (open_scan gs (p ∷ ps)) q ≡ open_scan gs ((p ∷ ps) ++ q ∷ [])
  unfolding scan_part
  step_join gs p ps q u b = ground (arith, u, b, get_last?-last_of p ps, seams-append p ps q)

  nothing_open :
      (gs : List GroupCandidate) (q : MergePart) (qs : List MergePart)
      → is_usable q ≡ false
      → (gs ++ flush [] []) ++ flushes (segments rule qs) ≡ gs ++ flushes (segments rule (q ∷ qs))
  unfolding flush segments
  nothing_open gs q qs u = rw (u, append-nil gs)

  empty_segment :
      (gs : List GroupCandidate) (p : MergePart) (ps : List MergePart) (q : MergePart)
      (qs : List MergePart)
      → is_usable q ≡ false
      → (gs ++ flush (p ∷ ps) (seams (p ∷ ps))) ++ flushes (segments rule qs)
        ≡ (gs ++ flush (p ∷ ps) (seams (p ∷ ps))) ++ flushes (segments rule (q ∷ qs))
  unfolding segments flush
  empty_segment gs p ps q qs u = rw u

  pub scan-segments :
      (qs : List MergePart) (gs : List GroupCandidate) (cur : List MergePart)
      → IsRecording rule cur
      → finish_scan (scan_parts rule (open_scan gs cur) qs)
        ≡ gs ++ flushes (segments rule (cur ++ qs))
  unfolding scan_parts
  scan-segments [] gs [] h = unfold segments flush in refl
  scan-segments [] gs (p ∷ ps) h =
      rw (segments-wall rule p ps [] h tt)
        (unfold segments in rw (append-nil (flush (p ∷ ps) (seams (p ∷ ps)))))
  scan-segments (q ∷ qs) gs [] h = elim (Bool-cases (is_usable q)) [
    | inl u ↦
        ap (λ s. finish_scan (scan_parts rule s qs)) (step_first gs q u)
        ∙ scan-segments qs gs (q ∷ []) u
    | inr u ↦
        ap (λ s. finish_scan (scan_parts rule s qs)) (step_unusable gs [] q u)
        ∙ scan-segments qs (gs ++ flush [] []) [] tt
        ∙ nothing_open gs q qs u
  ]
  scan-segments (q ∷ qs) gs (p ∷ ps) h = elim (Bool-cases (is_usable q)) [
    | inl u ↦ elim (Bool-cases (breaks rule (last_of p ps) q)) [
      | inl b ↦
          ap (λ s. finish_scan (scan_parts rule s qs)) (step_break gs p ps q u b)
          ∙ scan-segments qs (gs ++ flush (p ∷ ps) (seams (p ∷ ps))) (q ∷ []) u
          ∙ scan_wall gs p ps (q ∷ qs) h (ground (arith, u, b))
      | inr b ↦
          ap (λ s. finish_scan (scan_parts rule s qs)) (step_join gs p ps q u b)
          ∙ scan-segments qs gs ((p ∷ ps) ++ q ∷ []) (IsRecording-append rule p ps q h u b)
          ∙ ap (λ l. gs ++ flushes (segments rule l)) (append_assoc (p ∷ ps) (q ∷ []) qs)
    ]
    | inr u ↦
        ap (λ s. finish_scan (scan_parts rule s qs)) (step_unusable gs (p ∷ ps) q u)
        ∙ scan-segments qs (gs ++ flush (p ∷ ps) (seams (p ∷ ps))) [] tt
        ∙ empty_segment gs p ps q qs u
        ∙ scan_wall gs p ps (q ∷ qs) h (ground (arith, u))
  ]

pub detect_groups-flushes :
    (parts : List MergePart) (rule : MergeRule)
    → detect_groups parts rule ≡ (if rule.enabled then flushes (segments rule parts) else [])
unfolding detect_groups
detect_groups-flushes parts rule = rw (scan-segments rule parts [] [] tt) refl

-- The loop of `detect_groups` finds the segments of two parts or more, with the gaps at their seams.
pub detect_groups-segments :
    (parts : List MergePart) (rule : MergeRule)
    → detect_groups parts rule ≡ (if rule.enabled then candidates (segments rule parts) else [])
detect_groups-segments parts rule =
    detect_groups-flushes parts rule
    ∙ ap (λ gs. if rule.enabled then gs else []) (flushes-candidates (segments rule parts))

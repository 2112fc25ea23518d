-- ===== src/Broker/Observe.antt =====
-- mountd/src/mountd/server.py: the generation that is stamped on a list of volumes. The lock makes the
-- observations a sequence.
use mathlib.Core.Path.{subst}
use mediaferry.Base.{
  ℕ, ◌+◌, ◌≤◌, String, ◌≡◌, refl, sym, ap, ◌∙◌, ◌↔◌, inl, inr, Bool, true, false, ◌&&◌, Option,
  none, some, List, [], ◌∷◌, map, arith, str_eq, ◌==◌, ==_iff, if◌then◌else◌, Bool-cases, length,
  all, All,
}
use mediaferry.Protocol.{VolumeInfo}
use mediaferry.Broker.Mounts.{same_uuid}

pub record Print : Type 0 where
  pub key : String
  pub uuid : Option String
  pub kind : Option String
  pub size : ℕ

abbrev pub print_of : VolumeInfo → Print
print_of v = record { key = v.volume_key; uuid = v.fs_uuid; kind = v.fs_type; size = v.size_bytes }

abbrev pub print_eq : Print → Print → Bool
print_eq a b =
    str_eq a.key b.key && (same_uuid a.uuid b.uuid && (same_uuid a.kind b.kind && a.size == b.size))

abbrev pub times : Print → List Print → ℕ
times x [] = 0
times x (y ∷ ys) = (if print_eq x y then 1 else 0) + times x ys

-- The sorted tuples are equal: each print is there as often in the one as in the other.
abbrev pub same_prints : List Print → List Print → Bool
same_prints xs ys = length xs == length ys && all (λ x. times x xs == times x ys) xs

abbrev pub same_as : Option (List Print) → List Print → Bool
same_as none ys = false
same_as (some xs) ys = same_prints xs ys

-- `generation` and `last` are `_current_generation` and `_last_fingerprint`.
pub record Observer : Type 0 where
  pub broker_epoch : String
  pub generation : ℕ
  pub last : Option (List Print)

abbrev pub stamp : Observer → VolumeInfo → VolumeInfo
stamp o v = record v { broker_epoch = o.broker_epoch; generation = o.generation }

abbrev pub note : List VolumeInfo → Observer → Observer
note volumes o =
    if same_as o.last (map print_of volumes)
    then o
    else record o { last = some (map print_of volumes); generation = o.generation + 1 }

-- `_observe`, over what the lister gives.
unfoldable pub observe : List VolumeInfo → Observer → List VolumeInfo × Observer
observe volumes o = (map (stamp (note volumes o)) volumes, note volumes o)

unfoldable pub observe_all : List (List VolumeInfo) → Observer → Observer
unfolding observe
observe_all [] o = o
observe_all (volumes ∷ rest) o = observe_all rest (observe volumes o).1

note-same :
    (v : List VolumeInfo) (o : Observer) → same_as o.last (map print_of v) ≡ true → note v o ≡ o
note-same v o e = rw e refl

note-new :
    (v : List VolumeInfo) (o : Observer)
    → same_as o.last (map print_of v) ≡ false
    → (note v o).generation ≡ o.generation + 1
note-new v o e = rw e refl

grows : (h : List (List VolumeInfo)) (o : Observer) → o.generation ≤ (observe_all h o).generation
unfolding observe_all observe
grows [] o = omega arith
grows (v ∷ h) o = elim (Bool-cases (same_as o.last (map print_of v))) [
  | inl e ↦
      subst (λ x. o.generation ≤ (observe_all h x).generation) (sym (note-same v o e)) (grows h o)
  | inr e ↦ omega (arith, note-new v o e, grows h (note v o))
]

-- From an observer that has seen these volumes.
stays_iff :
    (ps : List Print) (o : Observer)
    → o.last ≡ some ps
    → (h : List (List VolumeInfo))
    → ((observe_all h o).generation ≡ o.generation)
      ↔ All (λ volumes. same_prints ps (map print_of volumes) ≡ true) h
unfolding observe_all observe
stays_iff ps o seen [] = ((λ _. tt), (λ _. refl))
stays_iff ps o seen (v ∷ h) = elim (Bool-cases (same_prints ps (map print_of v))) [
  | inl e ↦
      subst
        (λ x. ((observe_all h x).generation ≡ o.generation) ↔ (
          (same_prints ps (map print_of v) ≡ true)
          × All (λ volumes. same_prints ps (map print_of volumes) ≡ true) h))
        (sym (note-same v o (ap (λ l. same_as l (map print_of v)) seen ∙ e)))
        ((λ q. (e, (stays_iff ps o seen h).0 q)), (λ q. (stays_iff ps o seen h).1 q.1))
  | inr e ↦ (
    (λ q. absurd (
        ground (
          arith,
          q,
          note-new v o (ap (λ l. same_as l (map print_of v)) seen ∙ e),
          grows h (note v o),
        ))),
    (λ q. absurd (ground (arith, q.0, e))),
  )
]

all-times : (xs ys : List Print) → all (λ x. times x ys == times x ys) xs ≡ true
all-times [] ys = refl
all-times (x ∷ xs) ys = ground (arith, all-times xs ys, ==_iff (times x ys) (times x ys))

same_prints_refl : (ps : List Print) → same_prints ps ps ≡ true
same_prints_refl ps = ground (arith, all-times ps ps, ==_iff (length ps) (length ps))

same_as-some :
    (o : Option (List Print)) (ps : List Print)
    → same_as o ps ≡ true
    → (qs : List Print) × (o ≡ some qs) × (same_prints qs ps ≡ true)
same_as-some none ps h = absurd (ground (arith, h))
same_as-some (some qs) ps h = (qs, refl, h)

noted :
    (v : List VolumeInfo) (o : Observer)
    → (ps : List Print) × ((note v o).last ≡ some ps) × (same_prints ps (map print_of v) ≡ true)
noted v o = elim (Bool-cases (same_as o.last (map print_of v))) [
  | inl e ↦ rw e (same_as-some o.last (map print_of v) e)
  | inr e ↦ rw e (map print_of v, refl, same_prints_refl (map print_of v))
]

-- An observation remembers the volumes that it has found. From then on, the generation stays exactly
-- as long as every observation finds the same ones: a list that changes nothing leaves it, and it
-- does not survive a change, even one that is undone.
pub generation_iff :
    (v : List VolumeInfo) (o : Observer) (h : List (List VolumeInfo))
    → let after = (observe v o).1 in
      (ps : List Print) × (after.last ≡ some ps)
      × (same_prints ps (map print_of v) ≡ true)
      × (((observe_all h after).generation ≡ after.generation)
          ↔ All (λ volumes. same_prints ps (map print_of volumes) ≡ true) h)
unfolding observe
generation_iff v o h =
    let (ps, seen, same) = noted v o in (ps, seen, same, stays_iff ps (note v o) seen h)

-- ===== src/Broker/Server/Tables.antt =====
-- mountd/src/mountd/server.py: what releasing a handle does to the table of the manager.
use mathlib.Core.Path.{subst}
use mediaferry.Base.{
  ℕ, String, ◌≡◌, refl, sym, inl, inr, true, not, Option, none, some, List, [], ◌∷◌, map, arith,
  str_eq, eq_iff, Bool-cases, keep, All,
}
use mediaferry.Broker.Mounts.{Mounted, Manager, find, close_found, release}
use mediaferry.Broker.Server.{owns, discard}

abbrev pub without : String → List Mounted → List Mounted
without h ms = keep (λ x. not (str_eq x.handle h)) ms

abbrev pub names : List Mounted → List String
names ms = map (λ x. x.handle) ms

find-none : (h : String) (ms : List Mounted) → find h ms ≡ none → without h ms ≡ ms
find-none h [] e = refl
find-none h (x ∷ ms) e = ground (arith, e, find-none h ms)

close_found-mounted :
    (o : Option ℕ) (h : String) (m : Manager)
    → (o ≡ none → without h m.mounted ≡ m.mounted)
    → (close_found o h m).mounted ≡ without h m.mounted
close_found-mounted none h m same = sym (same refl)
close_found-mounted (some fd) h m same = refl

-- Releasing a handle takes its entries out, and nothing else.
pub release-mounted : (h : String) (m : Manager) → (release h m).mounted ≡ without h m.mounted
unfolding release
release-mounted h m = close_found-mounted (find h m.mounted) h m (find-none h m.mounted)

-- No entry of `base` has the handle.
abbrev pub Foreign : List Mounted → String → Type 0
Foreign base h = keep (λ x. not (str_eq x.handle h)) base ≡ base

pub names-without : (h : String) (ms : List Mounted) → names (without h ms) ≡ discard h (names ms)
names-without h [] = refl
names-without h (x ∷ ms) = ground (arith, names-without h ms)

pub All-discard :
    (base : List Mounted) (h : String) (hs : List String)
    → All (Foreign base) hs
    → All (Foreign base) (discard h hs)
All-discard base h [] q = tt
All-discard base h (x ∷ hs) q = elim (Bool-cases (str_eq x h)) [
  | inl e ↦ rw e (All-discard base h hs q.1)
  | inr e ↦ rw e (q.0, All-discard base h hs q.1)
]

pub Foreign-owns :
    (base : List Mounted) (h : String) (hs : List String)
    → All (Foreign base) hs
    → owns h hs ≡ true
    → Foreign base h
Foreign-owns base h [] q e = absurd (ground (arith, e))
Foreign-owns base h (x ∷ hs) q e = elim (Bool-cases (str_eq x h)) [
  | inl d ↦ subst (Foreign base) ((eq_iff x h).0 d) q.0
  | inr d ↦ Foreign-owns base h hs q.1 (ground (arith, e, d))
]

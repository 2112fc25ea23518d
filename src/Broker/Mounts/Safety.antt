-- ===== src/Broker/Mounts/Safety.antt =====
-- mountd/src/mountd/mounts.py: what a mount that is handed out has been checked for, and that no
-- descriptor leaks.
use mediaferry.Base.{
  ℕ, String, ◌≡◌, refl, inl, inr, true, false, ◌&&◌, Option, none, some, List, [], ◌∷◌, arith,
  str_eq, Bool-cases, any,
}
use mediaferry.Protocol.{VolumeInfo, VolumeExpect}
use mediaferry.Broker.Mounts.{
  Called, went, os_error, other_error, detach_by, detach_listed, Manager, RunAnswer, succeeded,
  refused, failed, Answers, MountResult, opened, rejected, is_allowed, is_allowed_type, matches,
  matches_observed, drop_name, attach, is_attached, detach_target, open_fd, close_fd, settle,
  detach_and_settle, from_tree, clone, after_run, mount,
}

-- What has held when a handle was given out.
pub record IsVetted (volume : VolumeInfo) (expect : VolumeExpect) (a : Answers) : Type 0 where
  pub allowed : is_allowed expect.fs_type ≡ true
  pub matched : matches volume expect ≡ true
  pub still_there : matches_observed a.observed expect ≡ true
  pub pinned : a.is_pinned ≡ true

dropped : (t : String) (xs : List String) → any (λ x. str_eq x t) (drop_name t xs) ≡ false
dropped t [] = refl
dropped t (x ∷ xs) = ground (arith, dropped t xs)

detach-clean :
    (a : Answers) (target : String) (m : Manager)
    → (detach_target a target m).0 ≡ went
    → is_attached target (detach_target a target m).1 ≡ false
unfolding detach_target
detach-clean a target m h = listed a.lists h
  where
    by :
        (d : Called)
        → (detach_by d target m).0 ≡ went
        → is_attached target (detach_by d target m).1 ≡ false
    by went q = dropped target m.attached
    by os_error q = cc
    by other_error q = cc

    listed :
        (l : Called)
        → (detach_listed l a.detaches target m).0 ≡ went
        → is_attached target (detach_listed l a.detaches target m).1 ≡ false
    listed went q = elim (Bool-cases (is_attached target m)) [
      | inl e ↦ rw e (by a.detaches (rw e at q))
      | inr e ↦ rw e e
    ]
    listed os_error q = cc
    listed other_error q = cc

pub detach-rest :
    (a : Answers) (target : String) (m : Manager)
    → ((detach_target a target m).1.mounted ≡ m.mounted)
      × ((detach_target a target m).1.open_fds ≡ m.open_fds)
unfolding detach_target
detach-rest a target m = listed a.lists
  where
    by :
        (d : Called)
        → ((detach_by d target m).1.mounted ≡ m.mounted)
          × ((detach_by d target m).1.open_fds ≡ m.open_fds)
    by went = (refl, refl)
    by os_error = (refl, refl)
    by other_error = (refl, refl)

    listed :
        (l : Called)
        → ((detach_listed l a.detaches target m).1.mounted ≡ m.mounted)
          × ((detach_listed l a.detaches target m).1.open_fds ≡ m.open_fds)
    listed went = elim (Bool-cases (is_attached target m)) [
      | inl e ↦ rw e (by a.detaches)
      | inr e ↦ rw e (refl, refl)
    ]
    listed os_error = (refl, refl)
    listed other_error = (refl, refl)

module _ (expect : VolumeExpect) (a : Answers) (handle : String) where
  -- What a result that is a handle says.
  abbrev IsGiven : MountResult × Manager → Type 0
  IsGiven r =
      (h : String) (fd : ℕ)
      → r.0 ≡ opened h fd
      → (a.is_pinned ≡ true)
        × (matches_observed a.observed expect ≡ true)
        × (h ≡ handle)
        × (a.dirfd ≡ some fd)
        × (is_attached handle r.1 ≡ false)

  settle-IsGiven :
      (dirfd : ℕ) (m : Manager)
      → a.dirfd ≡ some dirfd
      → is_attached handle m ≡ false
      → IsGiven (settle expect a handle dirfd m)
  settle-IsGiven dirfd m d gone h fd said = elim (Bool-cases a.checks) [
    | inr c ↦ absurd (ground (arith, said, c))
    | inl c ↦ elim (Bool-cases (a.is_pinned && matches_observed a.observed expect)) [
      | inl e ↦ ground (arith, said, c, e, d, gone)
      | inr e ↦ absurd (ground (arith, said, c, e))
    ]
  ]

  detached-IsGiven :
      (dirfd : ℕ) (p : Called × Manager)
      → a.dirfd ≡ some dirfd
      → (p.0 ≡ went → is_attached handle p.1 ≡ false)
      → IsGiven (detach_and_settle expect a handle dirfd p)
  detached-IsGiven dirfd (went, m) d gone = settle-IsGiven dirfd m d (gone refl)
  detached-IsGiven dirfd (os_error, m) d gone = λ h fd said. absurd (ground (arith, said))
  detached-IsGiven dirfd (other_error, m) d gone = λ h fd said. absurd (ground (arith, said))

  from_tree-IsGiven :
      (tree : ℕ) (o : Option ℕ) (m : Manager)
      → a.dirfd ≡ o
      → IsGiven (from_tree expect a handle tree o m)
  from_tree-IsGiven tree none m d = λ h fd said. absurd (ground (arith, said))
  from_tree-IsGiven tree (some dirfd) m d =
      detached-IsGiven dirfd (detach_target a handle (close_fd tree (open_fd dirfd m))) d
        (detach-clean a handle (close_fd tree (open_fd dirfd m)))

  clone-IsGiven : (o : Option ℕ) (m : Manager) → IsGiven (clone expect a handle o m)
  clone-IsGiven none m = λ h fd said. absurd (ground (arith, said))
  clone-IsGiven (some tree) m = from_tree-IsGiven tree a.dirfd (open_fd tree m) refl

  after_run-IsGiven : (r : RunAnswer) (m : Manager) → IsGiven (after_run expect a handle r m)
  after_run-IsGiven succeeded m = clone-IsGiven a.tree_fd m
  after_run-IsGiven refused m = λ h fd said. absurd (ground (arith, said))
  after_run-IsGiven failed m = λ h fd said. absurd (ground (arith, said))

-- A handle is given out only for a volume of an allowed type that is the expected one, before and
-- after the mount, whose clone has no way out; it is the fresh one, its descriptor is the
-- clone's, and no copy is left attached under its name.
pub mount-opened :
    (volume : VolumeInfo) (expect : VolumeExpect) (a : Answers) (handle : String) (m : Manager)
    (h : String) (fd : ℕ)
    → (mount volume expect a handle m).0 ≡ opened h fd
    → IsVetted volume expect a
      × (h ≡ handle)
      × (a.dirfd ≡ some fd)
      × (is_attached handle (mount volume expect a handle m).1 ≡ false)
unfolding mount
mount-opened volume expect a handle m h fd said =
    elim (Bool-cases
      (is_allowed expect.fs_type && (is_allowed_type volume.fs_type && matches volume expect))) [
        | inr e ↦ absurd (not_opened (rw e refl))
        | inl e ↦ rw e (
            let (pin, seen, name, clone_fd, gone) =
              after_run-IsGiven expect a handle a.run (attach handle a.attaches m) h fd (runs e) in
            (
              record {
                allowed = ground (arith, e);
                matched = ground (arith, e);
                still_there = seen;
                pinned = pin;
              },
              name,
              clone_fd,
              gone,
            ))
      ]
  where
    not_opened : (mount volume expect a handle m).0 ≡ rejected → ⊥
    not_opened q = ground (arith, said, q)

    runs :
        (is_allowed expect.fs_type && (is_allowed_type volume.fs_type && matches volume expect))
          ≡ true
        → (after_run expect a handle a.run (attach handle a.attaches m)).0 ≡ opened h fd
    runs e = ground (arith, said, e)

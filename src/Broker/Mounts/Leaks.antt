-- ===== src/Broker/Mounts/Leaks.antt =====
-- mountd/src/mountd/mounts.py: which descriptors and handles a call leaves.
use mediaferry.Base.{
  ℕ, String, ◌≡◌, refl, ap, ◌∙◌, ◌≢◌, inl, inr, Bool, false, ◌&&◌, Option, none, some, List, [],
  ◌∷◌, arith, ◌==◌, Bool-cases, any,
}
use mediaferry.Protocol.{VolumeInfo, VolumeExpect}
use mediaferry.Broker.Mounts.{
  Called, went, os_error, other_error, detach_by, detach_listed, is_attached, Mounted, Manager,
  RunAnswer, succeeded, refused, failed, Answers, MountResult, opened, is_allowed, is_allowed_type,
  matches, matches_observed, drop_fd, attach, detach_target, open_fd, close_fd, settle,
  detach_and_settle, from_tree, clone, after_run, mount,
}
use mediaferry.Broker.Mounts.Safety.{detach-rest}

abbrev pub has_fd : ℕ → List ℕ → Bool
has_fd fd xs = any (λ x. x == fd) xs

-- The descriptors and the handles that a result says are there.
abbrev pub fds_with : MountResult → List ℕ → List ℕ
fds_with (opened h fd) fds = fd ∷ fds
fds_with _ fds = fds

abbrev pub mounted_with : MountResult → List Mounted → List Mounted
mounted_with (opened h fd) ms = record { handle = h; dirfd = fd } ∷ ms
mounted_with _ ms = ms

drop_fd-absent : (fd : ℕ) (xs : List ℕ) → has_fd fd xs ≡ false → drop_fd fd xs ≡ xs
drop_fd-absent fd [] h = refl
drop_fd-absent fd (x ∷ xs) h = ground (arith, drop_fd-absent fd xs)

-- The descriptors that the kernel gives are not open yet, and they are two.
pub record IsFresh (a : Answers) (m : Manager) : Type 0 where
  pub tree_fresh : (t : ℕ) → a.tree_fd ≡ some t → has_fd t m.open_fds ≡ false
  pub dir_fresh : (d : ℕ) → a.dirfd ≡ some d → has_fd d m.open_fds ≡ false
  pub two : (t d : ℕ) → a.tree_fd ≡ some t → a.dirfd ≡ some d → d ≢ t

module _ (expect : VolumeExpect) (a : Answers) (handle : String) (fds : List ℕ)
    (ms : List Mounted) where
  abbrev IsTidy : MountResult × Manager → Type 0
  IsTidy r = (r.1.open_fds ≡ fds_with r.0 fds) × (r.1.mounted ≡ mounted_with r.0 ms)

  abbrev Open : List ℕ → Manager → Type 0
  Open xs m = (m.open_fds ≡ xs) × (m.mounted ≡ ms)

  settle-IsTidy :
      (d : ℕ) (m : Manager)
      → has_fd d fds ≡ false
      → Open (d ∷ fds) m
      → IsTidy (settle expect a handle d m)
  settle-IsTidy d m new (o, q) = elim (Bool-cases a.checks) [
    | inr c ↦ rw c (ap (drop_fd d) o ∙ drop_self, q)
    | inl c ↦ elim (Bool-cases (a.is_pinned && matches_observed a.observed expect)) [
      | inl e ↦ rw (c, e) (o, ap (λ x. record { handle = handle; dirfd = d } ∷ x) q)
      | inr e ↦ rw (c, e) (ap (drop_fd d) o ∙ drop_self, q)
    ]
  ]
    where
      drop_self : drop_fd d (d ∷ fds) ≡ fds
      drop_self = ground (arith, drop_fd-absent d fds)

  detached-IsTidy :
      (d : ℕ) (p : Called × Manager)
      → p.0 ≢ other_error
      → has_fd d fds ≡ false
      → Open (d ∷ fds) p.1
      → IsTidy (detach_and_settle expect a handle d p)
  detached-IsTidy d (other_error, m) n new o = absurd (n refl)
  detached-IsTidy d (went, m) n new o = settle-IsTidy d m new o
  detached-IsTidy d (os_error, m) n new (o, q) = (ap (drop_fd d) o ∙ drop_self, q)
    where
      drop_self : drop_fd d (d ∷ fds) ≡ fds
      drop_self = ground (arith, drop_fd-absent d fds)

  Open-detach : (xs : List ℕ) (m : Manager) → Open xs m → Open xs (detach_target a handle m).1
  Open-detach xs m (o, q) = ((detach-rest a handle m).1 ∙ o, (detach-rest a handle m).0 ∙ q)

  from_tree-IsTidy :
      (t : ℕ) (o : Option ℕ) (m : Manager)
      → has_fd t fds ≡ false
      → ((d : ℕ) → o ≡ some d → (has_fd d fds ≡ false) × (d ≢ t))
      → Open (t ∷ fds) m
      → ((m' : Manager) → (detach_target a handle m').0 ≢ other_error)
      → IsTidy (from_tree expect a handle t o m)
  from_tree-IsTidy t none m new fresh (o, q) n =
      Open-detach fds (close_fd t m) (ap (drop_fd t) o ∙ drop_self, q)
    where
      drop_self : drop_fd t (t ∷ fds) ≡ fds
      drop_self = ground (arith, drop_fd-absent t fds)
  from_tree-IsTidy t (some d) m new fresh (o, q) n =
      detached-IsTidy d (detach_target a handle (close_fd t (open_fd d m)))
        (n (close_fd t (open_fd d m))) (fresh d refl).0
        (Open-detach (d ∷ fds) (close_fd t (open_fd d m))
          (ap (λ x. drop_fd t (d ∷ x)) o ∙ drop_second, q))
    where
      drop_second : drop_fd t (d ∷ t ∷ fds) ≡ d ∷ fds
      drop_second = ground (arith, drop_fd-absent t fds, (fresh d refl).1)

  clone-IsTidy :
      (t : Option ℕ) (m : Manager)
      → ((x : ℕ) → t ≡ some x → has_fd x fds ≡ false)
      → ((x d : ℕ) → t ≡ some x → a.dirfd ≡ some d → (has_fd d fds ≡ false) × (d ≢ x))
      → Open fds m
      → ((m' : Manager) → (detach_target a handle m').0 ≢ other_error)
      → IsTidy (clone expect a handle t m)
  clone-IsTidy none m new fresh o n = Open-detach fds m o
  clone-IsTidy (some t) m new fresh (o, q) n =
      from_tree-IsTidy t a.dirfd (open_fd t m) (new t refl) (λ d e. fresh t d refl e)
        (ap (λ x. t ∷ x) o, q) n

detach-answer :
    (a : Answers) (handle : String)
    → a.lists ≢ other_error
    → a.detaches ≢ other_error
    → (m : Manager) → (detach_target a handle m).0 ≢ other_error
unfolding detach_target
detach-answer a handle l d m = listed a.lists l
  where
    by : (x : Called) → x ≢ other_error → (detach_by x handle m).0 ≢ other_error
    by went n = n
    by os_error n = n
    by other_error n = n

    listed : (x : Called) → x ≢ other_error → (detach_listed x a.detaches handle m).0 ≢ other_error
    listed went n = elim (Bool-cases (is_attached handle m)) [
      | inl e ↦ rw e (by a.detaches d)
      | inr e ↦ rw e n
    ]
    listed os_error n = n
    listed other_error n = n

-- Whatever fails on the way, a mount leaves the descriptors and the handles that were there, and one
-- descriptor and one handle more exactly if it gives them out; the listing of the mount points and
-- the detaching raise nothing but `OSError`, and the kernel gives descriptors that were not open.
pub mount-IsTidy :
    (volume : VolumeInfo) (expect : VolumeExpect) (a : Answers) (handle : String) (m : Manager)
    → IsFresh a m
    → a.lists ≢ other_error
    → a.detaches ≢ other_error
    → let r = mount volume expect a handle m in
      (r.1.open_fds ≡ fds_with r.0 m.open_fds) × (r.1.mounted ≡ mounted_with r.0 m.mounted)
unfolding mount
mount-IsTidy volume expect a handle m fresh l d =
    elim (Bool-cases
      (is_allowed expect.fs_type && (is_allowed_type volume.fs_type && matches volume expect))) [
        | inl e ↦ rw e (runs a.run)
        | inr e ↦ rw e (refl, refl)
      ]
  where
    m1 : Manager
    m1 = attach handle a.attaches m

    runs :
        (r : RunAnswer)
        → IsTidy expect a handle m.open_fds m.mounted (after_run expect a handle r m1)
    runs succeeded =
        clone-IsTidy expect a handle m.open_fds m.mounted a.tree_fd m1 fresh.tree_fresh
          (λ x y e g. (fresh.dir_fresh y g, fresh.two x y e g)) (refl, refl)
          (detach-answer a handle l d)
    runs refused = Open-detach expect a handle m.open_fds m.mounted m.open_fds m1 (refl, refl)
    runs failed = Open-detach expect a handle m.open_fds m.mounted m.open_fds m1 (refl, refl)

module _ (expect : VolumeExpect) (a : Answers) (handle : String) (ms : List Mounted) where
  abbrev Keeps : MountResult × Manager → Type 0
  Keeps r = r.1.mounted ≡ mounted_with r.0 ms

  settle-Keeps : (d : ℕ) (m : Manager) → m.mounted ≡ ms → Keeps (settle expect a handle d m)
  settle-Keeps d m q = elim (Bool-cases a.checks) [
    | inr c ↦ rw c q
    | inl c ↦ elim (Bool-cases (a.is_pinned && matches_observed a.observed expect)) [
      | inl e ↦ rw (c, e) (ap (λ x. record { handle = handle; dirfd = d } ∷ x) q)
      | inr e ↦ rw (c, e) q
    ]
  ]

  detached-Keeps :
      (d : ℕ) (p : Called × Manager)
      → p.1.mounted ≡ ms
      → Keeps (detach_and_settle expect a handle d p)
  detached-Keeps d (went, m) q = settle-Keeps d m q
  detached-Keeps d (os_error, m) q = q
  detached-Keeps d (other_error, m) q = q

  tree-Keeps :
      (t : ℕ) (o : Option ℕ) (m : Manager)
      → m.mounted ≡ ms
      → Keeps (from_tree expect a handle t o m)
  tree-Keeps t none m q = (detach-rest a handle (close_fd t m)).0 ∙ q
  tree-Keeps t (some d) m q =
      detached-Keeps d (detach_target a handle (close_fd t (open_fd d m)))
        ((detach-rest a handle (close_fd t (open_fd d m))).0 ∙ q)

  clone-Keeps : (o : Option ℕ) (m : Manager) → m.mounted ≡ ms → Keeps (clone expect a handle o m)
  clone-Keeps none m q = (detach-rest a handle m).0 ∙ q
  clone-Keeps (some t) m q = tree-Keeps t a.dirfd (open_fd t m) q

  run-Keeps : (r : RunAnswer) (m : Manager) → m.mounted ≡ ms → Keeps (after_run expect a handle r m)
  run-Keeps succeeded m q = clone-Keeps a.tree_fd m q
  run-Keeps refused m q = (detach-rest a handle m).0 ∙ q
  run-Keeps failed m q = (detach-rest a handle m).0 ∙ q

-- A mount adds the handle that it gives out to the table, and changes nothing else there.
pub mount-mounted :
    (volume : VolumeInfo) (expect : VolumeExpect) (a : Answers) (handle : String) (m : Manager)
    → let r = mount volume expect a handle m in r.1.mounted ≡ mounted_with r.0 m.mounted
unfolding mount
mount-mounted volume expect a handle m =
    elim (Bool-cases
      (is_allowed expect.fs_type && (is_allowed_type volume.fs_type && matches volume expect))) [
        | inl e ↦ rw e (run-Keeps expect a handle m.mounted a.run (attach handle a.attaches m) refl)
        | inr e ↦ rw e refl
      ]

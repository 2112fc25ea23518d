-- ===== src/Broker/Server/Ends.antt =====
-- mountd/src/mountd/server.py: a connection that has ended owns nothing.
use mathlib.Core.Path.{subst}
use mediaferry.Broker.Server.Tables.{
  without, names, release-mounted, Foreign, names-without, All-discard, Foreign-owns,
}
use mediaferry.Broker.Mounts.Safety.{mount-opened}
use mediaferry.Base.{
  ℕ, String, ◌≡◌, refl, sym, ap, ◌∙◌, inl, inr, Bool, true, false, not, Option, none, some, List,
  [], ◌∷◌, ◌++◌, arith, str_eq, eq_iff, eq_refl, Bool-cases, All, All-imp, keep-append,
}
use mediaferry.Protocol.{VolumeInfo, VolumeExpect, expect_from_wire}
use mediaferry.Broker.Mounts.{
  Mounted, Manager, Answers, MountResult, opened, rejected, mount_failed, mount, release,
}
use mediaferry.Broker.Mounts.Leaks.{mounted_with, mount-mounted}
use mediaferry.Broker.Observe.{Observer, observe}
use mediaferry.Broker.Server.Told.{dispatch-Told}
use mediaferry.Broker.Server.{
  Request, list_volumes, open_volume, close_volume, unknown_type, with_fds, malformed, hung_up,
  Reply, volumes_reply, handle_reply, closed_reply, bad_request, unknown_volume, rejected_reply,
  mount_failed_reply, unknown_handle, Connection, volume_at, owns, discard, verify, take_over,
  open_found, open_expected, do_open, do_close, unsent, is_last, dispatch, serve, release_handles,
  handle_connection,
}

module _ (base : List Mounted) where
  -- The table is what the connection owns, then what was there.
  record Owns (c : Connection) : Type 0 where
    own : List Mounted
    table : c.manager.mounted ≡ own ++ base
    named : names own ≡ c.handles
    foreign : All (Foreign base) c.handles

  dropped_table :
      (h : String) (m : Manager) (own : List Mounted)
      → m.mounted ≡ own ++ base
      → Foreign base h
      → (release h m).mounted ≡ without h own ++ base
  dropped_table h m own e f =
      release-mounted h m
      ∙ (ap (without h) e
          ∙ (keep-append (λ x. not (str_eq x.handle h)) own base ∙ ap (λ b. without h own ++ b) f))

  Owns-release :
      (h : String) (c : Connection)
      → Foreign base h
      → Owns c
      → Owns (record c { manager = release h c.manager; handles = discard h c.handles })
  Owns-release h c f o = record {
    own = without h o.own;
    table = dropped_table h c.manager o.own o.table f;
    named = names-without h o.own ∙ ap (discard h) o.named;
    foreign = All-discard base h c.handles o.foreign;
  }

  Owns-take_over :
      (r : MountResult × Manager) (c : Connection)
      → r.1.mounted ≡ mounted_with r.0 c.manager.mounted
      → ((h : String) (fd : ℕ) → r.0 ≡ opened h fd → Foreign base h)
      → Owns c
      → Owns (take_over r c).1
  Owns-take_over (opened h fd, m) c e f o = record {
    own = record { handle = h; dirfd = fd } ∷ o.own;
    table = e ∙ ap (λ x. record { handle = h; dirfd = fd } ∷ x) o.table;
    named = ap (λ x. h ∷ x) o.named;
    foreign = (f h fd refl, o.foreign);
  }
  Owns-take_over (rejected, m) c e f o = record {
    own = o.own;
    table = e ∙ o.table;
    named = o.named;
    foreign = o.foreign;
  }
  Owns-take_over (mount_failed, m) c e f o = record {
    own = o.own;
    table = e ∙ o.table;
    named = o.named;
    foreign = o.foreign;
  }

  Owns-watch : (c : Connection) (o : Observer) → Owns c → Owns (record c { observer = o })
  Owns-watch c o q = record { own = q.own; table = q.table; named = q.named; foreign = q.foreign }

  Owns-open_found :
      (v : Option VolumeInfo) (key : String) (expect : VolumeExpect)
      (again : Option (List VolumeInfo)) (a : Answers) (handle : String) (c : Connection)
      → Foreign base handle
      → Owns c
      → Owns (open_found v key expect again a handle c).1
  Owns-open_found none key expect again a handle c f o = o
  Owns-open_found (some volume) key expect again a handle c f o =
      let a' = record a { observed = (verify key again c.observer).0 } in
      Owns-take_over (mount volume expect a' handle c.manager)
        (record c { observer = (verify key again c.observer).1 })
        (mount-mounted volume expect a' handle c.manager)
        (λ h fd e.
          subst (Foreign base) (sym (mount-opened volume expect a' handle c.manager h fd e).1) f)
        (Owns-watch c (verify key again c.observer).1 o)

  Owns-open :
      (e : Option VolumeExpect) (key : String) (volumes : List VolumeInfo)
      (again : Option (List VolumeInfo)) (a : Answers) (handle : String) (c : Connection)
      → Foreign base handle
      → Owns c
      → Owns (open_expected e key volumes again a handle c).1
  Owns-open none key volumes again a handle c f o = o
  Owns-open (some expect) key volumes again a handle c f o =
      Owns-open_found (volume_at key (observe volumes c.observer).0) key expect again a handle
        (record c { observer = (observe volumes c.observer).1 }) f
        (Owns-watch c (observe volumes c.observer).1 o)

  -- A request brings a handle that is not in the table.
  abbrev pub IsNew : Request → Type 0
  IsNew (open_volume key e volumes again a handle) = Foreign base handle
  IsNew _ = Unit

  Owns-close : (h : Option String) (c : Connection) → Owns c → Owns (do_close h c).1
  unfolding do_close
  Owns-close none c o = o
  Owns-close (some h) c o = elim (Bool-cases (owns h c.handles)) [
    | inl e ↦ rw e (Owns-release h c (Foreign-owns base h c.handles o.foreign e) o)
    | inr e ↦ rw e o
  ]

  Owns-dispatch : (r : Request) (c : Connection) → IsNew r → Owns c → Owns (dispatch r c).1
  unfolding dispatch do_open
  Owns-dispatch (list_volumes volumes) c n o = Owns-watch c (observe volumes c.observer).1 o
  Owns-dispatch (open_volume none e volumes again a handle) c n o = o
  Owns-dispatch (open_volume (some key) e volumes again a handle) c n o =
      Owns-open (expect_from_wire e) key volumes again a handle c n o
  Owns-dispatch (close_volume h) c n o = Owns-close h c o
  Owns-dispatch unknown_type c n o = o
  Owns-dispatch with_fds c n o = o
  Owns-dispatch malformed c n o = o
  Owns-dispatch hung_up c n o = o

  released :
      (hs : List String) (own : List Mounted) (m : Manager)
      → m.mounted ≡ own ++ base
      → All (Foreign base) hs
      → All (λ x. owns x.handle hs ≡ true) own
      → (release_handles hs m).mounted ≡ base
  released [] [] m e f q = e
  released [] (x ∷ own) m e f q = absurd (ground (arith, q.0))
  released (h ∷ hs) own m e f q =
      released hs (without h own) (release h m) (dropped_table h m own e f.0) f.1 (left own q)
    where
      left :
          (ms : List Mounted)
          → All (λ x. owns x.handle (h ∷ hs) ≡ true) ms
          → All (λ x. owns x.handle hs ≡ true) (without h ms)
      left [] t = tt
      left (x ∷ ms) t = elim (Bool-cases (str_eq x.handle h)) [
        | inl d ↦ rw d (left ms t.1)
        | inr d ↦ rw d (ground (arith, t.0, d, eq_iff x.handle h, eq_iff h x.handle), left ms t.1)
      ]

  Owns-unsent :
      (r : Reply) (c : Connection)
      → Owns c
      → ((h : String) (fd : ℕ) → r ≡ handle_reply h fd → owns h c.handles ≡ true)
      → Owns (unsent r c)
  Owns-unsent (handle_reply h fd) c o f =
      Owns-release h c (Foreign-owns base h c.handles o.foreign (f h fd refl)) o
  Owns-unsent (volumes_reply v) c o f = o
  Owns-unsent closed_reply c o f = o
  Owns-unsent bad_request c o f = o
  Owns-unsent unknown_volume c o f = o
  Owns-unsent rejected_reply c o f = o
  Owns-unsent mount_failed_reply c o f = o
  Owns-unsent unknown_handle c o f = o

  Owns-serve :
      (rs : List (Request × Bool)) (c : Connection)
      → All (λ r. IsNew r.0) rs
      → Owns c
      → Owns (serve rs c)
  unfolding serve
  Owns-serve [] c n o = o
  Owns-serve ((r, sent) ∷ rs) c n o = elim (Bool-cases (is_last r)) [
    | inl e ↦ rw e o
    | inr e ↦ elim (Bool-cases sent) [
      | inl d ↦ rw e (rw d (Owns-serve rs (dispatch r c).1 n.1 (Owns-dispatch r c n.0 o)))
      | inr d ↦ rw e (
          rw d (
            Owns-unsent (dispatch r c).0 (dispatch r c).1 (Owns-dispatch r c n.0 o)
              (dispatch-Told r c)))
    ]
  ]

owned_names : (ms : List Mounted) → All (λ x. owns x.handle (names ms) ≡ true) ms
owned_names [] = tt
owned_names (x ∷ ms) =
    (ground (arith, eq_refl x.handle), All-imp ms (λ y q. ground (arith, q)) (owned_names ms))

-- However a connection goes, the table of the manager is at its end what it was at its start, if the
-- handles that are given out are new.
pub handle_connection-releases :
    (authorized : Bool) (rs : List (Request × Bool)) (m : Manager) (o : Observer)
    → All (λ r. IsNew m.mounted r.0) rs
    → (handle_connection authorized rs m o).mounted ≡ m.mounted
unfolding handle_connection
handle_connection-releases false rs m o n = refl
handle_connection-releases true rs m o n =
    let q =
      Owns-serve m.mounted rs (record { manager = m; observer = o; handles = [] }) n
        (record { own = []; table = refl; named = refl; foreign = tt }) in
    released m.mounted (serve rs (record { manager = m; observer = o; handles = [] })).handles q.own
      (serve rs (record { manager = m; observer = o; handles = [] })).manager q.table q.foreign
      (subst (λ hs. All (λ x. owns x.handle hs ≡ true) q.own) q.named (owned_names q.own))

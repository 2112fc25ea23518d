-- ===== src/Broker/Server/Told.antt =====
-- mountd/src/mountd/server.py: the handle in a reply is the connection's.
use mediaferry.Base.{ℕ, String, ◌≡◌, true, Option, none, some, List, arith, eq_refl}
use mediaferry.Protocol.{VolumeInfo, VolumeExpect, expect_from_wire}
use mediaferry.Broker.Mounts.{Manager, Answers, MountResult, opened, rejected, mount_failed, mount}
use mediaferry.Broker.Observe.{observe}
use mediaferry.Broker.Server.{
  Request, list_volumes, open_volume, close_volume, unknown_type, with_fds, malformed, hung_up,
  Reply, handle_reply, Connection, volume_at, owns, verify, take_over, open_found, open_expected,
  do_open, do_close, dispatch,
}

-- A reply that has a handle: the connection owns it.
abbrev pub Told : Reply × Connection → Type 0
Told r = (h : String) (fd : ℕ) → r.0 ≡ handle_reply h fd → owns h r.1.handles ≡ true

take_over-Told : (r : MountResult × Manager) (c : Connection) → Told (take_over r c)
take_over-Told (opened h fd, m) c = λ g fd' e. ground (arith, e, eq_refl g)
take_over-Told (rejected, m) c = λ g fd e. absurd (ground (arith, e))
take_over-Told (mount_failed, m) c = λ g fd e. absurd (ground (arith, e))

open_found-Told :
    (v : Option VolumeInfo) (key : String) (expect : VolumeExpect)
    (again : Option (List VolumeInfo)) (a : Answers) (handle : String) (c : Connection)
    → Told (open_found v key expect again a handle c)
open_found-Told none key expect again a handle c = λ g fd e. absurd (ground (arith, e))
open_found-Told (some volume) key expect again a handle c =
    take_over-Told
      (mount volume expect (record a { observed = (verify key again c.observer).0 }) handle
        c.manager)
      (record c { observer = (verify key again c.observer).1 })

open-Told :
    (e : Option VolumeExpect) (key : String) (volumes : List VolumeInfo)
    (again : Option (List VolumeInfo)) (a : Answers) (handle : String) (c : Connection)
    → Told (open_expected e key volumes again a handle c)
open-Told none key volumes again a handle c = λ g fd e. absurd (ground (arith, e))
open-Told (some expect) key volumes again a handle c =
    open_found-Told (volume_at key (observe volumes c.observer).0) key expect again a handle
      (record c { observer = (observe volumes c.observer).1 })

close-Told : (h : Option String) (c : Connection) → Told (do_close h c)
unfolding do_close
close-Told none c = λ g fd e. absurd (ground (arith, e))
close-Told (some h) c = λ g fd e. absurd (ground (arith, e))

pub dispatch-Told : (r : Request) (c : Connection) → Told (dispatch r c)
unfolding dispatch do_open
dispatch-Told (list_volumes volumes) c = λ g fd e. absurd (ground (arith, e))
dispatch-Told (open_volume none e volumes again a handle) c = λ g fd q. absurd (ground (arith, q))
dispatch-Told (open_volume (some key) e volumes again a handle) c =
    open-Told (expect_from_wire e) key volumes again a handle c
dispatch-Told (close_volume h) c = close-Told h c
dispatch-Told unknown_type c = λ g fd e. absurd (ground (arith, e))
dispatch-Told with_fds c = λ g fd e. absurd (ground (arith, e))
dispatch-Told malformed c = λ g fd e. absurd (ground (arith, e))
dispatch-Told hung_up c = λ g fd e. absurd (ground (arith, e))

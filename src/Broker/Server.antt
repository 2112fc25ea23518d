-- ===== src/Broker/Server.antt =====
-- mountd/src/mountd/server.py: one connection of the broker, from the first request to its end. What the
-- lister, the kernel and the peer do is part of each request; the connections of other peers are
-- not modelled.
pub mod Told
pub mod Tables
pub mod Ends
use mediaferry.Base.{
  ℕ, zero, suc, ◌+◌, ◌-◌, ◌*◌, ◌/◌, ◌%◌, ◌^◌, ◌≤◌, ◌<◌, min, max, String, ◌≡◌, refl, sym, ap, ◌∙◌,
  ◌≢◌, ◌↔◌, ◌⊎◌, inl, inr, Bool, true, false, not, ◌&&◌, ◌||◌, Option, none, some, List, [], ◌∷◌,
  ◌++◌, map, arith, str_eq, eq_iff, eq_refl, ltb, leb, ◌==◌, if◌then◌else◌, ltb→lt, lt→ltb, leb→le,
  ==_iff, tests, Bool-cases, Option-cases, length, get_elem?, length-append, any, all, keep, All,
  All-imp, keep-append, All-append, Some, Apart, Apart-append, any-false, false-any,
}
use mediaferry.Protocol.{
  Json, null, other, boolean, number, text, object, Fields, end, field, UsbInfo, VolumeInfo,
  VolumeExpect, at, or_null, usb_to_wire, volume_to_wire, expect_to_wire, as_text, as_number,
  as_optional, usb_fields, lift_usb, usb_from_wire, volume_fields, volume_from_wire, expect_keys,
  all_known, expect_fields, expect_from_wire,
}
use mediaferry.Broker.Mounts.{
  Mounted, Manager, RunAnswer, succeeded, refused, failed, Answers, MountResult, opened, rejected,
  mount_failed, is_allowed, is_allowed_type, same_uuid, has_type, matches, matches_observed,
  drop_name, drop_fd, attach, is_attached, detach_target, open_fd, close_fd, settle,
  detach_and_settle, from_tree, clone, after_run, mount, find, close_found, release, release_each,
  release_all,
}
use mediaferry.Broker.Observe.{
  Print, print_of, print_eq, times, same_prints, same_as, Observer, stamp, note, observe,
  observe_all, generation_iff,
}

-- `open_volume` has the key and the expectation of the request, what the lister gives, what it gives
-- when it is asked again during the mount (`none` if it is not), the kernel's answers, and the
-- fresh handle.
pub data Request : Type 0 where
  list_volumes : List VolumeInfo → Request
  open_volume :
      Option String → Json → List VolumeInfo → Option (List VolumeInfo) → Answers → String → Request
  close_volume : Option String → Request
  unknown_type with_fds malformed hung_up : Request

pub data Reply : Type 0 where
  volumes_reply : List VolumeInfo → Reply
  handle_reply : String → ℕ → Reply
  closed_reply : Reply
  bad_request unknown_volume rejected_reply mount_failed_reply unknown_handle : Reply

pub record Connection : Type 0 where
  pub manager : Manager
  pub observer : Observer
  pub handles : List String

-- `{v.volume_key: v for v in volumes}.get(key)`: the last one of a key.
unfoldable pub volume_at : String → List VolumeInfo → Option VolumeInfo
volume_at key [] = none
volume_at key (v ∷ vs) =
    let rest = volume_at key vs in
    elim rest [ some w ↦ some w | none ↦ if str_eq v.volume_key key then some v else none ]

abbrev pub owns : String → List String → Bool
owns handle handles = any (λ x. str_eq x handle) handles

abbrev pub discard : String → List String → List String
discard handle handles = keep (λ x. not (str_eq x handle)) handles

abbrev pub verify : String → Option (List VolumeInfo) → Observer → Option VolumeInfo × Observer
verify key none o = (none, o)
verify key (some volumes) o = (volume_at key (observe volumes o).0, (observe volumes o).1)

-- The handle is the connection's from here on.
abbrev pub take_over : MountResult × Manager → Connection → Reply × Connection
take_over (opened h fd, m) c =
    (handle_reply h fd, record c { manager = m; handles = h ∷ c.handles })
take_over (rejected, m) c = (rejected_reply, record c { manager = m })
take_over (mount_failed, m) c = (mount_failed_reply, record c { manager = m })

abbrev pub open_found :
    Option VolumeInfo
    → String
    → VolumeExpect
    → Option (List VolumeInfo)
    → Answers
    → String
    → Connection
    → Reply × Connection
open_found none key expect again a handle c = (unknown_volume, c)
open_found (some volume) key expect again a handle c =
    take_over
      (mount volume expect (record a { observed = (verify key again c.observer).0 }) handle
        c.manager)
      (record c { observer = (verify key again c.observer).1 })

abbrev pub open_expected :
    Option VolumeExpect
    → String
    → List VolumeInfo
    → Option (List VolumeInfo)
    → Answers
    → String
    → Connection
    → Reply × Connection
open_expected none key volumes again a handle c = (bad_request, c)
open_expected (some expect) key volumes again a handle c =
    open_found (volume_at key (observe volumes c.observer).0) key expect again a handle
      (record c { observer = (observe volumes c.observer).1 })

unfoldable pub do_open :
    Option String
    → Json
    → List VolumeInfo
    → Option (List VolumeInfo)
    → Answers
    → String
    → Connection
    → Reply × Connection
unfolding volume_at observe mount
do_open none expect volumes again a handle c = (bad_request, c)
do_open (some key) expect volumes again a handle c =
    open_expected (expect_from_wire expect) key volumes again a handle c

unfoldable pub do_close : Option String → Connection → Reply × Connection
unfolding release
do_close none c = (unknown_handle, c)
do_close (some handle) c = if not (owns handle c.handles) then (unknown_handle, c) else (
  closed_reply,
  record c { manager = release handle c.manager; handles = discard handle c.handles },
)

-- The peer did not get the reply: a handle that it does not know is released.
abbrev pub unsent : Reply → Connection → Connection
unsent (handle_reply h fd) c = record c {
  manager = release h c.manager;
  handles = discard h c.handles;
}
unsent _ c = c

abbrev pub is_last : Request → Bool
is_last malformed = true
is_last hung_up = true
is_last _ = false

unfoldable pub dispatch : Request → Connection → Reply × Connection
unfolding do_open do_close observe
dispatch (list_volumes volumes) c = (
  volumes_reply (observe volumes c.observer).0,
  record c { observer = (observe volumes c.observer).1 },
)
dispatch (open_volume key expect volumes again a handle) c =
    do_open key expect volumes again a handle c
dispatch (close_volume handle) c = do_close handle c
dispatch _ c = (bad_request, c)

-- The loop: it ends after a request that cannot be read, or when a reply cannot be written.
unfoldable pub serve : List (Request × Bool) → Connection → Connection
unfolding dispatch
serve [] c = c
serve ((request, sent) ∷ rest) c =
    let (reply, c') = dispatch request c in
    let more = serve rest c' in
    if is_last request then c else if sent then more else unsent reply c'

abbrev pub release_handles : List String → Manager → Manager
release_handles [] m = m
release_handles (h ∷ hs) m = release_handles hs (release h m)

-- `handle_connection`, the `finally` included; a peer that may not connect is turned away at once.
unfoldable pub handle_connection : Bool → List (Request × Bool) → Manager → Observer → Manager
unfolding serve release
handle_connection authorized requests m o =
    if not authorized
    then m
    else (let c = serve requests (record { manager = m; observer = o; handles = [] }) in
        release_handles c.handles c.manager)

-- ===== src/Broker/Mounts.antt =====
-- mountd/src/mountd/mounts.py: the manager of detached, read-only mounts. What kernel and library answer
-- to one call is a record; a call that the source does not reach does not read its answer.
pub mod Safety
pub mod Leaks
use mediaferry.Base.{
  ℕ, zero, suc, ◌+◌, ◌-◌, ◌*◌, ◌/◌, ◌%◌, ◌^◌, ◌≤◌, ◌<◌, min, max, String, ◌≡◌, refl, sym, ap, ◌∙◌,
  ◌≢◌, ◌↔◌, ◌⊎◌, inl, inr, Bool, true, false, not, ◌&&◌, ◌||◌, Option, none, some, List, [], ◌∷◌,
  ◌++◌, map, arith, str_eq, eq_iff, eq_refl, ltb, leb, ◌==◌, if◌then◌else◌, ltb→lt, lt→ltb, leb→le,
  ==_iff, tests, Bool-cases, Option-cases, length, get_elem?, length-append, any, all, keep, All,
  All-imp, keep-append, All-append, Some, Apart, Apart-append, any-false, false-any,
}
use mediaferry.Protocol.{
  Json, null, other, boolean, number, text, object, Fields, end, field, UsbInfo, VolumeInfo,
  VolumeExpect, at, or_null, usb_to_wire, volume_to_wire, expect_to_wire, as_text, as_number,
  as_optional, usb_fields, lift_usb, usb_from_wire, volume_fields, volume_from_wire, expect_keys,
  all_known, expect_fields, expect_from_wire,
}

pub record Mounted : Type 0 where
  pub handle : String
  pub dirfd : ℕ

-- `attached` are the mount points below the root, `open_fds` the descriptors of this process.
pub record Manager : Type 0 where
  pub mounted : List Mounted
  pub attached : List String
  pub open_fds : List ℕ

-- `failed` raises and `refused` is a return code that is not 0; either may have attached the target.
pub data RunAnswer : Type 0 where
  succeeded refused failed : RunAnswer

-- A call goes through, or raises `OSError` or something else.
pub data Called : Type 0 where
  went os_error other_error : Called

-- `checks` is whether neither the check of the pin nor the second look at the volume raises.
pub record Answers : Type 0 where
  pub run : RunAnswer
  pub attaches : Bool
  pub lists : Called
  pub detaches : Called
  pub checks : Bool
  pub tree_fd : Option ℕ
  pub dirfd : Option ℕ
  pub is_pinned : Bool
  pub observed : Option VolumeInfo

-- `rejected` is `MountRejected`, `mount_failed` is `MountFailed` or what a call has raised.
pub data MountResult : Type 0 where
  opened : String → ℕ → MountResult
  rejected mount_failed : MountResult

-- ALLOWED_FS_TYPES
abbrev pub is_allowed : String → Bool
is_allowed t = str_eq t "exfat" || str_eq t "vfat"

abbrev pub is_allowed_type : Option String → Bool
is_allowed_type none = false
is_allowed_type (some t) = is_allowed t

abbrev pub same_uuid : Option String → Option String → Bool
same_uuid none none = true
same_uuid (some a) (some b) = str_eq a b
same_uuid _ _ = false

abbrev pub has_type : Option String → String → Bool
has_type none t = false
has_type (some s) t = str_eq s t

unfoldable pub matches : VolumeInfo → VolumeExpect → Bool
matches volume expect =
    volume.major == expect.major
    && (volume.minor == expect.minor
        && (same_uuid volume.fs_uuid expect.fs_uuid
            && (has_type volume.fs_type expect.fs_type
                && (str_eq volume.broker_epoch expect.broker_epoch
                    && volume.generation == expect.generation))))

abbrev pub matches_observed : Option VolumeInfo → VolumeExpect → Bool
matches_observed none expect = false
matches_observed (some v) expect = matches v expect

abbrev pub drop_name : String → List String → List String
drop_name t xs = keep (λ x. not (str_eq x t)) xs

abbrev pub drop_fd : ℕ → List ℕ → List ℕ
drop_fd fd xs = keep (λ x. not (x == fd)) xs

abbrev pub attach : String → Bool → Manager → Manager
attach target it_did m = record m { attached = if it_did then target ∷ m.attached else m.attached }

abbrev pub is_attached : String → Manager → Bool
is_attached target m = any (λ x. str_eq x target) m.attached

abbrev pub detach_by : Called → String → Manager → Called × Manager
detach_by went target m = (went, record m { attached = drop_name target m.attached })
detach_by os_error target m = (os_error, m)
detach_by other_error target m = (other_error, m)

abbrev pub detach_listed : Called → Called → String → Manager → Called × Manager
detach_listed went detaches target m =
    if is_attached target m then detach_by detaches target m else (went, m)
detach_listed os_error detaches target m = (os_error, m)
detach_listed other_error detaches target m = (other_error, m)

-- `_detach_target`: how it ends, and what it leaves.
unfoldable pub detach_target : Answers → String → Manager → Called × Manager
detach_target a target m = detach_listed a.lists a.detaches target m

abbrev pub open_fd : ℕ → Manager → Manager
open_fd fd m = record m { open_fds = fd ∷ m.open_fds }

-- `os.close`, whose errors are suppressed.
abbrev pub close_fd : ℕ → Manager → Manager
close_fd fd m = record m { open_fds = drop_fd fd m.open_fds }

abbrev pub settle : VolumeExpect → Answers → String → ℕ → Manager → MountResult × Manager
settle expect a handle dirfd m =
    if not a.checks
    then (mount_failed, close_fd dirfd m)
    else if a.is_pinned && matches_observed a.observed expect
    then (
      opened handle dirfd,
      record m { mounted = record { handle = handle; dirfd = dirfd } ∷ m.mounted },
    )
    else (rejected, close_fd dirfd m)

-- From the detached descriptor on: the copy that is still attached must go. Only an `OSError` of its
-- detaching closes the descriptor.
abbrev pub detach_and_settle :
    VolumeExpect → Answers → String → ℕ → Called × Manager → MountResult × Manager
detach_and_settle expect a handle dirfd (went, m) = settle expect a handle dirfd m
detach_and_settle expect a handle dirfd (os_error, m) = (mount_failed, close_fd dirfd m)
detach_and_settle expect a handle dirfd (other_error, m) = (mount_failed, m)

-- `dirfd_from_tree`; the descriptor of the tree is closed either way.
abbrev pub from_tree :
    VolumeExpect → Answers → String → ℕ → Option ℕ → Manager → MountResult × Manager
from_tree expect a handle tree none m = (mount_failed, (detach_target a handle (close_fd tree m)).1)
from_tree expect a handle tree (some dirfd) m =
    detach_and_settle expect a handle dirfd
      (detach_target a handle (close_fd tree (open_fd dirfd m)))

abbrev pub clone : VolumeExpect → Answers → String → Option ℕ → Manager → MountResult × Manager
clone expect a handle none m = (mount_failed, (detach_target a handle m).1)
clone expect a handle (some tree) m = from_tree expect a handle tree a.dirfd (open_fd tree m)

abbrev pub after_run : VolumeExpect → Answers → String → RunAnswer → Manager → MountResult × Manager
after_run expect a handle succeeded m = clone expect a handle a.tree_fd m
after_run expect a handle refused m = (mount_failed, (detach_target a handle m).1)
after_run expect a handle failed m = (mount_failed, (detach_target a handle m).1)

-- `handle` is the fresh name, which is also that of the target below the root.
unfoldable pub mount :
    VolumeInfo → VolumeExpect → Answers → String → Manager → MountResult × Manager
unfolding matches detach_target
mount volume expect a handle m =
    if is_allowed expect.fs_type && (is_allowed_type volume.fs_type && matches volume expect)
    then after_run expect a handle a.run (attach handle a.attaches m)
    else (rejected, m)

abbrev pub find : String → List Mounted → Option ℕ
find handle [] = none
find handle (x ∷ xs) = if str_eq x.handle handle then some x.dirfd else find handle xs

abbrev pub close_found : Option ℕ → String → Manager → Manager
close_found none handle m = m
close_found (some fd) handle m = record (close_fd fd m) {
  mounted = keep (λ x. not (str_eq x.handle handle)) m.mounted;
}

unfoldable pub release : String → Manager → Manager
release handle m = close_found (find handle m.mounted) handle m

abbrev pub release_each : List Mounted → Manager → Manager
release_each [] m = m
release_each (x ∷ xs) m = release_each xs (release x.handle m)

unfoldable pub release_all : Manager → Manager
unfolding release
release_all m = release_each m.mounted m

-- ===== src/Broker/Tests.antt =====
-- Runs of the mount manager and of the broker.
use mediaferry.Base.{
  String, ◌≡◌, refl, ◌↔◌, Bool, true, false, none, some, List, [], ◌∷◌, map, arith, All,
}
use mediaferry.Protocol.{VolumeInfo, VolumeExpect, expect_to_wire}
use mediaferry.Broker.Mounts.{
  went, other_error, Manager, succeeded, Answers, opened, matches, is_attached, detach_target,
  mount,
}
use mediaferry.Broker.Mounts.Safety.{IsVetted, mount-opened}
use mediaferry.Broker.Mounts.Leaks.{fds_with, mounted_with, IsFresh, mount-IsTidy}
use mediaferry.Broker.Observe.{
  Print, observe, print_of, same_prints, Observer, observe_all, generation_iff,
}
use mediaferry.Broker.Server.{
  Request, list_volumes, open_volume, close_volume, hung_up, handle_connection,
}
use mediaferry.Broker.Server.Ends.{handle_connection-releases}

abbrev card : VolumeInfo
card = record {
  volume_key = "8:1";
  device_node = "/dev/sda1";
  major = 8;
  minor = 1;
  sysfs_path = "/sys/block/sda/sda1";
  fs_type = some "exfat";
  fs_uuid = some "A-1";
  fs_label = none;
  size_bytes = 64_000_000;
  usb = none;
  broker_epoch = "e";
  generation = 1;
}

abbrev wanted : VolumeExpect
wanted = record {
  major = 8;
  minor = 1;
  fs_uuid = some "A-1";
  fs_type = "exfat";
  broker_epoch = "e";
  generation = 1;
}

abbrev fine : Answers
fine = record {
  run = succeeded;
  attaches = true;
  lists = went;
  detaches = went;
  checks = true;
  tree_fd = some 7;
  dirfd = some 8;
  is_pinned = true;
  observed = some card;
}

abbrev idle : Manager
idle = record { mounted = []; attached = []; open_fds = 3 ∷ [] }

opens : (mount card wanted fine "h" idle).0 ≡ opened "h" 8
unfolding mount matches detach_target
opens = refl

mount-opened_example :
    IsVetted card wanted fine
    × (◌≡◌ {A = String} "h" "h")
    × (fine.dirfd ≡ some 8)
    × (is_attached "h" (mount card wanted fine "h" idle).1 ≡ false)
mount-opened_example = mount-opened card wanted fine "h" idle "h" 8 opens

fresh : IsFresh fine idle
fresh = record {
  tree_fresh = λ t e. ground (arith, e);
  dir_fresh = λ d e. ground (arith, e);
  two = λ t d e q. ground (arith, e, q);
}

mount-IsTidy_example :
    ((mount card wanted fine "h" idle).1.open_fds
      ≡ fds_with (mount card wanted fine "h" idle).0 (3 ∷ []))
    × ((mount card wanted fine "h" idle).1.mounted
        ≡ mounted_with (mount card wanted fine "h" idle).0 [])
mount-IsTidy_example =
    mount-IsTidy card wanted fine "h" idle fresh (λ e. ground (arith, e)) (λ e. ground (arith, e))

-- An error of the list of mount points that is no `OSError` leaves the descriptor open.
odd_list_leaks :
    (mount card wanted (record fine { lists = other_error }) "h" idle).1.open_fds ≡ 8 ∷ 3 ∷ []
unfolding mount matches detach_target
odd_list_leaks = refl

abbrev watching : Observer
watching = record { broker_epoch = "e"; generation = 1; last = none }

generation_iff_example :
    let after = (observe (card ∷ []) watching).1 in
    (ps : List Print) × (after.last ≡ some ps)
    × (same_prints ps (print_of card ∷ []) ≡ true)
    × (((observe_all ((card ∷ []) ∷ [] ∷ (card ∷ []) ∷ []) after).generation ≡ after.generation)
        ↔ All
            (λ volumes. same_prints ps (map print_of volumes) ≡ true)
            ((card ∷ []) ∷ [] ∷ (card ∷ []) ∷ []))
generation_iff_example = generation_iff (card ∷ []) watching ((card ∷ []) ∷ [] ∷ (card ∷ []) ∷ [])

abbrev session : List (Request × Bool)
session =
    (list_volumes (card ∷ []), true)
    ∷ (
      open_volume (some "8:1") (expect_to_wire wanted) (card ∷ []) (some (card ∷ [])) fine "h",
      true,
    )
    ∷ (close_volume (some "other"), true)
    ∷ (hung_up, true)
    ∷ []

handle_connection-releases_example : (handle_connection true session idle watching).mounted ≡ []
handle_connection-releases_example =
    handle_connection-releases true session idle watching (tt, (refl, (tt, (tt, tt))))

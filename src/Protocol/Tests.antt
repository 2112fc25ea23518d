-- ===== src/Protocol/Tests.antt =====
-- Runs of the message readers.
use mediaferry.Base.{◌≡◌, none, some}
use mediaferry.Protocol.{VolumeInfo, volume_to_wire, volume_from_wire}
use mediaferry.Protocol.RoundTrip.{volume_from_wire-to_wire}

abbrev card : VolumeInfo
card = record {
  volume_key = "8:1";
  device_node = "/dev/sda1";
  major = 8;
  minor = 1;
  sysfs_path = "/sys/block/sda/sda1";
  fs_type = some "exfat";
  fs_uuid = some "A-1";
  fs_label = none;
  size_bytes = 64_000_000;
  usb =
      some (record { vendor_id = "2ca3"; product_id = "0020"; product = none; serial = some "1" });
  broker_epoch = "e";
  generation = 3;
}

volume_from_wire-to_wire_example : volume_from_wire (volume_to_wire card) ≡ some card
volume_from_wire-to_wire_example = volume_from_wire-to_wire card

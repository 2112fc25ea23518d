-- ===== src/Protocol/RoundTrip.antt =====
-- protocol/src/mediaferry_protocol/messages.py: what is written is read back.
use mediaferry.Base.{String, ◌≡◌, refl, Option, none, some}
use mediaferry.Protocol.{
  UsbInfo, VolumeInfo, VolumeExpect, or_null, usb_to_wire, volume_to_wire, expect_to_wire,
  as_optional, usb_from_wire, volume_fields, volume_from_wire, expect_fields, expect_from_wire,
}

abbrev pub as_or_null : (o : Option String) → as_optional (some (or_null o)) ≡ some o
as_or_null none = refl
as_or_null (some s) = refl

usb-round : (u : Option UsbInfo) → usb_from_wire (some (usb_to_wire u)) ≡ some u
unfolding usb_from_wire usb_to_wire
usb-round none = refl
usb-round (some u) = rw (as_or_null u.product) (rw (as_or_null u.serial) refl)

-- Whatever description of a volume the broker sends, the application reads the same one.
pub volume_from_wire-to_wire : (v : VolumeInfo) → volume_from_wire (volume_to_wire v) ≡ some v
unfolding volume_from_wire volume_to_wire volume_fields
volume_from_wire-to_wire v =
    rw (as_or_null v.fs_type)
      (rw (as_or_null v.fs_uuid) (rw (as_or_null v.fs_label) (rw (usb-round v.usb) refl)))

-- Whatever the application expects of a volume, the broker reads the same.
expect_from_wire-to_wire : (e : VolumeExpect) → expect_from_wire (expect_to_wire e) ≡ some e
unfolding expect_from_wire expect_to_wire expect_fields
expect_from_wire-to_wire e = rw (as_or_null e.fs_uuid) refl

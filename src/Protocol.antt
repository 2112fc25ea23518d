-- ===== src/Protocol.antt =====
-- protocol/src/mediaferry_protocol/messages.py: what broker and application say to each other. A JSON
-- number is a whole number that is not negative, as device numbers, sizes and generations are;
-- any other JSON value is `other`. An object has each key once.
pub mod RoundTrip
mod Tests
use mediaferry.Base.{
  ℕ, zero, suc, ◌+◌, ◌-◌, ◌*◌, ◌/◌, ◌%◌, ◌^◌, ◌≤◌, ◌<◌, min, max, String, ◌≡◌, refl, sym, ap, ◌∙◌,
  ◌≢◌, ◌↔◌, ◌⊎◌, inl, inr, Bool, true, false, not, ◌&&◌, ◌||◌, Option, none, some, List, [], ◌∷◌,
  ◌++◌, map, arith, str_eq, eq_iff, eq_refl, ltb, leb, ◌==◌, if◌then◌else◌, ltb→lt, lt→ltb, leb→le,
  ==_iff, tests, Bool-cases, Option-cases, length, get_elem?, length-append, any, all, keep, All,
  All-imp, keep-append, All-append, Some, Apart, Apart-append, any-false, false-any,
}

mutual
  pub data Json : Type 0 where
    null other : Json
    boolean : Bool → Json
    number : ℕ → Json
    text : String → Json
    object : Fields → Json

  pub data Fields : Type 0 where
    end : Fields
    field : String → Json → Fields → Fields

pub record UsbInfo : Type 0 where
  pub vendor_id : String
  pub product_id : String
  pub product : Option String
  pub serial : Option String

pub record VolumeInfo : Type 0 where
  pub volume_key : String
  pub device_node : String
  pub major : ℕ
  pub minor : ℕ
  pub sysfs_path : String
  pub fs_type : Option String
  pub fs_uuid : Option String
  pub fs_label : Option String
  pub size_bytes : ℕ
  pub usb : Option UsbInfo
  pub broker_epoch : String
  pub generation : ℕ

pub record VolumeExpect : Type 0 where
  pub major : ℕ
  pub minor : ℕ
  pub fs_uuid : Option String
  pub fs_type : String
  pub broker_epoch : String
  pub generation : ℕ

-- `d[key]`, if there is such a key.
abbrev pub at : Fields → String → Option Json
at end key = none
at (field k v d) key = if str_eq k key then some v else at d key

abbrev pub or_null : Option String → Json
or_null none = null
or_null (some s) = text s

unfoldable pub usb_to_wire : Option UsbInfo → Json
usb_to_wire none = null
usb_to_wire (some u) = object (
    field "vendor_id" (text u.vendor_id) (
      field "product_id" (text u.product_id)
        (field "product" (or_null u.product) (field "serial" (or_null u.serial) end))))

unfoldable pub volume_to_wire : VolumeInfo → Json
unfolding usb_to_wire
volume_to_wire v = object (
    field "volume_key" (text v.volume_key) (
      field "device_node" (text v.device_node) (
        field "major" (number v.major) (
          field "minor" (number v.minor) (
            field "sysfs_path" (text v.sysfs_path) (
              field "fs_type" (or_null v.fs_type) (
                field "fs_uuid" (or_null v.fs_uuid) (
                  field "fs_label" (or_null v.fs_label) (
                    field "size_bytes" (number v.size_bytes) (
                      field "usb" (usb_to_wire v.usb) (
                        field "broker_epoch" (text v.broker_epoch)
                          (field "generation" (number v.generation) end))))))))))))

unfoldable pub expect_to_wire : VolumeExpect → Json
expect_to_wire e = object (
    field "major" (number e.major) (
      field "minor" (number e.minor) (
        field "fs_uuid" (or_null e.fs_uuid) (
          field "fs_type" (text e.fs_type) (
            field "broker_epoch" (text e.broker_epoch)
              (field "generation" (number e.generation) end))))))

-- A failed test is a `ProtocolError`: `none`.
abbrev pub as_text : Option Json → Option String
as_text (some (text s)) = some s
as_text _ = none

-- A Boolean is no number: the callers turn it down first.
abbrev pub as_number : Option Json → Option ℕ
as_number (some (number n)) = some n
as_number _ = none

abbrev pub as_optional : Option Json → Option (Option String)
as_optional (some null) = some none
as_optional (some (text s)) = some (some s)
as_optional _ = none

infixl 5 ◌>>=◌
abbrev ◌>>=◌ : {A B : Type 0} → Option A → (A → Option B) → Option B
o >>= f = elim o [ none ↦ none | some a ↦ f a ]

abbrev pub usb_fields : Fields → Option UsbInfo
usb_fields d = do
  vendor_id ← as_text (at d "vendor_id")
  product_id ← as_text (at d "product_id")
  product ← as_optional (at d "product")
  serial ← as_optional (at d "serial")
  some (record {
    vendor_id = vendor_id;
    product_id = product_id;
    product = product;
    serial = serial;
  })

abbrev pub lift_usb : Option UsbInfo → Option (Option UsbInfo)
lift_usb none = none
lift_usb (some u) = some (some u)

-- `d.get("usb")`: a key that is not there is `null`.
unfoldable pub usb_from_wire : Option Json → Option (Option UsbInfo)
usb_from_wire none = some none
usb_from_wire (some null) = some none
usb_from_wire (some (object d)) = lift_usb (usb_fields d)
usb_from_wire _ = none

unfoldable pub volume_fields : Fields → Option VolumeInfo
unfolding usb_from_wire
volume_fields d = do
  volume_key ← as_text (at d "volume_key")
  device_node ← as_text (at d "device_node")
  major ← as_number (at d "major")
  minor ← as_number (at d "minor")
  sysfs_path ← as_text (at d "sysfs_path")
  fs_type ← as_optional (at d "fs_type")
  fs_uuid ← as_optional (at d "fs_uuid")
  fs_label ← as_optional (at d "fs_label")
  size_bytes ← as_number (at d "size_bytes")
  usb ← usb_from_wire (at d "usb")
  broker_epoch ← as_text (at d "broker_epoch")
  generation ← as_number (at d "generation")
  some (record {
    volume_key = volume_key;
    device_node = device_node;
    major = major;
    minor = minor;
    sysfs_path = sysfs_path;
    fs_type = fs_type;
    fs_uuid = fs_uuid;
    fs_label = fs_label;
    size_bytes = size_bytes;
    usb = usb;
    broker_epoch = broker_epoch;
    generation = generation;
  })

unfoldable pub volume_from_wire : Json → Option VolumeInfo
unfolding volume_fields
volume_from_wire (object d) = volume_fields d
volume_from_wire _ = none

abbrev pub expect_keys : List String
expect_keys = "major" ∷ "minor" ∷ "fs_uuid" ∷ "fs_type" ∷ "broker_epoch" ∷ "generation" ∷ []

-- `not (set(d) - known)`
abbrev pub all_known : Fields → Bool
all_known end = true
all_known (field k v d) = any (λ x. str_eq x k) expect_keys && all_known d

unfoldable pub expect_fields : Fields → Option VolumeExpect
expect_fields d = do
  major ← as_number (at d "major")
  minor ← as_number (at d "minor")
  fs_uuid ← as_optional (at d "fs_uuid")
  fs_type ← as_text (at d "fs_type")
  broker_epoch ← as_text (at d "broker_epoch")
  generation ← as_number (at d "generation")
  some (record {
    major = major;
    minor = minor;
    fs_uuid = fs_uuid;
    fs_type = fs_type;
    broker_epoch = broker_epoch;
    generation = generation;
  })

unfoldable pub expect_from_wire : Json → Option VolumeExpect
unfolding expect_fields
expect_from_wire (object d) = if all_known d then expect_fields d else none
expect_from_wire _ = none

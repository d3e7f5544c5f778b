-- ===== src/CameraPortResolver.antt =====
-- app/src/camera_port_resolver.cpp: which camera is at which USB port, and which port is which slot.
-- The devices that the directory of sysfs lists, with what their files hold, and the variables of the
-- environment are arguments.
use youyeetoo_rk3588_toolkit.Prelude.{
  ℕ, ◌+◌, Bool, true, false, not, ◌&&◌, ◌||◌, List, [], ◌∷◌, Option, none, some, leb, ◌==◌,
  if◌then◌else◌,
}
use youyeetoo_rk3588_toolkit.Prelude.Text.{
  Text, codes, text_eq, is_empty, is_space, is_digit, trim_by, drop_spaces_end, split, split_at,
}
use youyeetoo_rk3588_toolkit.Prelude.Dict.{lookup, insert}
use youyeetoo_rk3588_toolkit.FileSystem.{FileSystem, lines}
use youyeetoo_rk3588_toolkit.Camera.{CameraInfo}

-- An entry of /sys/bus/usb/devices: its name, and the files in it.
pub record UsbDevice : Type 0 where
  pub port_path : Text
  pub id_vendor : Option Text
  pub id_product : Option Text
  pub serial : Option Text
  pub product : Option Text

-- The variables CAMERA_USB_VENDOR_ID and CAMERA_USB_PRODUCT_ID.
pub record UsbFilter : Type 0 where
  pub vendor_id : Option Text
  pub product_id : Option Text

abbrev pub Dict : Type 0
Dict = List (Text × Text)

abbrev pub default_vendor_id : Text
default_vendor_id = codes "2e1a"

-- ReadSysfsLine, of what the file holds.
unfoldable pub read_sysfs_line : Option Text → Text
unfolding lines drop_spaces_end
read_sysfs_line none = []
read_sysfs_line (some content) = elim (lines content) [
  | [] ↦ []
  | line ∷ rest ↦ drop_spaces_end (λ c. (c == 10 || c == 13) || c == 32) line
]

-- EnvOrDefault
unfoldable pub env_or_default : Option Text → Text → Text
env_or_default none fallback = fallback
env_or_default (some value) fallback = if is_empty value then fallback else value

-- TrimStr
unfoldable pub trim_str : Text → Text
unfolding trim_by
trim_str = trim_by is_space

occurs_among : Text → List Text → Bool
unfolding trim_str text_eq
occurs_among product [] = false
occurs_among product (item ∷ items) = text_eq (trim_str item) product || occurs_among product items

-- ProductAllowed
unfoldable pub product_allowed : Text → Text → Bool
unfolding occurs_among split
product_allowed product configured =
    is_empty configured || occurs_among product (split b',' configured)

-- The letters and digits of a name, in lower case.
unfoldable pub compact_name : Text → Text
compact_name [] = []
compact_name (c ∷ product) =
    let rest = compact_name product in
    if leb b'A' c && leb c b'Z'
    then (c + 32) ∷ rest
    else if (leb b'a' c && leb c b'z') || is_digit c
    then c ∷ rest
    else rest

unfoldable pub starts_with : Text → Text → Bool
starts_with s [] = true
starts_with [] (d ∷ prefix) = false
starts_with (c ∷ s) (d ∷ prefix) = c == d && starts_with s prefix

-- s.find(part) != npos
unfoldable pub contains : Text → Text → Bool
unfolding starts_with
contains part [] = starts_with [] part
contains part (c ∷ s) = starts_with (c ∷ s) part || contains part s

-- ModelKeyFromProduct
unfoldable pub model_key_from_product : Text → Text
unfolding compact_name contains
model_key_from_product product =
    let compact = compact_name product in
    if contains (codes "insta360x4air") compact
    then codes "Insta360X4Air"
    else if contains (codes "insta360x5") compact
    then codes "Insta360X5"
    else if contains (codes "insta360x4") compact
    then codes "Insta360X4"
    else if contains (codes "insta360x3") compact
    then codes "Insta360X3"
    else if contains (codes "insta360onex2") compact
    then codes "Insta360OneX2"
    else if contains (codes "insta360oners") compact
    then codes "Insta360OneRS"
    else if contains (codes "insta360oner") compact
    then codes "Insta360OneR"
    else if contains (codes "insta360onex") compact
    then codes "Insta360OneX"
    else codes "Unknown"

all_digits : Text → Bool
all_digits [] = true
all_digits (c ∷ s) = is_digit c && all_digits s

-- IsSlotName
unfoldable pub is_slot_name : Text → Bool
unfolding all_digits
is_slot_name (c ∷ a ∷ m ∷ d ∷ digits) =
    ((c == b'c' && a == b'a') && m == b'm') && all_digits (d ∷ digits)
is_slot_name _ = false

has_char : ℕ → Text → Bool
has_char d [] = false
has_char d (c ∷ s) = c == d || has_char d s

-- The tests that both scans make of a device: a physical port, the vendor, the product, and a serial
-- number; the last is the result.
unfoldable pub camera_serial : UsbFilter → UsbDevice → Option Text
unfolding has_char read_sysfs_line env_or_default product_allowed text_eq
camera_serial filter device =
    let serial = read_sysfs_line device.serial in
    if ((has_char b'-' device.port_path && not (has_char b':' device.port_path))
        && text_eq (read_sysfs_line device.id_vendor)
            (env_or_default filter.vendor_id default_vendor_id))
      && product_allowed (read_sysfs_line device.id_product) (env_or_default filter.product_id [])
    then (if is_empty serial then none else some serial)
    else none

-- ScanUsbSerials, behind what it has found before.
unfoldable pub scan_usb_serials : UsbFilter → List UsbDevice → Dict → Dict
unfolding camera_serial insert
scan_usb_serials filter [] found = found
scan_usb_serials filter (device ∷ devices) found =
    scan_usb_serials filter devices (elim (camera_serial filter device) [
      | none ↦ found
      | some serial ↦ insert device.port_path serial found
    ])

-- ScanUsbCameras
unfoldable pub scan_usb_cameras : UsbFilter → List UsbDevice → List CameraInfo
unfolding camera_serial model_key_from_product read_sysfs_line
scan_usb_cameras filter [] = []
scan_usb_cameras filter (device ∷ devices) =
    let rest = scan_usb_cameras filter devices in
    let product = read_sysfs_line device.product in
    elim (camera_serial filter device) [
      | none ↦ rest
      | some serial ↦
          record {
            serial_number = serial;
            camera_name = if is_empty product then codes "Insta360 USB camera" else product;
            firmware_version = [];
            model_key = model_key_from_product product;
            capabilities = codes "status,capture,battery,storage,media,photo,video";
          }
          ∷ rest
    ]

-- The slot and the port of a line, if it is one of these.
unfoldable pub port_map_entry : Text → Option (Text × Text)
unfolding trim_str split_at
port_map_entry line =
    let trimmed = trim_str line in
    elim (split_at b'=' trimmed) [
      | none ↦ none
      | some (left, right) ↦
          let slot = trim_str left in
          let port = trim_str right in
          if (is_comment trimmed || is_empty slot) || is_empty port then none else some (slot, port)
    ]
  where
    is_comment : Text → Bool
    is_comment [] = true
    is_comment (c ∷ s) = c == b'#'

unfoldable pub load_port_lines : List Text → Dict → Dict
unfolding port_map_entry insert
load_port_lines [] ports = ports
load_port_lines (line ∷ rest) ports =
    load_port_lines rest
      (elim (port_map_entry line) [ none ↦ ports | some (slot, port) ↦ insert slot port ports ])

-- LoadPortMap; a file that cannot be opened gives an empty map.
unfoldable pub load_port_map : Text → FileSystem → Dict
unfolding load_port_lines lines
load_port_map path fs = elim (fs.contents path) [
  | none ↦ []
  | some text ↦ load_port_lines (lines text) []
]

unfoldable pub join_ports : Dict → Dict → Dict
unfolding lookup
join_ports [] serials = []
join_ports ((slot, port) ∷ ports) serials =
    (slot, elim (lookup port serials) [ none ↦ [] | some serial ↦ serial ])
    ∷ join_ports ports serials

-- Resolve: each slot with the serial number at its port, which is empty for a port without a camera.
unfoldable pub resolve : Text → UsbFilter → List UsbDevice → FileSystem → Dict
unfolding load_port_map join_ports scan_usb_serials
resolve path filter devices fs =
    join_ports (load_port_map path fs) (scan_usb_serials filter devices [])

-- ===== src/Devices/Tests.antt =====
-- Devices of a concrete account: a PC that reconnected, and a phone.
use arcade_launcher_server.Base.{
  ◌≡◌, refl, true, some, List, [], ◌∷◌, codes, trim, lowercase, text_eq, byte_len,
  is_ascii_alphanumeric, is_ascii_digit, select_first, reverse, ok,
}
use arcade_launcher_server.Devices.{
  Device, has_id, sanitize_device_id, can_receive_install, normalize_kind, check_install_target,
  collapse_devices, sort, insert, device_le, text_le, first_of_each,
}
use arcade_launcher_server.Devices.Collapse.{Distinct, collapse-Distinct}
use arcade_launcher_server.Devices.Install.{install-registered}

abbrev old_pc : Device
old_pc = record { id = codes "pc-1"; name = codes "Old name"; kind = codes "desktop"; version = [] }

abbrev phone : Device
phone = record { id = codes "p1"; name = codes "Phone"; kind = codes "mobile"; version = [] }

abbrev pc : Device
pc = record old_pc { name = codes "Living room" }

abbrev signed_in : List Device
signed_in = old_pc ∷ phone ∷ pc ∷ []

shown : collapse_devices lowercase signed_in ≡ pc ∷ phone ∷ []
unfolding collapse_devices sort insert device_le text_le first_of_each text_eq lowercase
shown = refl

collapse-Distinct_example :
    (select_first (has_id (codes "pc-1")) (collapse_devices lowercase signed_in)
      ≡ select_first (has_id (codes "pc-1")) (reverse signed_in))
    × Distinct (collapse_devices lowercase signed_in)
collapse-Distinct_example = collapse-Distinct lowercase signed_in (codes "pc-1")

cleaned : sanitize_device_id (codes " pc-1 ") ≡ some (codes "pc-1")
unfolding sanitize_device_id trim byte_len is_ascii_alphanumeric is_ascii_digit
cleaned = refl

accepted :
    check_install_target (codes " pc-1 ") (codes "doom") (collapse_devices lowercase signed_in)
    ≡ ok (codes "pc-1")
unfolding check_install_target sanitize_device_id can_receive_install normalize_kind
    collapse_devices sort insert device_le text_le first_of_each select_first text_eq lowercase trim
    byte_len is_ascii_alphanumeric is_ascii_digit
accepted = refl

install-registered_example :
    (d : Device) × (select_first (has_id (trim (codes " pc-1 "))) (reverse signed_in) ≡ some d)
    × (can_receive_install d.kind ≡ true)
    × (codes "pc-1" ≡ trim (codes " pc-1 "))
install-registered_example =
    install-registered lowercase (codes " pc-1 ") (codes "doom") (codes "pc-1") signed_in accepted

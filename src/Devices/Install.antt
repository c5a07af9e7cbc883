-- ===== src/Devices/Install.antt =====
-- src/devices.rs: which device an install command reaches.
use arcade_launcher_server.Base.{
  ◌≡◌, ◌≤◌, inl, inr, true, some, List, Text, trim, byte_len, all, select_first, arith,
  Option-cases, ok, reverse,
}
use arcade_launcher_server.Devices.{
  Device, has_id, is_id_char, device_field_max, sanitize_device_id, can_receive_install,
  check_install_target, collapse_devices,
}
use arcade_launcher_server.Devices.Collapse.{collapse-Distinct}

-- An identifier that is accepted is the trimmed text of at most 64 bytes that was sent, of letters,
-- digits, dashes, underscores and dots; it is never rewritten.
pub sanitize-plain :
    (raw id : Text)
    → sanitize_device_id raw ≡ some id
    → (id ≡ trim raw) × (all is_id_char id ≡ true) × (byte_len id ≤ device_field_max)
unfolding sanitize_device_id
sanitize-plain raw id given = ground arith

-- An install command that is accepted against the collapsed devices of an account goes to the
-- device that the account registered last under the identifier that was sent, and that device can
-- install.
pub install-registered :
    (lower : Text → Text) (target_id game_id t : Text) (devices : List Device)
    → check_install_target target_id game_id (collapse_devices lower devices) ≡ ok t
    → (d : Device) × (select_first (has_id (trim target_id)) (reverse devices) ≡ some d)
      × (can_receive_install d.kind ≡ true)
      × (t ≡ trim target_id)
unfolding check_install_target
install-registered lower target_id game_id t devices given =
    elim (Option-cases (sanitize_device_id target_id)) [
      | inl bad ↦ absurd (ground arith)
      | inr (target, clean) ↦
          elim (Option-cases (select_first (has_id target) (collapse_devices lower devices))) [
            | inl missing ↦ absurd (ground arith)
            | inr (d, there) ↦
                let (same, _) = collapse-Distinct lower devices target in
                let (plain, _, _) = sanitize-plain target_id target clean in
                let where_from : select_first (has_id target) (reverse devices) ≡ some d =
                  ground arith in
                (d, rw plain at where_from, ground arith, ground arith)
          ]
    ]

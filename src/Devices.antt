-- ===== src/Devices.antt =====
-- src/devices.rs: the machines that an account is signed in on, and which of them may be told to
-- install a game. The lower case of Unicode is a parameter.
pub mod Collapse
pub mod Install
mod Tests
use arcade_launcher_server.Base.{
  ℕ, ◌-◌, Bool, true, false, not, ◌&&◌, ◌||◌, Option, none, some, List, [], ◌∷◌, ◌++◌, map, reverse,
  Text, codes, text_eq, trim, lowercase, byte_len, is_ascii_alphanumeric, is_empty, is_whitespace,
  is_control, join, take, all, any, keep, ltb, leb, ◌==◌, if◌then◌else◌, select_first, Result, ok,
  err,
}

abbrev pub device_field_max : ℕ
device_field_max = 64

pub record Device : Type 0 where
  pub id : Text
  pub name : Text
  pub kind : Text
  pub version : Text

abbrev pub is_id_char : ℕ → Bool
is_id_char c = is_ascii_alphanumeric c || c == b'-' || c == b'_' || c == b'.'

unfoldable pub sanitize_device_id : Text → Option Text
sanitize_device_id raw =
    let trimmed = trim raw in
    if is_empty trimmed || ltb device_field_max (byte_len trimmed)
    then none
    else if not (all is_id_char trimmed)
    then none
    else some trimmed

-- `str::split_whitespace`: the pieces that are not empty.
abbrev push_piece : Text → List Text → List Text
push_piece p ps = if is_empty p then ps else p ∷ ps

abbrev pieces : Text → Text → List Text
pieces piece [] = push_piece piece []
pieces piece (c ∷ s) =
    let closed = pieces [] s in
    let longer = pieces (piece ++ (c ∷ [])) s in
    if is_whitespace c then push_piece piece closed else longer

unfoldable pub normalize_kind : Text → Text
normalize_kind raw =
    let k = lowercase (trim raw) in
    if any (text_eq k) (
      codes "desktop"
      ∷ codes "pc"
      ∷ codes "windows"
      ∷ codes "linux"
      ∷ codes "mac"
      ∷ codes "macos"
      ∷ [])
    then codes "desktop"
    else if any (text_eq k)
        (codes "mobile" ∷ codes "android" ∷ codes "ios" ∷ codes "phone" ∷ codes "tablet" ∷ [])
    then codes "mobile"
    else codes "unknown"

abbrev fallback_name : Text → Text
fallback_name kind =
    if text_eq kind (codes "desktop")
    then codes "PC"
    else if text_eq kind (codes "mobile")
    then codes "Phone"
    else codes "Device"

unfoldable pub sanitize_device_name : Text → Text → Text
unfolding normalize_kind
sanitize_device_name raw kind =
    let cleaned = map (λ c. if is_control c then b' ' else c) raw in
    let capped = trim (take device_field_max (join (codes " ") (pieces [] cleaned))) in
    if not (is_empty capped) then capped else fallback_name (normalize_kind kind)

unfoldable pub can_receive_install : Text → Bool
unfolding normalize_kind
can_receive_install kind = text_eq (normalize_kind kind) (codes "desktop")

unfoldable pub parse_device : Text → Text → Text → Text → Option Device
unfolding sanitize_device_id sanitize_device_name normalize_kind
parse_device id name kind version = elim (sanitize_device_id id) [
  | none ↦ none
  | some clean ↦ some (record {
    id = clean;
    name = sanitize_device_name name (normalize_kind kind);
    kind = normalize_kind kind;
    version = take device_field_max (trim version);
  })
]

abbrev pub has_id : Text → Device → Bool
has_id i d = text_eq d.id i

-- The loop with the set `seen`, whose members are the identifiers in `out`.
unfoldable pub first_of_each : List Text → List Device → List Device
first_of_each seen [] = []
first_of_each seen (d ∷ ds) =
    let skipped = first_of_each seen ds in
    let kept = first_of_each (d.id ∷ seen) ds in
    if any (text_eq d.id) seen then skipped else d ∷ kept

-- The order of strings: by code points, a prefix first.
unfoldable pub text_le : Text → Text → Bool
text_le [] b = true
text_le (x ∷ a) [] = false
text_le (x ∷ a) (y ∷ b) = let rest = text_le a b in ltb x y || (x == y && rest)

abbrev rank : Device → ℕ
rank d = if text_eq d.kind (codes "desktop") then 0 else 1

-- By rank, then by name in lower case, then by identifier: whether the first stands first.
unfoldable pub device_le : (Text → Text) → Device → Device → Bool
unfolding text_le
device_le lower a b =
    ltb (rank a) (rank b)
    || (rank a == rank b
        && (if text_eq (lower a.name) (lower b.name)
            then text_le a.id b.id
            else text_le (lower a.name) (lower b.name)))

-- A stable sort, by insertion.
unfoldable pub insert : (Text → Text) → Device → List Device → List Device
unfolding device_le
insert lower d [] = d ∷ []
insert lower d (e ∷ es) =
    let rest = insert lower d es in if device_le lower d e then d ∷ e ∷ es else e ∷ rest

unfoldable pub sort : (Text → Text) → List Device → List Device
unfolding insert
sort lower [] = []
sort lower (d ∷ ds) = insert lower d (sort lower ds)

unfoldable pub collapse_devices : (Text → Text) → List Device → List Device
unfolding sort first_of_each
collapse_devices lower devices = sort lower (first_of_each [] (reverse devices))

pub data InstallReject : Type 0 where
  no_target no_game unknown_device not_installable : InstallReject

unfoldable pub check_install_target : Text → Text → List Device → Result Text InstallReject
unfolding sanitize_device_id can_receive_install
check_install_target target_id game_id devices = elim (sanitize_device_id target_id) [
  | none ↦ err no_target
  | some target ↦
      if is_empty (trim game_id) then err no_game else elim (select_first (has_id target) devices) [
        | none ↦ err unknown_device
        | some d ↦ if can_receive_install d.kind then ok target else err not_installable
      ]
]

pub record DeviceRegistryEntry : Type 0 where
  pub published_at : ℕ
  pub devices : List Device

abbrev flat : List DeviceRegistryEntry → List Device
flat [] = []
flat (e ∷ es) = e.devices ++ flat es

unfoldable pub merge_device_registry :
    (Text → Text) → List DeviceRegistryEntry → ℕ → ℕ → List Device
unfolding collapse_devices
merge_device_registry lower entries now ttl_secs =
    collapse_devices lower (flat (keep (λ e. leb (now - e.published_at) ttl_secs) entries))

-- ===== src/Devices/Collapse.antt =====
-- src/devices.rs: one row for each device, the one that was registered last.
use arcade_launcher_server.Base.{
  ◌≡◌, refl, inl, inr, none, some, List, [], ◌∷◌, reverse, Text, text_eq, text_eq_iff, text_eq_refl,
  any, if◌then◌else◌, select_first, arith, Bool-cases,
}
use arcade_launcher_server.Devices.{
  Device, has_id, first_of_each, device_le, insert, sort, collapse_devices,
}

-- No two devices of a list have one identifier.
abbrev pub Distinct : List Device → Type 0
Distinct [] = Unit {0}
Distinct (d ∷ ds) = (select_first (has_id d.id) ds ≡ none) × Distinct ds

select-insert :
    (lower : Text → Text) (d : Device) (es : List Device) (i : Text)
    → select_first (has_id d.id) es ≡ none
    → select_first (has_id i) (insert lower d es)
      ≡ (if has_id i d then some d else select_first (has_id i) es)
unfolding select_first insert
select-insert lower d [] i new = refl
select-insert lower d (e ∷ es) i new = ground (
  arith,
  select-insert lower d es i,
  text_eq_iff d.id i,
  text_eq_iff e.id i,
  text_eq_iff e.id d.id,
)

insert-Distinct :
    (lower : Text → Text) (d : Device) (es : List Device)
    → select_first (has_id d.id) es ≡ none
    → Distinct es
    → Distinct (insert lower d es)
unfolding select_first insert
insert-Distinct lower d [] new k = (refl, tt)
insert-Distinct lower d (e ∷ es) new (first, k) = elim (Bool-cases (device_le lower d e)) [
  | inl before ↦ rw before (new, (first, k))
  | inr after ↦
      let later : select_first (has_id d.id) es ≡ none = ground arith in
      let free : select_first (has_id e.id) (insert lower d es) ≡ none =
        ground
          (arith, select-insert lower d es e.id later, text_eq_iff d.id e.id, text_eq_refl d.id) in
      rw after (free, insert-Distinct lower d es later k)
]

-- Sorting finds what was there.
select-sort :
    (lower : Text → Text) (ds : List Device) (i : Text)
    → Distinct ds
    → (select_first (has_id i) (sort lower ds) ≡ select_first (has_id i) ds)
      × Distinct (sort lower ds)
unfolding sort select_first
select-sort lower [] i k = (refl, tt)
select-sort lower (d ∷ ds) i (first, k) =
    let (here, sorted) = select-sort lower ds i k in
    let (own, _) = select-sort lower ds d.id k in
    let new : select_first (has_id d.id) (sort lower ds) ≡ none = ground arith in
    (
      ground (arith, select-insert lower d (sort lower ds) i new),
      insert-Distinct lower d (sort lower ds) new sorted,
    )

select-first_of_each :
    (seen : List Text) (ds : List Device) (i : Text)
    → select_first (has_id i) (first_of_each seen ds)
      ≡ (if any (text_eq i) seen then none else select_first (has_id i) ds)
unfolding select_first first_of_each
select-first_of_each seen [] i = ground arith
select-first_of_each seen (d ∷ ds) i = ground (
  arith,
  select-first_of_each seen ds i,
  select-first_of_each (d.id ∷ seen) ds i,
  text_eq_iff d.id i,
  text_eq_iff i d.id,
)

first_of_each-Distinct : (seen : List Text) (ds : List Device) → Distinct (first_of_each seen ds)
unfolding first_of_each
first_of_each-Distinct seen [] = tt
first_of_each-Distinct seen (d ∷ ds) = ground (
  arith,
  first_of_each-Distinct seen ds,
  first_of_each-Distinct (d.id ∷ seen) ds,
  select-first_of_each (d.id ∷ seen) ds d.id,
  text_eq_refl d.id,
)

-- For every identifier, the collapsed list has the device that was registered last under it, if
-- there is one, and no identifier stands in it twice.
pub collapse-Distinct :
    (lower : Text → Text) (devices : List Device) (i : Text)
    → (select_first (has_id i) (collapse_devices lower devices)
        ≡ select_first (has_id i) (reverse devices))
      × Distinct (collapse_devices lower devices)
unfolding collapse_devices
collapse-Distinct lower devices i =
    let once = first_of_each-Distinct [] (reverse devices) in
    let (found, distinct) = select-sort lower (first_of_each [] (reverse devices)) i once in
    (ground (arith, found, select-first_of_each [] (reverse devices) i), distinct)

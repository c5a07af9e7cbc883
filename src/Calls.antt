-- ===== src/Calls.antt =====
-- src/calls.rs: the table of rings that are not answered yet. The `HashMap` keyed by the pair
-- (caller, callee) is a list of entries with distinct keys; its order stands for the order, not
-- specified, in which the map is iterated. Times are epoch seconds; `now - started_at >= max_age`
-- on `i64` is written without the subtraction.
pub mod Keys
pub mod Sweep
mod Tests
use arcade_launcher_server.Base.{
  ℕ, ◌+◌, Bool, true, false, ◌&&◌, ◌||◌, Option, none, some, List, [], ◌∷◌, map, keep, ◌==◌, leb,
  if◌then◌else◌,
}

pub record Ringing : Type 0 where
  pub video : Bool
  pub started_at : ℕ

pub data Outcome : Type 0 where
  answered_call missed : Outcome

-- (caller, callee, ringing)
abbrev pub Entry : Type 0
Entry = ℕ × ℕ × Ringing

abbrev pub Rings : Type 0
Rings = List Entry

abbrev pub is_key : ℕ → ℕ → Entry → Bool
is_key caller callee e = e.0 == caller && e.1 == callee

-- `HashMap::get`
unfoldable pub lookup : ℕ → ℕ → Rings → Option Ringing
lookup caller callee [] = none
lookup caller callee (e ∷ live) =
    if is_key caller callee e then some e.2 else lookup caller callee live

-- `HashMap::remove`
pub remove : ℕ → ℕ → Rings → Option Ringing × Rings
remove caller callee [] = (none, [])
remove caller callee (e ∷ live) =
    let (found, rest) = remove caller callee live in
    if is_key caller callee e then (some e.2, live) else (found, e ∷ rest)

unfoldable pub start : ℕ → ℕ → Bool → ℕ → Rings → Rings
start caller callee video now live = elim (lookup caller callee live) [
  | some _ ↦ live
  | none ↦ (caller, callee, record { video = video; started_at = now }) ∷ live
]

abbrev pub is_there : Option Ringing → Bool
is_there none = false
is_there (some _) = true

pub answered : ℕ → ℕ → Rings → Bool × Rings
answered caller callee live =
    let (found, rest) = remove caller callee live in (is_there found, rest)

pub ended : ℕ → ℕ → Rings → Option (Outcome × Ringing) × Rings
ended caller callee live =
    let (found, rest) = remove caller callee live in
    elim found [ none ↦ (none, rest) | some r ↦ (some (missed, r), rest) ]

abbrev as_entry : ℕ → ℕ → Option (Outcome × Ringing) → Option Entry
as_entry a b none = none
as_entry a b (some (_, r)) = some (a, b, r)

pub ended_either_way : ℕ → ℕ → Rings → Option Entry × Rings
unfolding ended
ended_either_way a b live =
    let (there, rest) = ended a b live in
    let (back, rest') = ended b a rest in
    elim there [
      | some found ↦ (as_entry a b (some found), rest)
      | none ↦ (as_entry b a back, rest')
    ]

-- The removal loop of `drop_for` and `expired` over the keys that were collected.
abbrev push_entry : ℕ → ℕ → Option Ringing → List Entry → List Entry
push_entry caller callee none out = out
push_entry caller callee (some r) out = (caller, callee, r) ∷ out

pub remove_all : List Entry → Rings → List Entry × Rings
remove_all [] live = ([], live)
remove_all (k ∷ ks) live =
    let (found, rest) = remove k.0 k.1 live in
    let (out, rest') = remove_all ks rest in (push_entry k.0 k.1 found out, rest')

abbrev pub involves : ℕ → Entry → Bool
involves user e = e.0 == user || e.1 == user

pub drop_for : ℕ → Rings → List Entry × Rings
drop_for user live = remove_all (keep (involves user) live) live

unfoldable pub incoming_for : ℕ → Rings → List (ℕ × Ringing)
incoming_for user live = map (λ e. (e.0, e.2)) (keep (λ e. e.1 == user) live)

abbrev pub outlived : ℕ → ℕ → Entry → Bool
outlived now max_age e = leb (e.2.started_at + max_age) now

pub expired : ℕ → ℕ → Rings → List Entry × Rings
expired now max_age live = remove_all (keep (outlived now max_age) live) live

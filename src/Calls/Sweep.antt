-- ===== src/Calls/Sweep.antt =====
-- src/calls.rs: what `drop_for` and `expired` take out of the table, and what they leave.
use mathlib.Core.List.{Perm, perm_middle}
use mathlib.Core.List.Perm
use arcade_launcher_server.Base.{
  ℕ, ◌≡◌, refl, inl, inr, Bool, true, false, not, none, some, List, [], ◌∷◌, ◌++◌, keep, All,
  Bool-cases, arith,
}
use arcade_launcher_server.Calls.{
  Entry, Rings, is_key, lookup, remove, remove_all, involves, drop_for, outlived, expired,
}
use arcade_launcher_server.Calls.Keys.{IsKeyed}

abbrev Differs : Entry → Entry → Type 0
Differs e k = is_key k.0 k.1 e ≡ false

keep-Differs :
    (p : Entry → Bool) (e : Entry) (live : Rings)
    → lookup e.0 e.1 live ≡ none
    → All (Differs e) (keep p live)
unfolding lookup
keep-Differs p e [] new = tt
keep-Differs p e (k ∷ live) new = ground (arith, keep-Differs p e live)

remove_all-skip :
    (e : Entry) (ks live : Rings)
    → All (Differs e) ks
    → remove_all ks (e ∷ live) ≡ ((remove_all ks live).0, e ∷ (remove_all ks live).1)
unfolding remove_all remove
remove_all-skip e [] live d = refl
remove_all-skip e (k ∷ ks) live (d, ds) =
    ground (arith, remove_all-skip e ks (remove k.0 k.1 live).1 ds)

is_key_refl : (e : Entry) → is_key e.0 e.1 e ≡ true
is_key_refl e = ground arith

remove-head : (e : Entry) (live : Rings) → remove e.0 e.1 (e ∷ live) ≡ (some e.2, live)
unfolding remove
remove-head e live = rw (is_key_refl e)

-- Collecting the keys and removing them one by one splits the table.
remove_all-keep :
    (p : Entry → Bool) (live : Rings)
    → IsKeyed live
    → remove_all (keep p live) live ≡ (keep p live, keep (λ e. not (p e)) live)
unfolding remove_all
remove_all-keep p [] k = refl
remove_all-keep p (e ∷ live) (new, k) = elim (Bool-cases (p e)) [
  | inl hit ↦ rw (hit, remove-head e live, remove_all-keep p live k)
  | inr miss ↦ rw (
    miss,
    remove_all-skip e (keep p live) live (keep-Differs p e live new),
    remove_all-keep p live k,
  )
]

split-perm :
    (p : Entry → Bool) (live : Rings) → Perm live (keep p live ++ keep (λ e. not (p e)) live)
split-perm p [] = Perm.nil
split-perm p (e ∷ live) =
    let rest = Perm.cons e (split-perm p live) in
    ground (
      arith,
      rest,
      Perm.trans rest (Perm.symm (perm_middle (keep p live) (keep (λ e. not (p e)) live))),
    )

All-kept : (p : Entry → Bool) (live : Rings) → All (λ e. p e ≡ true) (keep p live)
All-kept p [] = tt
All-kept p (e ∷ live) = ground (arith, All-kept p live)

All-left : (p : Entry → Bool) (live : Rings) → All (λ e. p e ≡ false) (keep (λ e. not (p e)) live)
All-left p [] = tt
All-left p (e ∷ live) = ground (arith, All-left p live)

lookup-keep :
    (p : Entry → Bool) (a b : ℕ) (live : Rings)
    → lookup a b live ≡ none
    → lookup a b (keep p live) ≡ none
unfolding lookup
lookup-keep p a b [] h = refl
lookup-keep p a b (e ∷ live) h = ground (arith, lookup-keep p a b live)

keep-IsKeyed : (p : Entry → Bool) (live : Rings) → IsKeyed live → IsKeyed (keep p live)
keep-IsKeyed p [] k = tt
keep-IsKeyed p (e ∷ live) (new, k) =
    ground (arith, keep-IsKeyed p live k, lookup-keep p e.0 e.1 live new)

-- What a sweep by a test takes and leaves.
pub record Swept (p : Entry → Bool) (live : Rings) (swept : List Entry × Rings) : Type 0 where
  pub conserved : Perm live (swept.0 ++ swept.1)
  pub hit : All (λ e. p e ≡ true) swept.0
  pub missed : All (λ e. p e ≡ false) swept.1
  pub keyed : IsKeyed swept.1

remove_all-Swept :
    (p : Entry → Bool) (live : Rings) → IsKeyed live → Swept p live (remove_all (keep p live) live)
remove_all-Swept p live k = rw (remove_all-keep p live k) (record {
  conserved = split-perm p live;
  hit = All-kept p live;
  missed = All-left p live;
  keyed = keep-IsKeyed (λ e. not (p e)) live k;
})

-- When a user goes offline, exactly the rings from and to that user leave a table in which no pair
-- rings twice, each once.
pub drop_for-Swept :
    (user : ℕ) (live : Rings) → IsKeyed live → Swept (involves user) live (drop_for user live)
unfolding drop_for
drop_for-Swept user live k = remove_all-Swept (involves user) live k

-- In a table where no pair rings twice, a sweep takes exactly the rings that are `max_age` old or
-- older, each once, and leaves the others.
pub expired-Swept :
    (now max_age : ℕ) (live : Rings)
    → IsKeyed live
    → Swept (outlived now max_age) live (expired now max_age live)
unfolding expired
expired-Swept now max_age live k = remove_all-Swept (outlived now max_age) live k

-- The table without the rings of a user, next to those rings.
pub drop_for-keep :
    (user : ℕ) (live : Rings)
    → IsKeyed live
    → drop_for user live ≡ (keep (involves user) live, keep (λ e. not (involves user e)) live)
unfolding drop_for
drop_for-keep user live k = remove_all-keep (involves user) live k

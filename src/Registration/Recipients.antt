-- ===== src/Registration/Recipients.antt =====
-- src/registration.rs: who is told of a request for an account.
use arcade_launcher_server.Base.{
  ◌≡◌, refl, inl, inr, Bool, true, false, ◌||◌, List, [], ◌∷◌, any, Text, text_eq, trim, is_empty,
  All, All-map, Bool-cases, arith,
}
use arcade_launcher_server.Accounts.Folding.{Folding}
use arcade_launcher_server.Accounts.{User}
use arcade_launcher_server.Registration.{dedupe, candidates, collect_admin_recipients}

-- No two addresses are one but for their case.
abbrev pub Once : Folding → List Text → Type 0
Once x [] = Unit {0}
Once x (a ∷ as') = All (λ b. text_eq (x.to_lowercase a) (x.to_lowercase b) ≡ false) as' × Once x as'

abbrev Unseen : Folding → List Text → Text → Type 0
Unseen x seen b = any (λ t. text_eq t (x.to_lowercase b)) seen ≡ false

abbrev is_skipped : Folding → List Text → Text → Bool
is_skipped x seen addr =
    is_empty (trim addr) || any (λ t. text_eq t (x.to_lowercase (trim addr))) seen

dedupe-skip :
    (x : Folding) (seen : List Text) (addr : Text) (addrs : List Text)
    → is_skipped x seen addr ≡ true
    → dedupe x seen (addr ∷ addrs) ≡ dedupe x seen addrs
unfolding dedupe
dedupe-skip x seen addr addrs e = rw (dedupe, e) refl

dedupe-take :
    (x : Folding) (seen : List Text) (addr : Text) (addrs : List Text)
    → is_skipped x seen addr ≡ false
    → dedupe x seen (addr ∷ addrs) ≡ trim addr ∷ dedupe x (x.to_lowercase (trim addr) ∷ seen) addrs
unfolding dedupe
dedupe-take x seen addr addrs e = rw (dedupe, e) refl

-- What the rest lets through is new to what has been seen.
record IsDeduped (x : Folding) (seen out : List Text) : Type 0 where
  unseen : All (Unseen x seen) out
  once : Once x out
  filled : All (λ a. is_empty a ≡ false) out

dedupe-IsDeduped : (x : Folding) (seen addrs : List Text) → IsDeduped x seen (dedupe x seen addrs)
unfolding dedupe
dedupe-IsDeduped x seen [] = record { unseen = tt; once = tt; filled = tt }
dedupe-IsDeduped x seen (addr ∷ addrs) = elim (Bool-cases (is_skipped x seen addr)) [
  | inl skips ↦ rw (dedupe-skip x seen addr addrs skips) (dedupe-IsDeduped x seen addrs)
  | inr takes ↦
      let k = dedupe-IsDeduped x (x.to_lowercase (trim addr) ∷ seen) addrs in
      rw (dedupe-take x seen addr addrs takes) (record {
        unseen = (ground arith, All-map _ (λ b m. ground arith) k.unseen);
        once = (All-map _ (λ b m. ground arith) k.unseen, k.once);
        filled = (ground arith, k.filled);
      })
]

-- Each recipient of the notice of a request is an address that is not blank, and no two of them are
-- one address but for letter case.
pub recipients-Once :
    (x : Folding) (fails : Bool) (notify_email admin_email : Text) (users : List User)
    → Once x (collect_admin_recipients x fails notify_email admin_email users)
      × All
          (λ a. is_empty a ≡ false)
          (collect_admin_recipients x fails notify_email admin_email users)
unfolding collect_admin_recipients
recipients-Once x fails notify_email admin_email users =
    let k = dedupe-IsDeduped x [] (candidates x fails notify_email admin_email users) in
    (k.once, k.filled)

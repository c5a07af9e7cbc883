-- ===== src/Registration/Unique.antt =====
-- src/registration.rs and src/admin_extra.rs: that approvals make no second account of a name or an
-- address.
use arcade_launcher_server.Base.{
  ℕ, ◌≡◌, inl, inr, false, ◌||◌, List, [], ◌∷◌, any, Text, trim, Faults, All, select_first, ◌==◌,
  Bool-cases, Option-cases, arith,
}
use arcade_launcher_server.Accounts.{User, Accounts}
use arcade_launcher_server.Accounts.Folding.{Folding}
use arcade_launcher_server.Registration.{
  Pending, Signups, named, new_account, create_account, api_auth_approve,
}
use arcade_launcher_server.Registration.Panel.{approve_pending_registration}
use arcade_launcher_server.Registration.Approved.{
  Event, registers, approves, denies, panel_approves, panel_denies, step, run, All-register,
  deny-kept, panel_deny-kept,
}

-- The database does not find the older account under the name or the address of the newer one.
abbrev Apart : Folding → User → User → Type 0
Apart x new old =
    (x.lower_is old.username (x.to_lowercase new.username) ≡ false)
    × (x.lower_is old.email (x.to_lowercase new.email) ≡ false)

-- The newest account is at the head.
abbrev pub UniqueNames : Folding → List User → Type 0
UniqueNames x [] = Unit {0}
UniqueNames x (r ∷ rs) = All (Apart x r) rs × UniqueNames x rs

named-Apart :
    (x : Folding) (id : ℕ) (r : Pending) (us : List User)
    → any (named x (x.to_lowercase r.username) (x.to_lowercase r.email)) us ≡ false
    → All (Apart x (new_account id r)) us
named-Apart x id r [] free = tt
named-Apart x id r (u ∷ us) free = (ground arith, named-Apart x id r us (ground arith))

create-Unique :
    (x : Folding) (f : Faults) (r : Pending) (s : Signups)
    → UniqueNames x s.accounts.users
    → UniqueNames x (create_account x f r s).1.accounts.users
unfolding create_account
create-Unique x f r s k = elim (Bool-cases (f 2)) [
  | inl fails ↦ rw fails k
  | inr works ↦
      elim (Bool-cases
        (any (named x (x.to_lowercase r.username) (x.to_lowercase r.email)) s.accounts.users)) [
          | inl taken ↦ rw (works, taken) k
          | inr free ↦ elim (Bool-cases (f 4)) [
            | inl fails ↦ rw (works, free, fails) k
            | inr inserted ↦
                rw (works, free, inserted)
                  (named-Apart x s.accounts.next_user r s.accounts.users free, k)
          ]
        ]
]

approve-Unique :
    (x : Folding) (f : Faults) (token : Text) (s : Signups)
    → UniqueNames x s.accounts.users
    → UniqueNames x (api_auth_approve x f token s).1.accounts.users
unfolding api_auth_approve
approve-Unique x f token s k = elim (Bool-cases (f 0 || f 1)) [
  | inl stopped ↦ rw stopped k
  | inr goes ↦
      elim (Option-cases
        (select_first (λ r. x.accounts.same_text r.token (trim token)) s.pending)) [
          | inl missing ↦ rw (goes, missing) k
          | inr (r, there) ↦ rw (goes, there) (create-Unique x f r s k)
        ]
]

panel_approve-Unique :
    (x : Folding) (f : Faults) (id : ℕ) (s : Signups)
    → UniqueNames x s.accounts.users
    → UniqueNames x (approve_pending_registration x f id s).1.accounts.users
unfolding approve_pending_registration
panel_approve-Unique x f id s k = elim (Bool-cases (f 0 || f 1)) [
  | inl stopped ↦ rw stopped k
  | inr goes ↦ elim (Option-cases (select_first (λ r. r.id == id) s.pending)) [
    | inl missing ↦ rw (goes, missing) k
    | inr (r, there) ↦ rw (goes, there) (create-Unique x f r s k)
  ]
]

units : (rs : List Pending) → All (λ r. Unit {0}) rs
units [] = tt
units (r ∷ rs) = (tt, units rs)

-- After any history of requests and of answers by links or in the panel, whichever statements fail:
-- the test that the code makes of a name and an address, with the database's own comparison, finds
-- no account of before under the name or the address of a later one. The accounts at the start are
-- so too.
pub run-Unique :
    (x : Folding) (a : Accounts) (es : List Event)
    → UniqueNames x a.users
    → UniqueNames x (run x es a).accounts.users
unfolding run step
run-Unique x a [] k = k
run-Unique x a (registers f is_open c token now ∷ es) k =
    let s = run x es a in
    let (_, same) =
      All-register x (λ r. Unit {0}) f is_open c token now s (λ r m. tt) (units s.pending) in
    rw same (run-Unique x a es k)
run-Unique x a (approves f token ∷ es) k =
    approve-Unique x f token (run x es a) (run-Unique x a es k)
run-Unique x a (denies f token ∷ es) k =
    let s = run x es a in
    let (_, same) = deny-kept x (λ r. Unit {0}) f token s (units s.pending) in
    rw same (run-Unique x a es k)
run-Unique x a (panel_approves f id ∷ es) k =
    panel_approve-Unique x f id (run x es a) (run-Unique x a es k)
run-Unique x a (panel_denies f id ∷ es) k =
    let s = run x es a in
    let (_, same) = panel_deny-kept x (λ r. Unit {0}) f id s (units s.pending) in
    rw same (run-Unique x a es k)

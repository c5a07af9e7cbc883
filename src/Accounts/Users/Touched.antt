-- ===== src/Accounts/Users/Touched.antt =====
-- src/db.rs: what an update of one account leaves of every row.
use arcade_launcher_server.Base.{
  ℕ, ◌≡◌, refl, ◌⊎◌, inl, inr, Bool, true, false, Option, none, some, List, [], ◌∷◌, Text, Faults,
  ◌==◌, update_where, Bool-cases, Option-cases, arith, trim, is_empty,
}
use arcade_launcher_server.Accounts.{User, Accounts, Externals}
use arcade_launcher_server.Accounts.Users.{
  Statement, and_then, go_on, set_user, set_email, set_password, set_admin, set_enabled,
  update_user,
}

-- A row after an update of the account `i` that was asked for the role `a` and the state `e`.
pub record RowTouched (i : ℕ) (a e : Option Bool) (r r' : User) : Type 0 where
  pub elsewhere : (r.id == i) ≡ false → r' ≡ r
  pub same_id : r'.id ≡ r.id
  pub role : (r'.is_admin ≡ r.is_admin) ⊎ (a ≡ some r'.is_admin)
  pub state : (r'.enabled ≡ r.enabled) ⊎ (e ≡ some r'.enabled)

abbrev pub Touched : ℕ → Option Bool → Option Bool → List User → List User → Type 0
Touched i a e [] [] = Unit {0}
Touched i a e (r ∷ rs) (r' ∷ rs') = RowTouched i a e r r' × Touched i a e rs rs'
Touched i a e _ _ = ⊥

pub Touched-refl : (i : ℕ) (a e : Option Bool) (rs : List User) → Touched i a e rs rs
Touched-refl i a e [] = tt
Touched-refl i a e (r ∷ rs) = (
  record { elsewhere = λ _. refl; same_id = refl; role = inl refl; state = inl refl },
  Touched-refl i a e rs,
)

-- A change of the row that keeps the identifier and takes role and state from the request.
abbrev Fits : Option Bool → Option Bool → (User → User) → Type 0
Fits a e g =
    (r : User)
    → ((g r).id ≡ r.id)
      × (((g r).is_admin ≡ r.is_admin) ⊎ (a ≡ some (g r).is_admin))
      × (((g r).enabled ≡ r.enabled) ⊎ (e ≡ some (g r).enabled))

row-set :
    (i : ℕ) (a e : Option Bool) (g : User → User) (r r' : User)
    → Fits a e g
    → RowTouched i a e r r'
    → (r'.id == i) ≡ true
    → RowTouched i a e r (g r')
row-set i a e g r r' fits t at =
    let (same, role, state) = fits r' in
    let id_same = t.same_id in
    let role_before = t.role in
    let state_before = t.state in
    record {
      elsewhere = λ away. absurd (ground arith);
      same_id = ground arith;
      role = ground arith;
      state = ground arith;
    }

set-Touched :
    (i : ℕ) (a e : Option Bool) (g : User → User) (rs rs' : List User)
    → Fits a e g
    → Touched i a e rs rs'
    → Touched i a e rs (update_where (λ u. u.id == i) g rs')
unfolding update_where
set-Touched i a e g [] [] fits t = tt
set-Touched i a e g (r ∷ rs) (r' ∷ rs') fits (t, ts) =
    let rest = set-Touched i a e g rs rs' fits ts in
    elim (Bool-cases (r'.id == i)) [
      | inl at ↦ rw at (row-set i a e g r r' fits t at, rest)
      | inr away ↦ rw away (t, rest)
    ]
set-Touched i a e g [] (r' ∷ rs') fits t = absurd t
set-Touched i a e g (r ∷ rs) [] fits t = absurd t

-- Statements that only touch the account `i` in this way.
abbrev Gentle : ℕ → Option Bool → Option Bool → Statement → Type 0
Gentle i a e p =
    (rs : List User) (s : Accounts) → Touched i a e rs s.users → Touched i a e rs (p s).1.users

set_user-Gentle :
    (i : ℕ) (a e : Option Bool) (fails : Bool) (g : User → User)
    → Fits a e g
    → Gentle i a e (set_user fails i g)
unfolding set_user
set_user-Gentle i a e true g fits rs s t = t
set_user-Gentle i a e false g fits rs s t = set-Touched i a e g rs s.users fits t

go_on-Touched :
    (i : ℕ) (a e : Option Bool) (q : Statement) (rs : List User) (o : Bool × Accounts)
    → Gentle i a e q
    → Touched i a e rs o.1.users
    → Touched i a e rs (go_on q o).1.users
unfolding go_on
go_on-Touched i a e q rs (true, s) hq t = hq rs s t
go_on-Touched i a e q rs (false, s) hq t = t

and_then-Gentle :
    (i : ℕ) (a e : Option Bool) (p q : Statement)
    → Gentle i a e p
    → Gentle i a e q
    → Gentle i a e (and_then p q)
unfolding and_then
and_then-Gentle i a e p q hp hq rs s t = go_on-Touched i a e q rs (p s) hq (hp rs s t)

email-Gentle :
    (i : ℕ) (a e : Option Bool) (fails : Bool) (email : Option Text)
    → Gentle i a e (set_email fails i email)
unfolding set_email
email-Gentle i a e fails none rs s t = t
email-Gentle i a e fails (some m) rs s t = elim (Bool-cases (is_empty (trim m))) [
  | inl blank ↦ rw blank t
  | inr there ↦ rw there (set_user-Gentle i a e fails _ (λ r. (refl, inl refl, inl refl)) rs s t)
]

password-Gentle :
    (a e : Option Bool) (x : Externals) (fails : Bool) (target : User) (password : Option Text)
    → Gentle target.id a e (set_password x fails target password)
unfolding set_password
password-Gentle a e x fails target none rs s t = t
password-Gentle a e x fails target (some pw) rs s t = elim (Option-cases (x.hash_password pw)) [
  | inl broken ↦ rw (set_password, broken) t
  | inr (hash, there) ↦
      rw (set_password, there)
        (set_user-Gentle target.id a e fails _ (λ r. (refl, inl refl, inl refl)) rs s t)
]

admin-Gentle : (i : ℕ) (a e : Option Bool) (fails : Bool) → Gentle i a e (set_admin fails i a)
unfolding set_admin
admin-Gentle i none e fails rs s t = t
admin-Gentle i (some b) e fails rs s t =
    set_user-Gentle i (some b) e fails _ (λ r. (refl, inr refl, inl refl)) rs s t

enabled-Gentle : (i : ℕ) (a e : Option Bool) (fails : Bool) → Gentle i a e (set_enabled fails i e)
unfolding set_enabled
enabled-Gentle i a none fails rs s t = t
enabled-Gentle i a (some b) fails rs s t =
    set_user-Gentle i a (some b) fails _ (λ r. (refl, inl refl, inr refl)) rs s t

pub update-Touched :
    (x : Externals) (f : Faults) (target : User) (email password : Option Text) (a e : Option Bool)
    (s : Accounts)
    → Touched target.id a e s.users (update_user x f target email password a e s).1.users
unfolding update_user
update-Touched x f target email password a e s =
    let i = target.id in
    let p = set_email (f 1) i email in
    let q = set_password x (f 2) target password in
    let r = set_admin (f 3) i a in
    let w = set_enabled (f 4) i e in
    elim (Bool-cases (f 0)) [
      | inl down ↦ rw down (Touched-refl i a e s.users)
      | inr up ↦ rw up (
          and_then-Gentle i a e p (and_then q (and_then r w)) (email-Gentle i a e (f 1) email)
            (and_then-Gentle i a e q (and_then r w) (password-Gentle a e x (f 2) target password)
              (and_then-Gentle i a e r w (admin-Gentle i a e (f 3)) (enabled-Gentle i a e (f 4))))
            s.users s (Touched-refl i a e s.users))
    ]

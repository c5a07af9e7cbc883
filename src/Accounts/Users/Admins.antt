-- ===== src/Accounts/Users/Admins.antt =====
-- src/db.rs, src/users_api.rs, src/handlers.rs: who may change an account, and the last administrator.
use arcade_launcher_server.Base.{
  ℕ, ◌+◌, ◌≡◌, ◌≤◌, refl, inl, inr, Bool, true, false, not, ◌&&◌, ◌||◌, Option, none, some, List,
  [], ◌∷◌, Text, Faults, All, All-map, ◌==◌, if◌then◌else◌, select_first, count_where, delete_where,
  Bool-cases, Option-cases, arith, is_some, subst, sym,
}
use arcade_launcher_server.Accounts.{User, Accounts, Externals}
use arcade_launcher_server.Accounts.Users.{
  is_enabled_admin, enabled_admin_count, delete_rows, delete_user_account, apply_user_update,
  panel_update_user, api_users_update, api_users_delete, UpdateUserBody, wanted_role,
  given_password,
}
use arcade_launcher_server.Accounts.Users.Touched.{Touched, Touched-refl, update-Touched}

-- `id` is the primary key.
abbrev pub UniqueIds : List User → Type 0
UniqueIds [] = Unit {0}
UniqueIds (r ∷ rs) = All (λ q. (q.id == r.id) ≡ false) rs × UniqueIds rs

abbrev Away : ℕ → User → Type 0
Away i r = (r.id == i) ≡ false

Away-Touched :
    (i : ℕ) (a e : Option Bool) (rs rs' : List User)
    → All (Away i) rs
    → Touched i a e rs rs'
    → count_where is_enabled_admin rs' ≡ count_where is_enabled_admin rs
unfolding count_where
Away-Touched i a e [] [] k t = refl
Away-Touched i a e (r ∷ rs) (r' ∷ rs') (k, ks) (t, ts) =
    let same = t.elsewhere k in rw (same, Away-Touched i a e rs rs' ks ts)
Away-Touched i a e [] (r' ∷ rs') k t = absurd t
Away-Touched i a e (r ∷ rs) [] k t = absurd t

tail-Away :
    (i : ℕ) (r : User) (rs : List User)
    → (r.id == i) ≡ true
    → All (λ q. (q.id == r.id) ≡ false) rs
    → All (Away i) rs
tail-Away i r rs at k = All-map rs (λ q m. ground arith) k

-- An update costs at most one administrator.
count-Touched :
    (i : ℕ) (a e : Option Bool) (rs rs' : List User)
    → UniqueIds rs
    → Touched i a e rs rs'
    → count_where is_enabled_admin rs ≤ count_where is_enabled_admin rs' + 1
unfolding count_where
count-Touched i a e [] [] u t = ground arith
count-Touched i a e (r ∷ rs) (r' ∷ rs') (u, us) (t, ts) = elim (Bool-cases (r.id == i)) [
  | inl at ↦ ground (arith, Away-Touched i a e rs rs' (tail-Away i r rs at u) ts)
  | inr away ↦
      let same = t.elsewhere away in rw same (ground (arith, count-Touched i a e rs rs' us ts))
]
count-Touched i a e [] (r' ∷ rs') u t = absurd t
count-Touched i a e (r ∷ rs) [] u t = absurd t

-- An update that takes neither the role nor the state from an administrator costs none.
kept-Touched :
    (i : ℕ) (a e : Bool) (target : User) (rs rs' : List User)
    → UniqueIds rs
    → select_first (λ u. u.id == i) rs ≡ some target
    → (target.is_admin && target.enabled && (not a || not e)) ≡ false
    → Touched i (some a) (some e) rs rs'
    → count_where is_enabled_admin rs ≤ count_where is_enabled_admin rs'
unfolding count_where select_first
kept-Touched i a e target [] [] u there safe t = ground arith
kept-Touched i a e target (r ∷ rs) (r' ∷ rs') (u, us) there safe (t, ts) =
    elim (Bool-cases (r.id == i)) [
      | inl at ↦
          let head : r ≡ target = ground arith in
          let role = t.role in
          let state = t.state in
          let rest = Away-Touched i (some a) (some e) rs rs' (tail-Away i r rs at u) ts in
          ground arith
      | inr away ↦
          let same = t.elsewhere away in
          let rest = kept-Touched i a e target rs rs' us (rw away at there) safe ts in
          rw same (ground arith)
    ]
kept-Touched i a e target [] (r' ∷ rs') u there safe t = absurd t
kept-Touched i a e target (r ∷ rs) [] u there safe t = absurd t

apply-last_admin :
    (x : Externals) (f : Faults) (target : User) (email password : Option Text) (a e removes : Bool)
    (s : Accounts)
    → UniqueIds s.users
    → select_first (λ u. u.id == target.id) s.users ≡ some target
    → (target.is_admin && target.enabled && (not a || not e)) ≡ removes
    → 1 ≤ enabled_admin_count s
    → 1 ≤ enabled_admin_count (apply_user_update x f target email password a e removes s).1
unfolding apply_user_update enabled_admin_count
apply-last_admin x f target email password a e true s u there removes some_admin =
    let touched = update-Touched x (λ k. f (k + 2)) target email password (some a) (some e) s in
    ground (arith, count-Touched target.id (some a) (some e) s.users _ u touched)
apply-last_admin x f target email password a e false s u there removes some_admin =
    let touched = update-Touched x (λ k. f (k + 2)) target email password (some a) (some e) s in
    ground (arith, kept-Touched target.id a e target s.users _ u there removes touched)

first-id :
    (id : ℕ) (rs : List User) (t : User) → select_first (λ u. u.id == id) rs ≡ some t → t.id ≡ id
unfolding select_first
first-id id [] t there = absurd (cc)
first-id id (r ∷ rs) t there = ground (arith, first-id id rs t)

-- Where identifiers are unique and there is an enabled administrator: the user action of the admin
-- panel leaves an enabled administrator, whatever
-- the action is asked for and whichever of its statements fail.
pub panel-last_admin :
    (x : Externals) (f : Faults) (user_id : Option ℕ) (email password : Option Text)
    (new_admin new_enabled : Bool) (s : Accounts)
    → UniqueIds s.users
    → 1 ≤ enabled_admin_count s
    → 1
      ≤ enabled_admin_count (panel_update_user x f user_id email password new_admin new_enabled s).1
unfolding panel_update_user
panel-last_admin x f none email password a e s u some_admin = some_admin
panel-last_admin x f (some id) email password a e s u some_admin =
    elim (Option-cases (select_first (λ u. u.id == id) s.users)) [
      | inl missing ↦ ground arith
      | inr (t, there) ↦
          let at : t.id ≡ id = first-id id s.users t there in
          let found : select_first (λ u. u.id == t.id) s.users ≡ some t =
            subst (λ j. select_first (λ u. u.id == j) s.users ≡ some t) (sym at) there in
          ground (
            arith,
            apply-last_admin x (λ k. f (k + 2)) t email (given_password password) a e _ s u found
                refl some_admin,
          )
    ]

count-Away :
    (id : ℕ) (rs : List User)
    → All (Away id) rs
    → count_where is_enabled_admin (delete_where (λ u. u.id == id) rs)
      ≡ count_where is_enabled_admin rs
unfolding count_where delete_where
count-Away id [] k = refl
count-Away id (r ∷ rs) (k, ks) = rw (k, count-Away id rs ks)

count-delete :
    (id : ℕ) (t : User) (rs : List User)
    → UniqueIds rs
    → select_first (λ u. u.id == id) rs ≡ some t
    → count_where is_enabled_admin rs
      ≤ count_where is_enabled_admin (delete_where (λ u. u.id == id) rs)
        + (if is_enabled_admin t then 1 else 0)
unfolding count_where delete_where select_first
count-delete id t [] u there = ground arith
count-delete id t (r ∷ rs) (u, us) there = elim (Bool-cases (r.id == id)) [
  | inl at ↦
      let head : r ≡ t = ground arith in ground (arith, count-Away id rs (tail-Away id r rs at u))
  | inr away ↦
      let tail : select_first (λ u. u.id == id) rs ≡ some t = rw away at there in
      ground (arith, count-delete id t rs us tail)
]

-- Where identifiers are unique and there is an enabled administrator: deleting an account leaves an
-- enabled administrator, whichever of the
-- statements fail.
pub delete-last_admin :
    (f : Faults) (caller : Option User) (id : ℕ) (s : Accounts)
    → UniqueIds s.users
    → 1 ≤ enabled_admin_count s
    → 1 ≤ enabled_admin_count (api_users_delete f caller id s).1
unfolding api_users_delete delete_user_account delete_rows enabled_admin_count
delete-last_admin f none id s u some_admin = some_admin
delete-last_admin f (some caller) id s u some_admin =
    elim (Option-cases (select_first (λ u. u.id == id) s.users)) [
      | inl missing ↦ ground arith
      | inr (t, there) ↦ ground (arith, count-delete id t s.users u there)
    ]

plain-Touched :
    (i j : ℕ) (a e : Option Bool) (rs rs' : List User)
    → i ≡ j
    → a ≡ none
    → e ≡ none
    → Touched i a e rs rs'
    → Touched j none none rs rs'
plain-Touched i j a e rs rs' p q r t = rw (p, q, r) at t

-- A caller who is no administrator changes at most the row of that caller's own account, and
-- neither its role nor its enabled state.
pub update-unprivileged :
    (x : Externals) (f : Faults) (caller : User) (id : ℕ) (body : UpdateUserBody) (s : Accounts)
    → caller.is_admin ≡ false
    → Touched caller.id none none s.users (api_users_update x f (some caller) id body s).1.users
unfolding api_users_update
update-unprivileged x f caller id body s plain =
    let same = Touched-refl caller.id none none s.users in
    elim (Bool-cases (not caller.is_admin && not (caller.id == id))) [
      | inl other ↦ rw other same
      | inr own ↦
          elim (Bool-cases (
            (is_some body.is_admin || is_some body.role || is_some body.enabled)
            && not caller.is_admin)) [
              | inl asks ↦ rw (own, asks) same
              | inr modest ↦ elim (Option-cases (select_first (λ u. u.id == id) s.users)) [
                | inl missing ↦ ground (arith, same)
                | inr (t, there) ↦
                    let id_same : t.id ≡ caller.id = ground (arith, first-id id s.users t there) in
                    let role : wanted_role body.is_admin body.role ≡ none = ground arith in
                    let state : body.enabled ≡ none = ground arith in
                    let touched =
                      plain-Touched t.id caller.id (wanted_role body.is_admin body.role)
                        body.enabled s.users _ id_same role state
                        (update-Touched x (λ k. f (k + 2)) t body.email body.password
                          (wanted_role body.is_admin body.role) body.enabled s) in
                    ground (arith, same, touched)
              ]
            ]
    ]

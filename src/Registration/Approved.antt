-- ===== src/Registration/Approved.antt =====
-- src/registration.rs and src/admin_extra.rs: histories of requests and answers, by links and in the
-- panel. A log has its newest event at the head.
use arcade_launcher_server.Base.{
  ℕ, ◌≡◌, ◌⊎◌, refl, inl, inr, Bool, true, false, ◌||◌, none, some, List, [], ◌∷◌, any, Text, trim,
  ==_iff, Faults, All, All-map, All-delete_where, All-select_first, select_first, ◌==◌, Bool-cases,
  Option-cases,
}
use arcade_launcher_server.Accounts.{User, Accounts}
use arcade_launcher_server.Accounts.Folding.{Folding}
use arcade_launcher_server.Registration.Panel.{
  approve_pending_registration, deny_pending_registration,
}
use arcade_launcher_server.Registration.{
  Pending, Signups, RegisterCall, validate_registration, normalize_username, named, awaits,
  new_pending, insert_pending, api_auth_register, without, new_account, create_account,
  api_auth_approve, api_auth_deny,
}

pub data Event : Type 0 where
  registers : Faults → Bool → RegisterCall → Text → ℕ → Event
  approves : Faults → Text → Event
  denies : Faults → Text → Event
  panel_approves : Faults → ℕ → Event
  panel_denies : Faults → ℕ → Event

module _ (x : Folding) where
  unfoldable pub step : Event → Signups → Signups
  step (registers f is_open c token now) s = (api_auth_register x f is_open c token now s).1
  step (approves f token) s = (api_auth_approve x f token s).1
  step (denies f token) s = (api_auth_deny x f token s).1
  step (panel_approves f id) s = (approve_pending_registration x f id s).1
  step (panel_denies f id) s = (deny_pending_registration f id s).1

  unfoldable pub run : List Event → Accounts → Signups
  unfolding step
  run [] a = record { accounts = a; pending = []; next_pending = 1 }
  run (e ∷ es) a = step e (run es a)

  -- A request that signup was open for and that passed the checks, with the hash of its password.
  abbrev pub Requested : RegisterCall → Bool → Text → ℕ → Pending → Type 0
  Requested c is_open token now r =
      (is_open ≡ true)
      × (validate_registration (trim c.username) (trim c.email) c.password ≡ none)
      × (hash : Text) × (id : ℕ) × (x.accounts.hash_password c.password ≡ some hash)
      × (r ≡ new_pending x c hash token now id)

  abbrev pub Registered : List Event → Pending → Type 0
  Registered [] r = ⊥
  Registered (registers f is_open c token now ∷ es) r =
      Requested c is_open token now r ⊎ Registered es r
  Registered (approves f token ∷ es) r = Registered es r
  Registered (denies f token ∷ es) r = Registered es r
  Registered (panel_approves f id ∷ es) r = Registered es r
  Registered (panel_denies f id ∷ es) r = Registered es r

  -- An approval of a request of the history: with a token that the database takes for that of its
  -- link, or in the panel by its number.
  abbrev pub Granted : List Event → User → Type 0
  Granted [] u = ⊥
  Granted (registers f is_open c token now ∷ es) u = Granted es u
  Granted (approves f token ∷ es) u =
      ((r : Pending) × (id : ℕ) × (x.accounts.same_text r.token (trim token) ≡ true)
        × Registered es r
        × (u ≡ new_account id r))
      ⊎ Granted es u
  Granted (denies f token ∷ es) u = Granted es u
  Granted (panel_approves f id ∷ es) u =
      ((r : Pending) × (user_id : ℕ) × (r.id ≡ id) × Registered es r × (u ≡ new_account user_id r))
      ⊎ Granted es u
  Granted (panel_denies f id ∷ es) u = Granted es u

  All-without :
      (P : Pending → Type 0) (fails : Bool) (id : ℕ) (rs : List Pending)
      → All P rs
      → All P (without fails id rs)
  All-without P true id rs k = k
  All-without P false id rs k = All-delete_where (λ r. r.id == id) rs (λ r m _. m) k

  All-insert :
      (P : Pending → Type 0) (fails : Bool) (c : RegisterCall) (hash token : Text) (now : ℕ)
      (s : Signups)
      → ((id : ℕ) → P (new_pending x c hash token now id))
      → All P s.pending
      → All P (insert_pending x fails c hash token now s).1.pending
        × ((insert_pending x fails c hash token now s).1.accounts ≡ s.accounts)
  unfolding insert_pending
  All-insert P fails c hash token now s new k =
      elim (Bool-cases (fails || any (λ r. x.accounts.same_text r.token token) s.pending)) [
        | inl stopped ↦ rw stopped (k, refl)
        | inr goes ↦ rw goes ((new s.next_pending, k), refl)
      ]

  -- A request adds at most its own row, and no account.
  pub All-register :
      (P : Pending → Type 0) (f : Faults) (is_open : Bool) (c : RegisterCall) (token : Text)
      (now : ℕ) (s : Signups)
      → ((r : Pending) → Requested c is_open token now r → P r)
      → All P s.pending
      → All P (api_auth_register x f is_open c token now s).1.pending
        × ((api_auth_register x f is_open c token now s).1.accounts ≡ s.accounts)
  unfolding api_auth_register
  All-register P f false c token now s new k = (k, refl)
  All-register P f true c token now s new k =
      elim (Option-cases (validate_registration (trim c.username) (trim c.email) c.password)) [
        | inr (reason, bad) ↦ rw bad (k, refl)
        | inl good ↦ elim (Bool-cases (f 0 || f 1)) [
          | inl stopped ↦ rw (good, stopped) (k, refl)
          | inr goes ↦
              elim (Bool-cases (
                any
                  (named x (normalize_username x (trim c.username)) (x.to_lowercase (trim c.email)))
                  s.accounts.users)) [
                    | inl taken ↦ rw (good, goes, taken) (k, refl)
                    | inr free ↦ elim (Bool-cases (f 2)) [
                      | inl fails ↦ rw (good, goes, free, fails) (k, refl)
                      | inr works ↦
                          elim (Bool-cases (
                            any
                              (awaits x (normalize_username x (trim c.username))
                                (x.to_lowercase (trim c.email)))
                              s.pending)) [
                                | inl waits ↦ rw (good, goes, free, works, waits) (k, refl)
                                | inr alone ↦
                                    elim (Option-cases (x.accounts.hash_password c.password)) [
                                      | inl missing ↦
                                          rw (good, goes, free, works, alone, missing) (k, refl)
                                      | inr (hash, there) ↦
                                          rw (good, goes, free, works, alone, there)
                                            (All-insert P (f 3) c hash token now s
                                              (λ id. new _ (refl, good, hash, id, there, refl)) k)
                                    ]
                              ]
                    ]
                  ]
        ]
      ]

  pub deny-kept :
      (P : Pending → Type 0) (f : Faults) (token : Text) (s : Signups)
      → All P s.pending
      → All P (api_auth_deny x f token s).1.pending
        × ((api_auth_deny x f token s).1.accounts ≡ s.accounts)
  unfolding api_auth_deny
  deny-kept P f token s k = elim (Bool-cases (f 0 || f 1)) [
    | inl stopped ↦ rw stopped (k, refl)
    | inr goes ↦
        elim (Option-cases
          (select_first (λ r. x.accounts.same_text r.token (trim token)) s.pending)) [
            | inl missing ↦ rw (goes, missing) (k, refl)
            | inr (r, there) ↦ rw (goes, there) (All-without P (f 2) r.id s.pending k, refl)
          ]
  ]

  create-kept :
      (P : Pending → Type 0) (Q : User → Type 0) (f : Faults) (r : Pending) (s : Signups)
      → All P s.pending
      → All Q s.accounts.users
      → ((id : ℕ) → Q (new_account id r))
      → All P (create_account x f r s).1.pending × All Q (create_account x f r s).1.accounts.users
  unfolding create_account
  create-kept P Q f r s k q new = elim (Bool-cases (f 2)) [
    | inl fails ↦ rw fails (k, q)
    | inr works ↦
        elim (Bool-cases
          (any (named x (x.to_lowercase r.username) (x.to_lowercase r.email)) s.accounts.users)) [
            | inl taken ↦ rw (works, taken) (All-without P (f 3) r.id s.pending k, q)
            | inr free ↦ elim (Bool-cases (f 4)) [
              | inl fails ↦ rw (works, free, fails) (k, q)
              | inr inserted ↦
                  rw (works, free, inserted)
                    (All-without P (f 5) r.id s.pending k, (new s.accounts.next_user, q))
            ]
          ]
  ]

  pub approve-kept :
      (P : Pending → Type 0) (Q : User → Type 0) (f : Faults) (token : Text) (s : Signups)
      → All P s.pending
      → All Q s.accounts.users
      → ((r : Pending) (id : ℕ)
          → P r
          → x.accounts.same_text r.token (trim token) ≡ true
          → Q (new_account id r))
      → All P (api_auth_approve x f token s).1.pending
        × All Q (api_auth_approve x f token s).1.accounts.users
  unfolding api_auth_approve
  approve-kept P Q f token s k q new = elim (Bool-cases (f 0 || f 1)) [
    | inl stopped ↦ rw stopped (k, q)
    | inr goes ↦
        elim (Option-cases
          (select_first (λ r. x.accounts.same_text r.token (trim token)) s.pending)) [
            | inl missing ↦ rw (goes, missing) (k, q)
            | inr (r, there) ↦
                let (p, hit) =
                  All-select_first P (λ r. x.accounts.same_text r.token (trim token)) s.pending r k
                    there in
                rw (goes, there) (create-kept P Q f r s k q (λ id. new r id p hit))
          ]
  ]

  pub panel_approve-kept :
      (P : Pending → Type 0) (Q : User → Type 0) (f : Faults) (id : ℕ) (s : Signups)
      → All P s.pending
      → All Q s.accounts.users
      → ((r : Pending) (user_id : ℕ) → P r → r.id ≡ id → Q (new_account user_id r))
      → All P (approve_pending_registration x f id s).1.pending
        × All Q (approve_pending_registration x f id s).1.accounts.users
  unfolding approve_pending_registration
  panel_approve-kept P Q f id s k q new = elim (Bool-cases (f 0 || f 1)) [
    | inl stopped ↦ rw stopped (k, q)
    | inr goes ↦ elim (Option-cases (select_first (λ r. r.id == id) s.pending)) [
      | inl missing ↦ rw (goes, missing) (k, q)
      | inr (r, there) ↦
          let (p, hit) = All-select_first P (λ r. r.id == id) s.pending r k there in
          rw (goes, there)
            (create-kept P Q f r s k q (λ user_id. new r user_id p ((==_iff r.id id).0 hit)))
    ]
  ]

  pub panel_deny-kept :
      (P : Pending → Type 0) (f : Faults) (id : ℕ) (s : Signups)
      → All P s.pending
      → All P (deny_pending_registration f id s).1.pending
        × ((deny_pending_registration f id s).1.accounts ≡ s.accounts)
  unfolding deny_pending_registration
  panel_deny-kept P f id s k = elim (Bool-cases (f 0 || f 1 || f 2)) [
    | inl stopped ↦ rw stopped (k, refl)
    | inr goes ↦ rw goes (All-without P (f 2) id s.pending k, refl)
  ]

  module _ (Old : User → Type 0) (a : Accounts) (old : All Old a.users) where
    abbrev Known : List Event → User → Type 0
    Known es u = Old u ⊎ Granted es u

    run-Granted :
        (es : List Event)
        → All (Registered es) (run es a).pending × All (Known es) (run es a).accounts.users
    unfolding run step
    run-Granted [] = (tt, All-map a.users (λ u m. inl m) old)
    run-Granted (registers f is_open c token now ∷ es) =
        let (k, q) = run-Granted es in
        let (k', same) =
          All-register (Registered (registers f is_open c token now ∷ es)) f is_open c token now
            (run es a) (λ r m. inl m) (All-map (run es a).pending (λ r m. inr m) k) in
        (k', rw same q)
    run-Granted (approves f token ∷ es) =
        let (k, q) = run-Granted es in
        approve-kept (Registered es) (Known (approves f token ∷ es)) f token (run es a) k
          (All-map (run es a).accounts.users (λ u m. elim m [ inl o ↦ inl o | inr g ↦ inr (inr g) ])
            q)
          (λ r id p e. inr (inl (r, id, e, p, refl)))
    run-Granted (denies f token ∷ es) =
        let (k, q) = run-Granted es in
        let (k', same) = deny-kept (Registered es) f token (run es a) k in (k', rw same q)
    run-Granted (panel_approves f id ∷ es) =
        let (k, q) = run-Granted es in
        panel_approve-kept (Registered es) (Known (panel_approves f id ∷ es)) f id (run es a) k
          (All-map (run es a).accounts.users (λ u m. elim m [ inl o ↦ inl o | inr g ↦ inr (inr g) ])
            q)
          (λ r user_id p e. inr (inl (r, user_id, e, p, refl)))
    run-Granted (panel_denies f id ∷ es) =
        let (k, q) = run-Granted es in
        let (k', same) = panel_deny-kept (Registered es) f id (run es a) k in (k', rw same q)

    -- After any history of requests and of answers by links or in the panel, whichever statements
    -- fail: every account is one that was there before or comes from a request that was sent while
    -- signup was open and passed the checks, and that was approved after, in the panel by its number
    -- or with a token that the database takes for that of its link. Such an account is
    -- enabled, is no administrator, and has the name, the address, the hash and the challenge key of
    -- the request.
    pub accounts-Granted :
        (es : List Event) → All (λ u. Old u ⊎ Granted es u) (run es a).accounts.users
    accounts-Granted es = (run-Granted es).1

-- ===== src/Accounts/Tokens.antt =====
-- src/db.rs: stored tokens and their hashes, and what an issued token gives access to.
pub mod Issued
use arcade_launcher_server.Base.{
  ℕ, ◌<◌, ◌≡◌, ◌≢◌, refl, inl, inr, Bool, true, false, not, ◌&&◌, ◌||◌, Option, none, some, List,
  [], ◌∷◌, any, Text, text_eq, text_eq_iff, text_eq_refl, Faults, All, All-delete_where,
  All-update_where, All-select_first, All-map, ◌==◌, select_first, update_where, delete_where,
  Bool-cases, Option-cases, arith, ok, err,
}
use arcade_launcher_server.Accounts.{
  Token, Accounts, Externals, owned_by, taken, usable, or_blank, token_user, issued, mint_token,
  issue_user_token, reuse_or_mint, rotate_launcher_token, delete_launcher_token, revoke_tokens,
}

-- The stored copy of a token belongs to the stored hash.
abbrev pub Hashed : Externals → Token → Type 0
Hashed x r = usable r.token_plain ≡ true → r.token_hash ≡ x.sha256_hex (or_blank r.token_plain)

All-zip : (P Q : Token → Type 0) (rs : List Token) → All P rs → All Q rs → All (λ r. P r × Q r) rs
All-zip P Q [] h k = tt
All-zip P Q (r ∷ rs) (h, hs) (k, ks) = ((h, k), All-zip P Q rs hs ks)

pub All-unit : (rs : List Token) → All (λ q. Unit {0}) rs
All-unit [] = tt
All-unit (r ∷ rs) = (tt, All-unit rs)

-- No two rows have one hash or one identifier.
abbrev pub Distinct : List Token → Type 0
Distinct [] = Unit {0}
Distinct (r ∷ rs) =
    All (λ q. (text_eq q.token_hash r.token_hash ≡ false) × ((q.id == r.id) ≡ false)) rs
    × Distinct rs

abbrev Below : ℕ → Token → Type 0
Below n r = r.id < n

-- What the token table satisfies at all times.
pub record IsKept (x : Externals) (s : Accounts) : Type 0 where
  pub hashed : All (Hashed x) s.tokens
  pub distinct : Distinct s.tokens
  pub below : All (Below s.next_token) s.tokens

abbrev Free : Text → ℕ → Token → Type 0
Free h id r = (r.id == id) ≡ false → text_eq r.token_hash h ≡ false

taken-Free : (h : Text) (id : ℕ) (rs : List Token) → taken h id rs ≡ false → All (Free h id) rs
taken-Free h id [] e = tt
taken-Free h id (r ∷ rs) e = (λ other. ground arith, taken-Free h id rs (ground arith))

-- A change of the row `id` to a hash that no other row has.
module _ (h : Text) (id : ℕ) (g : Token → Token) where
  abbrev Sets : Token → Type 0
  Sets q = (text_eq (g q).token_hash h ≡ true) × ((g q).id ≡ q.id)

  set-Distinct :
      (sets : (q : Token) → Sets q) (rs : List Token)
      → All (Free h id) rs
      → Distinct rs
      → Distinct (update_where (λ q. q.id == id) g rs)
  unfolding update_where
  set-Distinct sets [] k d = tt
  set-Distinct sets (r ∷ rs) (free, k) (d, ds) =
      let rest = set-Distinct sets rs k ds in
      let both = All-zip _ _ rs k d in
      elim (Bool-cases (r.id == id)) [
        | inl hit ↦ rw hit (
          All-update_where (λ q. q.id == id) g rs (λ q m at. absurd (ground (arith, m.1.1)))
              (λ q m at. ground (arith, m.0, sets r, text_eq_iff (g r).token_hash h)) both,
          rest,
        )
        | inr miss ↦ rw miss (
          All-update_where (λ q. q.id == id) g rs
              (λ q m at. ground (
                arith,
                free,
                sets q,
                text_eq_iff (g q).token_hash h,
                text_eq_iff r.token_hash h,
                text_eq_iff (g q).token_hash r.token_hash,
              ))
              (λ q m at. m.1) both,
          rest,
        )
      ]

delete-Distinct : (p : Token → Bool) (rs : List Token) → Distinct rs → Distinct (delete_where p rs)
unfolding delete_where
delete-Distinct p [] d = tt
delete-Distinct p (r ∷ rs) (d, ds) = elim (Bool-cases (p r)) [
  | inl hit ↦ rw hit (delete-Distinct p rs ds)
  | inr miss ↦ rw miss (All-delete_where p rs (λ q k _. k) d, delete-Distinct p rs ds)
]

-- Rows keep their hashes and identifiers.
disable-Distinct :
    (p : Token → Bool) (rs : List Token)
    → Distinct rs
    → Distinct (update_where p (λ r. record r { enabled = false }) rs)
unfolding update_where
disable-Distinct p [] d = tt
disable-Distinct p (r ∷ rs) (d, ds) =
    let rest = disable-Distinct p rs ds in
    let kept =
      All-update_where p (λ q. record q { enabled = false }) rs (λ q k _. k) (λ q k _. k) d in
    elim (Bool-cases (p r)) [ inl hit ↦ rw hit (kept, rest) | inr miss ↦ rw miss (kept, rest) ]

set-IsKept :
    (x : Externals) (token : Text) (id : ℕ) (g : Token → Token) (s : Accounts)
    → ((q : Token) → Sets (x.sha256_hex token) id g q)
    → ((q : Token) → (g q).token_plain ≡ some token)
    → taken (x.sha256_hex token) id s.tokens ≡ false
    → IsKept x s
    → IsKept x (record s { tokens = update_where (λ q. q.id == id) g s.tokens })
set-IsKept x token id g s sets plain free k = record {
  hashed =
      All-update_where (λ q. q.id == id) g s.tokens
        (λ q m _ used.
          ground (arith, sets q, plain q, text_eq_iff (g q).token_hash (x.sha256_hex token)))
        (λ q m _. m) k.hashed;
  distinct =
      set-Distinct (x.sha256_hex token) id g sets s.tokens (taken-Free _ id s.tokens free)
        k.distinct;
  below =
      All-update_where (λ q. q.id == id) g s.tokens (λ q m _. ground (arith, sets q)) (λ q m _. m)
        k.below;
}

pub mint-IsKept :
    (x : Externals) (f : Faults) (user_id : ℕ) (username token : Text) (now : ℕ) (o : Option Token)
    (s : Accounts)
    → IsKept x s
    → IsKept x (mint_token x f user_id username token now o s).1
unfolding mint_token
mint-IsKept x f user_id username token now (some r) s k =
    elim (Bool-cases (f 2 || taken (x.sha256_hex token) r.id s.tokens)) [
      | inl stopped ↦ rw stopped k
      | inr goes ↦ rw goes (
          set-IsKept x token r.id _ s (λ q. (text_eq_refl (x.sha256_hex token), refl)) (λ q. refl)
            (ground arith) k)
    ]
mint-IsKept x f user_id username token now none s k =
    elim (Bool-cases (f 2 || taken (x.sha256_hex token) s.next_token s.tokens)) [
      | inl stopped ↦ rw stopped k
      | inr goes ↦
          let free = taken-Free (x.sha256_hex token) s.next_token s.tokens (ground arith) in
          rw goes (record {
            hashed = (λ used. refl, k.hashed);
            distinct = (
              All-map s.tokens (λ q m. ground (arith, m.0, m.1))
                  (All-zip _ _ s.tokens free k.below),
              k.distinct,
            );
            below = (ground arith, All-map s.tokens (λ q m. ground arith) k.below);
          })
    ]

-- Issuing a token keeps the token table sound.
pub issue-IsKept :
    (x : Externals) (f : Faults) (user_id : ℕ) (username token : Text) (now : ℕ) (s : Accounts)
    → IsKept x s
    → IsKept x (issue_user_token x f user_id username token now s).1
unfolding issue_user_token reuse_or_mint
issue-IsKept x f user_id username token now s k = elim (Bool-cases (f 0 || f 1)) [
  | inl stopped ↦ rw stopped k
  | inr goes ↦ elim (Option-cases (select_first (owned_by user_id) s.tokens)) [
    | inl missing ↦ rw (goes, missing) (mint-IsKept x f user_id username token now none s k)
    | inr (r, there) ↦ elim (Bool-cases (r.enabled && usable r.token_plain)) [
      | inl good ↦ rw (goes, there, good) k
      | inr bad ↦ rw (goes, there, bad) (mint-IsKept x f user_id username token now (some r) s k)
    ]
  ]
]

rotate-IsKept :
    (x : Externals) (f : Faults) (id : ℕ) (token : Text) (now : ℕ) (s : Accounts)
    → IsKept x s
    → IsKept x (rotate_launcher_token x f id token now s)
unfolding rotate_launcher_token
rotate-IsKept x f id token now s k =
    elim (Bool-cases (f 0 || f 1 || taken (x.sha256_hex token) id s.tokens)) [
      | inl stopped ↦ rw stopped k
      | inr goes ↦ rw goes (
          set-IsKept x token id _ s (λ q. (text_eq_refl (x.sha256_hex token), refl)) (λ q. refl)
            (ground arith) k)
    ]

delete-IsKept :
    (x : Externals) (f : Faults) (id : ℕ) (s : Accounts)
    → IsKept x s
    → IsKept x (delete_launcher_token f id s)
unfolding delete_launcher_token
delete-IsKept x f id s k = elim (Bool-cases (f 0 || f 1)) [
  | inl stopped ↦ rw stopped k
  | inr goes ↦ rw goes (record {
    hashed = All-delete_where _ s.tokens (λ q m _. m) k.hashed;
    distinct = delete-Distinct _ s.tokens k.distinct;
    below = All-delete_where _ s.tokens (λ q m _. m) k.below;
  })
]

revoke-IsKept :
    (x : Externals) (f : Faults) (user_id : ℕ) (s : Accounts)
    → IsKept x s
    → IsKept x (revoke_tokens f user_id s)
unfolding revoke_tokens
revoke-IsKept x f user_id s k = elim (Bool-cases (f 0 || f 1)) [
  | inl stopped ↦ rw stopped k
  | inr goes ↦ rw goes (record {
    hashed = All-update_where _ _ s.tokens (λ q m _. m) (λ q m _. m) k.hashed;
    distinct = disable-Distinct _ s.tokens k.distinct;
    below = All-update_where _ _ s.tokens (λ q m _. m) (λ q m _. m) k.below;
  })
]

pub data Event : Type 0 where
  issues : Faults → ℕ → Text → Text → ℕ → Event
  rotates : Faults → ℕ → Text → ℕ → Event
  deletes : Faults → ℕ → Event
  revokes : Faults → ℕ → Event

unfoldable pub step : Externals → Event → Accounts → Accounts
step x (issues f user_id username token now) s =
    (issue_user_token x f user_id username token now s).1
step x (rotates f id token now) s = rotate_launcher_token x f id token now s
step x (deletes f id) s = delete_launcher_token f id s
step x (revokes f user_id) s = revoke_tokens f user_id s

-- A log has its newest event at the head.
unfoldable pub run : Externals → List Event → Accounts → Accounts
run x [] s = s
run x (e ∷ es) s = step x e (run x es s)

abbrev pub no_accounts : Accounts
no_accounts = record {
  users = [];
  tokens = [];
  admin_sessions = [];
  user_sessions = [];
  next_token = 1;
  next_user = 1;
}

pub run-IsKept : (x : Externals) (es : List Event) → IsKept x (run x es no_accounts)
unfolding run step
run-IsKept x [] = record { hashed = tt; distinct = tt; below = tt }
run-IsKept x (issues f user_id username token now ∷ es) =
    issue-IsKept x f user_id username token now (run x es no_accounts) (run-IsKept x es)
run-IsKept x (rotates f id token now ∷ es) =
    rotate-IsKept x f id token now (run x es no_accounts) (run-IsKept x es)
run-IsKept x (deletes f id ∷ es) = delete-IsKept x f id (run x es no_accounts) (run-IsKept x es)
run-IsKept x (revokes f user_id ∷ es) =
    revoke-IsKept x f user_id (run x es no_accounts) (run-IsKept x es)

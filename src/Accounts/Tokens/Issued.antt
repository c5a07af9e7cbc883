-- ===== src/Accounts/Tokens/Issued.antt =====
-- src/db.rs: whom an issued token signs in.
use arcade_launcher_server.Base.{
  ℕ, ◌≡◌, refl, inl, inr, Bool, true, false, ◌&&◌, ◌||◌, Option, none, some, List, [], ◌∷◌, Text,
  text_eq, text_eq_iff, text_eq_refl, Faults, All-select_first, ◌==◌, select_first, update_where,
  Bool-cases, Option-cases, arith, ok,
}
use arcade_launcher_server.Accounts.{
  Token, Accounts, Externals, owned_by, taken, usable, or_blank, token_user, issued, mint_token,
  issue_user_token, reuse_or_mint,
}
use arcade_launcher_server.Accounts.{reuse_or_mint}
use arcade_launcher_server.Accounts.Tokens.{
  Hashed, Distinct, All-unit, IsKept, mint-IsKept, Event, run, no_accounts, run-IsKept,
}

select-by_hash :
    (h : Text) (user_id : ℕ) (r : Token) (rs : List Token)
    → Distinct rs
    → select_first (owned_by user_id) rs ≡ some r
    → text_eq r.token_hash h ≡ true
    → r.enabled ≡ true
    → select_first (λ q. text_eq q.token_hash h && q.enabled) rs ≡ some r
unfolding select_first
select-by_hash h user_id r [] d there same on = absurd (cc)
select-by_hash h user_id r (q ∷ rs) (d, ds) there same on = elim (Bool-cases (owned_by user_id q)) [
  | inl hit ↦ let e : q ≡ r = ground arith in rw (e, same, on)
  | inr miss ↦
      let tail : select_first (owned_by user_id) rs ≡ some r = rw miss at there in
      let (m, _) = All-select_first _ (owned_by user_id) rs r d tail in
      let other : text_eq q.token_hash h ≡ false = ground (
        arith,
        m.0,
        text_eq_iff r.token_hash h,
        text_eq_iff q.token_hash h,
        text_eq_iff r.token_hash q.token_hash,
      ) in
      rw other (select-by_hash h user_id r rs ds tail same on)
]

select-updated :
    (user_id id : ℕ) (g : Token → Token) (r : Token) (rs : List Token)
    → ((q : Token) → (g q).user_id ≡ q.user_id)
    → r.id ≡ id
    → select_first (owned_by user_id) rs ≡ some r
    → select_first (owned_by user_id) (update_where (λ q. q.id == id) g rs) ≡ some (g r)
unfolding select_first update_where
select-updated user_id id g r [] keeps at there = absurd (cc)
select-updated user_id id g r (q ∷ rs) keeps at there =
    ground (arith, keeps q, select-updated user_id id g r rs keeps at)

select-head :
    (p : Token → Bool) (r : Token) (rs : List Token) → p r ≡ true → select_first p (r ∷ rs) ≡ some r
unfolding select_first
select-head p r rs hit = rw hit

-- The row that an issued token stands in is the one that the token finds.
owner-by_hash :
    (x : Externals) (token : Text) (user_id : ℕ) (r : Token) (s : Accounts)
    → Distinct s.tokens
    → select_first (owned_by user_id) s.tokens ≡ some r
    → r.token_hash ≡ x.sha256_hex token
    → r.enabled ≡ true
    → token_user x token s ≡ some user_id
unfolding token_user
owner-by_hash x token user_id r s d there same on =
    let (_, owner) =
      All-select_first (λ q. Unit {0}) (owned_by user_id) s.tokens r (All-unit s.tokens) there in
    let h : text_eq r.token_hash (x.sha256_hex token) ≡ true =
      rw same (text_eq_refl (x.sha256_hex token)) in
    let hit = select-by_hash (x.sha256_hex token) user_id r s.tokens d there h on in
    ground (arith, owner, hit)

mint-owner :
    (x : Externals) (f : Faults) (user_id : ℕ) (username token t : Text) (now : ℕ)
    (o : Option Token) (s : Accounts)
    → IsKept x s
    → select_first (owned_by user_id) s.tokens ≡ o
    → (mint_token x f user_id username token now o s).0 ≡ ok t
    → token_user x t (mint_token x f user_id username token now o s).1 ≡ some user_id
unfolding mint_token
mint-owner x f user_id username token t now none s k missing given =
    let kept = mint-IsKept x f user_id username token now none s k in
    elim (Bool-cases (f 2 || taken (x.sha256_hex token) s.next_token s.tokens)) [
      | inl stopped ↦ absurd (ground arith)
      | inr goes ↦
          let same : token ≡ t = ground arith in
          rw goes (
            owner-by_hash x t user_id (issued x s.next_token user_id username token now) _
              (rw goes at kept).distinct (select-head (owned_by user_id) _ s.tokens (ground arith))
              (rw same refl) refl)
    ]
mint-owner x f user_id username token t now (some r) s k there given =
    let kept = mint-IsKept x f user_id username token now (some r) s k in
    elim (Bool-cases (f 2 || taken (x.sha256_hex token) r.id s.tokens)) [
      | inl stopped ↦ absurd (ground arith)
      | inr goes ↦
          let same : token ≡ t = ground arith in
          rw goes (
            owner-by_hash x t user_id _ _ (rw goes at kept).distinct
              (select-updated user_id r.id _ r s.tokens (λ q. refl) refl there) (rw same refl) refl)
    ]

issue-token_user :
    (x : Externals) (f : Faults) (user_id : ℕ) (username token t : Text) (now : ℕ) (s : Accounts)
    → IsKept x s
    → (issue_user_token x f user_id username token now s).0 ≡ ok t
    → token_user x t (issue_user_token x f user_id username token now s).1 ≡ some user_id
unfolding issue_user_token reuse_or_mint
issue-token_user x f user_id username token t now s k given = elim (Bool-cases (f 0 || f 1)) [
  | inl stopped ↦ absurd (ground arith)
  | inr goes ↦ elim (Option-cases (select_first (owned_by user_id) s.tokens)) [
    | inl missing ↦
        rw (goes, missing)
          (mint-owner x f user_id username token t now none s k missing
            (rw (goes, missing) at given))
    | inr (r, there) ↦ elim (Bool-cases (r.enabled && usable r.token_plain)) [
      | inl good ↦
          let plain : or_blank r.token_plain ≡ t = ground arith in
          let (h, _) = All-select_first (Hashed x) (owned_by user_id) s.tokens r k.hashed there in
          rw (goes, there, good)
            (owner-by_hash x t user_id r s k.distinct there (rw plain at (h (ground arith)))
              (ground arith))
      | inr bad ↦
          rw (goes, there, bad)
            (mint-owner x f user_id username token t now (some r) s k there
              (rw (goes, there, bad) at given))
    ]
  ]
]

-- After any history of issued, rotated, deleted and revoked tokens that starts with an empty
-- table: the token that an account is issued, an old one or a new one, signs in that account and
-- no other.
pub issued_token_signs_in :
    (x : Externals) (es : List Event) (f : Faults) (user_id : ℕ) (username token t : Text) (now : ℕ)
    → (issue_user_token x f user_id username token now (run x es no_accounts)).0 ≡ ok t
    → token_user x t (issue_user_token x f user_id username token now (run x es no_accounts)).1
      ≡ some user_id
issued_token_signs_in x es f user_id username token t now given =
    issue-token_user x f user_id username token t now (run x es no_accounts) (run-IsKept x es) given

-- ===== src/Registration/Spent.antt =====
-- src/registration.rs: a link that has made an account makes no second one.
use arcade_launcher_server.Base.{
  ◌≡◌, ◌≢◌, refl, inl, inr, true, false, ◌||◌, some, List, [], ◌∷◌, any, Text, trim, Faults,
  IsCollation, All, All-delete_where, select_first, delete_where, ◌==◌, ==_refl, Bool-cases,
  Option-cases, none, arith,
}
use arcade_launcher_server.Accounts.{User, Accounts}
use arcade_launcher_server.Accounts.Folding.{Folding}
use arcade_launcher_server.Registration.{
  Pending, Signups, approved, named, create_account, api_auth_approve,
}
use arcade_launcher_server.Registration.Approved.{
  Event, registers, approves, denies, panel_approves, panel_denies, step, All-register, deny-kept,
  approve-kept, panel_approve-kept, panel_deny-kept,
}

-- What may come between two uses of a link: requests and answers, and whatever else happens to the
-- accounts, which may be renamed or deleted.
pub data Later : Type 0 where
  answers : Event → Later
  accounts_become : Accounts → Later

module _ (x : Folding) where
  -- The newest is at the head.
  unfoldable pub after : List Later → Signups → Signups
  after [] s = s
  after (answers e ∷ es) s = step x e (after es s)
  after (accounts_become a ∷ es) s = record (after es s) { accounts = a }

  -- `token` is UNIQUE.
  abbrev pub UniqueTokens : List Pending → Type 0
  UniqueTokens [] = Unit {0}
  UniqueTokens (r ∷ rs) =
      All (λ q. x.accounts.same_text q.token r.token ≡ false) rs × UniqueTokens rs

  -- No request draws a token that the database takes for `t`.
  abbrev pub Unissued : Text → List Later → Type 0
  Unissued t [] = Unit {0}
  Unissued t (answers (registers f is_open c token now) ∷ es) =
      (x.accounts.same_text token t ≡ false) × Unissued t es
  Unissued t (answers _ ∷ es) = Unissued t es
  Unissued t (accounts_become a ∷ es) = Unissued t es

  abbrev Unanswerable : Text → Pending → Type 0
  Unanswerable t q = x.accounts.same_text q.token t ≡ false

  units : (us : List User) → All (λ u. Unit {0}) us
  units [] = tt
  units (u ∷ us) = (tt, units us)

  module _ (c : IsCollation x.accounts.same_text) where
    others-Unanswerable :
        (t : Text) (q : Pending) (rs : List Pending)
        → x.accounts.same_text q.token t ≡ true
        → All (λ p. x.accounts.same_text p.token q.token ≡ false) rs
        → All (Unanswerable t) rs
    others-Unanswerable t q [] hit k = tt
    others-Unanswerable t q (p ∷ rs) hit (k, ks) = (
      ground (arith, c.back q.token t, c.along p.token t q.token),
      others-Unanswerable t q rs hit ks,
    )

    deleted-Unanswerable :
        (t : Text) (r : Pending) (rs : List Pending)
        → UniqueTokens rs
        → select_first (λ q. x.accounts.same_text q.token t) rs ≡ some r
        → All (Unanswerable t) (delete_where (λ q. q.id == r.id) rs)
    unfolding select_first delete_where
    deleted-Unanswerable t r [] k there = tt
    deleted-Unanswerable t r (q ∷ rs) (k, ks) there =
        elim (Bool-cases (x.accounts.same_text q.token t)) [
          | inl hit ↦
              let found : q ≡ r = ground arith in
              let head : (q.id == r.id) ≡ true = rw found (==_refl r.id) in
              rw head (
                All-delete_where (λ q. q.id == r.id) rs (λ p m _. m)
                  (others-Unanswerable t q rs hit k))
          | inr miss ↦
              let rest = deleted-Unanswerable t r rs ks (ground arith) in
              elim (Bool-cases (q.id == r.id)) [
                | inl same ↦ rw same rest
                | inr other ↦ rw other (miss, rest)
              ]
        ]

    created-Unanswerable :
        (f : Faults) (t : Text) (r : Pending) (s : Signups)
        → UniqueTokens s.pending
        → select_first (λ q. x.accounts.same_text q.token t) s.pending ≡ some r
        → (create_account x f r s).0 ≡ approved
        → f 5 ≡ false
        → All (Unanswerable t) (create_account x f r s).1.pending
    unfolding create_account
    created-Unanswerable f t r s k there done works = elim (Bool-cases (f 2)) [
      | inl fails ↦ absurd (ground arith)
      | inr up ↦
          elim (Bool-cases
            (any (named x (x.to_lowercase r.username) (x.to_lowercase r.email)) s.accounts.users)) [
              | inl taken ↦ absurd (ground arith)
              | inr free ↦ elim (Bool-cases (f 4)) [
                | inl fails ↦ absurd (ground arith)
                | inr inserted ↦
                    rw (up, free, inserted, works) (deleted-Unanswerable t r s.pending k there)
              ]
            ]
    ]

    approved-Unanswerable :
        (f : Faults) (token : Text) (s : Signups)
        → UniqueTokens s.pending
        → (api_auth_approve x f token s).0 ≡ approved
        → f 5 ≡ false
        → All (Unanswerable (trim token)) (api_auth_approve x f token s).1.pending
    unfolding api_auth_approve
    approved-Unanswerable f token s k done works = elim (Bool-cases (f 0 || f 1)) [
      | inl stopped ↦ absurd (ground arith)
      | inr goes ↦
          elim (Option-cases
            (select_first (λ r. x.accounts.same_text r.token (trim token)) s.pending)) [
              | inl missing ↦ absurd (ground arith)
              | inr (r, there) ↦
                  rw (goes, there)
                    (created-Unanswerable f (trim token) r s k there
                      (rw (api_auth_approve, goes, there) at done) works)
            ]
    ]

  after-Unanswerable :
      (t : Text) (es : List Later) (s : Signups)
      → Unissued t es
      → All (Unanswerable t) s.pending
      → All (Unanswerable t) (after es s).pending
  unfolding after step
  after-Unanswerable t [] s u k = k
  after-Unanswerable t (answers (registers f is_open c token now) ∷ es) s (u, us) k =
      (All-register x (Unanswerable t) f is_open c token now (after es s)
        (λ r (o, v, hash, n, h, e). rw e u) (after-Unanswerable t es s us k)).0
  after-Unanswerable t (answers (approves f token) ∷ es) s u k =
      (approve-kept x (Unanswerable t) (λ a. Unit {0}) f token (after es s)
        (after-Unanswerable t es s u k) (units (after es s).accounts.users) (λ r id p e. tt)).0
  after-Unanswerable t (answers (denies f token) ∷ es) s u k =
      (deny-kept x (Unanswerable t) f token (after es s) (after-Unanswerable t es s u k)).0
  after-Unanswerable t (answers (panel_approves f id) ∷ es) s u k =
      (panel_approve-kept x (Unanswerable t) (λ a. Unit {0}) f id (after es s)
        (after-Unanswerable t es s u k) (units (after es s).accounts.users) (λ r n p e. tt)).0
  after-Unanswerable t (answers (panel_denies f id) ∷ es) s u k =
      (panel_deny-kept x (Unanswerable t) f id (after es s) (after-Unanswerable t es s u k)).0
  after-Unanswerable t (accounts_become a ∷ es) s u k = after-Unanswerable t es s u k

  select-none :
      (t : Text) (rs : List Pending)
      → All (Unanswerable t) rs
      → select_first (λ q. x.accounts.same_text q.token t) rs ≡ none
  unfolding select_first
  select-none t [] k = refl
  select-none t (r ∷ rs) (k, ks) = rw k (select-none t rs ks)

  -- Where the database compares tokens by a collation and no two requests on file have one token: a
  -- link that has made an account, and whose request was deleted then without a failure, makes no
  -- second one, whatever requests, answers and changes of the accounts come between, as long as no
  -- later request draws that token.
  pub approve_once :
      (c : IsCollation x.accounts.same_text) (f g : Faults) (token : Text) (s : Signups)
      (es : List Later)
      → UniqueTokens s.pending
      → (api_auth_approve x f token s).0 ≡ approved
      → f 5 ≡ false
      → Unissued (trim token) es
      → (api_auth_approve x g token (after es (api_auth_approve x f token s).1)).0 ≢ approved
  unfolding api_auth_approve
  approve_once c f g token s es k done works fresh again =
      let s1 = (api_auth_approve x f token s).1 in
      let gone = select-none (trim token) (after es s1).pending (
        after-Unanswerable (trim token) es s1 fresh
          (approved-Unanswerable c f token s k done works)) in
      ground arith

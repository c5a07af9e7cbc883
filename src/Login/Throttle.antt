-- ===== src/Login/Throttle.antt =====
-- src/models.rs and src/auth.rs: when a user name is locked out.
use arcade_launcher_server.Base.{
  ℕ, ◌+◌, ◌-◌, ◌%◌, ◌^◌, ◌<◌, ◌≤◌, ◌≡◌, refl, false, ◌&&◌, none, some, List, [], ◌∷◌, Text,
  text_eq_refl, Faults, length, leb, ltb, if◌then◌else◌, arith,
}
use arcade_launcher_server.Login.{
  LoginThrottle, login_locked, record_login_failure, put, or_zero, AppState, LoginExternals,
  VerifyCall, key_of, api_auth_verify, too_many_attempts,
}

-- Failures of one user name at times, the newest first.
pub failures : Text → List ℕ → LoginThrottle → LoginThrottle
failures key [] m = m
failures key (t ∷ ts) m = record_login_failure false key t (failures key ts m)

-- What is stored for a user name.
entry :
    (key : Text) (ts : List ℕ) (m : LoginThrottle)
    → m key ≡ none
    → length ts < 2 ^ 32
    → (or_zero (failures key ts m key)).0 ≡ length ts
unfolding failures record_login_failure put
entry key [] m new few = rw new refl
entry key (t ∷ ts) m new few =
    let before = entry key ts m new (omega arith) in
    let more : (length ts + 1) % 2 ^ 32 ≡ length ts + 1 = omega arith in
    rw (before, more, text_eq_refl key) (omega arith)

-- A user name that had no failures, and then failed at the times of a list without a success in
-- between, is locked exactly when there were five failures or more, and fewer than 2^32, and less than 300 seconds have
-- passed since the last one; the wait that is told is what is left of those.
pub locked-failures :
    (key : Text) (t : ℕ) (ts : List ℕ) (m : LoginThrottle) (now : ℕ)
    → m key ≡ none
    → length ts + 1 < 2 ^ 32
    → login_locked false key now (failures key (t ∷ ts) m)
      ≡ (if leb 4 (length ts) && ltb now (t + 300) then some (t + 300 - now) else none)
unfolding failures login_locked record_login_failure put
locked-failures key t ts m now new few =
    let before = entry key ts m new (omega arith) in
    let more : (length ts + 1) % 2 ^ 32 ≡ length ts + 1 = omega arith in
    rw (before, more, text_eq_refl key) (ground arith)

-- A user name whose first failures were five or more without a success in between, and fewer than
-- 2^32, where the count wraps around, the last of them less than 300 seconds ago, gets no further than the refusal when the throttle can be read:
-- whatever the call shows, it is told
-- the rest of its wait, no nonce is spent and nothing changes.
pub five_failures-refused :
    (x : LoginExternals) (f : Faults) (c : VerifyCall) (t : ℕ) (ts : List ℕ) (m : LoginThrottle)
    (s : AppState)
    → f 0 ≡ false
    → m (key_of x c) ≡ none
    → 4 ≤ length ts
    → length ts + 1 < 2 ^ 32
    → c.now < t + 300
    → api_auth_verify x f c (record s { throttle = failures (key_of x c) (t ∷ ts) m }) ≡ (
      too_many_attempts (t + 300 - c.now),
      record s { throttle = failures (key_of x c) (t ∷ ts) m },
    )
unfolding api_auth_verify
five_failures-refused x f c t ts m s sane new many few soon =
    let locked = locked-failures (key_of x c) t ts m c.now new few in
    let now_locked : login_locked false (key_of x c) c.now (failures (key_of x c) (t ∷ ts) m)
        ≡ some (t + 300 - c.now) =
      ground (arith, locked) in
    rw (api_auth_verify, sane, now_locked) refl

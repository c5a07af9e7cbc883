-- ===== src/QrSignin/Polls.antt =====
-- src/qr_auth.rs: whole polls, one after the other.
use arcade_launcher_server.Base.{
  ℕ, ◌≡◌, ◌≢◌, ◌≤◌, refl, Bool, Option, some, [], ◌∷◌, Text, Faults, trim, text_eq, lowercase,
  count_where, update_where, arith,
}
use arcade_launcher_server.QrSignin.{
  QrExternals, Challenges, QrSigninTarget, is_ready, spent, qr_signin_poll, poll_consume, complete,
  parse_target, as_str, launcher, store,
}

spent-ready :
    (x : QrExternals) (id poll_token : Text) (now later : ℕ) (rows : Challenges)
    → now ≤ later
    → count_where
        (is_ready x id poll_token later)
        (update_where (is_ready x id poll_token now) (spent now) rows)
      ≡ 0
unfolding count_where update_where
spent-ready x id poll_token now later [] le = refl
spent-ready x id poll_token now later (r ∷ rows) le =
    ground (arith, spent-ready x id poll_token now later rows le)

consume-count :
    (x : QrExternals) (f : Faults) (id poll_token : Text) (now later last : ℕ)
    (is_enabled : ℕ → Option Bool) (rows : Challenges) (t : QrSigninTarget) (u : ℕ)
    → (qr_signin_poll x f id poll_token now later last is_enabled rows).0 ≡ complete t u
    → (count_where (is_ready x id poll_token last) rows ≡ 1)
      × ((qr_signin_poll x f id poll_token now later last is_enabled rows).1
          ≡ update_where (is_ready x id poll_token last) (spent last) rows)
unfolding qr_signin_poll poll_consume
consume-count x f id poll_token now later last is_enabled rows t u done = ground arith

-- After a poll that completed a sign-in, no later poll with the same token completes another, when
-- the clock that it consumes by is not behind that of the first.
pub poll_completes_once :
    (x : QrExternals) (f f' : Faults) (id poll_token : Text) (now later last now' later' last' : ℕ)
    (is_enabled is_enabled' : ℕ → Option Bool) (rows : Challenges) (t t' : QrSigninTarget)
    (u u' : ℕ)
    → (qr_signin_poll x f id poll_token now later last is_enabled rows).0 ≡ complete t u
    → last ≤ last'
    → (qr_signin_poll x f' id poll_token now' later' last' is_enabled'
        (qr_signin_poll x f id poll_token now later last is_enabled rows).1).0
      ≢ complete t' u'
poll_completes_once x f f' id poll_token now later last now' later' last' is_enabled is_enabled'
      rows t t' u u' done le again =
    let (_, left) = consume-count x f id poll_token now later last is_enabled rows t u done in
    let (one, _) = consume-count x f' id poll_token now' later' last' is_enabled' _ t' u' again in
    let nothing = spent-ready x id poll_token last last' rows le in ground (arith, rw left at one)

-- The target that a challenge stores is read back as it was.
pub parse-as_str : (t : QrSigninTarget) → parse_target (as_str t) ≡ some t
unfolding parse_target as_str text_eq lowercase trim
parse-as_str launcher = refl
parse-as_str store = refl

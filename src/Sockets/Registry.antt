-- ===== src/Sockets/Registry.antt =====
-- src/social_api.rs: the registry of sockets as one list of those that are live, each with its
-- account, in the order of their registration.
use arcade_launcher_server.Base.{
  ℕ, suc, ◌≡◌, refl, inl, inr, Bool, not, ◌&&◌, Option, none, some, List, [], ◌∷◌, ◌++◌, map,
  reverse, Text, is_empty, ◌==◌, if◌then◌else◌, select_first, delete_where, Bool-cases, arith,
}
use arcade_launcher_server.Devices.{Device}
use arcade_launcher_server.Sockets.{
  SocialConn, SocialHub, no_sockets, put_conns, sockets_of, register, retain_conns, unregister,
  is_online, deliver_local, is_device, sent_to, send_to_device, went,
}

pub data Event : Type 0 where
  opens : (user : ℕ) → Option Device → Event
  closes : (user conn_id : ℕ) → Event

unfoldable pub step : Event → SocialHub → SocialHub
step (opens user device) h = (register user device h).1
step (closes user conn_id) h = (unregister user conn_id h).1

-- The newest event is at the head.
unfoldable pub run : List Event → SocialHub
unfolding step
run [] = no_sockets
run (e ∷ es) = step e (run es)

-- The number of the next socket.
abbrev pub next_number : List Event → ℕ
next_number [] = 1
next_number (opens user device ∷ es) = suc (next_number es)
next_number (closes user conn_id ∷ es) = next_number es

abbrev Socket : Type 0
Socket = ℕ × SocialConn

abbrev pub closed_by : ℕ → ℕ → Socket → Bool
closed_by user conn_id s = s.0 == user && s.1.conn_id == conn_id

abbrev pub live : List Event → List Socket
live [] = []
live (opens user device ∷ es) =
    live es ++ (user, record { conn_id = next_number es; device = device }) ∷ []
live (closes user conn_id ∷ es) = delete_where (closed_by user conn_id) (live es)

abbrev pub of_user : ℕ → List Socket → List SocialConn
of_user u [] = []
of_user u (s ∷ ss) = if s.0 == u then s.1 ∷ of_user u ss else of_user u ss

-- The registry has no empty entry.
abbrev entry : List SocialConn → Option (List SocialConn)
entry [] = none
entry (c ∷ cs) = some (c ∷ cs)

sockets_of-entry : (cs : List SocialConn) → sockets_of (entry cs) ≡ cs
unfolding sockets_of
sockets_of-entry [] = refl
sockets_of-entry (c ∷ cs) = refl

entry-append : (cs : List SocialConn) (c : SocialConn) → entry (cs ++ c ∷ []) ≡ some (cs ++ c ∷ [])
entry-append [] c = refl
entry-append (d ∷ cs) c = refl

of_user-append :
    (u : ℕ) (ss : List Socket) (s : Socket)
    → of_user u (ss ++ s ∷ []) ≡ (if s.0 == u then of_user u ss ++ s.1 ∷ [] else of_user u ss)
of_user-append u [] s = refl
of_user-append u (q ∷ ss) s = elim (Bool-cases (q.0 == u)) [
  | inl mine ↦ elim (Bool-cases (s.0 == u)) [
    | inl hit ↦ rw (mine, hit, of_user-append u ss s, hit) refl
    | inr miss ↦ rw (mine, miss, of_user-append u ss s, miss) refl
  ]
  | inr other ↦ rw (other, of_user-append u ss s) refl
]

of_user-closed :
    (u user conn_id : ℕ) (ss : List Socket)
    → of_user u (delete_where (closed_by user conn_id) ss) ≡ (
        if user == u then delete_where (λ c. c.conn_id == conn_id) (of_user u ss) else of_user u ss)
unfolding delete_where
of_user-closed u user conn_id [] = ground arith
of_user-closed u user conn_id (q ∷ ss) = ground (arith, of_user-closed u user conn_id ss)

retain-entry :
    (conn_id : ℕ) (cs : List SocialConn)
    → retain_conns conn_id (entry cs) ≡ entry (delete_where (λ c. c.conn_id == conn_id) cs)
unfolding retain_conns delete_where
retain-entry conn_id [] = refl
retain-entry conn_id (c ∷ cs) = keeps (delete_where (λ q. q.conn_id == conn_id) (c ∷ cs))
  where
    keeps : (rest : List SocialConn) → (if is_empty rest then none else some rest) ≡ entry rest
    keeps [] = refl
    keeps (r ∷ rest) = refl

pub run-next : (es : List Event) → (run es).next_id ≡ next_number es
unfolding run step register unregister
run-next [] = refl
run-next (opens user device ∷ es) = rw (run-next es) refl
run-next (closes user conn_id ∷ es) = run-next es

pub run-conns : (es : List Event) (u : ℕ) → (run es).conns u ≡ entry (of_user u (live es))
unfolding run step register unregister put_conns
run-conns [] u = refl
run-conns (opens user device ∷ es) u =
    let c : SocialConn = record { conn_id = next_number es; device = device } in
    elim (Bool-cases (user == u)) [
      | inl mine ↦
          let same : user ≡ u = ground arith in
          rw
            (
              mine,
              run-next es,
              of_user-append u (live es) (user, c),
              mine,
              same,
              run-conns es u,
              sockets_of-entry (of_user u (live es)),
              entry-append (of_user u (live es)) c,
            )
            refl
      | inr other ↦ rw (other, of_user-append u (live es) (user, c), other, run-conns es u) refl
    ]
run-conns (closes user conn_id ∷ es) u = elim (Bool-cases (user == u)) [
  | inl mine ↦
      let same : user ≡ u = ground arith in
      rw
        (
          mine,
          of_user-closed u user conn_id (live es),
          mine,
          same,
          run-conns es u,
          retain-entry conn_id (of_user u (live es)),
        )
        refl
  | inr other ↦ rw (other, of_user-closed u user conn_id (live es), other, run-conns es u) refl
]

-- What the registry answers about an account that has the sockets `cs`.
pub record Answers (h : SocialHub) (u : ℕ) (cs : List SocialConn) : Type 0 where
  pub delivered : deliver_local u h ≡ map (λ c. c.conn_id) cs
  pub online : is_online u h ≡ not (is_empty cs)
  pub commanded :
      (is_open : ℕ → Bool) (device_id : Text)
      → send_to_device is_open u device_id h
        ≡ sent_to is_open (select_first (is_device device_id) (reverse cs))
  pub last_closed :
      (conn_id : ℕ)
      → (unregister u conn_id h).0
        ≡ (not (is_empty cs) && is_empty (delete_where (λ c. c.conn_id == conn_id) cs))

entry-Answers :
    (h : SocialHub) (u : ℕ) (cs : List SocialConn) → h.conns u ≡ entry cs → Answers h u cs
unfolding deliver_local is_online send_to_device unregister retain_conns delete_where select_first
entry-Answers h u [] e = record {
  delivered = rw (deliver_local, e) refl;
  online = rw (is_online, e) refl;
  commanded = λ is_open device_id. rw (send_to_device, e) refl;
  last_closed = λ conn_id. rw (unregister, retain_conns, e) refl;
}
entry-Answers h u (c ∷ cs) e = record {
  delivered = rw (deliver_local, e) refl;
  online = rw (is_online, e) refl;
  commanded = λ is_open device_id. rw (send_to_device, e) refl;
  last_closed = λ conn_id.
      rw (unregister, retain_conns, e)
        (closing (delete_where (λ q. q.conn_id == conn_id) (c ∷ cs)));
}
  where
    closing :
        (rest : List SocialConn)
        → went (some (c ∷ cs)) (if is_empty rest then none else some rest) ≡ is_empty rest
    closing [] = refl
    closing (r ∷ rest) = refl

-- The registry implements one list of live sockets: after any history of sockets that open and
-- close, a frame for an account is queued for its live sockets in the order in which they opened, the
-- account is online when it has one, a command for a device goes to the socket of that device that
-- opened last, when it listens, and a closing socket is told to be the last exactly when it leaves an
-- account that had sockets with none.
pub run-Answers : (es : List Event) (u : ℕ) → Answers (run es) u (of_user u (live es))
run-Answers es u = entry-Answers (run es) u (of_user u (live es)) (run-conns es u)

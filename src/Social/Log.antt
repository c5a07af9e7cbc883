-- ===== src/Social/Log.antt =====
-- src/social_api.rs: what a history of requests, answers, blocks and calls leaves in the tables and
-- in the hub. A log has its newest event at the head. Handlers do not interleave inside a log: each
-- event is one whole handler.
mod Tests
pub mod Clear
use mathlib.Core.Path.{subst₂}
use arcade_launcher_server.Calls.{Entry, Ringing, expired, incoming_for}
use arcade_launcher_server.Base.{
  ℕ, ◌≡◌, refl, ◌⊎◌, inl, inr, Bool, true, false, Option, none, some, List, [], ◌∷◌, Text, Faults,
  All, All-map, All-select_first, select_first, leb, Option-cases, Bool-cases, arith,
}
use arcade_launcher_server.Social.State.{
  Friendship, Social, accepted, pair, is_row, are_friends, has_pair,
}
use arcade_launcher_server.Social.Voice.{
  Surroundings, ring_timeout_secs, voice_signal, drop_voice_for, drop_user, allow_voice,
  replay_rings, sweep_rings, disallow_all, disallow_voice,
}
use arcade_launcher_server.Social.Friends.{
  Account, Action, accept, api_social_request, api_social_respond, api_social_block,
}
use arcade_launcher_server.Social.Friends.Consent.{
  Consented, Consented-mono, request-Consented, respond-Consented, block-Consented,
}

pub data Event : Type 0 where
  requests : Faults → Account → Option ℕ → ℕ → Event
  responds : Faults → Account → ℕ → ℕ → Action → Event
  blocks : Faults → Account → ℕ → Bool → Event
  signals : Faults → ℕ → ℕ → Text → Bool → Surroundings → Event
  disconnects : ℕ → Event
  connects : ℕ → Event
  ticks : ℕ → Event

pub step : Event → Social → Social
step (requests f me target now) s = (api_social_request f me target now s).state
step (responds f me other now action) s = (api_social_respond f me other now action s).state
step (blocks f me other block) s = (api_social_block f me other block s).state
step (signals f uid to kind video w) s = (voice_signal f uid to kind video w s).0
step (disconnects user) s = drop_user user s
step (connects user) s = replay_rings user (incoming_for user s.rings) s
step (ticks now) s = (sweep_rings now s).0

pub run : List Event → Social → Social
run [] s = s
run (e ∷ es) s = step e (run es s)

-- No friendship, block, ignored account, policy, call or ring.
abbrev pub fresh : Social
fresh = record {
  friendships = [];
  blocks = [];
  ignores = [];
  policy = λ _. none;
  voice = [];
  rings = [];
}

-- One account turned to another: it sent a request, or it accepted one.
abbrev pub Acted : ℕ → ℕ → List Event → Type 0
Acted a b [] = ⊥
Acted a b (requests f me target now ∷ es) = ((me.id ≡ a) × (target ≡ some b)) ⊎ Acted a b es
Acted a b (responds f me other now action ∷ es) =
    ((me.id ≡ a) × (other ≡ b) × (action ≡ accept)) ⊎ Acted a b es
Acted a b (blocks f me other block ∷ es) = Acted a b es
Acted a b (signals f uid to kind video w ∷ es) = Acted a b es
Acted a b (disconnects user ∷ es) = Acted a b es
Acted a b (connects user ∷ es) = Acted a b es
Acted a b (ticks now ∷ es) = Acted a b es

abbrev Turned : List Event → ℕ → ℕ → Type 0
Turned es a b = Acted a b es

weakened :
    (e : Event) (es : List Event) (rs : List Friendship)
    → ((a b : ℕ) → Acted a b es → Acted a b (e ∷ es))
    → All (Consented (Turned es)) rs
    → All (Consented (Turned (e ∷ es))) rs
weakened e es rs h = All-map rs (λ r. Consented-mono r h)

pub signal-friendships :
    (f : Faults) (uid to : ℕ) (kind : Text) (video : Bool) (w : Surroundings) (s : Social)
    → (voice_signal f uid to kind video w s).0.friendships ≡ s.friendships
unfolding voice_signal
signal-friendships f uid to kind video w s = ground arith

disallow_all-friendships :
    (out : List Entry) (s : Social) → (disallow_all out s).friendships ≡ s.friendships
unfolding disallow_all
disallow_all-friendships [] s = refl
disallow_all-friendships (e ∷ out) s = disallow_all-friendships out (disallow_voice e.0 e.1 s)

sweep-friendships : (now : ℕ) (s : Social) → (sweep_rings now s).0.friendships ≡ s.friendships
unfolding sweep_rings
sweep-friendships now s =
    let (out, rest) = expired now ring_timeout_secs s.rings in
    disallow_all-friendships out (record s { rings = rest })

replay-friendships :
    (user : ℕ) (live : List (ℕ × Ringing)) (s : Social)
    → (replay_rings user live s).friendships ≡ s.friendships
unfolding replay_rings allow_voice
replay-friendships user [] s = refl
replay-friendships user (e ∷ live) s =
    let rest = replay-friendships user live (allow_voice e.0 user s) in
    elim (Bool-cases (has_pair (pair e.0 user).0 (pair e.0 user).1 s.voice)) [
      | inl held ↦ rw (rest, held) refl
      | inr absent ↦ rw (rest, absent) refl
    ]

run-Consented : (es : List Event) → All (Consented (Turned es)) (run es fresh).friendships
unfolding run step drop_user drop_voice_for
run-Consented [] = tt
run-Consented (requests f me target now ∷ es) =
    request-Consented (Turned (requests f me target now ∷ es)) f me target now (run es fresh)
      (λ other e. inl (refl, e))
      (weakened (requests f me target now) es _ (λ a b. inr) (run-Consented es))
run-Consented (responds f me other now action ∷ es) =
    respond-Consented (Turned (responds f me other now action ∷ es)) f me other now action
      (run es fresh) (λ e. inl (refl, refl, e))
      (weakened (responds f me other now action) es _ (λ a b. inr) (run-Consented es))
run-Consented (blocks f me other block ∷ es) =
    block-Consented (Turned es) f me other block (run es fresh) (run-Consented es)
run-Consented (signals f uid to kind video w ∷ es) =
    rw (signal-friendships f uid to kind video w (run es fresh)) (run-Consented es)
run-Consented (disconnects user ∷ es) = run-Consented es
run-Consented (connects user ∷ es) =
    let s = run es fresh in
    rw (replay-friendships user (incoming_for user s.rings) s) (run-Consented es)
run-Consented (ticks now ∷ es) = rw (sweep-friendships now (run es fresh)) (run-Consented es)

found_accepted :
    (a b : ℕ) (s : Social)
    → are_friends false s a b ≡ true
    → (r : Friendship) × (select_first (is_row a b) s.friendships ≡ some r) × (r.status ≡ accepted)
unfolding are_friends
found_accepted a b s h = elim (Option-cases (select_first (is_row a b) s.friendships)) [
  | inl missing ↦ absurd (ground arith)
  | inr (r, e) ↦ (r, e, ground arith)
]

-- Whatever requests, answers, blocks, calls, sockets that open and close, and sweeps came before, with any failing
-- database calls: two accounts are friends only if each of them sent the other a request or
-- accepted one from the other.
pub friends-Acted :
    (es : List Event) (a b : ℕ)
    → are_friends false (run es fresh) a b ≡ true
    → Acted a b es × Acted b a es
unfolding pair
friends-Acted es a b h =
    let (r, e, done) = found_accepted a b (run es fresh) h in
    let (c, row) = All-select_first (Consented (Turned es)) (is_row a b) _ r (run-Consented es) e in
    let (up, down) = c.both done in
    elim (Bool-cases (leb a b)) [
      | inl le ↦
          let lo : r.user_lo ≡ a = ground arith in
          let hi : r.user_hi ≡ b = ground arith in
          (subst₂ (Turned es) lo hi up, subst₂ (Turned es) hi lo down)
      | inr gt ↦
          let hi : r.user_hi ≡ a = ground arith in
          let lo : r.user_lo ≡ b = ground arith in
          (subst₂ (Turned es) hi lo down, subst₂ (Turned es) lo hi up)
    ]

-- ===== src/Social/Log/Clear/Calling.antt =====
-- src/social_api.rs: call signalling opens voice pairs of accounts only that do not block each other.
use arcade_launcher_server.Base.{
  ℕ, ◌≡◌, refl, ◌∷◌, true, is_some, not, ◌&&◌, inl, inr, Bool, false, none, List, [], Text, Faults,
  All, All-delete_where, Bool-cases, arith, ◌==◌, text_eq, codes,
}
use arcade_launcher_server.Calls.{Entry, Rings, Ringing, expired}
use arcade_launcher_server.Social.Blocks.{call, interaction_refusal}
use arcade_launcher_server.Social.State.{Social, pair, are_friends, block_pair, has_pair}
use arcade_launcher_server.Social.Voice.{
  Surroundings, ring_timeout_secs, voice_signal, signal_kind, drop_voice_for, sweep_rings,
  disallow_all, disallow_voice, allow_voice, replay_rings, drop_user,
}
use arcade_launcher_server.Social.Log.Clear.{Clear, ClearPair, IsClear, not_blocked}

clear_pair : (a b : ℕ) (s : Social) → Clear s.blocks a b → ClearPair s.blocks (pair a b)
unfolding pair
clear_pair a b s open_pair = ground arith

allow-IsClear :
    (strict : Bool)
    → (a b : ℕ) (s : Social) → (strict ≡ true → Clear s.blocks a b)
    → IsClear strict s
    → IsClear strict (allow_voice a b s)
unfolding allow_voice pair
allow-IsClear strict a b s open_pair c =
    let new : strict ≡ true → ClearPair s.blocks (pair a b) =
      λ on. clear_pair a b s (open_pair on) in
    elim (Bool-cases (has_pair (pair a b).0 (pair a b).1 s.voice)) [
      | inl held ↦ rw held c
      | inr absent ↦ rw absent (record { rows = c.rows; voices = λ on. (new on, c.voices on) })
    ]

disallow-IsClear :
    (strict : Bool)
    → (a b : ℕ) (s : Social) → IsClear strict s
    → IsClear strict (disallow_voice a b s)
unfolding disallow_voice
disallow-IsClear strict a b s c = record {
  rows = c.rows;
  voices = λ on. All-delete_where _ s.voice (λ p k _. k) (c.voices on);
}

rings-IsClear :
    (strict : Bool)
    → (live : Rings) (s : Social) → IsClear strict s
    → IsClear strict (record s { rings = live })
rings-IsClear strict live s c = record { rows = c.rows; voices = c.voices }

disallow_all-IsClear :
    (strict : Bool)
    → (out : List Entry) (s : Social) → IsClear strict s
    → IsClear strict (disallow_all out s)
unfolding disallow_all
disallow_all-IsClear strict [] s c = c
disallow_all-IsClear strict (e ∷ out) s c =
    disallow_all-IsClear strict out (disallow_voice e.0 e.1 s) (disallow-IsClear strict e.0 e.1 s c)

pub sweep_rings-IsClear :
    (strict : Bool)
    → (now : ℕ) (s : Social) → IsClear strict s
    → IsClear strict (sweep_rings now s).0
unfolding sweep_rings
sweep_rings-IsClear strict now s c =
    let (out, rest) = expired now ring_timeout_secs s.rings in
    disallow_all-IsClear strict out (record s { rings = rest }) (rings-IsClear strict rest s c)

pub drop_voice_for-IsClear :
    (strict : Bool)
    → (user : ℕ) (s : Social) → IsClear strict s
    → IsClear strict (drop_voice_for user s)
unfolding drop_voice_for
drop_voice_for-IsClear strict user s c = record {
  rows = c.rows;
  voices = λ on. All-delete_where _ s.voice (λ p k _. k) (c.voices on);
}

signal_kind-IsClear :
    (strict : Bool)
    → (uid to : ℕ) (kind : Text) (video : Bool) (now : ℕ) (s : Social) → Clear s.blocks uid to
    → IsClear strict s
    → IsClear strict (signal_kind uid to kind video now s).0
unfolding signal_kind
signal_kind-IsClear strict uid to kind video now s open_pair c =
    let allowed = allow-IsClear strict uid to s (λ _. open_pair) c in
    let dropped = disallow-IsClear strict uid to s c in
    elim (Bool-cases (text_eq kind (codes "invite"))) [
      | inl e ↦ rw e (rings-IsClear strict _ _ allowed)
      | inr e ↦ elim (Bool-cases (text_eq kind (codes "accept"))) [
        | inl e' ↦ rw (e, e') (rings-IsClear strict _ _ allowed)
        | inr e' ↦ elim (Bool-cases (text_eq kind (codes "end"))) [
          | inl e'' ↦ rw (e, e', e'') (rings-IsClear strict _ _ dropped)
          | inr e'' ↦ rw (e, e', e'') c
        ]
      ]
    ]

pub voice_signal-IsClear :
    (strict : Bool)
    → (f : Faults) (uid to : ℕ) (kind : Text) (video : Bool) (w : Surroundings) (s : Social)
    → f 0 ≡ false
    → IsClear strict s
    → IsClear strict (voice_signal f uid to kind video w s).0
unfolding voice_signal
voice_signal-IsClear strict f uid to kind video w s ok c =
    elim (Bool-cases (
      not (to == 0)
      && not (is_some (interaction_refusal (block_pair (f 0) s uid to) call))
      && are_friends (f 1) s uid to)) [
        | inr closed ↦ rw closed c
        | inl opened ↦
            let free : interaction_refusal (block_pair (f 0) s uid to) call ≡ none = ground arith in
            let open_pair : Clear s.blocks uid to = not_blocked s uid to (inr (rw ok at free)) in
            let allowed = allow-IsClear strict uid to s (λ _. open_pair) c in
            elim (Bool-cases (text_eq kind (codes "invite") && not w.online && w.woken)) [
              | inl woken ↦ rw (opened, woken) (rings-IsClear strict _ _ allowed)
              | inr awake ↦
                  elim (Bool-cases (text_eq kind (codes "invite") && not w.online_later)) [
                    | inl gone ↦ rw (opened, awake, gone) c
                    | inr here ↦
                        rw (opened, awake, here)
                          (signal_kind-IsClear strict uid to kind video w.now s open_pair c)
                  ]
            ]
      ]

-- The start of a socket opens voice pairs of the calls that it replays.
pub replay_rings-IsClear :
    (strict : Bool) (user : ℕ) (live : List (ℕ × Ringing)) (s : Social)
    → (strict ≡ true → All (λ e. Clear s.blocks e.0 user) live)
    → IsClear strict s
    → IsClear strict (replay_rings user live s)
unfolding replay_rings allow_voice
replay_rings-IsClear strict user [] s k c = c
replay_rings-IsClear strict user (e ∷ live) s k c =
    let same = allow-blocks e.0 user s in
    replay_rings-IsClear strict user live (allow_voice e.0 user s) (λ on. rw same ((k on).1))
      (allow-IsClear strict e.0 user s (λ on. (k on).0) c)
  where
    allow-blocks : (a b : ℕ) (s : Social) → (allow_voice a b s).blocks ≡ s.blocks
    allow-blocks a b s = elim (Bool-cases (has_pair (pair a b).0 (pair a b).1 s.voice)) [
      | inl held ↦ rw held refl
      | inr absent ↦ rw absent refl
    ]

pub drop_rings-IsClear :
    (strict : Bool) (user : ℕ) (s : Social) → IsClear strict s → IsClear strict (drop_user user s)
unfolding drop_user
drop_rings-IsClear strict user s c =
    rings-IsClear strict _ _ (drop_voice_for-IsClear strict user s c)

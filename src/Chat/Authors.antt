-- ===== src/Chat/Authors.antt =====
-- src/social_api.rs: who can change a message, and what of it.
pub mod Steps
pub mod Kept
use arcade_launcher_server.Base.{
  ℕ, ◌≡◌, ◌⊎◌, refl, inl, inr, Bool, true, false, not, ◌&&◌, ◌||◌, Option, none, some, List, [],
  ◌∷◌, Text, Faults, All, All-map, All-select_first, ◌==◌, if◌then◌else◌, select_first,
  update_where, is_some, is_empty, Bool-cases, Option-cases, arith, take,
}
use arcade_launcher_server.Chat.{Message, Chat}
use arcade_launcher_server.Chat.Owners.{DistinctIds}
use arcade_launcher_server.Chat.Steps.{
  Event, chats, misses, edits, deletes, reacts, reads, pages, presigns, relates,
}

-- The account that edits or deletes, and the one that reads.
abbrev pub writes_as : Event → ℕ → Bool
writes_as (edits f uid id text now) u = uid == u
writes_as (deletes f uid id now) u = uid == u
writes_as _ u = false

abbrev pub reads_as : Event → ℕ → Bool
reads_as (reads f me peer now) u = me == u
reads_as (pages f me other since limit before now) u = me == u
reads_as _ u = false

-- What an event may do to a message: its text changes by its sender, while it is not deleted; its
-- read mark is set by its receiver, once; everything else stays.
pub record Allowed (e : Event) (m m' : Message) : Type 0 where
  pub same_id : m'.id ≡ m.id
  pub same_sender : m'.sender_id ≡ m.sender_id
  pub same_receiver : m'.receiver_id ≡ m.receiver_id
  pub same_nonce : m'.client_nonce ≡ m.client_nonce
  pub text :
      ((m'.body ≡ m.body) × (m'.deleted_at ≡ m.deleted_at))
      ⊎ ((m.deleted_at ≡ none) × (writes_as e m.sender_id ≡ true))
  pub mark : (m'.read_at ≡ m.read_at) ⊎ ((m.read_at ≡ none) × (reads_as e m.receiver_id ≡ true))

abbrev pub Changes : Event → List Message → List Message → Type 0
Changes e [] [] = Unit {0}
Changes e (m ∷ ms) (m' ∷ ms') = Allowed e m m' × Changes e ms ms'
Changes e [] (m' ∷ ms') = ⊥
Changes e (m ∷ ms) [] = ⊥

-- The messages stay in their places, and one at most comes in front.
abbrev pub Grown : Event → List Message → List Message → Type 0
Grown e ms ms' = Changes e ms ms' ⊎ ((m : Message) × (ms' ≡ m ∷ ms))

pub Changes-refl : (e : Event) (ms : List Message) → Changes e ms ms
Changes-refl e [] = tt
Changes-refl e (m ∷ ms) = (
  record {
    same_id = refl;
    same_sender = refl;
    same_receiver = refl;
    same_nonce = refl;
    text = inl (refl, refl);
    mark = inl refl;
  },
  Changes-refl e ms,
)

pub Changes-update :
    (e : Event) (p : Message → Bool) (g : Message → Message) (ms : List Message)
    → All (λ m. p m ≡ true → Allowed e m (g m)) ms
    → Changes e ms (update_where p g ms)
unfolding update_where
Changes-update e p g [] k = tt
Changes-update e p g (m ∷ ms) (k, ks) =
    let rest = Changes-update e p g ms ks in
    let (same, _) = Changes-refl e (m ∷ []) in
    elim (Bool-cases (p m)) [ inl hit ↦ rw hit (k hit, rest) | inr miss ↦ rw miss (same, rest) ]

-- What holds of a message that is found holds of every one with its identifier.
pub select-All :
    (P : Message → Type 0) (p : Message → Bool) (m : Message) (ms : List Message)
    → DistinctIds ms
    → P m
    → select_first p ms ≡ some m
    → All (λ q. (q.id == m.id) ≡ true → P q) ms
unfolding select_first
select-All P p m [] d k there = tt
select-All P p m (q ∷ ms) (d, ds) k there = elim (Bool-cases (p q)) [
  | inl hit ↦
      let same : q ≡ m = ground arith in
      rw (← same) ((λ _. rw same k), All-map ms (λ r away at. absurd (cc)) d)
  | inr miss ↦
      let tail : select_first p ms ≡ some m = ground arith in
      let (away, _) = All-select_first (λ r. (r.id == q.id) ≡ false) p ms m d tail in
      (λ at. absurd (ground arith), select-All P p m ms ds k tail)
]

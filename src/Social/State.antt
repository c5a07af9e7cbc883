-- ===== src/Social/State.antt =====
-- src/social_api.rs: the tables and the hub that the social handlers share, and their queries.
-- A query that fails reads as the code's own fallback; `fails` says whether it does.
use arcade_launcher_server.Base.{
  ℕ, Bool, true, false, ◌&&◌, ◌||◌, Option, none, some, List, [], map, any, keep, Text, codes, ◌==◌,
  leb, ltb, if◌then◌else◌, select_first, delete_where, is_empty,
}
use arcade_launcher_server.Calls.{Rings}
use arcade_launcher_server.Social.Blocks.{BlockPair}

pub data Status : Type 0 where
  pending accepted : Status

abbrev pub is_accepted : Status → Bool
is_accepted accepted = true
is_accepted pending = false

abbrev pub is_pending : Status → Bool
is_pending pending = true
is_pending accepted = false

-- A row of `social_friendships`, whose key is (user_lo, user_hi).
pub record Friendship : Type 0 where
  pub user_lo : ℕ
  pub user_hi : ℕ
  pub status : Status
  pub requested_by : ℕ
  pub created_at : ℕ
  pub updated_at : ℕ
  pub expires_at : Option ℕ

-- `blocks` and `ignores` hold (blocker, blocked) and (ignorer, ignored). `policy` is the
-- `friend_policy` of `social_friend_settings`, where an account has a row.
pub record Social : Type 0 where
  pub friendships : List Friendship
  pub blocks : List (ℕ × ℕ)
  pub ignores : List (ℕ × ℕ)
  pub policy : ℕ → Option Text
  pub voice : List (ℕ × ℕ)
  pub rings : Rings

unfoldable pub pair : ℕ → ℕ → ℕ × ℕ
pair a b = if leb a b then (a, b) else (b, a)

abbrev pub is_pair : ℕ → ℕ → ℕ × ℕ → Bool
is_pair a b p = p.0 == a && p.1 == b

-- WHERE user_lo=:lo AND user_hi=:hi, for the pair of two accounts.
abbrev pub is_row : ℕ → ℕ → Friendship → Bool
is_row a b r = r.user_lo == (pair a b).0 && r.user_hi == (pair a b).1

unfoldable pub has_pair : ℕ → ℕ → List (ℕ × ℕ) → Bool
has_pair a b = any (is_pair a b)

unfoldable pub block_pair : Bool → Social → ℕ → ℕ → BlockPair
block_pair fails s me other =
    if fails then record { i_blocked_them = false; they_blocked_me = false } else record {
      i_blocked_them = has_pair me other s.blocks;
      they_blocked_me = has_pair other me s.blocks;
    }

unfoldable pub has_ignored : Bool → Social → ℕ → ℕ → Bool
has_ignored fails s ignorer ignored = if fails then false else has_pair ignorer ignored s.ignores

abbrev accepted_row : Option Friendship → Bool
accepted_row none = false
accepted_row (some r) = is_accepted r.status

unfoldable pub are_friends : Bool → Social → ℕ → ℕ → Bool
are_friends fails s a b =
    if fails then false else accepted_row (select_first (is_row a b) s.friendships)

unfoldable pub friend_ids : Bool → Social → ℕ → List ℕ
friend_ids fails s user =
    if fails
    then []
    else map (λ r. if r.user_lo == user then r.user_hi else r.user_lo)
        (keep (λ r. is_accepted r.status && (r.user_lo == user || r.user_hi == user)) s.friendships)

-- The two queries of `shares_mutual_friend` fail on their own.
unfoldable pub shares_mutual_friend : Bool → Bool → Social → ℕ → ℕ → Bool
shares_mutual_friend fails_a fails_b s a b =
    let af = friend_ids fails_a s a in
    if is_empty af then false else any (λ i. any (λ j. j == i) af) (friend_ids fails_b s b)

abbrev or_everyone : Option Text → Text
or_everyone none = codes "everyone"
or_everyone (some p) = p

unfoldable pub friend_policy_of : Bool → Social → ℕ → Text
friend_policy_of fails s user = if fails then codes "everyone" else or_everyone (s.policy user)

abbrev pub is_expired : ℕ → Friendship → Bool
is_expired now r = is_pending r.status && elim r.expires_at [ none ↦ false | some t ↦ ltb t now ]

unfoldable pub sweep_expired_requests : Bool → ℕ → Social → Social
sweep_expired_requests fails now s =
    if fails then s else record s { friendships = delete_where (is_expired now) s.friendships }

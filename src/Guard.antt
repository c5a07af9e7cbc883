-- ===== src/Guard.antt =====
-- src/guard.rs: the sign-in approval that a phone answers, and what its state means at a time.
-- Times are epoch seconds (`u64`); `saturating_sub` is the subtraction of ℕ.
pub mod Decide
pub mod Gate
use arcade_launcher_server.Base.{
  ℕ, ◌-◌, ◌*◌, Bool, true, false, not, ◌&&◌, ◌||◌, List, ◌++◌, Option, none, some, Text, codes,
  text_eq, lowercase, trim, split_on, join, take, any, is_empty, leb, ◌==◌, if◌then◌else◌, Result,
  ok, err,
}

abbrev pub approval_ttl_seconds : ℕ
approval_ttl_seconds = 120

pub data ApprovalState : Type 0 where
  pending approved denied expired : ApprovalState

pub record Approval : Type 0 where
  pub id : Text
  pub user_id : ℕ
  pub device_name : Text
  pub ip : Text
  pub created_at : ℕ
  pub state : ApprovalState

abbrev pub is_pending : ApprovalState → Bool
is_pending pending = true
is_pending _ = false

abbrev pub is_approved : ApprovalState → Bool
is_approved approved = true
is_approved _ = false

abbrev pub is_final : ApprovalState → Bool
is_final s = not (is_pending s)

unfoldable pub effective_state : Approval → ℕ → ApprovalState
effective_state a now =
    if is_pending a.state && leb approval_ttl_seconds (now - a.created_at) then expired else a.state

pub data DecideError : Type 0 where
  already_decided bad_action : DecideError

-- `match action.trim().to_ascii_lowercase()`, before the check of the request.
unfoldable pub parse_action : Text → Option ApprovalState
parse_action action =
    let a = lowercase (trim action) in
    if text_eq a (codes "approve") || text_eq a (codes "allow") || text_eq a (codes "yes")
    then some approved
    else if text_eq a (codes "deny") || text_eq a (codes "reject") || text_eq a (codes "no")
    then some denied
    else none

unfoldable pub decide : Approval → Text → ℕ → Result ApprovalState DecideError
decide a action now = elim (parse_action action) [
  | none ↦ err bad_action
  | some next ↦ if is_final (effective_state a now) then err already_decided else ok next
]

unfoldable pub can_consume : Approval → ℕ → ℕ → Bool
unfolding effective_state
can_consume a user_id now = a.user_id == user_id && is_approved (effective_state a now)

pub is_evictable : Approval → ℕ → Bool
is_evictable a now = leb (approval_ttl_seconds * 2) (now - a.created_at)

pub display_ip : Text → Text
display_ip raw =
    let ip = trim raw in
    if is_empty ip
    then codes "unknown location"
    else if any (λ c. c == b':') ip
    then join (codes ":") (take 4 (split_on b':' ip)) ++ codes ":…"
    else take 45 ip

pub approval_prompt : Text → Text → Text
approval_prompt device_name ip =
    let device = trim device_name in
    (if is_empty device then codes "A PC" else device)
    ++ (codes " is trying to sign in from " ++ (display_ip ip ++ codes "."))

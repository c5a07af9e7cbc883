-- ===== src/Guard/Decide.antt =====
-- src/guard.rs: when an answer of the phone is accepted, and what an approval is worth later.
use arcade_launcher_server.Base.{ℕ, ◌+◌, ◌<◌, ◌≡◌, ◌↔◌, true, some, Text, ok, arith}
use arcade_launcher_server.Guard.{
  Approval, ApprovalState, pending, approved, effective_state, parse_action, decide, can_consume,
  is_final, approval_ttl_seconds,
}

-- An answer is taken exactly when its word is known, the request is still pending and less than
-- two minutes have passed since it was raised; it is then what the word says.
pub decide_iff :
    (a : Approval) (action : Text) (now : ℕ) (s : ApprovalState)
    → (decide a action now ≡ ok s) ↔ (
        (parse_action action ≡ some s)
        × (a.state ≡ pending)
        × (now < a.created_at + approval_ttl_seconds))
unfolding decide effective_state
decide_iff a action now s = ground arith

pub parse_action-final :
    (action : Text) (s : ApprovalState) → parse_action action ≡ some s → is_final s ≡ true
unfolding parse_action
parse_action-final action s h = ground arith

-- An approval that its owner granted can be spent at every later time, by that account alone: the
-- two-minute window bounds the answer and not the use.
pub can_consume_iff :
    (a : Approval) (user_id now : ℕ)
    → (can_consume a user_id now ≡ true) ↔ ((a.user_id ≡ user_id) × (a.state ≡ approved))
unfolding can_consume
can_consume_iff a user_id now = ground arith

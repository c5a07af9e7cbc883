-- ===== src/Sockets.antt =====
-- src/social_api.rs: the registry of live sockets of `SocialHub`. A socket stands for the sender of
-- its channel; `open` tells whose receiver still listens.
pub mod Registry
pub mod Presence
pub mod Closing
pub mod Departed
mod Tests
use arcade_launcher_server.Base.{
  ℕ, suc, Bool, true, false, not, Option, none, some, List, [], ◌∷◌, ◌++◌, map, reverse, Text,
  is_empty, ◌==◌, if◌then◌else◌, select_first, delete_where,
}
use arcade_launcher_server.Devices.{Device, has_id, collapse_devices}

pub record SocialConn : Type 0 where
  pub conn_id : ℕ
  pub device : Option Device

pub record SocialHub : Type 0 where
  pub conns : ℕ → Option (List SocialConn)
  pub next_id : ℕ

abbrev pub no_sockets : SocialHub
no_sockets = record { conns = λ u. none; next_id = 1 }

unfoldable pub put_conns :
    ℕ → Option (List SocialConn) → (ℕ → Option (List SocialConn)) → ℕ → Option (List SocialConn)
put_conns user v m u = if user == u then v else m u

-- `unwrap_or_default`
unfoldable pub sockets_of : Option (List SocialConn) → List SocialConn
sockets_of none = []
sockets_of (some v) = v

unfoldable pub register : ℕ → Option Device → SocialHub → ℕ × SocialHub
unfolding put_conns sockets_of
register user device h = (
  h.next_id,
  record {
    conns =
        put_conns user
          (some (sockets_of (h.conns user) ++ record { conn_id = h.next_id; device = device } ∷ []))
          h.conns;
    next_id = suc h.next_id;
  },
)

-- What stays of an account's sockets; the entry goes with its last one.
unfoldable pub retain_conns : ℕ → Option (List SocialConn) → Option (List SocialConn)
retain_conns conn_id none = none
retain_conns conn_id (some v) =
    let rest = delete_where (λ c. c.conn_id == conn_id) v in
    if is_empty rest then none else some rest

abbrev pub went : Option (List SocialConn) → Option (List SocialConn) → Bool
went (some v) none = true
went (some v) (some rest) = false
went none rest = false

-- Whether the account has no socket left.
unfoldable pub unregister : ℕ → ℕ → SocialHub → Bool × SocialHub
unfolding put_conns retain_conns
unregister user conn_id h =
    let rest = retain_conns conn_id (h.conns user) in
    (went (h.conns user) rest, record h { conns = put_conns user rest h.conns })

unfoldable pub is_online : ℕ → SocialHub → Bool
is_online user h = elim (h.conns user) [ none ↦ false | some v ↦ not (is_empty v) ]

-- The sockets that a frame is queued for.
unfoldable pub deliver_local : ℕ → SocialHub → List ℕ
deliver_local user h = elim (h.conns user) [ none ↦ [] | some v ↦ map (λ c. c.conn_id) v ]

abbrev pub add_device : Option Device → List Device → List Device
add_device none ds = ds
add_device (some d) ds = d ∷ ds

-- `filter_map(|c| c.device.clone())`
unfoldable pub devices_of : List SocialConn → List Device
devices_of [] = []
devices_of (c ∷ cs) = add_device c.device (devices_of cs)

unfoldable pub devices_for : (Text → Text) → ℕ → SocialHub → List Device
unfolding devices_of sockets_of
devices_for to_lowercase user h =
    collapse_devices to_lowercase (devices_of (sockets_of (h.conns user)))

abbrev pub is_device : Text → SocialConn → Bool
is_device device_id c = elim c.device [ none ↦ false | some d ↦ has_id device_id d ]

-- The socket that gets the command, when it still listens.
abbrev pub sent_to : (ℕ → Bool) → Option SocialConn → Option ℕ
sent_to is_open none = none
sent_to is_open (some c) = if is_open c.conn_id then some c.conn_id else none

unfoldable pub send_to_device : (ℕ → Bool) → ℕ → Text → SocialHub → Option ℕ
send_to_device is_open user device_id h = elim (h.conns user) [
  | none ↦ none
  | some v ↦ sent_to is_open (select_first (is_device device_id) (reverse v))
]

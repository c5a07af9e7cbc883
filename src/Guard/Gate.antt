-- ===== src/Guard/Gate.antt =====
-- src/auth.rs: the approval store and the handlers that answer, spend and raise approvals.
-- The map behind the mutex is a function; each call reads it and writes it in at most one of its
-- critical sections, so a call is one step. `faults` says which `lock()` finds the mutex poisoned.
pub mod Trace
use arcade_launcher_server.Base.{
  ℕ, Bool, true, false, ◌&&◌, Option, none, some, List, [], ◌∷◌, map, Text, codes, text_eq, trim,
  keep, is_empty, ◌==◌, if◌then◌else◌, ok, err, Faults,
}
use arcade_launcher_server.Devices.{Device}
use arcade_launcher_server.Guard.{
  Approval, ApprovalState, pending, approved, denied, expired, effective_state, decide, can_consume,
  is_evictable, display_ip, approval_prompt, approval_ttl_seconds,
}

abbrev pub Approvals : Type 0
Approvals = Text → Option Approval

abbrev pub no_approvals : Approvals
no_approvals id = none

unfoldable pub set : Approvals → Text → Option Approval → Approvals
set m id v j = if text_eq id j then v else m j

unfoldable pub retain_live : Approvals → ℕ → Approvals
retain_live m now j = elim (m j) [
  | none ↦ none
  | some a ↦ if is_evictable a now then none else some a
]

unfoldable pub guard_decide :
    Faults → ℕ → Text → Text → ℕ → Approvals → Option ApprovalState × Approvals
guard_decide faults user_id request_id action now m =
    if faults 0 then (none, m) else elim (m request_id) [
      | none ↦ (none, m)
      | some a ↦
          if a.user_id == user_id
          then elim (decide a action now) [
            | err _ ↦ (none, m)
            | ok next ↦ (some next, set m request_id (some (record a { state = next })))
          ]
          else (none, m)
    ]

pub data GuardOutcome : Type 0 where
  allow : GuardOutcome
  wait : Text → GuardOutcome
  refused : GuardOutcome
  unavailable : GuardOutcome

-- The frame that each phone receives.
pub record GuardRequest : Type 0 where
  pub request_id : Text
  pub prompt : Text
  pub device_name : Text
  pub ip : Text
  pub expires_in : ℕ

-- The arguments of `guard_gate`, with what it asks of its surroundings: the clock, the token of
-- `random_token(18)` and the devices of the account.
pub record GateCall : Type 0 where
  pub user_id : ℕ
  pub approval_id : Text
  pub ip : Option Text
  pub device_name : Text
  pub now : ℕ
  pub fresh_id : Text
  pub devices : List Device

pub record GateResult : Type 0 where
  pub outcome : GuardOutcome
  pub store : Approvals
  pub sent : List (Text × GuardRequest)

abbrev pub or_empty : Option Text → Text
or_empty none = []
or_empty (some t) = t

unfoldable pub raised : GateCall → Approval
raised g = record {
  id = g.fresh_id;
  user_id = g.user_id;
  device_name = trim g.device_name;
  ip = or_empty g.ip;
  created_at = g.now;
  state = pending;
}

pub request_frame : GateCall → GuardRequest
request_frame g = record {
  request_id = g.fresh_id;
  prompt = approval_prompt (trim g.device_name) (or_empty g.ip);
  device_name = if is_empty (trim g.device_name) then codes "A PC" else trim g.device_name;
  ip = display_ip (or_empty g.ip);
  expires_in = approval_ttl_seconds;
}

unfoldable pub phones : GateCall → List Device
phones g = keep (λ d. text_eq d.kind (codes "mobile")) g.devices

-- The second half: raise a request on the phones of the account.
unfoldable pub raise : Faults → GateCall → Approvals → GateResult
raise faults g m =
    if is_empty (phones g)
    then record { outcome = unavailable; store = m; sent = [] }
    else if faults 1
    then record { outcome = unavailable; store = m; sent = [] }
    else record {
      outcome = wait g.fresh_id;
      store = set (retain_live m g.now) g.fresh_id (some (raised g));
      sent = map (λ d. (d.id, request_frame g)) (phones g);
    }

unfoldable pub guard_gate : Faults → GateCall → Approvals → GateResult
guard_gate faults g m =
    if is_empty g.approval_id
    then raise faults g m
    else if faults 0
    then record { outcome = unavailable; store = m; sent = [] }
    else elim (m g.approval_id) [
      | none ↦ raise faults g m
      | some existing ↦
          if can_consume existing g.user_id g.now
          then record { outcome = allow; store = set m g.approval_id none; sent = [] }
          else elim (effective_state existing g.now) [
            | pending ↦ record { outcome = wait g.approval_id; store = m; sent = [] }
            | denied ↦ record { outcome = refused; store = m; sent = [] }
            | _ ↦ raise faults g m
          ]
    ]

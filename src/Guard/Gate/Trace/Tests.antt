-- ===== src/Guard/Gate/Trace/Tests.antt =====
-- Runs of the approval store, and the theorems at concrete histories.
use arcade_launcher_server.Base.{
  ℕ, ◌≡◌, refl, ◌≢◌, false, none, some, List, [], ◌∷◌, codes, ok, err, Faults, text_eq, lowercase,
  trim, split_on, join,
}
use arcade_launcher_server.Devices.{Device}
use arcade_launcher_server.Guard.{
  Approval, pending, approved, denied, decide, parse_action, bad_action, already_decided,
  display_ip, effective_state, can_consume,
}
use arcade_launcher_server.Guard.Gate.{
  GateCall, guard_gate, guard_decide, allow, set, retain_live, raise, raised, phones,
}
use arcade_launcher_server.Guard.Gate.Trace.{
  Event, answers, polls, run, run_from, step, Granted, allow-Granted, allow_once, decision_final,
}

abbrev no_faults : Faults
no_faults k = false

abbrev phone : Device
phone = record { id = codes "p1"; name = codes "Phone"; kind = codes "mobile"; version = [] }

abbrev request : Approval
request = record {
  id = codes "abc";
  user_id = 7;
  device_name = codes "PC";
  ip = codes "10.0.0.5";
  created_at = 1000;
  state = pending;
}

decide_late : decide request (codes " Allow ") 1119 ≡ ok approved
unfolding decide parse_action effective_state text_eq lowercase trim
decide_late = refl

decide_expired : decide request (codes "deny") 1120 ≡ err already_decided
unfolding decide parse_action effective_state text_eq lowercase trim
decide_expired = refl

decide_unknown : decide request (codes "approved") 1000 ≡ err bad_action
unfolding decide parse_action effective_state text_eq lowercase trim
decide_unknown = refl

ipv6_prefix : display_ip (codes "2001:db8:1:2:3:4:5:6") ≡ codes "2001:db8:1:2:…"
unfolding display_ip trim join split_on
ipv6_prefix = refl

abbrev first_poll : GateCall
first_poll = record {
  user_id = 7;
  approval_id = [];
  ip = none;
  device_name = codes "PC";
  now = 1000;
  fresh_id = codes "abc";
  devices = phone ∷ [];
}

abbrev next_poll : GateCall
next_poll = record first_poll { approval_id = codes "abc"; now = 1010; fresh_id = codes "def" }

abbrev history : List Event
history = answers no_faults 7 (codes "abc") (codes "approve") 1005 ∷ polls no_faults first_poll ∷ []

granted : (guard_gate no_faults next_poll (run history)).outcome ≡ allow
unfolding run step guard_gate guard_decide raise raised phones set retain_live decide parse_action
    effective_state can_consume text_eq lowercase trim
granted = refl

allow-Granted_example : Granted history 7 (codes "abc")
allow-Granted_example = allow-Granted history no_faults next_poll granted

abbrev retry : GateCall
retry = record next_poll { now = 1011; fresh_id = codes "ghi" }

allow_once_example :
    (guard_gate no_faults retry
      (run_from [] (guard_gate no_faults next_poll (run history)).store)).outcome
    ≢ allow
allow_once_example = allow_once (run history) no_faults no_faults next_poll retry [] granted tt refl

abbrev asked : List Event
asked = polls no_faults first_poll ∷ []

abbrev refusal : List Event
refusal = answers no_faults 7 (codes "abc") (codes "approve") 1006 ∷ []

refused : (guard_decide no_faults 7 (codes "abc") (codes "no") 1005 (run asked)).0 ≡ some denied
unfolding run step guard_gate guard_decide raise raised phones set retain_live decide parse_action
    effective_state can_consume text_eq lowercase trim
refused = refl

abbrev refused_entry : Approval
refused_entry = record {
  id = codes "abc";
  user_id = 7;
  device_name = codes "PC";
  ip = [];
  created_at = 1000;
  state = denied;
}

refused_stays :
    run_from refusal
      (guard_decide no_faults 7 (codes "abc") (codes "no") 1005 (run asked)).1
      (codes "abc")
    ≡ some refused_entry
unfolding run_from run step guard_gate guard_decide raise raised phones set retain_live decide
    parse_action effective_state can_consume text_eq lowercase trim
refused_stays = refl

decision_final_example : (denied ≡ denied) × (◌≡◌ {A = ℕ} 7 7)
decision_final_example =
    decision_final no_faults 7 (codes "abc") (codes "no") 1005 (run asked) denied refusal
      refused_entry refused tt refused_stays

-- ===== src/Guard/Gate/Trace.antt =====
-- src/auth.rs: histories of the approval store, where phones answer and sign-ins poll in any order.
-- A log has its newest event at the head.
mod Tests
use arcade_launcher_server.Base.{
  ℕ, ◌≡◌, refl, sym, ◌≢◌, ◌⊎◌, inl, inr, Bool, true, false, Option, none, some, List, [], ◌∷◌, Text,
  text_eq, text_eq_iff, text_eq_refl, Bool-cases, Option-cases, Faults, is_empty, arith,
}
use arcade_launcher_server.Guard.{
  Approval, ApprovalState, pending, approved, denied, expired, decide, parse_action, can_consume,
  effective_state, is_final, is_pending,
}
use arcade_launcher_server.Guard.Decide.{decide_iff, can_consume_iff, parse_action-final}
use arcade_launcher_server.Guard.Gate.{
  Approvals, no_approvals, set, retain_live, guard_decide, GateCall, GateResult, GuardOutcome,
  allow, wait, refused, unavailable, raise, raised, guard_gate,
}

pub data Event : Type 0 where
  answers : Faults → ℕ → Text → Text → ℕ → Event
  polls : Faults → GateCall → Event

unfoldable pub step : Event → Approvals → Approvals
step (answers f user_id id action now) m = (guard_decide f user_id id action now m).1
step (polls f g) m = (guard_gate f g m).store

unfoldable pub run : List Event → Approvals
run [] = no_approvals
run (e ∷ es) = step e (run es)

pub run_from : List Event → Approvals → Approvals
run_from [] m = m
run_from (e ∷ es) m = step e (run_from es m)

-- The entry that a raised request or an eviction leaves under an identifier.
raise_cases :
    (f : Faults) (g : GateCall) (m : Approvals) (id : Text)
    → ((raise f g m).store id ≡ m id)
      ⊎ ((raise f g m).store id ≡ none)
      ⊎ ((text_eq g.fresh_id id ≡ true) × ((raise f g m).store id ≡ some (raised g)))
unfolding raise set retain_live
raise_cases f g m id = ground arith

gate_cases :
    (f : Faults) (g : GateCall) (m : Approvals) (id : Text)
    → ((guard_gate f g m).store id ≡ m id)
      ⊎ ((guard_gate f g m).store id ≡ none)
      ⊎ ((text_eq g.fresh_id id ≡ true) × ((guard_gate f g m).store id ≡ some (raised g)))
unfolding guard_gate set
gate_cases f g m id = ground (arith, raise_cases f g m id)

-- An account that has approved a request, according to a log.
abbrev pub Granted : List Event → ℕ → Text → Type 0
Granted [] user_id id = ⊥
Granted (answers f u rid action now ∷ es) user_id id =
    ((u ≡ user_id) × (rid ≡ id) × (parse_action action ≡ some approved)) ⊎ Granted es user_id id
Granted (polls f g ∷ es) user_id id = Granted es user_id id

-- What an answer leaves as approved was approved before, or is approved by this answer.
answer-approved :
    {X : Type 0} (f : Faults) (u : ℕ) (rid action : Text) (now : ℕ) (m : Approvals) (id : Text)
    (a : Approval)
    → (m id ≡ some a → a.state ≡ approved → X)
    → (guard_decide f u rid action now m).1 id ≡ some a
    → a.state ≡ approved
    → ((u ≡ a.user_id) × (rid ≡ id) × (parse_action action ≡ some approved)) ⊎ X
unfolding guard_decide set decide
answer-approved f u rid action now m id a old now_there granted = ground (arith, text_eq_iff rid id)

-- An approved entry of the store was approved by a phone of its own account.
run-Granted :
    (es : List Event) (id : Text) (a : Approval)
    → run es id ≡ some a
    → a.state ≡ approved
    → Granted es a.user_id id
unfolding run step raised
run-Granted [] id a there granted = cc
run-Granted (answers f u rid action now ∷ es) id a there granted =
    answer-approved f u rid action now (run es) id a (run-Granted es id a) there granted
run-Granted (polls f g ∷ es) id a there granted =
    ground (arith, gate_cases f g (run es) id, run-Granted es id a)

gate-allow :
    (f : Faults) (g : GateCall) (m : Approvals)
    → (guard_gate f g m).outcome ≡ allow
    → (a : Approval) × (m g.approval_id ≡ some a)
      × (a.user_id ≡ g.user_id)
      × (a.state ≡ approved)
      × ((guard_gate f g m).store ≡ set m g.approval_id none)
unfolding guard_gate raise can_consume effective_state
gate-allow f g m h = ground arith

-- A sign-in is let through without a code only if, earlier in the history of a store that
-- started empty, the same account answered the very request that the sign-in names with an approving word.
pub allow-Granted :
    (es : List Event) (f : Faults) (g : GateCall)
    → (guard_gate f g (run es)).outcome ≡ allow
    → Granted es g.user_id g.approval_id
allow-Granted es f g h =
    let (a, there, owner, granted, _) = gate-allow f g (run es) h in
    rw owner at (run-Granted es g.approval_id a there granted)

-- No request of the log is raised under the identifier `id`: the tokens are random.
abbrev pub Fresh : Text → List Event → Type 0
Fresh id [] = Unit {0}
Fresh id (answers f u rid action now ∷ es) = Fresh id es
Fresh id (polls f g ∷ es) = (g.fresh_id ≢ id) × Fresh id es

answer-absent :
    (f : Faults) (u : ℕ) (rid action : Text) (now : ℕ) (m : Approvals) (id : Text)
    → m id ≡ none
    → (guard_decide f u rid action now m).1 id ≡ none
unfolding guard_decide set
answer-absent f u rid action now m id h = ground (arith, text_eq_iff rid id)

run_from-absent :
    (es : List Event) (m : Approvals) (id : Text)
    → Fresh id es
    → m id ≡ none
    → run_from es m id ≡ none
unfolding run_from step
run_from-absent [] m id h gone = gone
run_from-absent (answers f u rid action now ∷ es) m id h gone =
    answer-absent f u rid action now (run_from es m) id (run_from-absent es m id h gone)
run_from-absent (polls f g ∷ es) m id (new, h) gone = ground (
  arith,
  gate_cases f g (run_from es m) id,
  run_from-absent es m id h gone,
  text_eq_iff g.fresh_id id,
)

set_self : (m : Approvals) (id : Text) (v : Option Approval) → set m id v id ≡ v
unfolding set
set_self m id v = rw (text_eq_refl id)

-- One approval buys one sign-in: after it was spent, and whatever happens next as long as no
-- later request is raised under its identifier, no sign-in that names it is let through.
pub allow_once :
    (m : Approvals) (f f' : Faults) (g g' : GateCall) (es : List Event)
    → (guard_gate f g m).outcome ≡ allow
    → Fresh g.approval_id es
    → g'.approval_id ≡ g.approval_id
    → (guard_gate f' g' (run_from es (guard_gate f g m).store)).outcome ≢ allow
allow_once m f f' g g' es spent fresh same again =
    let (a, _, _, _, removed) = gate-allow f g m spent in
    let (b, there, _, _, _) = gate-allow f' g' _ again in
    let gone =
      run_from-absent es (guard_gate f g m).store g.approval_id fresh
        (rw removed (set_self m g.approval_id none)) in
    cc (gone, there, same)

answer-keeps :
    (f : Faults) (u : ℕ) (rid action : Text) (now : ℕ) (m : Approvals) (id : Text) (a : Approval)
    → is_final a.state ≡ true
    → m id ≡ some a
    → (guard_decide f u rid action now m).1 id ≡ some a
unfolding guard_decide set decide effective_state
answer-keeps f u rid action now m id a final there = ground (arith, text_eq_iff rid id)

run_from-keeps :
    (es : List Event) (m : Approvals) (id : Text) (a : Approval)
    → Fresh id es
    → is_final a.state ≡ true
    → m id ≡ some a
    → (run_from es m id ≡ some a) ⊎ (run_from es m id ≡ none)
unfolding run_from step
run_from-keeps [] m id a fresh final there = inl there
run_from-keeps (answers f u rid action now ∷ es) m id a fresh final there = ground (
  arith,
  run_from-keeps es m id a fresh final there,
  answer-keeps f u rid action now (run_from es m) id a final,
  answer-absent f u rid action now (run_from es m) id,
)
run_from-keeps (polls f g ∷ es) m id a (new, fresh) final there = ground (
  arith,
  run_from-keeps es m id a fresh final there,
  gate_cases f g (run_from es m) id,
  text_eq_iff g.fresh_id id,
)

guard_decide-final :
    (f : Faults) (u : ℕ) (id action : Text) (now : ℕ) (m : Approvals) (s : ApprovalState)
    → (guard_decide f u id action now m).0 ≡ some s
    → (a : Approval) × (a.user_id ≡ u)
      × (is_final s ≡ true)
      × (a.state ≡ s)
      × ((guard_decide f u id action now m).1 id ≡ some a)
unfolding guard_decide set decide
guard_decide-final f u id action now m s taken = elim (Option-cases (m id)) [
  | inl missing ↦ absurd (ground arith)
  | inr (a, there) ↦ (
    record a { state = s },
    ground arith,
    ground (arith, parse_action-final action s),
    refl,
    ground (arith, text_eq_refl id),
  )
]

-- A decision is final: once an answer was taken, the request shows that answer for as long as it
-- is there, whatever answers and sign-ins follow, as long as no later request is raised under its identifier.
pub decision_final :
    (f : Faults) (u : ℕ) (id action : Text) (now : ℕ) (m : Approvals) (s : ApprovalState)
    (es : List Event) (a : Approval)
    → (guard_decide f u id action now m).0 ≡ some s
    → Fresh id es
    → run_from es (guard_decide f u id action now m).1 id ≡ some a
    → (a.state ≡ s) × (a.user_id ≡ u)
decision_final f u id action now m s es a taken fresh there =
    let (b, owner, final, state, now_there) = guard_decide-final f u id action now m s taken in
    ground (
      arith,
      run_from-keeps es (guard_decide f u id action now m).1 id b fresh (rw state final) now_there,
    )

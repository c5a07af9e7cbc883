-- ===== src/Registration/Panel.antt =====
-- src/admin_extra.rs: the answers to requests for an account that administrators give in the panel,
-- by the number of the row.
use arcade_launcher_server.Base.{
  ℕ, ◌||◌, none, some, Faults, ◌==◌, if◌then◌else◌, select_first, is_some,
}
use arcade_launcher_server.Accounts.Folding.{Folding}
use arcade_launcher_server.Registration.{
  Signups, AnswerReply, not_found, denied, answer_failed, without, create_account,
}

unfoldable pub approve_pending_registration : Folding → Faults → ℕ → Signups → AnswerReply × Signups
unfolding create_account
approve_pending_registration x f id s =
    if f 0 || f 1 then (answer_failed, s) else elim (select_first (λ r. r.id == id) s.pending) [
      | none ↦ (not_found, s)
      | some r ↦ create_account x f r s
    ]

unfoldable pub deny_pending_registration : Faults → ℕ → Signups → AnswerReply × Signups
deny_pending_registration f id s = if f 0 || f 1 || f 2 then (answer_failed, s) else (
  if is_some (select_first (λ r. r.id == id) s.pending) then denied else not_found,
  record s { pending = without (f 2) id s.pending },
)

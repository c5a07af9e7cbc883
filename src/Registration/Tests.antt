-- ===== src/Registration/Tests.antt =====
-- The theorems on requests for an account at concrete ones.
use arcade_launcher_server.Base.{
  ◌≡◌, ◌≢◌, ◌⊎◌, refl, true, false, none, List, [], ◌∷◌, codes, text_eq, trim, select_first,
  lowercase, All, ignoring_case, ignoring_case-IsCollation, is_ascii_alphanumeric,
}
use arcade_launcher_server.Accounts.{User}
use arcade_launcher_server.Accounts.Folding.{Folding}
use arcade_launcher_server.Fixtures.{no_faults, stand_ins, folding, only_anna, anna}
use arcade_launcher_server.Registration.{
  Signups, RegisterCall, approved, validate_registration, normalize_username, insert_pending,
  create_account, api_auth_register, api_auth_approve,
}
use arcade_launcher_server.Registration.Unique.{UniqueNames, run-Unique}
use arcade_launcher_server.Registration.Spent.{Later, answers, accounts_become, after, approve_once}
use arcade_launcher_server.Registration.Approved.{
  Event, registers, approves, panel_approves, run, step, Granted, accounts-Granted,
}

valid_carl :
    validate_registration (codes "carl") (codes "carl@example.org") (codes "12345678") ≡ none
unfolding validate_registration is_ascii_alphanumeric
valid_carl = refl

valid_dora : validate_registration (codes "dora.1") (codes "d@ex.org") (codes "password") ≡ none
unfolding validate_registration is_ascii_alphanumeric
valid_dora = refl

abbrev carl : RegisterCall
carl = record {
  username = codes "carl";
  email = codes "carl@example.org";
  password = codes "12345678";
  ip = none;
}

-- A database that takes no notice of the case of letters.
abbrev caseless : Folding
caseless = record folding { accounts = record stand_ins { same_text = ignoring_case } }

abbrev history : List Event
history = approves no_faults (codes "t0") ∷ registers no_faults true carl (codes "t0") 10 ∷ []

accounts-Granted_example :
    All
      (λ (u : User). (u ≡ anna) ⊎ Granted folding history u)
      (run folding history only_anna).accounts.users
accounts-Granted_example = accounts-Granted folding (λ u. u ≡ anna) only_anna (refl, tt) history

abbrev waiting : Signups
waiting = run caseless (registers no_faults true carl (codes "t0") 10 ∷ []) only_anna

run-Unique_example : UniqueNames folding (run folding history only_anna).accounts.users
run-Unique_example = run-Unique folding only_anna history (tt, tt)

made : (api_auth_approve caseless no_faults (codes "T0") waiting).0 ≡ approved
unfolding api_auth_approve create_account run step api_auth_register validate_registration
    is_ascii_alphanumeric insert_pending normalize_username trim lowercase text_eq select_first
made = refl

another : ignoring_case (codes "t1") (trim (codes "T0")) ≡ false
unfolding text_eq lowercase trim
another = refl

-- The link is used again after the new account was deleted.
abbrev in_between : List Later
in_between =
    answers (panel_approves no_faults 1)
    ∷ accounts_become only_anna
    ∷ answers (registers no_faults true carl (codes "t1") 20)
    ∷ []

approve_once_example :
    (api_auth_approve caseless no_faults
      (codes "T0")
      (after caseless in_between (api_auth_approve caseless no_faults (codes "T0") waiting).1)).0
    ≢ approved
approve_once_example =
    approve_once caseless ignoring_case-IsCollation no_faults no_faults (codes "T0") waiting
      in_between
      (unfold run step api_auth_register validate_registration is_ascii_alphanumeric insert_pending
          normalize_username trim lowercase text_eq in
        (tt, tt))
      made refl (another, tt)

-- ===== src/Accounts/Tests.antt =====
-- The theorems on tokens and accounts at concrete tables. The stand-in for the hash puts a letter
-- in front, and the one for Argon2 fails on the empty password only.
use arcade_launcher_server.Base.{
  ◌≡◌, ◌≤◌, refl, true, false, none, some, List, [], ◌∷◌, Faults, codes, text_eq, is_empty,
  if◌then◌else◌, ok, select_first, count_where, update_where, arith,
}
use arcade_launcher_server.Accounts.{
  User, Accounts, Externals, issue_user_token, mint_token, reuse_or_mint, token_user,
  rotate_launcher_token, revoke_tokens,
}
use arcade_launcher_server.Accounts.{session_ttl_seconds}
use arcade_launcher_server.Accounts.Sessions.{
  create_session, current_admin, admin_of, live_sessions, session-current_admin,
}
use arcade_launcher_server.Base.{ltb, ◌+◌, if◌then◌else◌, delete_where}
use arcade_launcher_server.Accounts.Tokens.{Event, issues, rotates, revokes, run, step, no_accounts}
use arcade_launcher_server.Accounts.Tokens.Issued.{issued_token_signs_in}
use arcade_launcher_server.Accounts.Users.{
  enabled_admin_count, panel_update_user, api_users_delete, api_users_update, UpdateUserBody,
}
use arcade_launcher_server.Accounts.Users.Touched.{Touched}
use arcade_launcher_server.Accounts.Users.Admins.{
  UniqueIds, panel-last_admin, delete-last_admin, update-unprivileged,
}

abbrev stand_ins : Externals
stand_ins = record {
  sha256_hex = λ t. b'#' ∷ t;
  hash_password = λ p. if is_empty p then none else some (b'!' ∷ p);
  derive_auth_key = λ u p. p;
  same_text = text_eq;
}

abbrev no_faults : Faults
no_faults k = false

abbrev history : List Event
history =
    revokes no_faults 8
    ∷ rotates no_faults 1 (codes "new") 20
    ∷ issues no_faults 8 (codes "ben") (codes "b") 11
    ∷ issues no_faults 7 (codes "anna") (codes "a") 10
    ∷ []

given :
    (issue_user_token stand_ins no_faults 7
      (codes "anna")
      (codes "c")
      30
      (run stand_ins history no_accounts)).0
    ≡ ok (codes "new")
unfolding issue_user_token mint_token reuse_or_mint rotate_launcher_token revoke_tokens run step
    select_first update_where text_eq
given = refl

issued_token_signs_in_example :
    token_user stand_ins
      (codes "new")
      (issue_user_token stand_ins no_faults 7
        (codes "anna")
        (codes "c")
        30
        (run stand_ins history no_accounts)).1
    ≡ some 7
issued_token_signs_in_example =
    issued_token_signs_in stand_ins history no_faults 7 (codes "anna") (codes "c") (codes "new") 30
      given

abbrev anna : User
anna = record {
  id = 7;
  username = codes "anna";
  email = codes "anna@example.org";
  password_hash = [];
  auth_key = [];
  is_admin = true;
  enabled = true;
  must_change_password = false;
  totp_secret = none;
  totp_enabled = false;
}

abbrev ben : User
ben = record anna { id = 8; username = codes "ben"; is_admin = false }

abbrev cleo : User
cleo = record anna { id = 9; username = codes "cleo" }

abbrev three : Accounts
three = record no_accounts { users = anna ∷ ben ∷ cleo ∷ []; next_user = 10 }

three-UniqueIds : UniqueIds three.users
three-UniqueIds = ((refl, (refl, tt)), ((refl, tt), (tt, tt)))

some_admin : 1 ≤ enabled_admin_count three
unfolding enabled_admin_count count_where
some_admin = omega arith

panel-last_admin_example :
    1
    ≤ enabled_admin_count
        (panel_update_user stand_ins no_faults (some 7) none none false true three).1
panel-last_admin_example =
    panel-last_admin stand_ins no_faults (some 7) none none false true three three-UniqueIds
      some_admin

delete-last_admin_example :
    1 ≤ enabled_admin_count (api_users_delete no_faults (some cleo) 7 three).1
delete-last_admin_example =
    delete-last_admin no_faults (some cleo) 7 three three-UniqueIds some_admin

abbrev new_email : UpdateUserBody
new_email = record {
  email = some (codes "ben@example.org");
  password = none;
  role = none;
  is_admin = none;
  enabled = none;
}

update-unprivileged_example :
    Touched 8 none none three.users
      (api_users_update stand_ins no_faults (some ben) 8 new_email three).1.users
update-unprivileged_example = update-unprivileged stand_ins no_faults ben 8 new_email three refl

session_made : (create_session stand_ins no_faults 7 (codes "s") 1000 three).0 ≡ ok (codes "s")
unfolding create_session live_sessions delete_where
session_made = refl

session-current_admin_example :
    (current_admin stand_ins no_faults
      (some (codes "s"))
      2000
      (create_session stand_ins no_faults 7 (codes "s") 1000 three).1).0
    ≡ ok (if ltb 2000 (1000 + session_ttl_seconds) then admin_of three.users 7 else none)
session-current_admin_example =
    session-current_admin stand_ins no_faults no_faults 7 (codes "s") (codes "s") 1000 2000 three
      session_made refl refl refl

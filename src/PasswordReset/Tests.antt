-- ===== src/PasswordReset/Tests.antt =====
-- The theorems on reset links at a concrete account.
use arcade_launcher_server.Base.{
  ◌≡◌, ◌≤◌, refl, some, List, [], ◌∷◌, Text, codes, text_eq, trim, byte_len, select_first,
  lowercase, delete_where, update_where, arith, ◌==◌,
}
use arcade_launcher_server.Fixtures.{no_faults, stand_ins, folding, only_anna, anna}
use arcade_launcher_server.PasswordReset.{
  Reset, Resets, link_expired, password_updated, api_auth_forgot, open_reset, lookup_reset_token,
  owner, set_new_password, renewed, api_auth_reset_submit,
}
use arcade_launcher_server.PasswordReset.Links.{forgot_uniform}
use arcade_launcher_server.PasswordReset.Works.{reset_done, reset_works}
use arcade_launcher_server.PasswordReset.Requested.{Event, forgets, run, step, Asked, reset-Asked}

abbrev no_links : Resets
no_links = record { accounts = only_anna; resets = [] }

forgot_uniform_example :
    (api_auth_forgot folding no_faults (codes "anna") (codes "t") 10 no_links).0
    ≡ (api_auth_forgot folding no_faults (codes "nobody") (codes "u") 20 no_links).0
forgot_uniform_example =
    forgot_uniform folding no_faults (codes "anna") (codes "nobody") (codes "t") (codes "u") 10 20
      no_links no_links (λ k. refl) refl refl

abbrev opened : Resets
opened = (api_auth_forgot folding no_faults (codes "Anna") (codes "t0") 10 no_links).2

reset_works_example :
    ((api_auth_forgot folding no_faults (codes "Anna") (codes "t0") 10 no_links).1
      ≡ some (record {
        address = codes "anna@example.org";
        username = codes "anna";
        token = codes "t0";
      }))
    × (api_auth_reset_submit folding no_faults (codes "t0") (codes "long enough") 20 opened ≡ (
      password_updated,
      reset_done folding anna (codes "long enough") (codes "!long enough") opened,
    ))
    × ((api_auth_reset_submit folding no_faults
          (codes "t0")
          (codes "other")
          30
          (reset_done folding anna (codes "long enough") (codes "!long enough") opened)).0
        ≡ link_expired)
reset_works_example =
    reset_works folding no_faults no_faults anna (codes "Anna") (codes "t0") (codes "long enough")
      (codes "!long enough") 10 20 (codes "other") 30 no_links (λ k. refl) (λ k. refl)
      (unfold trim lowercase in refl) (unfold trim lowercase select_first text_eq in refl)
      (unfold select_first in refl) (unfold trim in refl) refl (unfold trim in refl) (omega arith)
      (unfold byte_len in omega arith) refl

abbrev asked : List Event
asked = forgets no_faults (codes "anna") (codes "t0") 10 ∷ []

updated :
    (api_auth_reset_submit folding no_faults
      (codes "t0")
      (codes "long enough")
      20
      (run folding asked only_anna)).0
    ≡ password_updated
unfolding api_auth_reset_submit lookup_reset_token owner set_new_password run step api_auth_forgot
    open_reset select_first text_eq trim lowercase byte_len delete_where
updated = refl

reset-Asked_example :
    (r : Reset) × Asked folding only_anna asked r
    × (r.token_hash ≡ codes "#t0")
    × (20 ≤ r.expires_at)
    × (8 ≤ byte_len (codes "long enough"))
    × (username : Text) × (hash : Text) × (stand_ins.hash_password (codes "long enough")
        ≡ some hash)
    × ((api_auth_reset_submit folding no_faults
          (codes "t0")
          (codes "long enough")
          20
          (run folding asked only_anna)).1.accounts.users
        ≡ update_where
            (λ u. u.id == r.admin_id)
            (renewed stand_ins username (codes "long enough") hash)
            (run folding asked only_anna).accounts.users)
unfolding trim
reset-Asked_example =
    reset-Asked folding asked only_anna no_faults (codes "t0") (codes "long enough") 20 updated

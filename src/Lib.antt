-- ===== src/Lib.antt =====
-- ArcadeLauncher server: a verification library for the rules that keep sign-ins, accounts,
-- friendships, messages, calls and downloads of the server right.
--
-- The program is one Rust crate, put together by `include!` in src/main.rs: axum handlers over a
-- MariaDB pool, with a few maps behind mutexes (`AppState` in src/models.rs, the approvals of
-- src/auth.rs, the `SocialHub` of src/social_api.rs). Launchers, phones, browsers and an admin
-- panel talk to it.
--
-- A handler is a function from the state it may change to its reply and the state after it. A
-- table is a list of rows, with the statements of Base/Table.antt: the first row of a SELECT, a
-- COUNT, an UPDATE and a DELETE by a test. A map behind a mutex is a function from keys or a
-- list of entries. Which statement or lock of a handler fails is an argument `f : Faults`, one
-- flag for each place in program order; a statement that fails changes nothing. Clocks are epoch
-- seconds. Identifiers, times and sizes are natural numbers: the code keeps them in 64 bits, and
-- where its subtraction could go below zero it saturates, as the one here does, or the code
-- tests first. The count of failed logins is a `u32` and wraps around here too. Text columns
-- that clients write are compared by the collation of the database, a parameter `same_text`.
-- Text is a list of code points. Where histories matter, a module `Log` or `Trace` has a type of
-- events, a step that runs one handler or one half of it, and a run over a list of events with
-- the newest at the head.
--
-- The files:
--
-- Base.antt and its children: tests, lists over native numbers, text with the methods of `str`,
-- tables, results and faults.
-- Guard.antt: src/guard.rs (`effective_state`, `decide`, `can_consume`, the words of the
-- prompt). Guard/Gate.antt: `guard_decide` and `guard_gate` of src/auth.rs over the map of
-- approvals. Guard/Gate/Trace.antt: histories of answers and sign-ins.
-- Login.antt: the throttle of src/models.rs, and `api_auth_challenge` and `api_auth_verify` of
-- src/auth.rs with `verify_user_totp` of src/crypto.rs, which use Guard/Gate.antt for the second
-- factor and Accounts.antt for the account and the token.
-- Accounts.antt: `find_user`, `launcher_user`, `issue_user_token` and the other functions on
-- `launcher_tokens` in src/db.rs, with the logout of src/users_api.rs. Accounts/Sessions.antt:
-- `create_session`, `current_admin` and `delete_session` of src/db.rs and `web_user` of
-- src/store_auth.rs. Accounts/Users.antt: `create_user`, `update_user`, `delete_user_account`,
-- the API of src/users_api.rs and the `update_user` action of src/handlers.rs.
-- QrSignin.antt: src/qr_auth.rs. The two halves of a poll are two functions, which
-- QrSignin/Trace.antt lets interleave as polls of several replicas do.
-- Calls.antt: src/calls.rs. Social/Blocks.antt: src/blocks.rs. Social/State.antt,
-- Social/Friends.antt and Social/Voice.antt: the tables, the friendship and block handlers, and
-- the call signalling and audio relay of src/social_api.rs, which use the two files before.
-- Social/Log.antt: histories of all of these.
-- Devices.antt: src/devices.rs. Its devices are those that Guard/Gate.antt asks for approval.
-- Downloads.antt: ranges and chunks of src/files.rs.
-- Chat.antt: direct messages of src/social_api.rs, over the friendships, blocks and ignore lists
-- of Social/State.antt. Chat/Attachments.antt: their files and the pages of a conversation.
-- Chat/Screenshots.antt: the screenshots of games, which show such files to everyone.
-- Chat/Steps.antt: histories of messages.
-- Sockets.antt: the socket registry of `SocialHub` in src/social_api.rs. Sockets/Registry.antt:
-- histories of it, next to one list of live sockets. Sockets/Presence.antt: `set_presence`,
-- `presence_of` and the presence frame. Sockets/Closing.antt: the end of `social_socket`, over
-- Calls.antt, Social/Voice.antt and Chat.antt.
-- Credentials.antt, Credentials/Base32.antt and Credentials/Names.antt: `constant_eq`,
-- `verify_password_any` with `verify_scrypt`, base 32, and the checks on names, queries and
-- titles of src/crypto.rs.
-- PasswordReset.antt: src/password_reset.rs, over Accounts.antt. Registration.antt:
-- src/registration.rs, over Accounts.antt; Registration/Panel.antt: the answers to requests in
-- src/admin_extra.rs.
-- Requests.antt: the board of src/requests_app.rs. Requests/Sessions.antt: its logins and
-- sessions, with `verify_password_any`; Requests/Board.antt: its requests, votes, ratings and
-- states.
-- Fixtures.antt: stand-ins for what is outside the crate that the tests share.
--
-- What is outside the crate is a parameter: SHA-256, HMAC and Argon2, the lower case of Unicode,
-- the collation of text columns, the random tokens, presence and push delivery, and the account
-- behind a bearer token where a handler only asks for it. `Externals` and `LoginExternals` are
-- records of such functions. The six digits that `totp_code` of src/crypto.rs computes for a
-- secret and a step are such a function too.
--
-- Two loops run on fuel: the chunk loop in Downloads.antt, with one unit more than the file has
-- bytes, which is enough because every turn reads at least one byte, and the letters of a byte
-- in Credentials/Base32.antt, with one unit for every bit in the buffer, of which every turn
-- takes five.
--
-- Not modelled: the JSON shapes and headers of the replies, the HTML pages, the scan of the
-- library and its metadata, the storefront, profiles, notifications, the activity feed, what a
-- new socket is sent and the registries in Redis, mail and push delivery, and the start of the
-- process. The pages under /admin/social-test of src/social_api.rs write friendships and
-- messages directly, for tests by an administrator; they are in no history. Handlers do not
-- interleave inside a history, except for the two halves of a QR poll.
pub mod Accounts
pub mod Base
pub mod Calls
pub mod Chat
pub mod Credentials
pub mod Devices
pub mod Downloads
pub mod Fixtures
pub mod Guard
pub mod Login
pub mod PasswordReset
pub mod QrSignin
pub mod Registration
pub mod Requests
pub mod Social
pub mod Sockets

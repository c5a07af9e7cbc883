-- ===== src/Requests.antt =====
-- src/requests_app.rs: the board of game requests, its votes and its star ratings. `f` numbers the
-- statements of a handler that fail; a request whose body does not parse reaches no handler.
pub mod Board
pub mod Sessions
pub mod SignedIn
pub mod Votes
pub mod Ratings
pub mod Repeats
mod Tests

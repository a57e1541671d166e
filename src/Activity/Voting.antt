-- ===== src/Activity/Voting.antt =====
-- activity/internal/domain/team_voting.go: proposals of teams and the vote on them. Event ids and
-- time stamps are left out; `now` is what `time.Now().UTC()` returns, `id` what `uuid.New()`
-- returns, and `uuid.Nil` is 0.
mod State
mod Key
mod Operations
mod Endings
mod Examples
pub mod Division
pub mod Canonical
pub mod Proposing
pub mod Winner
pub mod Ballots
pub mod Rounds
pub mod Keeping
pub mod Departing
pub mod Lifecycle
unfoldable pub use State.*
unfoldable pub use Key.*
unfoldable pub use Operations.*
unfoldable pub use Endings.*

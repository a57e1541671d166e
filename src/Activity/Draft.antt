-- ===== src/Activity/Draft.antt =====
-- activity/internal/domain/team_draft.go: the captain draft of one session. Two captains take turns
-- picking the people who are going. `now` is what `time.Now().UTC()` returns, `id` what
-- `uuid.New()` returns, and `uuid.Nil` is 0. The ids and time stamps of events are left out.
mod State
mod Operations
mod Endings
mod Examples
pub mod Turns
pub mod Counts
pub mod Settling
pub mod Picking
pub mod Soundness
pub mod Leaving
pub mod World
pub mod Outcome
pub mod Progress
unfoldable pub use State.*
unfoldable pub use Operations.*
unfoldable pub use Endings.*

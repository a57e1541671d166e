-- ===== src/Activity/Session.antt =====
-- activity/internal/domain/session.go: one occurrence of an activity, its life and its teams.
-- Times are counted in nanoseconds, `now` is what `time.Now().UTC()` returns, `id` and `ids` what
-- `uuid.New()` returns, and `uuid.Nil` is 0. Event ids and time stamps are left out.
mod State
mod Creation
mod Operations
mod Formation
mod Examples
pub mod Lifecycle
pub mod Attendance
pub mod Teams
pub mod Authority
unfoldable pub use State.*
unfoldable pub use Creation.*
unfoldable pub use Operations.*
unfoldable pub use Formation.*

-- ===== src/Activity.antt =====
-- The activity service: activity/internal/domain.
pub mod Errors
pub mod Catalog
pub mod Member
pub mod Team
pub mod Attendee
pub mod Session
pub mod Draft
pub mod Voting
pub mod Formation
pub mod InviteLink
pub mod Recurrence
pub mod Services
mod Samples
mod Examples

-- ===== src/Activity/Recurrence.antt =====
-- activity/internal/domain/recurrence.go: when the next session of a recurring activity takes place.
pub mod Calendar
pub mod Rule
pub mod Next
pub mod Always
mod Examples

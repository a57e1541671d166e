-- ===== src/Activity/Services.antt =====
-- activity/internal/application: the transactions on one session, over the rows that they read and
-- write. A transaction that fails leaves no trace, and the lock on the session puts them one after the
-- other.
pub mod Store
pub mod TeamFormation
pub mod AttendeeService
pub mod Commands
pub mod Board
pub mod Rows
pub mod Keys
pub mod Refinement
pub mod Effects
pub mod Simulation
pub mod Implements
pub mod Line
pub mod Waitlist
pub mod Fairness
pub mod Promotion
pub mod Leaving
mod Examples

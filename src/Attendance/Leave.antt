-- ===== src/Attendance/Leave.antt =====
-- src/attendance/leave.*: the leave day states, the split of a request by date, the one writer of
-- the states, and the owner's and the employee's actions over it.
pub mod Types
pub mod Split
pub mod Transition
pub mod Actions
pub mod Disable
pub mod Status
pub mod Apply
mod Examples

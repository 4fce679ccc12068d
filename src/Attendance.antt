-- ===== src/Attendance.antt =====
-- src/attendance: leave, check-in and check-out, and the enrolments that say who is tracked when.
pub mod Errors
pub mod Leave
pub mod DayContextRead
pub mod CheckIn
pub mod Enrolments

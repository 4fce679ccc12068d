-- ===== src/Attendance/CheckIn.antt =====
-- src/attendance/check-in-out.*: one call is one transaction over the tables of attempts and records
-- and those of leave.
pub mod Model
pub mod Tables
pub mod Answers
pub mod Service
mod Keys
mod Safety
mod Replay
mod Gate
mod Once
mod Examples

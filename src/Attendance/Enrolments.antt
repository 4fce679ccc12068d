-- ===== src/Attendance/Enrolments.antt =====
-- src/attendance/enrolments*.ts: the plan of a change over dated ranges, the tables that it is run on,
-- and the operations of the service.
pub mod Plan
pub mod Tables
pub mod Service
pub mod Cut
pub mod Equivalence
pub mod Coverage
pub mod Exclusive
pub mod Outcomes
pub mod Promises
pub mod Reassign
mod Examples

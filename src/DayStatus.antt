-- ===== src/DayStatus.antt =====
-- src/common/day-status: the attendance day-status engine, from the office rules and the facts of a
-- day to its status, and the monthly sums over the statuses.
pub mod OfficeRules
pub mod Types
pub mod Context
pub mod Engine
pub mod Summary
mod Examples

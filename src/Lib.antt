-- ===== src/Lib.antt =====
-- Verification library of fenzit-be, the attendance backend: the day-status engine that grades an
-- employee's day, the leave workflow, check-in and check-out, the enrolments that say who is tracked
-- when and where, the advance of a job through its workflow, the guards of every route, and the
-- answers kept by idempotency key.
--
-- How the parts interact. The facts of a day (enrolment, office rule, weekly offs, holiday, leave)
-- are assembled into a day context; the engine grades the context together with the day's record
-- and its correction; the monthly summary sums the grades. Leave actions move the days of a request
-- between states under the employee's lock, and what they may still change depends on the office
-- start of the day context. Check-in and check-out read the same context, decide on the tables of
-- attempts and records, and a confirmed check-in cancels the leave of its day through the one writer
-- of leave days. An enrolment or a disabling changes the dated ranges from which the day context is
-- read, and a disabling cancels leave through the same writer. A job advances through the steps of the
-- template that it was stamped with. Every request passes authentication, which reads the person's
-- company and role from the database, and then the decision on permissions. On
-- a route with the idempotency interceptor, a retried request is answered from the log of answers.
--
-- Files and code:
--   Prelude, Prelude/*         shared lists, Boolean tests, and texts as UTF-16 code units
--   Calendar                   the part of Number, split and Date.UTC that the code uses
--   DayStatus/OfficeRules      src/common/day-status/office-rules.ts
--   DayStatus/Types, Context   src/common/day-status/keys.ts and day-context.ts
--   DayStatus/Engine           src/common/day-status/day-status.model.ts (computeDayStatus)
--   DayStatus/Summary          src/common/day-status/monthly-summary.model.ts
--   Attendance/Errors          src/common/enums/error-code.enum.ts and HttpException
--   Attendance/Leave/Types     src/attendance/leave.constants.ts, leave.model.ts
--   Attendance/Leave/Split     src/attendance/leave-validation.ts (splitActionableDates)
--   Attendance/Leave/Transition  src/attendance/leave-transition.ts
--   Attendance/Leave/Actions   src/attendance/leave.service.ts, reads of leave.repository.ts
--   Attendance/Leave/Apply     leave-validation.ts (validateApplyShape, enumerateDates,
--                              validateApplyFacts)
--   Attendance/Leave/Disable   cancelLeaveOnDisable and its sweep
--   Attendance/DayContextRead  src/attendance/day-context.read.ts
--   Attendance/CheckIn/Model   src/attendance/check-in-out.model.ts, constants.ts, metricsFor
--   Attendance/CheckIn/Tables  check-in-out.repository.ts, check-in-out.records.repository.ts
--   Attendance/CheckIn/Answers check-in-out.replay.ts, check-in-out.rejections.ts
--   Attendance/CheckIn/Service check-in-out.service.ts, check-in-out.leave.ts
--   Attendance/Enrolments/Plan src/attendance/enrolments-response.model.ts
--   Attendance/Enrolments/Tables  src/attendance/enrolments.repository.ts
--   Attendance/Enrolments/Service src/attendance/enrolments.service.ts, with the transaction of
--                              src/common/pg/pg-pool.factory.ts and the exception filter of
--                              src/common/filters/global-exception.filter.ts
--   Calendar/Print             dates printed as toISOString does, for addDays
--   Jobs/Workflow              src/jobs/workflow-template.model.ts
--   Jobs/Advance               src/jobs/workflow.service.ts, with the database function
--                              advance_workflow_step of supabase/migrations
--   Access/Permissions         src/common/permissions/permissions.ts
--   Access/Membership          src/common/auth/membership-resolver.ts
--   Idempotency                src/common/interceptors/idempotency.interceptor.ts
--   Access/Guards              src/common/guards/jwt-auth.guard.ts, permissions.guard.ts
-- The function names are those of the source in snake case (computeDayStatus is
-- compute_day_status). The child modules named Laws, First, Order, Span, Facts, Rules, Credits, Select, Effect, Lifecycle,
-- Exclusive, Status, Once, Swept, Keys, Safety, Replay, Gate, Cut, Equivalence,
-- Coverage, Outcomes, Promises, Reassign, Walk, Race and Authentication hold the theorems; the modules
-- named Examples hold tests and runs of the theorems on concrete data.
--
-- Conventions. A date is the text YYYY-MM-DD, compared by code unit as `<` does in the source; an
-- instant is a number of milliseconds. Credits are counted in half days, so that 0.5 is 1. The two
-- hour thresholds are numeric(4, 2) in the database and are carried as exact hundredths, where the
-- source multiplies doubles. Intl, with its time-zone database, is the parameter Zone, of which only
-- the bound 1440 on the minute of the day is assumed; the errors that it throws over a time zone
-- that it does not know are left out. Database tables are lists of rows in a record;
-- a transaction is a function from the tables to a result, which carries the new tables only when
-- the call returns, as a thrown error rolls the transaction back. The employee lock makes a
-- transaction atomic with respect to the others on the same employee. The recursion is
-- structural; only enumerate_dates is given a number of rounds, for which 63 are enough on a span that
-- the rules of the shape let through. The rows that a call only reads, the clocks and the floating-point geometry are
-- the record Site; the id of a new attempt or record is the number of rows before it. The unique
-- ids of ranges, the date of today, the access-state view and the trigger at commit are the record
-- Server. An advance of a job reads the jobs at one moment and writes them at another, and is given
-- both. The unique
-- indexes of the tables are modelled where the code meets them: a taken key is an absent id, a second
-- record of a day or a missed update is a thrown error.
--
-- Not modelled: logging, message texts, notification payloads, the working-day count of a leave
-- view with the errors of its reads, the text form of instants, the trigonometry of geo.ts (floating point), SQL beyond the reads
-- and guarded writes above, the advisory locks, the transaction of an application for leave (its
-- rules and the insertion of its days are here), the roster of the enrolments, the renaming of a job's fields in its answer, the
-- verification of a token's signature, and the other modules of the backend (creation and editing of
-- jobs, members, customers, reports, push, storage, login).
pub mod Prelude
pub mod Calendar
pub mod DayStatus
pub mod Attendance
pub mod Jobs
pub mod Access
pub mod Idempotency

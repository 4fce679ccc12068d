-- ===== src/Jobs.antt =====
-- src/jobs: the workflow template that a job carries, and the advance of a job through its steps.
pub mod Workflow
pub mod Advance
mod Examples

-- ===== src/Access.antt =====
-- src/common/permissions, src/common/auth and src/common/guards: who may call what.
pub mod Permissions
pub mod Membership
pub mod Guards
pub mod Laws
pub mod Authentication
mod Examples

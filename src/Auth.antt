-- ===== src/Auth.antt =====
-- internal/auth/manager.go: login throttling, sessions and the access guard.
pub mod Failures
pub mod Bounds
pub mod Steps
pub mod Lockout
pub mod Blocked
mod Examples
pub mod Sessions
pub mod Handlers
pub mod Access
pub mod Revocation
mod Runs

-- ===== src/Redundancy.antt =====
-- internal/redundancy: a controller that publishes its DNS configuration and replicas that follow it.
pub mod Types
pub mod Roles
pub mod Crypto
pub mod Pairing
pub mod Nodes
pub mod Snapshot
pub mod Sync
pub mod Replay
pub mod Membership
pub mod Handlers
pub mod Leaving
pub mod Following
pub mod Codes
pub mod Reachable
mod Examples
pub mod Signing

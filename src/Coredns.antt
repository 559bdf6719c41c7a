-- ===== src/Coredns.antt =====
-- internal/coredns: the generated DNS configuration, its installation, and the policy decision.
pub mod Errors
pub mod Corefile
pub mod Files
pub mod Contents
pub mod Order
pub mod Apply
pub mod Replica
pub mod PutBack
pub mod Restored
pub mod Atomic
pub mod Success
pub mod Names
pub mod Complete
mod Examples

-- ===== src/Background.antt =====
-- The background package: enqueue, the worker and its attempt, the safety nets.
pub mod Deployment
pub mod Handlers
pub mod Runner
pub mod Accounting
pub mod Attempts
pub mod Guard
pub mod Enqueue
pub mod Restoration
pub mod SafetyNets
pub mod Pull
pub mod Dispatch
pub mod Engine
pub mod Finalize
mod Tests
pub mod Whole

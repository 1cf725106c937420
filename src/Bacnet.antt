-- ===== src/Bacnet.antt =====
-- src/bacnet_server.c: the object registry and the CoV subscriptions.
pub mod Model
pub mod Objects
pub mod Cov
pub mod Registry
pub mod Subscriptions
pub mod Invariant
pub mod Refinement
pub mod Notifications
pub mod Lifetimes
pub mod Drift
pub mod Mirror
pub mod Task
mod Tests
pub mod Destroy

-- ===== src/Gateway.antt =====
-- src/main.c: the configuration, the subscriptions, the event callback, recovery, and the order of start and stop.
pub mod Events
pub mod Startup
pub mod Loading
pub mod Delivery
pub mod Tests
pub mod Config
pub mod Cached
pub mod Effects
pub mod After
pub mod Durable
pub mod Arrivals
pub mod Replayed
pub mod Trial
pub mod Threads
pub mod Recovered
pub mod Unmoved

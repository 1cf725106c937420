-- ===== src/Kurrent.antt =====
-- src/kurrentdb_client.c: the address, the connection, persistent subscriptions, acknowledgement, polling
-- and catching up.
pub mod Address
pub mod Curl
pub mod Client
pub mod Subscriptions
pub mod Events
pub mod Poll
pub mod Catchup
pub mod CaughtUp
pub mod Steady
pub mod Login
pub mod Identity
pub mod Tests
pub mod Response

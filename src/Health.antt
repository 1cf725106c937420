-- ===== src/Health.antt =====
-- src/health_api.c: metrics, health checks, requests and the server.
pub mod Histogram
pub mod Buckets
pub mod Tests
pub mod Checks
pub mod Readiness
pub mod Metrics
pub mod Short
pub mod Room
pub mod Http
pub mod Requests
pub mod Wire
pub mod Server
pub mod Lines

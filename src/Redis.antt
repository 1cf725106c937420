-- ===== src/Redis.antt =====
-- src/redis_cache.c: the connection, keys, objects with their index, and stream positions.
pub mod Client
pub mod Keys
pub mod Objects
pub mod Index
pub mod Positions
pub mod Frame
pub mod Deletion
pub mod Reload
pub mod Roundtrip
pub mod Tests
pub mod Laws
pub mod Sample
pub mod Room
pub mod View
pub mod Live
pub mod Indexed
pub mod Listing
pub mod Visited
pub mod Kept
pub mod Steady
pub mod Example

-- ===== src/Logging.antt =====
-- src/logging.c: levels, lines, outputs, and the files with their rotation.
pub mod Levels
pub mod Escape
pub mod Escaping
pub mod Tests
pub mod Paths
pub mod Files
pub mod Rotation
pub mod Rotated
pub mod Line
pub mod Cut
pub mod Sink
pub mod Clean
pub mod Run
pub mod Counted
pub mod Writing
pub mod Limit
pub mod Session
pub mod Checks

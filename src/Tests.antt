-- ===== src/Tests.antt =====
-- The theorems at concrete inputs.
pub mod Data
pub mod Workers
pub mod Heads
pub mod Rocks
pub mod Cursors
pub mod Leaves
pub mod Encodings
pub mod Logs
pub mod Restarts
pub mod Iterators

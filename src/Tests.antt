-- ===== src/Tests.antt =====
-- The theorems at concrete inputs.
pub mod Codecs
pub mod Logs
pub mod Values
pub mod Versions
pub mod Requests
pub mod Caches
pub mod Serving
pub mod Reads
pub mod Writes
pub mod Files
pub mod Blocks

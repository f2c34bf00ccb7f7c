-- ===== src/Bufio.antt =====
-- packages/bufio/lib: the byte reader and the growing byte writer, and what one of them writes
-- the other reads.
pub mod Bytes
pub mod Reader
pub mod Writer
pub mod RoundTrip
pub mod Canonical
pub mod Truncated
pub mod Fixed
mod Tests

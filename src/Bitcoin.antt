-- ===== src/Bitcoin.antt =====
-- packages/bitcoin/lib: transactions, and the stream reader of packages/bufio that they are read
-- with.
pub mod Stream
pub mod Script
pub mod Tx
pub mod Sequence
mod Tests

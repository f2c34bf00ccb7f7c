-- ===== src/Wire.antt =====
-- packages/wire/lib: the keep-alive of a connection.
pub mod PingPong
mod Tests

-- ===== src/Noise.antt =====
-- packages/noise and the primitives of packages/crypto that it calls: the encrypted transport.
pub mod Crypto
pub mod State
pub mod Cipher
pub mod Acts
pub mod Handshake
pub mod Transport
pub mod Conversation
pub mod Forgery
mod Tests

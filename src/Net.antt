-- ===== src/Net.antt =====
-- The network side: message buffers, checksum, cipher, and the protocol and connection over them.
pub mod Message
pub mod Adler
pub mod Xtea
pub mod Output
pub mod Protocol
pub mod Service
pub mod Connection
mod Tests

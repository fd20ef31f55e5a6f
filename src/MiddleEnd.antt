-- ===== src/MiddleEnd.antt =====
-- package/telego-pkg/src/pkg/transport/middleend
pub mod Constants
pub mod Crc
pub mod Handshake
pub mod Frame
pub mod Encoder
pub mod Decoder
pub mod ClientPacket
mod Examples

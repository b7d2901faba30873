-- ===== src/Protocol.antt =====
-- internal/protocol: MQTT packets, their decoder and their encoder.
pub mod Packet
pub mod Reader
pub mod Wire
pub mod Decoder
pub mod Encoder
pub mod Length
pub mod Encoded
mod Tests

-- ===== src/Wire.antt =====
-- internal/wire: the frames of QUIC, how they are written and parsed.
pub mod Codec
pub mod Limits
pub mod StreamEnd
pub mod Control
pub mod CryptoFrame
pub mod StreamFrame
pub mod AckFrame
pub mod FrameParser

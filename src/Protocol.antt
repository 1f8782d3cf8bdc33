-- ===== src/Protocol.antt =====
-- internal/protocol: packet numbers, stream numbers and stream IDs.
pub mod Stream
pub mod PacketNumber

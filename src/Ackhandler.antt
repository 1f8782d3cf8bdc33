-- ===== src/Ackhandler.antt =====
-- internal/ackhandler: which packets were received, which packet numbers are sent, and what becomes of
-- the packets that were sent.
pub mod PacketHistory
pub mod Tracker
pub mod Received
pub mod Generator
pub mod SentHistory
pub mod Sent

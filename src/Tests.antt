-- ===== src/Tests.antt =====
-- Concrete inputs: the theorems at frames, packets and controllers as they occur.
mod Utils
mod Wire
mod FlowControl
mod Ackhandler
mod Protocol
mod Congestion
mod Streams
mod Generator
mod Bbr
mod Sent

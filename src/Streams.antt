-- ===== src/Streams.antt =====
-- The streams of a session: streams_map_incoming_generic.go and streams_map_outgoing_generic.go.
pub mod NumSet
pub mod Incoming
pub mod Outgoing

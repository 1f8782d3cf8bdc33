-- ===== src/Lib.antt =====
-- gt-bbr is a QUIC transport in Go. This library models its core: how frames are encoded and split,
-- which packet numbers are used, received and acknowledged, which packets are lost and sent again, how
-- much data may be sent, which streams are opened, and the BBR congestion control.
--
-- The parts, from the wire upwards, with the directories of the repository that they model:
--   Utils (internal/utils): variable-length and big-endian integers (varint.go,
--     byteorder_big_endian.go).
--   Protocol (internal/protocol): PacketNumber truncates and completes packet numbers
--     (packet_number.go); Stream numbers streams (stream.go).
--   Wire (internal/wire): one module for each group of frame files. StreamFrame, CryptoFrame, AckFrame;
--     StreamEnd (reset_stream, stop_sending); Limits (max_data, max_stream_data, max_streams and the
--     three blocked frames); Control (ping, new_token, connection IDs, path frames,
--     connection_close); FrameParser (frame_parser.go) dispatches on the type byte.
--   FlowControl (internal/flowcontrol): Base, Connection and Stream are the three controllers; Accounts
--     puts many streams on one connection.
--   Ackhandler (internal/ackhandler): PacketHistory keeps the intervals of received packet numbers
--     (received_packet_history.go); Tracker decides when they are acknowledged
--     (received_packet_tracker.go) and makes the frames of Wire.AckFrame; Received has one for
--     each packet number space (received_packet_handler.go). Generator chooses the
--     numbers of sent packets (packet_number_generator.go) and checks the frames that come back.
--     SentHistory keeps the packets that were sent (sent_packet_history.go), and Sent counts the bytes
--     in flight, finds the lost packets and drives the congestion controller
--     (sent_packet_handler.go): its children Sending, Acked, Loss, Received and Dequeue are the
--     calls, Calls and Accounting the sequences of them.
--   Congestion (internal/congestion): Bbr is the state machine of bbr_sender.go, on top of
--     BandwidthSampler (bandwidth_sampler.go) and WindowedFilter (windowed_filter.go), its bandwidth
--     filter. RttStats (rtt_stats.go) estimates round-trip times. HybridSlowStart
--     (hybrid_slow_start.go) belongs to the Cubic sender.
--   Streams: Incoming is streams_map_incoming_generic.go and Outgoing streams_map_outgoing_generic.go,
--     whose generated copies differ in names.
--   Prelude holds the shared tests, list lemmas and results; Tests holds concrete inputs.
--
-- How the code is modelled. A struct is a record and a method a function from the record to the new
-- record and the results; `(value, error)` is `Result`, in which a Go panic is an error of its own.
-- A `bytes.Reader` is the list of bytes left in it, and a buffer the list of bytes written. Names are
-- those of the source in snake case; a method that two structs share carries the struct as a prefix
-- or suffix. Words of 64 bits wrap where a value can reach the bound (flow control, variable-length
-- integers, offsets); other numbers are natural numbers, and each file says what keeps them so.
-- Clocks, random bits, round-trip times and floating-point products are arguments.
--
-- Loops are structural recursion on the list or the count that they walk. Two functions have fuel. The
-- binary search of `AcksPacket` gets the number of ranges; half of the rest is dropped at every turn,
-- and the theorem on `AcksPacket` is about the function with this fuel. `stopRetransmissionsFor`
-- gets the number of packets of the history, which is enough where a retransmission has a larger
-- number than its original.
--
-- Not modelled: sockets, goroutines, timers and locks (session.go, server.go, client.go, the packet
-- handler map); the TLS handshake and packet protection (internal/handshake), which call libraries;
-- HTTP/3 (http3), an application; linked lists (internal/utils/linkedlist), which are lists here;
-- messages and logs. Packet headers, the packet packer, the frame sorter and the contents of streams
-- have no module here, and neither has the Cubic sender with its rate reduction, which the sent packet
-- handler does not create.
pub mod Prelude
pub mod Utils
pub mod Protocol
pub mod Wire
pub mod FlowControl
pub mod Ackhandler
pub mod Congestion
pub mod Streams
pub mod Tests

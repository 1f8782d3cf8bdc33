-- ===== src/Wire/FrameParser.antt =====
-- internal/wire/frame_parser.go and interface.go: the frames of a packet.
pub mod RoundTrip
use gt_bbr.Prelude.{
  ℕ, bit_and, ◌||◌, Option, none, some, List, [], ◌∷◌, ◌==◌, if◌then◌else◌, Bool, true, false,
}
use gt_bbr.Prelude.Reader.{◌>>=◌, Result, ok, err}
use gt_bbr.Prelude.Reader.{◌>>=◌, frame_encoding, unknown_type_byte}
use gt_bbr.Wire.Limits.{
  MaxDataFrame, parse_max_data_frame, write_max_data_frame, length_max_data_frame,
  MaxStreamDataFrame, parse_max_stream_data_frame, write_max_stream_data_frame,
  length_max_stream_data_frame, MaxStreamsFrame, parse_max_streams_frame, write_max_streams_frame,
  length_max_streams_frame, DataBlockedFrame, parse_data_blocked_frame, write_data_blocked_frame,
  length_data_blocked_frame, StreamDataBlockedFrame, parse_stream_data_blocked_frame,
  write_stream_data_blocked_frame, length_stream_data_blocked_frame, StreamsBlockedFrame,
  parse_streams_blocked_frame, write_streams_blocked_frame, length_streams_blocked_frame,
}
use gt_bbr.Wire.StreamEnd.{
  ResetStreamFrame, parse_reset_stream_frame, write_reset_stream_frame, length_reset_stream_frame,
  StopSendingFrame, parse_stop_sending_frame, write_stop_sending_frame, length_stop_sending_frame,
}
use gt_bbr.Wire.Control.{
  PingFrame, parse_ping_frame, write_ping_frame, length_ping_frame, NewTokenFrame,
  parse_new_token_frame, write_new_token_frame, length_new_token_frame, NewConnectionIdFrame,
  parse_new_connection_id_frame, write_new_connection_id_frame, length_new_connection_id_frame,
  RetireConnectionIdFrame, parse_retire_connection_id_frame, write_retire_connection_id_frame,
  length_retire_connection_id_frame, PathChallengeFrame, parse_path_challenge_frame,
  write_path_challenge_frame, length_path_challenge_frame, PathResponseFrame,
  parse_path_response_frame, write_path_response_frame, length_path_response_frame,
  ConnectionCloseFrame, parse_connection_close_frame, write_connection_close_frame,
  length_connection_close_frame,
}
use gt_bbr.Wire.CryptoFrame.{
  CryptoFrame, parse_crypto_frame, write_crypto_frame, length_crypto_frame,
}
use gt_bbr.Wire.StreamFrame.{
  StreamFrame, parse_stream_frame, write_stream_frame, length_stream_frame,
}
use gt_bbr.Wire.AckFrame.{AckFrame, parse_ack_frame, write_ack_frame, length_ack_frame}

-- The types that implement the interface `Frame`.
pub data Frame : Type 0 where
  stream : StreamFrame → Frame
  ping : PingFrame → Frame
  ack : AckFrame → Frame
  reset_stream : ResetStreamFrame → Frame
  stop_sending : StopSendingFrame → Frame
  crypto : CryptoFrame → Frame
  new_token : NewTokenFrame → Frame
  max_data : MaxDataFrame → Frame
  max_stream_data : MaxStreamDataFrame → Frame
  max_streams : MaxStreamsFrame → Frame
  data_blocked : DataBlockedFrame → Frame
  stream_data_blocked : StreamDataBlockedFrame → Frame
  streams_blocked : StreamsBlockedFrame → Frame
  new_connection_id : NewConnectionIdFrame → Frame
  retire_connection_id : RetireConnectionIdFrame → Frame
  path_challenge : PathChallengeFrame → Frame
  path_response : PathResponseFrame → Frame
  connection_close : ConnectionCloseFrame → Frame

unfoldable pub write_frame : List ℕ → Frame → Result (List ℕ)
write_frame b (stream f) = write_stream_frame b f
write_frame b (ping f) = write_ping_frame b f
write_frame b (ack f) = write_ack_frame b f
write_frame b (reset_stream f) = write_reset_stream_frame b f
write_frame b (stop_sending f) = write_stop_sending_frame b f
write_frame b (crypto f) = write_crypto_frame b f
write_frame b (new_token f) = write_new_token_frame b f
write_frame b (max_data f) = write_max_data_frame b f
write_frame b (max_stream_data f) = write_max_stream_data_frame b f
write_frame b (max_streams f) = write_max_streams_frame b f
write_frame b (data_blocked f) = write_data_blocked_frame b f
write_frame b (stream_data_blocked f) = write_stream_data_blocked_frame b f
write_frame b (streams_blocked f) = write_streams_blocked_frame b f
write_frame b (new_connection_id f) = write_new_connection_id_frame b f
write_frame b (retire_connection_id f) = write_retire_connection_id_frame b f
write_frame b (path_challenge f) = write_path_challenge_frame b f
write_frame b (path_response f) = write_path_response_frame b f
write_frame b (connection_close f) = write_connection_close_frame b f

unfoldable pub length_frame : Frame → Result ℕ
length_frame (stream f) = length_stream_frame f
length_frame (ping f) = length_ping_frame f
length_frame (ack f) = length_ack_frame f
length_frame (reset_stream f) = length_reset_stream_frame f
length_frame (stop_sending f) = length_stop_sending_frame f
length_frame (crypto f) = length_crypto_frame f
length_frame (new_token f) = length_new_token_frame f
length_frame (max_data f) = length_max_data_frame f
length_frame (max_stream_data f) = length_max_stream_data_frame f
length_frame (max_streams f) = length_max_streams_frame f
length_frame (data_blocked f) = length_data_blocked_frame f
length_frame (stream_data_blocked f) = length_stream_data_blocked_frame f
length_frame (streams_blocked f) = length_streams_blocked_frame f
length_frame (new_connection_id f) = length_new_connection_id_frame f
length_frame (retire_connection_id f) = length_retire_connection_id_frame f
length_frame (path_challenge f) = length_path_challenge_frame f
length_frame (path_response f) = length_path_response_frame f
length_frame (connection_close f) = length_connection_close_frame f

-- `protocol.EncryptionLevel`
pub data EncryptionLevel : Type 0 where
  unspecified initial handshake one_rtt : EncryptionLevel

abbrev pub is_level : EncryptionLevel → EncryptionLevel → Bool
is_level unspecified unspecified = true
is_level initial initial = true
is_level handshake handshake = true
is_level one_rtt one_rtt = true
is_level _ _ = false

-- `protocol.DefaultAckDelayExponent` on all levels but 1-RTT.
abbrev pub exponent_for : ℕ → EncryptionLevel → ℕ
exponent_for e one_rtt = e
exponent_for e unspecified = 3
exponent_for e initial = 3
exponent_for e handshake = 3

-- A parsed frame as a `Frame`.
abbrev pub as_frame {ℓ} : {F : Type ℓ} → (F → Frame) → Result (F × List ℕ) → Result (Frame × List ℕ)
as_frame c r = do (f, rest) ← r; ok (c f, rest)

-- The `switch` on the type byte; `ack_delay_exponent` is the field of the parser.
unfoldable pub parse_by_type : ℕ → ℕ → EncryptionLevel → List ℕ → Result (Frame × List ℕ)
parse_by_type ack_delay_exponent t level r =
    if bit_and t 0xf8 == 0x8
    then as_frame stream (parse_stream_frame r)
    else if t == 0x1
    then as_frame ping (parse_ping_frame r)
    else if t == 0x2 || t == 0x3
    then as_frame ack (parse_ack_frame (exponent_for ack_delay_exponent level) r)
    else if t == 0x4
    then as_frame reset_stream (parse_reset_stream_frame r)
    else if t == 0x5
    then as_frame stop_sending (parse_stop_sending_frame r)
    else if t == 0x6
    then as_frame crypto (parse_crypto_frame r)
    else if t == 0x7
    then as_frame new_token (parse_new_token_frame r)
    else if t == 0x10
    then as_frame max_data (parse_max_data_frame r)
    else if t == 0x11
    then as_frame max_stream_data (parse_max_stream_data_frame r)
    else if t == 0x12 || t == 0x13
    then as_frame max_streams (parse_max_streams_frame r)
    else if t == 0x14
    then as_frame data_blocked (parse_data_blocked_frame r)
    else if t == 0x15
    then as_frame stream_data_blocked (parse_stream_data_blocked_frame r)
    else if t == 0x16 || t == 0x17
    then as_frame streams_blocked (parse_streams_blocked_frame r)
    else if t == 0x18
    then as_frame new_connection_id (parse_new_connection_id_frame r)
    else if t == 0x19
    then as_frame retire_connection_id (parse_retire_connection_id_frame r)
    else if t == 0x1a
    then as_frame path_challenge (parse_path_challenge_frame r)
    else if t == 0x1b
    then as_frame path_response (parse_path_response_frame r)
    else if t == 0x1c || t == 0x1d
    then as_frame connection_close (parse_connection_close_frame r)
    else err (unknown_type_byte t)

-- Every error becomes a `FrameEncodingError`.
abbrev pub wrap_error {ℓ} : {A : Type ℓ} → Result A → Result A
wrap_error (ok a) = ok a
wrap_error (err e) = err (frame_encoding e)

unfoldable pub parse_frame : ℕ → ℕ → EncryptionLevel → List ℕ → Result (Frame × List ℕ)
parse_frame ack_delay_exponent t level r = wrap_error (parse_by_type ack_delay_exponent t level r)

-- `ParseNext`: padding is skipped, and `none` is the nil frame at the end of the packet.
unfoldable pub parse_next : ℕ → EncryptionLevel → List ℕ → Result (Option Frame × List ℕ)
parse_next ack_delay_exponent level [] = ok (none, [])
parse_next ack_delay_exponent level (t ∷ r) =
    let more = parse_next ack_delay_exponent level r in
    if t == 0x0
    then more
    else do (f, rest) ← parse_frame ack_delay_exponent t level (t ∷ r); ok (some f, rest)

-- ===== src/Wire/Limits/RoundTrip.antt =====
use gt_bbr.Prelude.{refl, ℕ, ◌≤◌, List, ◌++◌, arith, ◌≡◌}
use gt_bbr.Protocol.Stream.{StreamType, uni, bidi}
use gt_bbr.Utils.VarInt.{max_var_int8}
use gt_bbr.Utils.VarInt.RoundTrip.{var_int}
use gt_bbr.Wire.Codec.{RoundTrips, writing, measuring, reading}
use gt_bbr.Wire.Limits.{
  MaxStreamsFrame, parse_max_streams_frame, write_max_streams_frame, length_max_streams_frame,
  max_streams_type, max_streams_byte, StreamsBlockedFrame, parse_streams_blocked_frame,
  write_streams_blocked_frame, length_streams_blocked_frame, streams_blocked_type,
  streams_blocked_byte, MaxDataFrame, parse_max_data_frame, write_max_data_frame,
  length_max_data_frame, MaxStreamDataFrame, parse_max_stream_data_frame,
  write_max_stream_data_frame, length_max_stream_data_frame, DataBlockedFrame,
  parse_data_blocked_frame, write_data_blocked_frame, length_data_blocked_frame,
  StreamDataBlockedFrame, parse_stream_data_blocked_frame, write_stream_data_blocked_frame,
  length_stream_data_blocked_frame,
}

pub max_data_frame_round_trip :
    (f : MaxDataFrame) (b rest : List ℕ)
    → f.byte_offset ≤ max_var_int8
    → RoundTrips f b rest 0x10
        (write_max_data_frame b f)
        (length_max_data_frame f)
        parse_max_data_frame
unfolding write_max_data_frame length_max_data_frame parse_max_data_frame
max_data_frame_round_trip f b rest h_byte_offset = (
  var_int f.byte_offset,
  simp (writing, h_byte_offset),
  simp (measuring, h_byte_offset) (ground arith),
  simp (reading, h_byte_offset),
)

pub max_stream_data_frame_round_trip :
    (f : MaxStreamDataFrame) (b rest : List ℕ)
    → f.stream_id ≤ max_var_int8
    → f.byte_offset ≤ max_var_int8
    → RoundTrips f b rest 0x11
        (write_max_stream_data_frame b f)
        (length_max_stream_data_frame f)
        parse_max_stream_data_frame
unfolding write_max_stream_data_frame length_max_stream_data_frame parse_max_stream_data_frame
max_stream_data_frame_round_trip f b rest h_stream_id h_byte_offset = (
  (var_int f.stream_id ++ var_int f.byte_offset),
  simp (writing, h_stream_id, h_byte_offset),
  simp (measuring, h_stream_id, h_byte_offset) (ground arith),
  simp (reading, h_stream_id, h_byte_offset),
)

pub data_blocked_frame_round_trip :
    (f : DataBlockedFrame) (b rest : List ℕ)
    → f.data_limit ≤ max_var_int8
    → RoundTrips f b rest 0x14
        (write_data_blocked_frame b f)
        (length_data_blocked_frame f)
        parse_data_blocked_frame
unfolding write_data_blocked_frame length_data_blocked_frame parse_data_blocked_frame
data_blocked_frame_round_trip f b rest h_data_limit = (
  var_int f.data_limit,
  simp (writing, h_data_limit),
  simp (measuring, h_data_limit) (ground arith),
  simp (reading, h_data_limit),
)

pub stream_data_blocked_frame_round_trip :
    (f : StreamDataBlockedFrame) (b rest : List ℕ)
    → f.stream_id ≤ max_var_int8
    → f.data_limit ≤ max_var_int8
    → RoundTrips f b rest 0x15
        (write_stream_data_blocked_frame b f)
        (length_stream_data_blocked_frame f)
        parse_stream_data_blocked_frame
unfolding write_stream_data_blocked_frame length_stream_data_blocked_frame
    parse_stream_data_blocked_frame
stream_data_blocked_frame_round_trip f b rest h_stream_id h_data_limit = (
  (var_int f.stream_id ++ var_int f.data_limit),
  simp (writing, h_stream_id, h_data_limit),
  simp (measuring, h_stream_id, h_data_limit) (ground arith),
  simp (reading, h_stream_id, h_data_limit),
)

max_streams_type-byte : (t : StreamType) → max_streams_type (max_streams_byte t) ≡ t
max_streams_type-byte uni = refl
max_streams_type-byte bidi = refl

pub max_streams_frame_round_trip :
    (f : MaxStreamsFrame) (b rest : List ℕ)
    → f.max_stream_num ≤ max_var_int8
    → RoundTrips f b rest
        (max_streams_byte f.stream_type)
        (write_max_streams_frame b f)
        (length_max_streams_frame f)
        parse_max_streams_frame
unfolding write_max_streams_frame length_max_streams_frame parse_max_streams_frame
max_streams_frame_round_trip f b rest h = (
  var_int f.max_stream_num,
  simp (writing, h),
  simp (measuring, h) (ground arith),
  simp (reading, h) (ground (arith, max_streams_type-byte f.stream_type)),
)

streams_blocked_type-byte : (t : StreamType) → streams_blocked_type (streams_blocked_byte t) ≡ t
streams_blocked_type-byte uni = refl
streams_blocked_type-byte bidi = refl

pub streams_blocked_frame_round_trip :
    (f : StreamsBlockedFrame) (b rest : List ℕ)
    → f.stream_limit ≤ max_var_int8
    → RoundTrips f b rest
        (streams_blocked_byte f.stream_type)
        (write_streams_blocked_frame b f)
        (length_streams_blocked_frame f)
        parse_streams_blocked_frame
unfolding write_streams_blocked_frame length_streams_blocked_frame parse_streams_blocked_frame
streams_blocked_frame_round_trip f b rest h = (
  var_int f.stream_limit,
  simp (writing, h),
  simp (measuring, h) (ground arith),
  simp (reading, h) (ground (arith, streams_blocked_type-byte f.stream_type)),
)

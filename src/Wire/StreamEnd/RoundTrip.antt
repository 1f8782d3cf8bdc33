-- ===== src/Wire/StreamEnd/RoundTrip.antt =====
use gt_bbr.Prelude.{ℕ, ◌≤◌, ◌<◌, ◌^◌, List, ◌++◌, arith}
use gt_bbr.Utils.ByteOrder.{uint16}
use gt_bbr.Utils.VarInt.{max_var_int8}
use gt_bbr.Utils.VarInt.RoundTrip.{var_int}
use gt_bbr.Wire.Codec.{RoundTrips, writing, measuring, reading}
use gt_bbr.Wire.StreamEnd.{
  ResetStreamFrame, parse_reset_stream_frame, write_reset_stream_frame, length_reset_stream_frame,
  StopSendingFrame, parse_stop_sending_frame, write_stop_sending_frame, length_stop_sending_frame,
}

pub reset_stream_frame_round_trip :
    (f : ResetStreamFrame) (b rest : List ℕ)
    → f.stream_id ≤ max_var_int8
    → f.byte_offset ≤ max_var_int8
    → f.error_code < 2 ^ 16
    → RoundTrips f b rest 0x4
        (write_reset_stream_frame b f)
        (length_reset_stream_frame f)
        parse_reset_stream_frame
unfolding write_reset_stream_frame length_reset_stream_frame parse_reset_stream_frame
reset_stream_frame_round_trip f b rest h_stream_id h_byte_offset h_error_code = (
  (var_int f.stream_id ++ (uint16 f.error_code ++ var_int f.byte_offset)),
  simp (writing, h_stream_id, h_byte_offset),
  simp (measuring, h_stream_id, h_byte_offset) (ground arith),
  simp (reading, h_stream_id, h_byte_offset, h_error_code),
)

pub stop_sending_frame_round_trip :
    (f : StopSendingFrame) (b rest : List ℕ)
    → f.stream_id ≤ max_var_int8
    → f.error_code < 2 ^ 16
    → RoundTrips f b rest 0x5
        (write_stop_sending_frame b f)
        (length_stop_sending_frame f)
        parse_stop_sending_frame
unfolding write_stop_sending_frame length_stop_sending_frame parse_stop_sending_frame
stop_sending_frame_round_trip f b rest h_stream_id h_error_code = (
  (var_int f.stream_id ++ uint16 f.error_code),
  simp (writing, h_stream_id),
  simp (measuring, h_stream_id) (ground arith),
  simp (reading, h_stream_id, h_error_code),
)

-- ===== src/Tests/Protocol.antt =====
-- internal/protocol: packet numbers and stream IDs at concrete values.
use gt_bbr.Prelude.{ℕ, ◌%◌, ◌≡◌, some, arith}
use gt_bbr.Protocol.PacketNumber.{
  decode_packet_number, epoch_delta, get_packet_number_length_for_header,
}
use gt_bbr.Protocol.PacketNumber.Decode.{
  decode_packet_number-Near, get_packet_number_length_for_header_enough,
}
use gt_bbr.Protocol.Stream.{bidi, server, stream_id_of, initiated_by, type_of, stream_num}
use gt_bbr.Protocol.Stream.Numbering.{parts-stream_id_of}

-- As in the RFC, 0xa82f9b32 is sent as 0x9b32, here after 0xa82f9000.
decode_packet_number-Near_example :
    decode_packet_number 2 0xa82f9000 (0xa82f9b32 % epoch_delta 2) ≡ 0xa82f9b32
unfolding epoch_delta
decode_packet_number-Near_example =
    decode_packet_number-Near 2 0xa82f9000 0xa82f9b32 (omega arith) (omega arith)
      (omega arith, omega arith)

get_packet_number_length_for_header_enough_example :
    let n = get_packet_number_length_for_header 0xac5c02 0xabe8b3 in
    decode_packet_number n 0xac0000 (0xac5c02 % epoch_delta n) ≡ 0xac5c02
get_packet_number_length_for_header_enough_example =
    get_packet_number_length_for_header_enough 0xac5c02 0xabe8b3 0xac0000 (omega arith)
      (omega arith) (omega arith) (omega arith)

parts-stream_id_of_example :
    (id : ℕ) × (stream_id_of bidi server 3 ≡ some id)
    × (type_of id ≡ bidi)
    × (initiated_by id ≡ server)
    × (stream_num id ≡ 3)
parts-stream_id_of_example = parts-stream_id_of bidi server 3 (omega arith)

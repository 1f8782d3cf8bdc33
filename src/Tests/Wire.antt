-- ===== src/Tests/Wire.antt =====
-- internal/wire: frames at concrete values.
use gt_bbr.Prelude.{
  ℕ, ◌+◌, ◌*◌, ◌/◌, ◌≤◌, ◌≡◌, refl, ◌≢◌, ◌↔◌, inl, true, false, not, some, List, [], ◌∷◌, ◌++◌,
  arith, ◌==◌, length, take,
}
use gt_bbr.Prelude.Reader.{ok, err, panic}
use gt_bbr.Utils.VarInt.{var_int_len}
use gt_bbr.Wire.Codec.{RoundTrips}
use gt_bbr.Wire.FrameParser.{ack, one_rtt}
use gt_bbr.Wire.FrameParser.RoundTrip.{Parses, parse_next-write_frame}
use gt_bbr.Wire.AckFrame.{
  AckFrame, AckRange, num_encodable_ack_ranges, write_ack_frame, length_ack_frame, parse_ack_frame,
  validate_ack_ranges, num_encodable_loop, range_len, encode_ack_range, encode_first_range,
  encode_ack_delay,
}
use gt_bbr.Wire.AckFrame.RoundTrip.{ack_frame_round_trip}
use gt_bbr.Wire.AckFrame.Acks.{acks_packet, acks_packet_iff, InRanges}
use gt_bbr.Wire.StreamFrame.{
  StreamFrame, write_stream_frame, length_stream_frame, parse_stream_frame, stream_type_byte,
  maybe_split_off_frame, var_int_len_if, max_data_len_stream_frame,
}
use gt_bbr.Wire.StreamFrame.RoundTrip.{stream_frame_round_trip}
use gt_bbr.Wire.StreamFrame.Split.{
  IsSplit, maybe_split_off_frame_lem, maybe_split_off_frame-ne-panic,
}
use gt_bbr.Wire.CryptoFrame.{CryptoFrame, max_data_len_crypto_frame, length_crypto_frame}
use gt_bbr.Wire.CryptoFrame.RoundTrip.{max_data_len_crypto_fits}

abbrev two_ranges : List AckRange
two_ranges = record { smallest = 7; largest = 9 } ∷ record { smallest = 1; largest = 4 } ∷ []

abbrev ack_two : AckFrame
ack_two = record { ack_ranges = two_ranges; delay_time = 16000 }

ack_two-valid : validate_ack_ranges two_ranges ≡ true
unfolding validate_ack_ranges
ack_two-valid = refl

encodable-ack_two : num_encodable_ack_ranges ack_two ≡ ok 2
unfolding num_encodable_ack_ranges num_encodable_loop range_len encode_ack_range encode_first_range
    encode_ack_delay var_int_len
encodable-ack_two = refl

parse_next-write_frame_example : Parses (ack ack_two) 3 one_rtt [] (0 ∷ [])
parse_next-write_frame_example =
    parse_next-write_frame (ack ack_two) 3 one_rtt [] (0 ∷ [])
      (ack_two-valid, (omega arith, (omega arith, tt)), omega arith, refl, encodable-ack_two) refl

acks_packet_iff_example : (acks_packet ack_two 8 ≡ true) ↔ InRanges two_ranges 8
acks_packet_iff_example = acks_packet_iff ack_two 8 ack_two-valid

ack_frame_round_trip_example :
    (k : ℕ) × (body : List ℕ) × (num_encodable_ack_ranges ack_two ≡ ok k)
    × (1 ≤ k)
    × (k ≤ length two_ranges)
    × (write_ack_frame [] ack_two ≡ ok ([] ++ (0x2 ∷ body)))
    × (length_ack_frame ack_two ≡ ok (1 + length body))
    × (1 + length body ≤ 1008)
    × (parse_ack_frame 3 (0x2 ∷ (body ++ []))
        ≡ ok (record { ack_ranges = take k two_ranges; delay_time = 16000 / 8000 * 8000 }, []))
ack_frame_round_trip_example =
    ack_frame_round_trip ack_two [] [] ack_two-valid (omega arith, (omega arith, tt)) (omega arith)

abbrev hello : StreamFrame
hello = record {
  stream_id = 4;
  offset = 10;
  payload = 1 ∷ 2 ∷ 3 ∷ 4 ∷ 5 ∷ [];
  fin_bit = true;
  data_len_present = true;
}

length-hello : length_stream_frame hello ≡ ok 9
unfolding length_stream_frame var_int_len_if var_int_len
length-hello = refl

stream_frame_round_trip_example :
    RoundTrips hello []
      (1 ∷ [])
      (stream_type_byte true true (not (10 == 0)))
      (write_stream_frame [] hello)
      (length_stream_frame hello)
      parse_stream_frame
stream_frame_round_trip_example =
    stream_frame_round_trip hello [] (1 ∷ []) (omega arith) (omega arith) (inl refl)
      (λ e. absurd (ground arith))

abbrev first_part : StreamFrame
first_part = record {
  stream_id = 4;
  offset = 10;
  payload = 1 ∷ 2 ∷ 3 ∷ [];
  fin_bit = false;
  data_len_present = true;
}

abbrev second_part : StreamFrame
second_part = record {
  stream_id = 4;
  offset = 13;
  payload = 4 ∷ 5 ∷ [];
  fin_bit = true;
  data_len_present = true;
}

split-hello : maybe_split_off_frame hello 7 ≡ ok (some first_part, second_part)
unfolding maybe_split_off_frame max_data_len_stream_frame length_stream_frame var_int_len_if
    var_int_len
split-hello = refl

length-first_part : length_stream_frame first_part ≡ ok 7
unfolding length_stream_frame var_int_len_if var_int_len
length-first_part = refl

maybe_split_off_frame_lem_example : IsSplit hello first_part second_part × (7 ≤ 7)
maybe_split_off_frame_lem_example =
    maybe_split_off_frame_lem hello first_part second_part 7 7 (omega arith) (omega arith)
      split-hello length-first_part

maybe_split_off_frame-ne-panic_example : maybe_split_off_frame hello 7 ≢ err panic
maybe_split_off_frame-ne-panic_example =
    maybe_split_off_frame-ne-panic hello 7 9 (omega arith) length-hello

abbrev secret : CryptoFrame
secret = record { offset = 100; payload = 1 ∷ 2 ∷ 3 ∷ [] }

max_data_len_crypto_fits_example : 7 ≤ 7
max_data_len_crypto_fits_example =
    max_data_len_crypto_fits secret 7 3 7 (omega arith) (omega arith)
      (unfold max_data_len_crypto_frame var_int_len in refl) refl (omega arith)
      (unfold length_crypto_frame var_int_len in refl)

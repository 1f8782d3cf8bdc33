-- ===== src/Wire/FrameParser/RoundTrip.antt =====
-- internal/wire/frame_parser.go: every frame that is written is parsed back, at the next `ParseNext`.
use gt_bbr.Prelude.{
  ℕ, ◌+◌, ◌*◌, ◌/◌, ◌^◌, ◌≤◌, ◌<◌, ◌≡◌, refl, ap, ◌∙◌, ◌≢◌, ◌⊎◌, Bool, true, false, not, some, List,
  [], ◌∷◌, ◌++◌, arith, ◌==◌, if◌then◌else◌, length, take, All,
}
use gt_bbr.Prelude.Reader.{Result, ok}
use gt_bbr.Utils.VarInt.{max_var_int8}
use gt_bbr.Wire.Codec.{RoundTrips}
use gt_bbr.Wire.StreamFrame.RoundTrip.{stream_frame_round_trip}
use gt_bbr.Wire.Control.RoundTrip.{
  ping_frame_round_trip, new_token_frame_round_trip, new_connection_id_frame_round_trip,
  retire_connection_id_frame_round_trip, path_challenge_frame_round_trip,
  path_response_frame_round_trip, connection_close_frame_round_trip,
}
use gt_bbr.Wire.AckFrame.RoundTrip.{ack_frame_round_trip}
use gt_bbr.Wire.StreamEnd.RoundTrip.{reset_stream_frame_round_trip, stop_sending_frame_round_trip}
use gt_bbr.Wire.CryptoFrame.RoundTrip.{crypto_frame_round_trip}
use gt_bbr.Wire.Limits.RoundTrip.{
  max_data_frame_round_trip, max_stream_data_frame_round_trip, max_streams_frame_round_trip,
  data_blocked_frame_round_trip, stream_data_blocked_frame_round_trip,
  streams_blocked_frame_round_trip,
}
use gt_bbr.Wire.Limits.{max_streams_byte, streams_blocked_byte}
use gt_bbr.Wire.StreamFrame.{max_byte_count, stream_type_byte}
use gt_bbr.Wire.StreamFrame.RoundTrip.{type_byte}
use gt_bbr.Wire.AckFrame.{AckFrame, validate_ack_ranges, num_encodable_ack_ranges}
use gt_bbr.Wire.Limits.{
  parse_max_data_frame, parse_max_stream_data_frame, parse_max_streams_frame,
  parse_data_blocked_frame, parse_stream_data_blocked_frame, parse_streams_blocked_frame,
}
use gt_bbr.Wire.StreamEnd.{parse_reset_stream_frame, parse_stop_sending_frame}
use gt_bbr.Wire.Control.{
  parse_ping_frame, parse_new_token_frame, parse_new_connection_id_frame,
  parse_retire_connection_id_frame, parse_path_challenge_frame, parse_path_response_frame,
  parse_connection_close_frame,
}
use gt_bbr.Wire.CryptoFrame.{parse_crypto_frame}
use gt_bbr.Wire.StreamFrame.{parse_stream_frame}
use gt_bbr.Wire.AckFrame.{parse_ack_frame, write_ack_frame, length_ack_frame}
use gt_bbr.Wire.FrameParser.{
  Frame, stream, ping, ack, reset_stream, stop_sending, crypto, new_token, max_data,
  max_stream_data, max_streams, data_blocked, stream_data_blocked, streams_blocked,
  new_connection_id, retire_connection_id, path_challenge, path_response, connection_close,
  write_frame, length_frame, EncryptionLevel, exponent_for, as_frame, parse_by_type, parse_frame,
  parse_next,
}
use gt_bbr.Protocol.Stream.{StreamType, uni, bidi}

-- The frames that can be written and are read back unchanged, if `rest` is what follows in the
-- packet: all fields fit their encodings, a STREAM frame with no length field ends the packet, and
-- an ACK frame has valid ranges that all fit and a delay of whole units of 8 microseconds.
abbrev pub IsValid : List ℕ → Frame → Type 0
IsValid rest (stream f) =
    (f.stream_id ≤ max_var_int8)
    × (f.offset + length f.payload ≤ max_byte_count)
    × ((f.fin_bit ≡ true) ⊎ (0 < length f.payload))
    × (f.data_len_present ≡ false → rest ≡ [])
IsValid rest (ping f) = Unit {0}
IsValid rest (ack f) =
    (validate_ack_ranges f.ack_ranges ≡ true)
    × All (λ r. r.largest ≤ max_var_int8) f.ack_ranges
    × (f.delay_time < 2 ^ 63)
    × (f.delay_time / 8000 * 8000 ≡ f.delay_time)
    × (num_encodable_ack_ranges f ≡ ok (length f.ack_ranges))
IsValid rest (reset_stream f) =
    (f.stream_id ≤ max_var_int8) × (f.byte_offset ≤ max_var_int8) × (f.error_code < 2 ^ 16)
IsValid rest (stop_sending f) = (f.stream_id ≤ max_var_int8) × (f.error_code < 2 ^ 16)
IsValid rest (crypto f) = (f.offset ≤ max_var_int8) × (length f.payload ≤ max_var_int8)
IsValid rest (new_token f) = length f.token ≤ max_var_int8
IsValid rest (max_data f) = f.byte_offset ≤ max_var_int8
IsValid rest (max_stream_data f) = (f.stream_id ≤ max_var_int8) × (f.byte_offset ≤ max_var_int8)
IsValid rest (max_streams f) = f.max_stream_num ≤ max_var_int8
IsValid rest (data_blocked f) = f.data_limit ≤ max_var_int8
IsValid rest (stream_data_blocked f) = (f.stream_id ≤ max_var_int8) × (f.data_limit ≤ max_var_int8)
IsValid rest (streams_blocked f) = f.stream_limit ≤ max_var_int8
IsValid rest (new_connection_id f) =
    (f.sequence_number ≤ max_var_int8)
    × (4 ≤ length f.connection_id)
    × (length f.connection_id ≤ 18)
    × (length f.stateless_reset_token ≡ 16)
IsValid rest (retire_connection_id f) = f.sequence_number ≤ max_var_int8
IsValid rest (path_challenge f) = length f.payload ≡ 8
IsValid rest (path_response f) = length f.payload ≡ 8
IsValid rest (connection_close f) =
    (f.error_code < 2 ^ 16) × (length f.reason_phrase ≤ max_var_int8)

-- What `ParseNext` does with a type byte that is not padding.
parse_next-frame :
    (e t : ℕ) (level : EncryptionLevel) (r rest : List ℕ) (f : Frame)
    → t ≢ 0
    → parse_by_type e t level (t ∷ r) ≡ ok (f, rest)
    → parse_next e level (t ∷ r) ≡ ok (some f, rest)
unfolding parse_next parse_frame
parse_next-frame e t level r rest f h p = ground arith

-- The frame is written behind `b`, its length is right, and `ParseNext` reads it back.
abbrev pub Parses : Frame → ℕ → EncryptionLevel → List ℕ → List ℕ → Type 0
Parses f e level b rest =
    (bytes : List ℕ) × (write_frame b f ≡ ok (b ++ bytes))
    × (length_frame f ≡ ok (length bytes))
    × (parse_next e level (bytes ++ rest) ≡ ok (some f, rest))

-- From the round trip of one kind of frames, and the case of the `switch` for its type byte.
Parses-of_RoundTrips :
    {F : Type 0} (c : F → Frame) (f : F) (e : ℕ) (level : EncryptionLevel) (b rest : List ℕ) (t : ℕ)
    (parse : List ℕ → Result (F × List ℕ))
    → t ≢ 0
    → RoundTrips f b rest t (write_frame b (c f)) (length_frame (c f)) parse
    → ((r : List ℕ) → parse_by_type e t level r ≡ as_frame c (parse r))
    → Parses (c f) e level b rest
Parses-of_RoundTrips c f e level b rest t parse h (body, w, l, p) sw = (
  t ∷ body,
  w,
  l ∙ ap ok (omega arith),
  parse_next-frame e t level (body ++ rest) rest (c f) h (sw (t ∷ (body ++ rest)) ∙ rw p),
)

abbrev close_byte : Bool → ℕ
close_byte app = if app then 0x1d else 0x1c

-- The cases of the `switch` that have more than one type byte.
module _ (e : ℕ) (level : EncryptionLevel) (r : List ℕ) where
  switch_stream :
      (fin present has_offset : Bool)
      → (stream_type_byte fin present has_offset ≢ 0)
        × (parse_by_type e (stream_type_byte fin present has_offset) level r
            ≡ as_frame stream (parse_stream_frame r))
  unfolding parse_by_type stream_type_byte
  switch_stream true true true = (omega arith, refl)
  switch_stream true true false = (omega arith, refl)
  switch_stream true false true = (omega arith, refl)
  switch_stream true false false = (omega arith, refl)
  switch_stream false true true = (omega arith, refl)
  switch_stream false true false = (omega arith, refl)
  switch_stream false false true = (omega arith, refl)
  switch_stream false false false = (omega arith, refl)

  switch_max_streams :
      (t : StreamType)
      → (max_streams_byte t ≢ 0)
        × (parse_by_type e (max_streams_byte t) level r
            ≡ as_frame max_streams (parse_max_streams_frame r))
  unfolding parse_by_type
  switch_max_streams uni = (omega arith, refl)
  switch_max_streams bidi = (omega arith, refl)

  switch_streams_blocked :
      (t : StreamType)
      → (streams_blocked_byte t ≢ 0)
        × (parse_by_type e (streams_blocked_byte t) level r
            ≡ as_frame streams_blocked (parse_streams_blocked_frame r))
  unfolding parse_by_type
  switch_streams_blocked uni = (omega arith, refl)
  switch_streams_blocked bidi = (omega arith, refl)

  switch_close :
      (app : Bool)
      → (close_byte app ≢ 0)
        × (parse_by_type e (close_byte app) level r
            ≡ as_frame connection_close (parse_connection_close_frame r))
  unfolding parse_by_type
  switch_close true = (omega arith, refl)
  switch_close false = (omega arith, refl)

  switch_ack :
      exponent_for e level ≡ 3 → parse_by_type e 0x2 level r ≡ as_frame ack (parse_ack_frame 3 r)
  unfolding parse_by_type
  switch_ack h = rw h

take_all {ℓ} : {A : Type ℓ} (xs : List A) → take (length xs) xs ≡ xs
take_all [] = refl
take_all (x ∷ xs) = rw (take_all xs)

-- An ACK frame that is written whole is read back whole.
ack_whole :
    (f : AckFrame) (b rest : List ℕ)
    → IsValid rest (ack f)
    → RoundTrips f b rest 0x2 (write_ack_frame b f) (length_ack_frame f) (parse_ack_frame 3)
ack_whole f b rest (v, small, hd, units, all) =
    let (k, body, num, pos, few, w, l, bound, p) = ack_frame_round_trip f b rest v small hd in
    let k_all : k ≡ length f.ack_ranges = cc in (body, w, l, p ∙ rw (k_all, take_all, units))

-- Any valid frame, of whichever kind, is written, its length is what `Length` says, and the parser
-- reads it back from the packet at the next `ParseNext`, as the kind that it is, and leaves what
-- follows it. The acknowledgement delays must be in units of the default exponent 3.
pub parse_next-write_frame :
    (f : Frame) (e : ℕ) (level : EncryptionLevel) (b rest : List ℕ)
    → IsValid rest f
    → exponent_for e level ≡ 3
    → Parses f e level b rest
unfolding write_frame length_frame parse_by_type
parse_next-write_frame (stream f) e level b rest (sid, small, h, k) x =
    Parses-of_RoundTrips stream f e level b rest (type_byte f) parse_stream_frame
      ((switch_stream e level [] f.fin_bit f.data_len_present (not (f.offset == 0))).0)
      (stream_frame_round_trip f b rest sid small h k)
      (λ r. (switch_stream e level r f.fin_bit f.data_len_present (not (f.offset == 0))).1)
parse_next-write_frame (ping f) e level b rest _ x =
    Parses-of_RoundTrips ping f e level b rest 0x1 parse_ping_frame (omega arith)
      (ping_frame_round_trip f b rest) (λ r. refl)
parse_next-write_frame (ack f) e level b rest v x =
    Parses-of_RoundTrips ack f e level b rest 0x2 (parse_ack_frame 3) (omega arith)
      (ack_whole f b rest v) (λ r. switch_ack e level r x)
parse_next-write_frame (reset_stream f) e level b rest (h, k, l) x =
    Parses-of_RoundTrips reset_stream f e level b rest 0x4 parse_reset_stream_frame (omega arith)
      (reset_stream_frame_round_trip f b rest h k l) (λ r. refl)
parse_next-write_frame (stop_sending f) e level b rest (h, k) x =
    Parses-of_RoundTrips stop_sending f e level b rest 0x5 parse_stop_sending_frame (omega arith)
      (stop_sending_frame_round_trip f b rest h k) (λ r. refl)
parse_next-write_frame (crypto f) e level b rest (h, k) x =
    Parses-of_RoundTrips crypto f e level b rest 0x6 parse_crypto_frame (omega arith)
      (crypto_frame_round_trip f b rest h k) (λ r. refl)
parse_next-write_frame (new_token f) e level b rest h x =
    Parses-of_RoundTrips new_token f e level b rest 0x7 parse_new_token_frame (omega arith)
      (new_token_frame_round_trip f b rest h) (λ r. refl)
parse_next-write_frame (max_data f) e level b rest h x =
    Parses-of_RoundTrips max_data f e level b rest 0x10 parse_max_data_frame (omega arith)
      (max_data_frame_round_trip f b rest h) (λ r. refl)
parse_next-write_frame (max_stream_data f) e level b rest (h, k) x =
    Parses-of_RoundTrips max_stream_data f e level b rest 0x11 parse_max_stream_data_frame
      (omega arith) (max_stream_data_frame_round_trip f b rest h k) (λ r. refl)
parse_next-write_frame (max_streams f) e level b rest h x =
    Parses-of_RoundTrips max_streams f e level b rest (max_streams_byte f.stream_type)
      parse_max_streams_frame ((switch_max_streams e level [] f.stream_type).0)
      (max_streams_frame_round_trip f b rest h)
      (λ r. (switch_max_streams e level r f.stream_type).1)
parse_next-write_frame (data_blocked f) e level b rest h x =
    Parses-of_RoundTrips data_blocked f e level b rest 0x14 parse_data_blocked_frame (omega arith)
      (data_blocked_frame_round_trip f b rest h) (λ r. refl)
parse_next-write_frame (stream_data_blocked f) e level b rest (h, k) x =
    Parses-of_RoundTrips stream_data_blocked f e level b rest 0x15 parse_stream_data_blocked_frame
      (omega arith) (stream_data_blocked_frame_round_trip f b rest h k) (λ r. refl)
parse_next-write_frame (streams_blocked f) e level b rest h x =
    Parses-of_RoundTrips streams_blocked f e level b rest (streams_blocked_byte f.stream_type)
      parse_streams_blocked_frame ((switch_streams_blocked e level [] f.stream_type).0)
      (streams_blocked_frame_round_trip f b rest h)
      (λ r. (switch_streams_blocked e level r f.stream_type).1)
parse_next-write_frame (new_connection_id f) e level b rest (h, lo, hi, t) x =
    Parses-of_RoundTrips new_connection_id f e level b rest 0x18 parse_new_connection_id_frame
      (omega arith) (new_connection_id_frame_round_trip f b rest h lo hi t) (λ r. refl)
parse_next-write_frame (retire_connection_id f) e level b rest h x =
    Parses-of_RoundTrips retire_connection_id f e level b rest 0x19 parse_retire_connection_id_frame
      (omega arith) (retire_connection_id_frame_round_trip f b rest h) (λ r. refl)
parse_next-write_frame (path_challenge f) e level b rest h x =
    Parses-of_RoundTrips path_challenge f e level b rest 0x1a parse_path_challenge_frame
      (omega arith) (path_challenge_frame_round_trip f b rest h) (λ r. refl)
parse_next-write_frame (path_response f) e level b rest h x =
    Parses-of_RoundTrips path_response f e level b rest 0x1b parse_path_response_frame (omega arith)
      (path_response_frame_round_trip f b rest h) (λ r. refl)
parse_next-write_frame (connection_close f) e level b rest (h, k) x =
    Parses-of_RoundTrips connection_close f e level b rest (close_byte f.is_application_error)
      parse_connection_close_frame ((switch_close e level [] f.is_application_error).0)
      (connection_close_frame_round_trip f b rest h k)
      (λ r. (switch_close e level r f.is_application_error).1)

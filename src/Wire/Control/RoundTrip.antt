-- ===== src/Wire/Control/RoundTrip.antt =====
use gt_bbr.Prelude.{
  append_assoc, ℕ, ◌≤◌, ◌<◌, ◌^◌, ◌≡◌, refl, List, [], ◌∷◌, ◌++◌, length, arith, Bool, true, false,
  ltb, ◌||◌, if◌then◌else◌,
}
use gt_bbr.Prelude.Reader.{ok, read_full_of_length}
use gt_bbr.Utils.ByteOrder.{uint16}
use gt_bbr.Utils.VarInt.{max_var_int8}
use gt_bbr.Utils.VarInt.RoundTrip.{length_var_int-zero, var_int}
use gt_bbr.Wire.Codec.{RoundTrips, writing, measuring, reading}
use gt_bbr.Wire.Control.{
  PingFrame, parse_ping_frame, write_ping_frame, length_ping_frame, NewTokenFrame,
  parse_new_token_frame, write_new_token_frame, length_new_token_frame, NewConnectionIdFrame,
  parse_new_connection_id_frame, write_new_connection_id_frame, length_new_connection_id_frame,
  RetireConnectionIdFrame, parse_retire_connection_id_frame, write_retire_connection_id_frame,
  length_retire_connection_id_frame, PathChallengeFrame, parse_path_challenge_frame,
  write_path_challenge_frame, length_path_challenge_frame, PathResponseFrame,
  parse_path_response_frame, write_path_response_frame, length_path_response_frame,
  ConnectionCloseFrame, parse_connection_close_frame, write_connection_close_frame,
  length_connection_close_frame, ping, read_connection_id,
}

pub ping_frame_round_trip :
    (f : PingFrame) (b rest : List ℕ)
    → RoundTrips f b rest 0x1 (write_ping_frame b f) (length_ping_frame f) parse_ping_frame
unfolding write_ping_frame length_ping_frame parse_ping_frame
ping_frame_round_trip ping b rest = ([], refl, refl, refl)

pub new_token_frame_round_trip :
    (f : NewTokenFrame) (b rest : List ℕ)
    → length f.token ≤ max_var_int8
    → RoundTrips f b rest 0x7
        (write_new_token_frame b f)
        (length_new_token_frame f)
        parse_new_token_frame
unfolding write_new_token_frame length_new_token_frame parse_new_token_frame
new_token_frame_round_trip f b rest h = (
  (var_int (length f.token) ++ f.token),
  simp (writing, h),
  simp (measuring, h) (ground arith),
  simp (reading, h),
)

read_connection_id-append :
    (xs ys : List ℕ) → read_connection_id (length xs) (xs ++ ys) ≡ ok (xs, ys)
unfolding read_connection_id
read_connection_id-append [] ys = refl
read_connection_id-append (x ∷ xs) ys =
    ground (arith, read_full_of_length (length (x ∷ xs)) (x ∷ xs) ys refl)

id_length_fits : (n : ℕ) → 4 ≤ n → n ≤ 18 → (ltb n 4 || ltb 18 n) ≡ false
id_length_fits n lo hi = ground arith

pub new_connection_id_frame_round_trip :
    (f : NewConnectionIdFrame) (b rest : List ℕ)
    → f.sequence_number ≤ max_var_int8
    → 4 ≤ length f.connection_id
    → length f.connection_id ≤ 18
    → length f.stateless_reset_token ≡ 16
    → RoundTrips f b rest 0x18
        (write_new_connection_id_frame b f)
        (length_new_connection_id_frame f)
        parse_new_connection_id_frame
unfolding write_new_connection_id_frame length_new_connection_id_frame parse_new_connection_id_frame
new_connection_id_frame_round_trip f b rest h lo hi t = (
  (var_int f.sequence_number
      ++ length f.connection_id ∷ (f.connection_id ++ f.stateless_reset_token)),
  simp (writing, h, id_length_fits, lo, hi),
  simp (measuring, h) (ground arith),
  simp (reading, h, id_length_fits, lo, hi, read_connection_id-append, read_full_of_length, t),
)

pub retire_connection_id_frame_round_trip :
    (f : RetireConnectionIdFrame) (b rest : List ℕ)
    → f.sequence_number ≤ max_var_int8
    → RoundTrips f b rest 0x19
        (write_retire_connection_id_frame b f)
        (length_retire_connection_id_frame f)
        parse_retire_connection_id_frame
unfolding write_retire_connection_id_frame length_retire_connection_id_frame
    parse_retire_connection_id_frame
retire_connection_id_frame_round_trip f b rest h_sequence_number = (
  var_int f.sequence_number,
  simp (writing, h_sequence_number),
  simp (measuring, h_sequence_number) (ground arith),
  simp (reading, h_sequence_number),
)

pub path_challenge_frame_round_trip :
    (f : PathChallengeFrame) (b rest : List ℕ)
    → length f.payload ≡ 8
    → RoundTrips f b rest 0x1a
        (write_path_challenge_frame b f)
        (length_path_challenge_frame f)
        parse_path_challenge_frame
unfolding write_path_challenge_frame length_path_challenge_frame parse_path_challenge_frame
path_challenge_frame_round_trip f b rest h =
    (f.payload, simp append_assoc, ground arith, rw (read_full_of_length 8 f.payload rest h))

pub path_response_frame_round_trip :
    (f : PathResponseFrame) (b rest : List ℕ)
    → length f.payload ≡ 8
    → RoundTrips f b rest 0x1b
        (write_path_response_frame b f)
        (length_path_response_frame f)
        parse_path_response_frame
unfolding write_path_response_frame length_path_response_frame parse_path_response_frame
path_response_frame_round_trip f b rest h =
    (f.payload, simp append_assoc, ground arith, rw (read_full_of_length 8 f.payload rest h))

-- The two kinds of CONNECTION_CLOSE are laid out differently.
close_round_trip :
    (app : Bool) (ec : ℕ) (reason b rest : List ℕ)
    → ec < 2 ^ 16
    → length reason ≤ max_var_int8
    → let f : ConnectionCloseFrame = record {
      is_application_error = app;
      error_code = ec;
      reason_phrase = reason;
    } in
      RoundTrips f b rest
        (if f.is_application_error then 0x1d else 0x1c)
        (write_connection_close_frame b f)
        (length_connection_close_frame f)
        parse_connection_close_frame
unfolding write_connection_close_frame length_connection_close_frame parse_connection_close_frame
close_round_trip true ec reason b rest h k = (
  (uint16 ec ++ (var_int (length reason) ++ reason)),
  simp (writing, k),
  simp (measuring, k) (ground arith),
  simp (reading, h, k),
)
close_round_trip false ec reason b rest h k = (
  (uint16 ec ++ (var_int 0 ++ (var_int (length reason) ++ reason))),
  simp (writing, k, z),
  simp (measuring, k) (ground (arith, length_var_int-zero)),
  simp (reading, h, k, z),
)
  where
    z : 0 ≤ max_var_int8
    z = omega arith

pub connection_close_frame_round_trip :
    (f : ConnectionCloseFrame) (b rest : List ℕ)
    → f.error_code < 2 ^ 16
    → length f.reason_phrase ≤ max_var_int8
    → RoundTrips f b rest
        (if f.is_application_error then 0x1d else 0x1c)
        (write_connection_close_frame b f)
        (length_connection_close_frame f)
        parse_connection_close_frame
connection_close_frame_round_trip f b rest h k =
    close_round_trip f.is_application_error f.error_code f.reason_phrase b rest h k

-- ===== src/Wire/Control.antt =====
-- The frames that manage the connection: internal/wire/ping_frame.go, new_token_frame.go,
-- new_connection_id_frame.go, retire_connection_id_frame.go, path_challenge_frame.go,
-- path_response_frame.go and connection_close_frame.go.
pub mod RoundTrip
use gt_bbr.Prelude.{
  ℕ, ◌+◌, ◌≤◌, ◌<◌, ◌^◌, ◌≡◌, refl, List, [], ◌∷◌, ◌++◌, length, arith, ◌==◌, if◌then◌else◌, Bool,
  true, false, ltb, ◌||◌,
}
use gt_bbr.Prelude.Reader.{
  Result, ok, err, eof, invalid_connection_id_length, ◌>>=◌, read_byte, read_full,
}
use gt_bbr.Utils.ByteOrder.{read_uint16, write_uint16, uint16}
use gt_bbr.Utils.VarInt.{max_var_int8, read_var_int, write_var_int, var_int_len}
use gt_bbr.Utils.VarInt.RoundTrip.{var_int}
use gt_bbr.Wire.Codec.{RoundTrips, writing, measuring, reading}
use gt_bbr.Protocol.Stream.{StreamType, uni, bidi}

pub data PingFrame : Type 0 where
  ping : PingFrame

unfoldable pub parse_ping_frame : List ℕ → Result (PingFrame × List ℕ)
parse_ping_frame src = do (_, r1) ← read_byte src; ok (ping, r1)

unfoldable pub write_ping_frame : List ℕ → PingFrame → Result (List ℕ)
write_ping_frame b f = ok (b ++ (0x1 ∷ []))

unfoldable pub length_ping_frame : PingFrame → Result ℕ
length_ping_frame f = ok 1

pub record NewTokenFrame : Type 0 where
  pub token : List ℕ

unfoldable pub parse_new_token_frame : List ℕ → Result (NewTokenFrame × List ℕ)
parse_new_token_frame src = do
  (_, r1) ← read_byte src
  (token_len, r2) ← read_var_int r1
  if ltb (length r2) token_len
      then err eof
      else do (token, r3) ← read_full token_len r2; ok (record { token = token }, r3)

unfoldable pub write_new_token_frame : List ℕ → NewTokenFrame → Result (List ℕ)
write_new_token_frame b f = do
  b1 ← write_var_int (b ++ (0x7 ∷ [])) (length f.token)
  ok (b1 ++ f.token)

unfoldable pub length_new_token_frame : NewTokenFrame → Result ℕ
length_new_token_frame f = do n ← var_int_len (length f.token); ok (1 + n + length f.token)

-- A connection ID and a stateless reset token (of 16 bytes) are byte strings.
pub record NewConnectionIdFrame : Type 0 where
  pub sequence_number : ℕ
  pub connection_id : List ℕ
  pub stateless_reset_token : List ℕ

-- `protocol.ReadConnectionID`
unfoldable pub read_connection_id : ℕ → List ℕ → Result (List ℕ × List ℕ)
read_connection_id n r = if n == 0 then ok ([], r) else read_full n r

unfoldable pub parse_new_connection_id_frame : List ℕ → Result (NewConnectionIdFrame × List ℕ)
parse_new_connection_id_frame src = do
  (_, r1) ← read_byte src
  (seq, r2) ← read_var_int r1
  (conn_id_len, r3) ← read_byte r2
  if ltb conn_id_len 4 || ltb 18 conn_id_len then err invalid_connection_id_length else do
    (conn_id, r4) ← read_connection_id conn_id_len r3
    (token, r5) ← read_full 16 r4
    ok (
      record { sequence_number = seq; connection_id = conn_id; stateless_reset_token = token },
      r5,
    )

unfoldable pub write_new_connection_id_frame : List ℕ → NewConnectionIdFrame → Result (List ℕ)
write_new_connection_id_frame b f = do
  b1 ← write_var_int (b ++ (0x18 ∷ [])) f.sequence_number
  let n = length f.connection_id
  if ltb n 4 || ltb 18 n
      then err invalid_connection_id_length
      else ok (b1 ++ (n ∷ []) ++ f.connection_id ++ f.stateless_reset_token)

unfoldable pub length_new_connection_id_frame : NewConnectionIdFrame → Result ℕ
length_new_connection_id_frame f = do
  n ← var_int_len f.sequence_number
  ok (1 + n + 1 + length f.connection_id + 16)

pub record RetireConnectionIdFrame : Type 0 where
  pub sequence_number : ℕ

unfoldable pub parse_retire_connection_id_frame : List ℕ → Result (RetireConnectionIdFrame × List ℕ)
parse_retire_connection_id_frame src = do
  (_, r1) ← read_byte src
  (seq, r2) ← read_var_int r1
  ok (record { sequence_number = seq }, r2)

unfoldable pub write_retire_connection_id_frame : List ℕ → RetireConnectionIdFrame → Result (List ℕ)
write_retire_connection_id_frame b f = write_var_int (b ++ (0x19 ∷ [])) f.sequence_number

unfoldable pub length_retire_connection_id_frame : RetireConnectionIdFrame → Result ℕ
length_retire_connection_id_frame f = do n ← var_int_len f.sequence_number; ok (1 + n)

-- The payload of the two path frames has 8 bytes.
pub record PathChallengeFrame : Type 0 where
  pub payload : List ℕ

unfoldable pub parse_path_challenge_frame : List ℕ → Result (PathChallengeFrame × List ℕ)
parse_path_challenge_frame src = do
  (_, r1) ← read_byte src
  (payload, r2) ← read_full 8 r1
  ok (record { payload = payload }, r2)

unfoldable pub write_path_challenge_frame : List ℕ → PathChallengeFrame → Result (List ℕ)
write_path_challenge_frame b f = ok (b ++ (0x1a ∷ []) ++ f.payload)

unfoldable pub length_path_challenge_frame : PathChallengeFrame → Result ℕ
length_path_challenge_frame f = ok (1 + 8)

pub record PathResponseFrame : Type 0 where
  pub payload : List ℕ

unfoldable pub parse_path_response_frame : List ℕ → Result (PathResponseFrame × List ℕ)
parse_path_response_frame src = do
  (_, r1) ← read_byte src
  (payload, r2) ← read_full 8 r1
  ok (record { payload = payload }, r2)

unfoldable pub write_path_response_frame : List ℕ → PathResponseFrame → Result (List ℕ)
write_path_response_frame b f = ok (b ++ (0x1b ∷ []) ++ f.payload)

unfoldable pub length_path_response_frame : PathResponseFrame → Result ℕ
length_path_response_frame f = ok (1 + 8)

pub record ConnectionCloseFrame : Type 0 where
  pub is_application_error : Bool
  pub error_code : ℕ
  pub reason_phrase : List ℕ

-- The frame type, which is read and dropped if this is not an application error.
abbrev pub skip_frame_type : Bool → List ℕ → Result (List ℕ)
skip_frame_type true r = ok r
skip_frame_type false r = do (_, r1) ← read_var_int r; ok r1

unfoldable pub parse_connection_close_frame : List ℕ → Result (ConnectionCloseFrame × List ℕ)
parse_connection_close_frame src = do
  (type_byte, r1) ← read_byte src
  let is_app = type_byte == 0x1d
  (ec, r2) ← read_uint16 r1
  r3 ← skip_frame_type is_app r2
  (reason_phrase_len, r4) ← read_var_int r3
  if ltb (length r4) reason_phrase_len then err eof else do
    (reason, r5) ← read_full reason_phrase_len r4
    ok (record { is_application_error = is_app; error_code = ec; reason_phrase = reason }, r5)

unfoldable pub length_connection_close_frame : ConnectionCloseFrame → Result ℕ
length_connection_close_frame f = do
  n ← var_int_len (length f.reason_phrase)
  let len = 1 + 2 + n + length f.reason_phrase
  ok (if f.is_application_error then len else len + 1)

abbrev pub write_frame_type : Bool → List ℕ → Result (List ℕ)
write_frame_type true b = ok b
write_frame_type false b = write_var_int b 0

unfoldable pub write_connection_close_frame : List ℕ → ConnectionCloseFrame → Result (List ℕ)
write_connection_close_frame b f = do
  let b1 = b ++ ((if f.is_application_error then 0x1d else 0x1c) ∷ [])
  let b2 = write_uint16 b1 f.error_code
  b3 ← write_frame_type f.is_application_error b2
  b4 ← write_var_int b3 (length f.reason_phrase)
  ok (b4 ++ f.reason_phrase)

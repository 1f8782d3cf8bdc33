-- ===== src/Wire/StreamEnd.antt =====
-- The frames that end streams: internal/wire/reset_stream_frame.go and stop_sending_frame.go.
pub mod RoundTrip
use gt_bbr.Prelude.{ℕ, ◌+◌, List, [], ◌∷◌, ◌++◌}
use gt_bbr.Prelude.Reader.{Result, ok, ◌>>=◌, read_byte}
use gt_bbr.Utils.ByteOrder.{read_uint16, write_uint16}
use gt_bbr.Utils.VarInt.{read_var_int, write_var_int, var_int_len}

pub record ResetStreamFrame : Type 0 where
  pub stream_id : ℕ
  pub error_code : ℕ
  pub byte_offset : ℕ

unfoldable pub parse_reset_stream_frame : List ℕ → Result (ResetStreamFrame × List ℕ)
parse_reset_stream_frame src = do
  (_, r1) ← read_byte src
  (sid, r2) ← read_var_int r1
  (error_code, r3) ← read_uint16 r2
  (bo, r4) ← read_var_int r3
  ok (record { stream_id = sid; error_code = error_code; byte_offset = bo }, r4)

unfoldable pub write_reset_stream_frame : List ℕ → ResetStreamFrame → Result (List ℕ)
write_reset_stream_frame b f = do
  b1 ← write_var_int (b ++ (0x4 ∷ [])) f.stream_id
  let b2 = write_uint16 b1 f.error_code
  write_var_int b2 f.byte_offset

unfoldable pub length_reset_stream_frame : ResetStreamFrame → Result ℕ
length_reset_stream_frame f = do
  n1 ← var_int_len f.stream_id
  n2 ← var_int_len f.byte_offset
  ok (1 + n1 + 2 + n2)

pub record StopSendingFrame : Type 0 where
  pub stream_id : ℕ
  pub error_code : ℕ

unfoldable pub parse_stop_sending_frame : List ℕ → Result (StopSendingFrame × List ℕ)
parse_stop_sending_frame src = do
  (_, r1) ← read_byte src
  (sid, r2) ← read_var_int r1
  (error_code, r3) ← read_uint16 r2
  ok (record { stream_id = sid; error_code = error_code }, r3)

unfoldable pub write_stop_sending_frame : List ℕ → StopSendingFrame → Result (List ℕ)
write_stop_sending_frame b f = do
  b1 ← write_var_int (b ++ (0x5 ∷ [])) f.stream_id
  ok (write_uint16 b1 f.error_code)

unfoldable pub length_stop_sending_frame : StopSendingFrame → Result ℕ
length_stop_sending_frame f = do n ← var_int_len f.stream_id; ok (1 + n + 2)

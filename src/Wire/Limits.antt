-- ===== src/Wire/Limits.antt =====
-- The frames that carry flow-control and stream limits: internal/wire/max_data_frame.go,
-- max_stream_data_frame.go, max_streams_frame.go, data_blocked_frame.go,
-- stream_data_blocked_frame.go and streams_blocked_frame.go.
pub mod RoundTrip
use gt_bbr.Prelude.{ℕ, ◌+◌, List, [], ◌∷◌, ◌++◌, ◌==◌, if◌then◌else◌}
use gt_bbr.Prelude.Reader.{Result, ok, ◌>>=◌, read_byte}
use gt_bbr.Utils.VarInt.{read_var_int, write_var_int, var_int_len}
use gt_bbr.Protocol.Stream.{StreamType, uni, bidi}

pub record MaxDataFrame : Type 0 where
  pub byte_offset : ℕ

unfoldable pub parse_max_data_frame : List ℕ → Result (MaxDataFrame × List ℕ)
parse_max_data_frame src = do
  (_, r1) ← read_byte src
  (byte_offset, r2) ← read_var_int r1
  ok (record { byte_offset = byte_offset }, r2)

unfoldable pub write_max_data_frame : List ℕ → MaxDataFrame → Result (List ℕ)
write_max_data_frame b f = write_var_int (b ++ (0x10 ∷ [])) f.byte_offset

unfoldable pub length_max_data_frame : MaxDataFrame → Result ℕ
length_max_data_frame f = do n ← var_int_len f.byte_offset; ok (1 + n)

pub record MaxStreamDataFrame : Type 0 where
  pub stream_id : ℕ
  pub byte_offset : ℕ

unfoldable pub parse_max_stream_data_frame : List ℕ → Result (MaxStreamDataFrame × List ℕ)
parse_max_stream_data_frame src = do
  (_, r1) ← read_byte src
  (sid, r2) ← read_var_int r1
  (offset, r3) ← read_var_int r2
  ok (record { stream_id = sid; byte_offset = offset }, r3)

unfoldable pub write_max_stream_data_frame : List ℕ → MaxStreamDataFrame → Result (List ℕ)
write_max_stream_data_frame b f = do
  b1 ← write_var_int (b ++ (0x11 ∷ [])) f.stream_id
  write_var_int b1 f.byte_offset

unfoldable pub length_max_stream_data_frame : MaxStreamDataFrame → Result ℕ
length_max_stream_data_frame f = do
  n1 ← var_int_len f.stream_id
  n2 ← var_int_len f.byte_offset
  ok (1 + n1 + n2)

pub record MaxStreamsFrame : Type 0 where
  pub stream_type : StreamType
  pub max_stream_num : ℕ

-- The field keeps its zero value, `uni`, on any other type byte.
abbrev pub max_streams_type : ℕ → StreamType
max_streams_type b = if b == 0x12 then bidi else uni

unfoldable pub parse_max_streams_frame : List ℕ → Result (MaxStreamsFrame × List ℕ)
parse_max_streams_frame src = do
  (type_byte, r1) ← read_byte src
  (num, r2) ← read_var_int r1
  ok (record { stream_type = max_streams_type type_byte; max_stream_num = num }, r2)

abbrev pub max_streams_byte : StreamType → ℕ
max_streams_byte bidi = 0x12
max_streams_byte uni = 0x13

unfoldable pub write_max_streams_frame : List ℕ → MaxStreamsFrame → Result (List ℕ)
write_max_streams_frame b f =
    write_var_int (b ++ (max_streams_byte f.stream_type ∷ [])) f.max_stream_num

unfoldable pub length_max_streams_frame : MaxStreamsFrame → Result ℕ
length_max_streams_frame f = do n ← var_int_len f.max_stream_num; ok (1 + n)

pub record DataBlockedFrame : Type 0 where
  pub data_limit : ℕ

unfoldable pub parse_data_blocked_frame : List ℕ → Result (DataBlockedFrame × List ℕ)
parse_data_blocked_frame src = do
  (_, r1) ← read_byte src
  (offset, r2) ← read_var_int r1
  ok (record { data_limit = offset }, r2)

unfoldable pub write_data_blocked_frame : List ℕ → DataBlockedFrame → Result (List ℕ)
write_data_blocked_frame b f = write_var_int (b ++ (0x14 ∷ [])) f.data_limit

unfoldable pub length_data_blocked_frame : DataBlockedFrame → Result ℕ
length_data_blocked_frame f = do n ← var_int_len f.data_limit; ok (1 + n)

pub record StreamDataBlockedFrame : Type 0 where
  pub stream_id : ℕ
  pub data_limit : ℕ

unfoldable pub parse_stream_data_blocked_frame : List ℕ → Result (StreamDataBlockedFrame × List ℕ)
parse_stream_data_blocked_frame src = do
  (_, r1) ← read_byte src
  (sid, r2) ← read_var_int r1
  (offset, r3) ← read_var_int r2
  ok (record { stream_id = sid; data_limit = offset }, r3)

unfoldable pub write_stream_data_blocked_frame : List ℕ → StreamDataBlockedFrame → Result (List ℕ)
write_stream_data_blocked_frame b f = do
  b1 ← write_var_int (b ++ (0x15 ∷ [])) f.stream_id
  write_var_int b1 f.data_limit

unfoldable pub length_stream_data_blocked_frame : StreamDataBlockedFrame → Result ℕ
length_stream_data_blocked_frame f = do
  n1 ← var_int_len f.stream_id
  n2 ← var_int_len f.data_limit
  ok (1 + n1 + n2)

pub record StreamsBlockedFrame : Type 0 where
  pub stream_type : StreamType
  pub stream_limit : ℕ

abbrev pub streams_blocked_type : ℕ → StreamType
streams_blocked_type b = if b == 0x16 then bidi else uni

unfoldable pub parse_streams_blocked_frame : List ℕ → Result (StreamsBlockedFrame × List ℕ)
parse_streams_blocked_frame src = do
  (type_byte, r1) ← read_byte src
  (limit, r2) ← read_var_int r1
  ok (record { stream_type = streams_blocked_type type_byte; stream_limit = limit }, r2)

abbrev pub streams_blocked_byte : StreamType → ℕ
streams_blocked_byte bidi = 0x16
streams_blocked_byte uni = 0x17

unfoldable pub write_streams_blocked_frame : List ℕ → StreamsBlockedFrame → Result (List ℕ)
write_streams_blocked_frame b f =
    write_var_int (b ++ (streams_blocked_byte f.stream_type ∷ [])) f.stream_limit

unfoldable pub length_streams_blocked_frame : StreamsBlockedFrame → Result ℕ
length_streams_blocked_frame f = do n ← var_int_len f.stream_limit; ok (1 + n)

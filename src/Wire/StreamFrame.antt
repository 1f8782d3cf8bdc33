-- ===== src/Wire/StreamFrame.antt =====
-- internal/wire/stream_frame.go: STREAM frames, how they are written, parsed and split.
pub mod RoundTrip
pub mod Split
use gt_bbr.Prelude.{
  ℕ, ◌+◌, ◌-◌, ◌^◌, List, [], ◌∷◌, ◌++◌, length, take, drop, ◌==◌, if◌then◌else◌, Bool, true, false,
  ltb, leb, not, ◌&&◌, bit_and, Option, none, some,
}
use Prim.Native.Nat.{bit_xor}
use gt_bbr.Prelude.Reader.{
  Result, ok, err, eof, empty_stream_frame, stream_data_overflows, too_small, panic, ◌>>=◌,
  read_byte, read_full,
}
use gt_bbr.Wire.CryptoFrame.{read_payload}
use gt_bbr.Utils.VarInt.{u64, read_var_int, write_var_int, var_int_len}

-- `protocol.MaxByteCount`
abbrev pub max_byte_count : ℕ
max_byte_count = 2 ^ 62 - 1

pub record StreamFrame : Type 0 where
  pub stream_id : ℕ
  pub fin_bit : Bool
  pub data_len_present : Bool
  pub offset : ℕ
  pub payload : List ℕ

-- The offset, which is 0 if it is not there.
pub read_offset : Bool → List ℕ → Result (ℕ × List ℕ)
read_offset true r = read_var_int r
read_offset false r = ok (0, r)

-- The length of the data: as written, or all that is left of the packet.
pub read_data_len : Bool → List ℕ → Result (ℕ × List ℕ)
read_data_len true r = do
  (data_len, r1) ← read_var_int r
  if ltb (length r1) data_len then err eof else ok (data_len, r1)
read_data_len false r = ok (length r, r)

unfoldable pub parse_stream_frame : List ℕ → Result (StreamFrame × List ℕ)
parse_stream_frame src = do
  (type_byte, r1) ← read_byte src
  let has_offset = ltb 0 (bit_and type_byte 0x4)
  let fin = ltb 0 (bit_and type_byte 0x1)
  let present = ltb 0 (bit_and type_byte 0x2)
  (sid, r2) ← read_var_int r1
  (offset, r3) ← read_offset has_offset r2
  (data_len, r4) ← read_data_len present r3
  (payload, r5) ← read_payload data_len r4
  if ltb max_byte_count (u64 (offset + length payload))
      then err stream_data_overflows
      else ok (
        record {
          stream_id = sid;
          fin_bit = fin;
          data_len_present = present;
          offset = offset;
          payload = payload;
        },
        r5,
      )

-- `if c { b ^= bit }`
pub xor_if : Bool → ℕ → ℕ → ℕ
xor_if c bit b = if c then bit_xor b bit else b

unfoldable pub stream_type_byte : Bool → Bool → Bool → ℕ
unfolding xor_if
stream_type_byte fin present has_offset =
    xor_if has_offset 0x4 (xor_if present 0x2 (xor_if fin 0x1 0x8))

pub write_if : Bool → List ℕ → ℕ → Result (List ℕ)
write_if c b i = if c then write_var_int b i else ok b

unfoldable pub write_stream_frame : List ℕ → StreamFrame → Result (List ℕ)
write_stream_frame b f =
    if length f.payload == 0 && not f.fin_bit then err empty_stream_frame else do
      let has_offset = not (f.offset == 0)
      let b1 = b ++ (stream_type_byte f.fin_bit f.data_len_present has_offset ∷ [])
      b2 ← write_var_int b1 f.stream_id
      b3 ← write_if has_offset b2 f.offset
      b4 ← write_if f.data_len_present b3 (length f.payload)
      ok (b4 ++ f.payload)

-- `VarIntLen(i)` where it counts, or 0.
unfoldable pub var_int_len_if : Bool → ℕ → Result ℕ
var_int_len_if c i = if c then var_int_len i else ok 0

unfoldable pub length_stream_frame : StreamFrame → Result ℕ
length_stream_frame f = do
  n1 ← var_int_len f.stream_id
  n2 ← var_int_len_if (not (f.offset == 0)) f.offset
  n3 ← var_int_len_if f.data_len_present (length f.payload)
  ok (1 + n1 + n2 + n3 + length f.payload)

unfoldable pub max_data_len_stream_frame : StreamFrame → ℕ → Result ℕ
max_data_len_stream_frame f max_size = do
  n1 ← var_int_len f.stream_id
  n2 ← var_int_len_if (not (f.offset == 0)) f.offset
  let header_len = 1 + n1 + n2 + (if f.data_len_present then 1 else 0)
  if ltb max_size header_len then ok 0 else do
    let max_data_len = max_size - header_len
    n3 ← var_int_len_if f.data_len_present max_data_len
    ok (if f.data_len_present && not (n3 == 1) then max_data_len - 1 else max_data_len)

-- The frame that is split off, if any, and what the receiver becomes. A slice past the end of the
-- data is taken for a panic, as it is when the slice has no spare capacity.
unfoldable pub maybe_split_off_frame : StreamFrame → ℕ → Result (Option StreamFrame × StreamFrame)
maybe_split_off_frame f max_size = do
  len ← length_stream_frame f
  if leb len max_size then ok (none, f) else do
    n ← max_data_len_stream_frame f max_size
    if n == 0
        then err too_small
        else if ltb (length f.payload) n
        then err panic
        else ok (
          some (record {
            stream_id = f.stream_id;
            fin_bit = false;
            data_len_present = f.data_len_present;
            offset = f.offset;
            payload = take n f.payload;
          }),
          record f { payload = drop n f.payload; offset = u64 (f.offset + n) },
        )

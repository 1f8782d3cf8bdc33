-- ===== src/Wire/CryptoFrame.antt =====
-- internal/wire/crypto_frame.go: CRYPTO frames.
pub mod RoundTrip
use gt_bbr.Prelude.{ℕ, ◌+◌, ◌-◌, List, [], ◌∷◌, ◌++◌, length, ◌==◌, if◌then◌else◌, ltb, not}
use gt_bbr.Prelude.Reader.{Result, ok, err, eof, ◌>>=◌, read_byte, read_full}
use gt_bbr.Utils.VarInt.{read_var_int, write_var_int, var_int_len}

pub record CryptoFrame : Type 0 where
  pub offset : ℕ
  pub payload : List ℕ

-- `if dataLen != 0 { frame.Data = make([]byte, dataLen); io.ReadFull(r, frame.Data) }`
pub read_payload : ℕ → List ℕ → Result (List ℕ × List ℕ)
read_payload data_len r = if data_len == 0 then ok ([], r) else read_full data_len r

unfoldable pub parse_crypto_frame : List ℕ → Result (CryptoFrame × List ℕ)
parse_crypto_frame src = do
  (_, r1) ← read_byte src
  (offset, r2) ← read_var_int r1
  (data_len, r3) ← read_var_int r2
  if ltb (length r3) data_len then err eof else do
    (payload, r4) ← read_payload data_len r3
    ok (record { offset = offset; payload = payload }, r4)

unfoldable pub write_crypto_frame : List ℕ → CryptoFrame → Result (List ℕ)
write_crypto_frame b f = do
  b1 ← write_var_int (b ++ (0x6 ∷ [])) f.offset
  b2 ← write_var_int b1 (length f.payload)
  ok (b2 ++ f.payload)

unfoldable pub length_crypto_frame : CryptoFrame → Result ℕ
length_crypto_frame f = do
  n1 ← var_int_len f.offset
  n2 ← var_int_len (length f.payload)
  ok (1 + n1 + n2 + length f.payload)

unfoldable pub max_data_len_crypto_frame : CryptoFrame → ℕ → Result ℕ
max_data_len_crypto_frame f max_size = do
  n1 ← var_int_len f.offset
  let header_len = 1 + n1 + 1
  if ltb max_size header_len then ok 0 else do
    let max_data_len = max_size - header_len
    n2 ← var_int_len max_data_len
    ok (if not (n2 == 1) then max_data_len - 1 else max_data_len)

-- ===== src/Wire/CryptoFrame/RoundTrip.antt =====
-- internal/wire/crypto_frame.go: a CRYPTO frame is parsed back, and MaxDataLen keeps its promise.
use gt_bbr.Prelude.{ℕ, ◌≤◌, ◌≡◌, refl, List, [], ◌∷◌, ◌++◌, length, arith, ◌<◌}
use gt_bbr.Prelude.Reader.{ok, read_full-append}
use gt_bbr.Utils.VarInt.{max_var_int8, var_int_len}
use gt_bbr.Utils.VarInt.RoundTrip.{var_int}
use gt_bbr.Wire.Codec.{RoundTrips, writing, measuring, reading}
use gt_bbr.Wire.CryptoFrame.{
  read_payload, CryptoFrame, parse_crypto_frame, write_crypto_frame, length_crypto_frame,
  max_data_len_crypto_frame,
}

-- The data, which is left nil if its length is 0.
pub read_payload-append : (xs ys : List ℕ) → read_payload (length xs) (xs ++ ys) ≡ ok (xs, ys)
unfolding read_payload
read_payload-append [] ys = refl
read_payload-append (x ∷ xs) ys = ground (arith, read_full-append (x ∷ xs) ys)

pub crypto_frame_round_trip :
    (f : CryptoFrame) (b rest : List ℕ)
    → f.offset ≤ max_var_int8
    → length f.payload ≤ max_var_int8
    → RoundTrips f b rest 0x6 (write_crypto_frame b f) (length_crypto_frame f) parse_crypto_frame
unfolding write_crypto_frame length_crypto_frame parse_crypto_frame
crypto_frame_round_trip f b rest h k = (
  (var_int f.offset ++ (var_int (length f.payload) ++ f.payload)),
  simp (writing, h, k),
  simp (measuring, h, k) (ground arith),
  simp (reading, h, k, read_payload-append),
)

-- On sizes below 16 KB and an offset of 62 bits: a frame whose data have the length that `MaxDataLen`
-- returned, if that is not 0, is not longer than the size.
pub max_data_len_crypto_fits :
    (f : CryptoFrame) (max_size n len : ℕ)
    → f.offset ≤ max_var_int8
    → max_size ≤ 16383
    → max_data_len_crypto_frame f max_size ≡ ok n
    → length f.payload ≡ n
    → 0 < n
    → length_crypto_frame f ≡ ok len
    → len ≤ max_size
unfolding max_data_len_crypto_frame length_crypto_frame var_int_len
max_data_len_crypto_fits f max_size n len h hm e el hn e' = ground arith

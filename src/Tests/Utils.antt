-- ===== src/Tests/Utils.antt =====
-- internal/utils: variable-length integers at concrete values.
use gt_bbr.Prelude.{ℕ, ◌+◌, ◌^◌, ◌≤◌, ◌<◌, ◌≡◌, refl, ◌↔◌, List, [], ◌∷◌, ◌++◌, arith, length}
use gt_bbr.Prelude.Reader.{ok, err, panic}
use gt_bbr.Utils.VarInt.{max_var_int8, read_var_int, write_var_int, var_int_len}
use gt_bbr.Utils.VarInt.RoundTrip.{var_int_round_trip, var_int_panics}
use gt_bbr.Utils.VarInt.Bounds.{read_var_int_bounds}

-- The example of the RFC: 494878333 takes 4 bytes.
write_rfc_example : write_var_int [] 494878333 ≡ ok (0x9d ∷ 0x7f ∷ 0x3e ∷ 0x7d ∷ [])
unfolding write_var_int
write_rfc_example = refl

var_int_round_trip_example :
    (bytes : List ℕ) × (write_var_int (1 ∷ []) 494878333 ≡ ok ((1 ∷ []) ++ bytes))
    × (var_int_len 494878333 ≡ ok (length bytes))
    × (read_var_int (bytes ++ (7 ∷ [])) ≡ ok (494878333, 7 ∷ []))
var_int_round_trip_example = var_int_round_trip (1 ∷ []) 494878333 (7 ∷ []) (omega arith)

var_int_panics_example :
    ((write_var_int [] (2 ^ 62) ≡ err panic) ↔ (max_var_int8 < 2 ^ 62))
    × ((var_int_len (2 ^ 62) ≡ err panic) ↔ (max_var_int8 < 2 ^ 62))
var_int_panics_example = var_int_panics [] (2 ^ 62)

read_var_int_bounds_example : (494878333 ≤ max_var_int8) × (1 < 5) × (5 ≤ 1 + 8)
read_var_int_bounds_example =
    read_var_int_bounds (0x9d ∷ 0x7f ∷ 0x3e ∷ 0x7d ∷ 7 ∷ []) 494878333 (7 ∷ [])
      (omega arith, (omega arith, (omega arith, (omega arith, (omega arith, tt)))))
      (unfold read_var_int in refl)

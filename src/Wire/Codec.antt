-- ===== src/Wire/Codec.antt =====
-- What it means that a frame is written, measured and parsed back, and the rules that prove it.
use gt_bbr.Prelude.{ℕ, ◌≡◌, ◌+◌, List, ◌∷◌, ◌++◌, length, append_assoc, length-append}
use gt_bbr.Prelude.Reader.{Result, ok, read_full-append, fits_append}
use gt_bbr.Utils.ByteOrder.{write_uint16-uint16, read_uint16-uint16}
use gt_bbr.Utils.VarInt.RoundTrip.{
  write_var_int-var_int, read_var_int-var_int, var_int_len-length, length-var_int,
}

-- `write` appends the type byte `t` and some more bytes to the buffer `b`, `len` is their number, and
-- `parse` reads `f` back from them, leaving the bytes `rest` that follow.
abbrev pub RoundTrips {ℓ} :
    {F : Type ℓ}
    → F
    → List ℕ
    → List ℕ
    → ℕ
    → Result (List ℕ)
    → Result ℕ
    → (List ℕ → Result (F × List ℕ))
    → Type ℓ
RoundTrips f b rest t write len parse =
    (body : List ℕ) × (write ≡ ok (b ++ (t ∷ body)))
    × (len ≡ ok (1 + length body))
    × (parse (t ∷ (body ++ rest)) ≡ ok (f, rest))

-- How the parts of a frame are written, measured and read, for `simp`.
pub ruleset writing = (write_var_int-var_int, write_uint16-uint16, append_assoc)

pub ruleset measuring = (var_int_len-length, length-append, length-var_int)

pub ruleset reading =
    (read_var_int-var_int, read_uint16-uint16, read_full-append, fits_append, append_assoc)

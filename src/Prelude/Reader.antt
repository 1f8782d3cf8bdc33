-- ===== src/Prelude/Reader.antt =====
-- Go's `(value, error)` results, and the reads of `bytes.Reader`: a reader is the bytes left in it.
use Prim.Native.Nat.{ℕ}
use mathlib.Core.Path.{◌≡◌, refl}
use mathlib.Core.Logic.{◌⊎◌, inl, inr}
use mathlib.Core.List.{List, [], ◌∷◌, ◌++◌}
use mathlib.Core.Bool.{Bool, true, false}
use native.Mathlib.Omega.{arith}
use gt_bbr.Prelude.Tests.{if◌then◌else◌, ltb}
use gt_bbr.Prelude.Lists.{length, take, drop, take_append, drop_append, length-append}

-- `io.EOF`, the errors that the parsers, the ackhandler and the frame sorter make, `qerr.FrameEncodingError` around any of them, a panic
-- of the Go program, and `out_of_fuel`, which is no Go value.
pub data Error : Type 0 where
  eof : Error
  invalid_first_ack_range : Error
  invalid_ack_ranges : Error
  invalid_connection_id_length : Error
  stream_data_overflows : Error
  empty_stream_frame : Error
  too_small : Error
  unknown_type_byte : ℕ → Error
  frame_encoding : Error → Error
  packet_not_found : Error
  packet_already_queued : Error
  no_outstanding_packets : Error
  acked_wrong_packet : Error
  acked_unsent_packet : Error
  acked_skipped_packet : Error
  panic : Error
  out_of_fuel : Error

pub data Result {ℓ} (V : Type ℓ) : Type ℓ where
  err : Error → Result V
  ok : V → Result V

-- The Go idiom `if err != nil { return nil, err }` after a call.
infixl 5 ◌>>=◌
abbrev pub ◌>>=◌ {ℓ κ} : {V : Type ℓ} {W : Type κ} → Result V → (V → Result W) → Result W
err e >>= go_on = err e
ok v >>= go_on = go_on v

-- `r.ReadByte()`.
abbrev pub read_byte : List ℕ → Result (ℕ × List ℕ)
read_byte [] = err eof
read_byte (b ∷ r) = ok (b, r)

-- `io.ReadFull(r, make([]byte, n))`; a short read is reported as `eof`.
pub read_full : ℕ → List ℕ → Result (List ℕ × List ℕ)
read_full n r = if ltb (length r) n then err eof else ok (take n r, drop n r)

pub read_full-append : (xs ys : List ℕ) → read_full (length xs) (xs ++ ys) ≡ ok (xs, ys)
unfolding read_full
read_full-append xs ys = ground (arith, length-append xs ys, take_append xs ys, drop_append xs ys)

pub read_full_of_length :
    (n : ℕ) (xs ys : List ℕ) → length xs ≡ n → read_full n (xs ++ ys) ≡ ok (xs, ys)
read_full_of_length n xs ys e = rw (← e) (read_full-append xs ys)

-- The check that a length field does not pass the end of the packet.
pub fits_append : (xs ys : List ℕ) → ltb (length (xs ++ ys)) (length xs) ≡ false
fits_append xs ys = ground (arith, length-append xs ys)

pub Result-cases {ℓ} :
    {A : Type ℓ} (r : Result A) → ((a : A) × (r ≡ ok a)) ⊎ ((e : Error) × (r ≡ err e))
Result-cases (ok a) = inl (a, refl)
Result-cases (err e) = inr (e, refl)

-- What a chain of two calls that succeeds says of each.
pub bind-ok {ℓ κ} :
    {V : Type ℓ} {W : Type κ} (r : Result V) (f : V → Result W) (w : W)
    → (r >>= f) ≡ ok w
    → (v : V) × (r ≡ ok v) × (f v ≡ ok w)
bind-ok (err e) f w h = absurd (ground (arith, h))
bind-ok (ok v) f w h = (v, refl, h)

pub if-ok {ℓ} :
    {V : Type ℓ} (b : Bool) (r s : Result V) (v : V)
    → (if b then r else s) ≡ ok v
    → (r ≡ ok v) ⊎ (s ≡ ok v)
if-ok true r s v h = inl h
if-ok false r s v h = inr h

pub bind-err {ℓ κ} :
    {V : Type ℓ} {W : Type κ} (r : Result V) (f : V → Result W) (e : Error)
    → (r >>= f) ≡ err e
    → (r ≡ err e) ⊎ ((v : V) × (r ≡ ok v) × (f v ≡ err e))
bind-err (err x) f e h = inl (ground (arith, h))
bind-err (ok v) f e h = inr (v, refl, h)

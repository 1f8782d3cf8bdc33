-- ===== src/Wire/StreamFrame/Split.antt =====
-- internal/wire/stream_frame.go: `MaxDataLen` and `MaybeSplitOffFrame`.
use gt_bbr.Prelude.{
  ℕ, ◌≤◌, ◌<◌, ◌≡◌, length, arith, ◌++◌, ◌+◌, false, take, drop, take-append-drop, length-take,
  some, inl, inr, none, ◌≢◌,
}
use gt_bbr.Prelude.Reader.{ok, Result-cases, err, panic, Error}
use gt_bbr.Utils.VarInt.{var_int_len, u64}
use gt_bbr.Wire.StreamFrame.{
  StreamFrame, var_int_len_if, length_stream_frame, max_data_len_stream_frame, max_byte_count,
  maybe_split_off_frame,
}

-- The length of the header without the length field.
module _ (f : StreamFrame) (max_size n : ℕ) where
  max_data_len_bound :
      (len : ℕ)
      → max_size ≤ 16383
      → max_data_len_stream_frame f max_size ≡ ok n
      → length_stream_frame f ≡ ok len
      → max_size < len
      → n ≤ length f.payload
  unfolding max_data_len_stream_frame length_stream_frame var_int_len_if var_int_len
  max_data_len_bound len hm e e' h = ground arith

  max_data_len-ne-err :
      (len : ℕ) (x : Error)
      → max_size ≤ 16383
      → length_stream_frame f ≡ ok len
      → max_data_len_stream_frame f max_size ≢ err x
  unfolding max_data_len_stream_frame length_stream_frame var_int_len_if var_int_len
  max_data_len-ne-err len x hm e e' = ground arith

  -- A frame with the same header and the data that `MaxDataLen` allows is not too long.
  max_data_len_fits :
      (g : StreamFrame) (len : ℕ)
      → max_size ≤ 16383
      → max_data_len_stream_frame f max_size ≡ ok n
      → g.stream_id ≡ f.stream_id
      → g.offset ≡ f.offset
      → g.data_len_present ≡ f.data_len_present
      → length g.payload ≡ n
      → 0 < n
      → length_stream_frame g ≡ ok len
      → len ≤ max_size
  unfolding max_data_len_stream_frame length_stream_frame var_int_len_if var_int_len
  max_data_len_fits g len hm e e1 e2 e3 e4 h e' = ground arith

-- Everything that holds of a split: the data are cut in two parts that are not lost or doubled, the
-- offsets follow on one another, the FIN bit stays with the second part.
pub record IsSplit (f g f' : StreamFrame) : Type 0 where
  pub same_stream : (g.stream_id ≡ f.stream_id) × (f'.stream_id ≡ f.stream_id)
  pub same_data : g.payload ++ f'.payload ≡ f.payload
  pub first_not_empty : 0 < length g.payload
  pub starts : g.offset ≡ f.offset
  pub follows : f'.offset ≡ g.offset + length g.payload
  pub fin_kept : (g.fin_bit ≡ false) × (f'.fin_bit ≡ f.fin_bit)
  pub layout_kept :
      (g.data_len_present ≡ f.data_len_present) × (f'.data_len_present ≡ f.data_len_present)

IsSplit-at :
    (f g f' : StreamFrame) (n : ℕ)
    → 0 < n
    → n ≤ length f.payload
    → f.offset + length f.payload ≤ max_byte_count
    → g ≡ record {
      stream_id = f.stream_id;
      fin_bit = false;
      data_len_present = f.data_len_present;
      offset = f.offset;
      payload = take n f.payload;
    }
    → f' ≡ record f { payload = drop n f.payload; offset = u64 (f.offset + n) }
    → IsSplit f g f' × (length g.payload ≡ n)
IsSplit-at f g f' n h k small e e' =
    ground (arith, take-append-drop n f.payload, length-take n f.payload)

-- On sizes below 16 KB and a frame whose data end below the maximum offset: a frame that is split off
-- is not longer than `max_size`, and the two frames together are the frame that was split, in order,
-- with nothing lost.
pub maybe_split_off_frame_lem :
    (f g f' : StreamFrame) (max_size len : ℕ)
    → max_size ≤ 16383
    → f.offset + length f.payload ≤ max_byte_count
    → maybe_split_off_frame f max_size ≡ ok (some g, f')
    → length_stream_frame g ≡ ok len
    → IsSplit f g f' × (len ≤ max_size)
unfolding maybe_split_off_frame
maybe_split_off_frame_lem f g f' max_size len hm small e e' =
    elim (Result-cases (length_stream_frame f)) [
      | inl (l, el) ↦ elim (Result-cases (max_data_len_stream_frame f max_size)) [
        | inl (n, en) ↦ ground (arith, IsSplit-at f g f' n, max_data_len_fits f max_size n g len)
        | inr (x, en) ↦ ground arith
      ]
      | inr (x, el) ↦ ground arith
    ]

-- A frame whose `Length` is at most `max_size` is left alone, and nothing is split off.
maybe_split_off_frame_fits :
    (f : StreamFrame) (max_size len : ℕ)
    → length_stream_frame f ≡ ok len
    → len ≤ max_size
    → maybe_split_off_frame f max_size ≡ ok (none, f)
unfolding maybe_split_off_frame
maybe_split_off_frame_fits f max_size len e h = ground arith

-- On sizes below 16 KB, splitting a frame that can be measured does not reach past its data.
pub maybe_split_off_frame-ne-panic :
    (f : StreamFrame) (max_size len : ℕ)
    → max_size ≤ 16383
    → length_stream_frame f ≡ ok len
    → maybe_split_off_frame f max_size ≢ err panic
unfolding maybe_split_off_frame
maybe_split_off_frame-ne-panic f max_size len hm e =
    elim (Result-cases (max_data_len_stream_frame f max_size)) [
      | inl (n, en) ↦ ground (arith, max_data_len_bound f max_size n len)
      | inr (x, en) ↦ absurd (max_data_len-ne-err f max_size 0 len x hm e en)
    ]

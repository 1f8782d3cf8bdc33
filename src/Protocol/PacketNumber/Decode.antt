-- ===== src/Protocol/PacketNumber/Decode.antt =====
-- internal/protocol/packet_number.go: the receiver completes the number that the sender truncated.
use gt_bbr.Prelude.{ℕ, zero, suc, ◌+◌, ◌-◌, ◌/◌, ◌%◌, ◌^◌, ◌≤◌, ◌<◌, ◌≡◌, ◌⊎◌, inl, inr, arith}
use gt_bbr.Protocol.PacketNumber.{
  epoch_delta, epoch_begin, delta, closest_to, decode_packet_number,
  get_packet_number_length_for_header,
}

-- The number lies closer than half a window of `d` to the number that is expected next.
abbrev pub Near : ℕ → ℕ → ℕ → Type 0
Near d last packet_number = (packet_number < last + 1 + d / 2) × (last + 1 < packet_number + d / 2)

decode_1 : (last p : ℕ) → Near (2 ^ 8) last p → decode_packet_number 1 last (p % 2 ^ 8) ≡ p
unfolding decode_packet_number epoch_delta epoch_begin closest_to delta
decode_1 last p h = ground arith

decode_2 : (last p : ℕ) → Near (2 ^ 16) last p → decode_packet_number 2 last (p % 2 ^ 16) ≡ p
unfolding decode_packet_number epoch_delta epoch_begin closest_to delta
decode_2 last p h = ground arith

decode_3 : (last p : ℕ) → Near (2 ^ 24) last p → decode_packet_number 3 last (p % 2 ^ 24) ≡ p
unfolding decode_packet_number epoch_delta epoch_begin closest_to delta
decode_3 last p h = ground arith

decode_4 : (last p : ℕ) → Near (2 ^ 32) last p → decode_packet_number 4 last (p % 2 ^ 32) ≡ p
unfolding decode_packet_number epoch_delta epoch_begin closest_to delta
decode_4 last p h = ground arith

-- For each of the four lengths, a packet number that lies closer than half a window of that length
-- to the number that follows the last one is decoded, from its lowest bytes, as itself.
pub decode_packet_number-Near :
    (packet_number_length last p : ℕ)
    → 1 ≤ packet_number_length
    → packet_number_length ≤ 4
    → Near (epoch_delta packet_number_length) last p
    → decode_packet_number packet_number_length last (p % epoch_delta packet_number_length) ≡ p
unfolding epoch_delta
decode_packet_number-Near zero last p lo hi h = absurd (omega arith)
decode_packet_number-Near (suc zero) last p lo hi h = decode_1 last p h
decode_packet_number-Near (suc (suc zero)) last p lo hi h = decode_2 last p h
decode_packet_number-Near (suc (suc (suc zero))) last p lo hi h = decode_3 last p h
decode_packet_number-Near (suc (suc (suc (suc zero)))) last p lo hi h = decode_4 last p h
decode_packet_number-Near (suc (suc (suc (suc (suc n))))) last p lo hi h = absurd (omega arith)

length-cases :
    (p least : ℕ)
    → let n = get_packet_number_length_for_header p least in
      ((n ≡ 2) × (p - least < 2 ^ 15)) ⊎ ((n ≡ 3) × (p - least < 2 ^ 23)) ⊎ (n ≡ 4)
unfolding get_packet_number_length_for_header
length-cases p least = ground arith

-- The length that the sender of packet `p` chooses is enough: if fewer than 2 ^ 31 numbers are
-- outstanding, a receiver that has received all numbers below the least unacknowledged one, and
-- none that is 2 ^ 15 - 1 or more above `p`, decodes the truncated number as `p`.
pub get_packet_number_length_for_header_enough :
    (p least_unacked last : ℕ)
    → least_unacked ≤ p
    → p < least_unacked + 2 ^ 31
    → least_unacked ≤ last + 1
    → last + 1 < p + 2 ^ 15
    → let n = get_packet_number_length_for_header p least_unacked in
      decode_packet_number n last (p % epoch_delta n) ≡ p
unfolding epoch_delta
get_packet_number_length_for_header_enough p least last a b c d = elim (length-cases p least) [
  | inl (e, h) ↦ rw e (decode_2 last p (omega arith))
  | inr (inl (e, h)) ↦ rw e (decode_3 last p (omega arith))
  | inr (inr e) ↦ rw e (decode_4 last p (omega arith))
]

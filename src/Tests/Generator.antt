-- ===== src/Tests/Generator.antt =====
-- internal/ackhandler/packet_number_generator.go: a generator that skips a number at its second packet.
use gt_bbr.Prelude.{ℕ, ◌≡◌, refl, inl, true, false, [], ◌∷◌, arith}
use gt_bbr.Wire.AckFrame.{AckFrame}
use gt_bbr.Wire.AckFrame.Acks.{acks_packet, lowest_acked, largest_acked}
use gt_bbr.Ackhandler.Generator.{
  PacketNumberGenerator, new_packet_number_generator, generate_new_skip, pop, remember, validate,
}
use gt_bbr.Ackhandler.Generator.Skips.{Reach, start, next, Keeps, Sent, Reach-Keeps, validate_lem}

abbrev after_two : PacketNumberGenerator
after_two = record { average_period = 500; next = 3; next_to_skip = 5; history = 2 ∷ [] }

Reach-two : Reach 0 500 after_two (1 ∷ 0 ∷ [])
unfolding pop new_packet_number_generator generate_new_skip remember
Reach-two = next 0 _ (0 ∷ []) (next 0 _ [] (start 0))

Reach-Keeps_example : Keeps 0 after_two (1 ∷ 0 ∷ [])
Reach-Keeps_example = Reach-Keeps 0 500 after_two (1 ∷ 0 ∷ []) Reach-two

abbrev ack_of : ℕ → AckFrame
ack_of p = record { ack_ranges = record { smallest = p; largest = p } ∷ []; delay_time = 0 }

honest-Sent : (p : ℕ) → acks_packet (ack_of 1) p ≡ true → Sent p (1 ∷ 0 ∷ [])
unfolding acks_packet lowest_acked largest_acked
honest-Sent p h = inl (ground arith)

acks_2 : acks_packet (ack_of 2) 2 ≡ true
unfolding acks_packet lowest_acked largest_acked
acks_2 = refl

validate_lem_example :
    (validate (ack_of 1) after_two ≡ true) × (validate (ack_of 2) after_two ≡ false)
validate_lem_example =
    validate_lem 0 500 2 after_two (1 ∷ 0 ∷ []) (ack_of 1) (ack_of 2) Reach-two honest-Sent
      (inl refl) acks_2

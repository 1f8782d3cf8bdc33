-- ===== src/Ackhandler/Generator.antt =====
-- internal/ackhandler/packet_number_generator.go: the packet numbers of the packets that are sent; now
-- and then one is skipped. The 16 random bits of `getRandomNumber` are an argument. The average period
-- is at least 1.
pub mod Skips
use gt_bbr.Prelude.{
  ℕ, ◌+◌, ◌-◌, ◌*◌, ◌/◌, Bool, true, false, List, [], ◌∷◌, ◌++◌, ltb, ◌==◌, if◌then◌else◌, length,
  drop,
}
use gt_bbr.Wire.AckFrame.{AckFrame}
use gt_bbr.Wire.AckFrame.Acks.{acks_packet}

pub record PacketNumberGenerator : Type 0 where
  pub average_period : ℕ
  pub next : ℕ
  pub next_to_skip : ℕ
  pub history : List ℕ

abbrev pub max_tracked_skipped_packets : ℕ
max_tracked_skipped_packets = 10

unfoldable pub generate_new_skip : ℕ → PacketNumberGenerator → PacketNumberGenerator
generate_new_skip num g =
    let skip = num * (g.average_period - 1) / (65535 / 2) in
    record g { next_to_skip = g.next + 2 + skip }

unfoldable pub new_packet_number_generator : ℕ → ℕ → ℕ → PacketNumberGenerator
unfolding generate_new_skip
new_packet_number_generator num initial average_period =
    generate_new_skip num
      (record { average_period = average_period; next = initial; next_to_skip = 0; history = [] })

-- The oldest number is dropped from a full history before `p` is appended.
unfoldable pub remember : ℕ → List ℕ → List ℕ
remember p history =
    if ltb max_tracked_skipped_packets (length history + 1)
    then drop 1 history ++ (p ∷ [])
    else history ++ (p ∷ [])

-- `Pop`; `Peek` is the field `next`.
unfoldable pub pop : ℕ → PacketNumberGenerator → PacketNumberGenerator × ℕ
unfolding generate_new_skip remember
pop num g =
    let after = g.next + 1 in
    if after == g.next_to_skip
    then (
      generate_new_skip num (record g { next = after + 1; history = remember after g.history }),
      g.next,
    )
    else (record g { next = after }, g.next)

unfoldable pub none_acked : AckFrame → List ℕ → Bool
none_acked ack [] = true
none_acked ack (pn ∷ rest) = if acks_packet ack pn then false else none_acked ack rest

unfoldable pub validate : AckFrame → PacketNumberGenerator → Bool
unfolding none_acked
validate ack g = none_acked ack g.history

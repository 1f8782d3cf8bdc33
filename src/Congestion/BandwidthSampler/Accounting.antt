-- ===== src/Congestion/BandwidthSampler/Accounting.antt =====
-- internal/congestion/bandwidth_sampler.go: every byte that was counted as sent was acknowledged, was
-- lost, or belongs to a packet of the map.
use gt_bbr.Congestion.BandwidthSampler.{
  ConnectionStateOnSentPacket, BandwidthSampler, get_state, on_packet_sent, on_packet_acked,
  on_packet_lost, on_app_limited, new_bandwidth_sampler, remove_state, insert_state, count_acked,
  count_sent, new_connection_state_on_sent_packet,
}
use gt_bbr.Prelude.{
  ℕ, ◌+◌, ◌≡◌, refl, inl, inr, Bool, none, some, List, [], ◌∷◌, arith, Option-cases,
}
use gt_bbr.Utils.VarInt.{u64}

abbrev pub in_map : List ConnectionStateOnSentPacket → ℕ
in_map [] = 0
in_map (c ∷ cs) = c.size + in_map cs

-- What can happen to a sampler; a packet that is sent has a new number.
pub data Step : BandwidthSampler → BandwidthSampler → Type 0 where
  send :
      (s : BandwidthSampler) (sent_time p bytes in_flight : ℕ) (retransmittable : Bool)
      → get_state p s.connection_stats ≡ none
      → Step s (on_packet_sent sent_time p bytes in_flight retransmittable s)
  acked : (s : BandwidthSampler) (ack_time p : ℕ) → Step s (on_packet_acked ack_time p s).0
  lose : (s : BandwidthSampler) (p : ℕ) → Step s (on_packet_lost p s).0
  app_limited : (s : BandwidthSampler) → Step s (on_app_limited s)

pub data Reach (s : BandwidthSampler) : BandwidthSampler → Type 0 where
  here : Reach s s
  next : {t u : BandwidthSampler} → Reach s t → Step t u → Reach s u

abbrev pub IsAccounted : BandwidthSampler → Type 0
IsAccounted s =
    s.total_bytes_sent ≡ u64 (s.total_bytes_acked + s.total_bytes_lost + in_map s.connection_stats)

remove-in_map :
    (p : ℕ) (c : ConnectionStateOnSentPacket) (cs : List ConnectionStateOnSentPacket)
    → get_state p cs ≡ some c
    → in_map cs ≡ c.size + in_map (remove_state p cs)
unfolding get_state remove_state
remove-in_map p c [] e = ground arith
remove-in_map p c (d ∷ cs) e = ground (arith, remove-in_map p c cs)

send-IsAccounted :
    (s : BandwidthSampler) (sent_time p bytes in_flight : ℕ) (retransmittable : Bool)
    → get_state p s.connection_stats ≡ none
    → IsAccounted s
    → IsAccounted (on_packet_sent sent_time p bytes in_flight retransmittable s)
unfolding on_packet_sent insert_state count_sent new_connection_state_on_sent_packet
send-IsAccounted s t p b f r n a = ground arith

acked-IsAccounted :
    (s : BandwidthSampler) (ack_time p : ℕ)
    → IsAccounted s
    → IsAccounted (on_packet_acked ack_time p s).0
unfolding on_packet_acked count_acked
acked-IsAccounted s t p a = elim (Option-cases (get_state p s.connection_stats)) [
  | inl n ↦ ground arith
  | inr (c, e) ↦ let removed = remove-in_map p c s.connection_stats e in ground arith
]

lose-IsAccounted :
    (s : BandwidthSampler) (p : ℕ) → IsAccounted s → IsAccounted (on_packet_lost p s).0
unfolding on_packet_lost
lose-IsAccounted s p a = elim (Option-cases (get_state p s.connection_stats)) [
  | inl n ↦ ground arith
  | inr (c, e) ↦ let removed = remove-in_map p c s.connection_stats e in ground arith
]

Step-IsAccounted : (s t : BandwidthSampler) → Step s t → IsAccounted s → IsAccounted t
unfolding on_app_limited
Step-IsAccounted _ _ (send s t p b f r n) a = send-IsAccounted s t p b f r n a
Step-IsAccounted _ _ (acked s t p) a = acked-IsAccounted s t p a
Step-IsAccounted _ _ (lose s p) a = lose-IsAccounted s p a
Step-IsAccounted _ _ (app_limited s) a = a

-- As long as each packet that is sent has a number that is not in the map, the bytes sent are, up to
-- the wrap of a 64-bit word, the bytes acknowledged, the bytes lost and the bytes of the packets in
-- the map, whatever is sent, acknowledged or lost, in whatever order.
pub sampler_accounting : (s : BandwidthSampler) → Reach new_bandwidth_sampler s → IsAccounted s
unfolding new_bandwidth_sampler
sampler_accounting _ here = refl
sampler_accounting u (next {t = t} r st) = Step-IsAccounted t u st (sampler_accounting t r)

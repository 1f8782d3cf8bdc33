-- ===== src/Congestion/BandwidthSampler/AppLimited.antt =====
-- internal/congestion/bandwidth_sampler.go: the app-limited phase, and the packets that are sent in it.
use gt_bbr.Congestion.BandwidthSampler.{
  BandwidthSampler, on_packet_sent, on_packet_acked, on_packet_lost, on_app_limited, insert_state,
  count_acked, ConnectionStateOnSentPacket, count_sent, get_state,
  new_connection_state_on_sent_packet,
}
use gt_bbr.Prelude.{ℕ, ◌≤◌, ◌≡◌, refl, Bool, true, none, some, arith}

-- What happens as long as no packet after `last` is acknowledged.
pub data Phase (last : ℕ) (s : BandwidthSampler) : BandwidthSampler → Type 0 where
  start : Phase last s s
  send :
      {t : BandwidthSampler} (sent_time p bytes in_flight : ℕ) (retransmittable : Bool)
      → Phase last s t
      → Phase last s (on_packet_sent sent_time p bytes in_flight retransmittable t)
  acked :
      {t : BandwidthSampler} (ack_time p : ℕ)
      → Phase last s t
      → p ≤ last
      → Phase last s (on_packet_acked ack_time p t).0
  lose : {t : BandwidthSampler} (p : ℕ) → Phase last s t → Phase last s (on_packet_lost p t).0

abbrev IsLimited : ℕ → BandwidthSampler → Type 0
IsLimited last s = (s.is_app_limited ≡ true) × (s.end_of_app_limited_phase ≡ last)

send-IsLimited :
    (last : ℕ) (s : BandwidthSampler) (t p b f : ℕ) (r : Bool)
    → IsLimited last s
    → IsLimited last (on_packet_sent t p b f r s)
unfolding on_packet_sent insert_state count_sent
send-IsLimited last s t p b f r l = ground arith

acked-IsLimited :
    (last : ℕ) (s : BandwidthSampler) (t p : ℕ)
    → p ≤ last
    → IsLimited last s
    → IsLimited last (on_packet_acked t p s).0
unfolding on_packet_acked count_acked
acked-IsLimited last s t p h l = ground arith

lose-IsLimited :
    (last : ℕ) (s : BandwidthSampler) (p : ℕ)
    → IsLimited last s
    → IsLimited last (on_packet_lost p s).0
unfolding on_packet_lost
lose-IsLimited last s p l = ground arith

Phase-IsLimited :
    (last : ℕ) (s t : BandwidthSampler) → Phase last s t → IsLimited last s → IsLimited last t
Phase-IsLimited last s _ start l = l
Phase-IsLimited last s _ (send {t = t} st p b f r ph) l =
    send-IsLimited last t st p b f r (Phase-IsLimited last s t ph l)
Phase-IsLimited last s _ (acked {t = t} at p ph h) l =
    acked-IsLimited last t at p h (Phase-IsLimited last s t ph l)
Phase-IsLimited last s _ (lose {t = t} p ph) l =
    lose-IsLimited last t p (Phase-IsLimited last s t ph l)

sent-IsLimited :
    (s : BandwidthSampler) (c : ConnectionStateOnSentPacket) (t p b f : ℕ)
    → s.is_app_limited ≡ true
    → get_state p s.connection_stats ≡ none
    → get_state p (on_packet_sent t p b f true s).connection_stats ≡ some c
    → c.send_time_state.is_app_limited ≡ true
unfolding on_packet_sent insert_state count_sent get_state new_connection_state_on_sent_packet
sent-IsLimited s c t p b f l n e = ground arith

-- After `OnAppLimited`, as long as only packets up to the last one that was sent before it are
-- acknowledged, the sampler stays in the app-limited phase, and a packet with a new number that is
-- sent in it with retransmittable data is marked as app-limited.
pub Phase-marks_packets :
    (s t : BandwidthSampler) (c : ConnectionStateOnSentPacket) (sent_time p bytes in_flight : ℕ)
    → Phase s.last_send_packet (on_app_limited s) t
    → get_state p t.connection_stats ≡ none
    → get_state p (on_packet_sent sent_time p bytes in_flight true t).connection_stats ≡ some c
    → (t.is_app_limited ≡ true) × (c.send_time_state.is_app_limited ≡ true)
unfolding on_app_limited
Phase-marks_packets s t c st p b f ph n e =
    let l = Phase-IsLimited s.last_send_packet (on_app_limited s) t ph (refl, refl) in
    (l.0, sent-IsLimited t c st p b f l.0 n e)

-- ===== src/Ackhandler/Sent/Acked.antt =====
-- internal/ackhandler/sent_packet_handler.go: a packet is acknowledged, and its retransmissions are not
-- retransmitted any more.
pub mod Fuel
use gt_bbr.Prelude.{
  ℕ, zero, suc, Bool, true, false, none, some, List, [], ◌∷◌, ◌&&◌, ◌==◌, if◌then◌else◌, length,
}
use gt_bbr.Prelude.Reader.{◌>>=◌, Result, ok, err, panic, out_of_fuel, packet_not_found}
use gt_bbr.Ackhandler.SentHistory.{
  Packet, SentPacketHistory, history_remove, mark_cannot_be_retransmitted, get_packet,
  change_packet,
}
use gt_bbr.Ackhandler.Sent.{
  PacketNumberSpace, SentPacketHandler, get_packet_number_space, set_packet_number_space,
}
use gt_bbr.Ackhandler.Sent.Loss.{update_history, subtract_lost}

-- The loop on `retransmittedAs`. The flag says that a retransmission was not found; the flag of the
-- calls in the loop is ignored.
abbrev pub stop_each :
    (Packet → SentPacketHistory → Result (SentPacketHistory × Bool))
    → List ℕ
    → SentPacketHistory
    → Result (SentPacketHistory × Bool)
stop_each stop [] h = ok (h, false)
stop_each stop (r ∷ rs) h = elim (get_packet r h) [
  | none ↦ ok (h, true)
  | some q ↦ do (h1, failed) ← stop q h; stop_each stop rs h1
]

unfoldable pub stop_retransmissions_for :
    ℕ → Packet → SentPacketHistory → Result (SentPacketHistory × Bool)
unfolding get_packet mark_cannot_be_retransmitted
stop_retransmissions_for zero p h = err out_of_fuel
stop_retransmissions_for (suc fuel) p h = do
  h1 ← mark_cannot_be_retransmitted p.packet_number h
  stop_each (stop_retransmissions_for fuel) p.retransmitted_as h1

abbrev pub or_not_found : SentPacketHistory × Bool → Result SentPacketHistory
or_not_found (h, failed) = if failed then err packet_not_found else ok h

-- The recursion is at most as deep as there are packets.
unfoldable pub stop_retransmissions : Packet → SentPacketHistory → Result SentPacketHistory
unfolding stop_retransmissions_for
stop_retransmissions p h = do
  r ← stop_retransmissions_for (length h.packet_list) p h
  or_not_found r

abbrev pub without : ℕ → List ℕ → List ℕ
without pn [] = []
without pn (q ∷ qs) = if q == pn then without pn qs else q ∷ without pn qs

unfoldable pub drop_retransmission : ℕ → Packet → Packet
drop_retransmission pn parent = record parent {
  retransmitted_as =
      if length parent.retransmitted_as == 1 then [] else without pn parent.retransmitted_as;
}

-- Whether the parent of a retransmission is there and has no retransmissions: `make` then gets a
-- negative capacity, and panics.
unfoldable pub is_parent_empty : Packet → SentPacketHistory → Bool
unfolding get_packet
is_parent_empty p h = p.is_retransmission && elim (get_packet p.retransmission_of h) [
  | none ↦ false
  | some parent ↦ length parent.retransmitted_as == 0
]

-- A retransmission is taken out of the list of its parent, if that is still there.
unfoldable pub detach : Packet → SentPacketHistory → SentPacketHistory
unfolding drop_retransmission change_packet
detach p h =
    if p.is_retransmission
    then record h {
      packet_list =
          change_packet (drop_retransmission p.packet_number) p.retransmission_of h.packet_list;
    }
    else h

-- What `onPacketAcked` does to the history.
unfoldable pub forget_acked : Packet → SentPacketHistory → Result SentPacketHistory
unfolding stop_retransmissions history_remove
forget_acked p h = do h1 ← stop_retransmissions p h; history_remove p.packet_number h1

-- `onPacketAcked` reads the packet through the pointer. The packet itself is not its parent.
unfoldable pub on_packet_acked : Packet → SentPacketHandler → Result SentPacketHandler
unfolding get_packet_number_space is_parent_empty detach subtract_lost update_history forget_acked
on_packet_acked p0 h = do
  s ← get_packet_number_space p0.encryption_level h
  elim (get_packet p0.packet_number s.history) [
    | none ↦ ok h
    | some p ↦
        let s1 : PacketNumberSpace = record s { history = detach p s.history } in
        let h1 =
          update_history p0.encryption_level (forget_acked p)
            (subtract_lost p (set_packet_number_space p0.encryption_level s1 h)) in
        if is_parent_empty p s.history then err panic else h1
  ]

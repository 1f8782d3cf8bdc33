-- ===== src/Ackhandler/SentHistory.antt =====
-- internal/ackhandler/packet.go, sent_packet_history.go: the packets that were sent and are not
-- acknowledged or lost. The linked list is a list, oldest packet first; the map points into it, so
-- a look-up is a search for the number; the pointer `firstOutstanding` is a packet number. The type
-- of a packet, which is only passed on, is left out.
pub mod Outstanding
pub mod Order
pub mod Calls
pub mod Refinement
use gt_bbr.Prelude.{
  ℕ, ◌+◌, ◌-◌, Bool, true, false, not, Option, none, some, List, [], ◌∷◌, ◌++◌, map, ltb, ◌==◌,
  if◌then◌else◌, length,
}
use gt_bbr.Prelude.Reader.{◌>>=◌, Result, ok, err, panic, packet_not_found}
use gt_bbr.Wire.FrameParser.{Frame, EncryptionLevel}
use gt_bbr.Wire.AckFrame.{AckFrame}

-- `Packet`; `none` for `largestAcked` is `InvalidPacketNumber`.
pub record Packet : Type 0 where
  pub packet_number : ℕ
  pub ack : Option AckFrame
  pub frames : List Frame
  pub length : ℕ
  pub encryption_level : EncryptionLevel
  pub send_time : ℕ
  pub largest_acked : Option ℕ
  pub can_be_retransmitted : Bool
  pub included_in_bytes_in_flight : Bool
  pub retransmitted_as : List ℕ
  pub is_retransmission : Bool
  pub retransmission_of : ℕ

pub record SentPacketHistory : Type 0 where
  pub packet_list : List Packet
  pub num_outstanding_packets : ℕ
  pub first_outstanding : Option ℕ

unfoldable pub new_sent_packet_history : SentPacketHistory
new_sent_packet_history = record {
  packet_list = [];
  num_outstanding_packets = 0;
  first_outstanding = none;
}

abbrev pub or_else : Option ℕ → ℕ → Option ℕ
or_else none p = some p
or_else (some q) p = some q

abbrev pub is_number : ℕ → Option ℕ → Bool
is_number p none = false
is_number p (some q) = p == q

unfoldable pub sent_packet_impl : Packet → SentPacketHistory → SentPacketHistory
sent_packet_impl p h = record {
  packet_list = h.packet_list ++ (p ∷ []);
  first_outstanding = or_else h.first_outstanding p.packet_number;
  num_outstanding_packets =
      if p.can_be_retransmitted then h.num_outstanding_packets + 1 else h.num_outstanding_packets;
}

-- The first packet with a number. The map of the code has the last; the code sends every number once.
unfoldable pub find_packet : ℕ → List Packet → Option Packet
find_packet pn [] = none
find_packet pn (p ∷ ps) =
    let further = find_packet pn ps in if p.packet_number == pn then some p else further

unfoldable pub get_packet : ℕ → SentPacketHistory → Option Packet
unfolding find_packet
get_packet pn h = find_packet pn h.packet_list

-- A change of the packet with a number, through the pointer to it.
unfoldable pub change_packet : (Packet → Packet) → ℕ → List Packet → List Packet
change_packet f pn [] = []
change_packet f pn (p ∷ ps) =
    let further = change_packet f pn ps in if p.packet_number == pn then f p ∷ ps else p ∷ further

unfoldable pub remove_packet : ℕ → List Packet → List Packet
remove_packet pn [] = []
remove_packet pn (p ∷ ps) =
    let further = remove_packet pn ps in if p.packet_number == pn then ps else p ∷ further

abbrev pub sent_packets_impl : List Packet → SentPacketHistory → SentPacketHistory
sent_packets_impl [] h = h
sent_packets_impl (p ∷ ps) h = sent_packets_impl ps (sent_packet_impl p h)

abbrev pub numbers : List Packet → List ℕ
numbers ps = map (λ p. p.packet_number) ps

-- Packets as retransmissions of another one.
abbrev pub as_retransmission : ℕ → Packet → Packet
as_retransmission retransmission_of p = record p {
  is_retransmission = true;
  retransmission_of = retransmission_of;
}

abbrev pub as_retransmissions : ℕ → List Packet → List Packet
as_retransmissions retransmission_of ps = map (as_retransmission retransmission_of) ps

unfoldable pub history_sent_as_retransmission :
    List Packet → ℕ → SentPacketHistory → SentPacketHistory
unfolding change_packet sent_packet_impl get_packet
history_sent_as_retransmission packets retransmission_of h = elim (get_packet retransmission_of h) [
  | none ↦ sent_packets_impl packets h
  | some p ↦ sent_packets_impl (as_retransmissions retransmission_of packets) (record h {
    packet_list =
        change_packet (λ p. record p { retransmitted_as = numbers packets }) retransmission_of
          h.packet_list;
  })
]

-- `Iterate` with a callback that collects packets without an error is `collect`.
abbrev pub collect : (Packet → Bool) → List Packet → List Packet
collect f [] = []
collect f (p ∷ ps) = if f p then p ∷ collect f ps else collect f ps

-- The number of the first packet that can be retransmitted.
unfoldable pub first_retransmittable : List Packet → Option ℕ
first_retransmittable [] = none
first_retransmittable (p ∷ ps) =
    let further = first_retransmittable ps in
    if p.can_be_retransmitted then some p.packet_number else further

-- The packets after the one with a number.
unfoldable pub packets_after : ℕ → List Packet → List Packet
packets_after pn [] = []
packets_after pn (p ∷ ps) =
    let further = packets_after pn ps in if p.packet_number == pn then ps else further

-- `readjustFirstOutstanding`, when `pn` is the first outstanding packet.
unfoldable pub readjust_first_outstanding : ℕ → SentPacketHistory → SentPacketHistory
unfolding first_retransmittable packets_after
readjust_first_outstanding pn h = record h {
  first_outstanding = first_retransmittable (packets_after pn h.packet_list);
}

-- The counter is lowered; it panics if it becomes negative.
unfoldable pub count_down : Packet → SentPacketHistory → Result SentPacketHistory
count_down p h =
    if not p.can_be_retransmitted
    then ok h
    else if h.num_outstanding_packets == 0
    then err panic
    else ok (record h { num_outstanding_packets = h.num_outstanding_packets - 1 })

unfoldable pub set_cannot_be_retransmitted : ℕ → SentPacketHistory → SentPacketHistory
unfolding change_packet readjust_first_outstanding
set_cannot_be_retransmitted pn h =
    let h1 : SentPacketHistory = record h {
      packet_list = change_packet (λ p. record p { can_be_retransmitted = false }) pn h.packet_list;
    } in
    if is_number pn h.first_outstanding then readjust_first_outstanding pn h1 else h1

unfoldable pub mark_cannot_be_retransmitted : ℕ → SentPacketHistory → Result SentPacketHistory
unfolding get_packet count_down set_cannot_be_retransmitted
mark_cannot_be_retransmitted pn h = elim (get_packet pn h) [
  | none ↦ err packet_not_found
  | some p ↦ do h1 ← count_down p h; ok (set_cannot_be_retransmitted pn h1)
]

unfoldable pub history_remove : ℕ → SentPacketHistory → Result SentPacketHistory
unfolding get_packet readjust_first_outstanding count_down remove_packet
history_remove pn h = elim (get_packet pn h) [
  | none ↦ err packet_not_found
  | some p ↦ do
    h1 ←
        count_down p
          (if is_number pn h.first_outstanding then readjust_first_outstanding pn h else h)
    ok (record h1 { packet_list = remove_packet pn h1.packet_list })
]

unfoldable pub history_len : SentPacketHistory → ℕ
history_len h = length h.packet_list

unfoldable pub has_outstanding_packets : SentPacketHistory → Bool
has_outstanding_packets h = ltb 0 h.num_outstanding_packets

unfoldable pub first_outstanding_packet : SentPacketHistory → Option Packet
unfolding get_packet
first_outstanding_packet h = elim h.first_outstanding [ none ↦ none | some pn ↦ get_packet pn h ]

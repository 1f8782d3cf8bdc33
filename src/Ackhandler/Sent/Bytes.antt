-- ===== src/Ackhandler/Sent/Bytes.antt =====
-- internal/ackhandler/sent_packet_handler.go: the bytes in flight of the packets of a history.
use gt_bbr.Prelude.{
  ℕ, ◌+◌, ◌≡◌, refl, sym, ap, ◌∙◌, subst, ◌≢◌, Option, none, some, List, [], ◌∷◌, arith,
  if◌then◌else◌, length,
}
use gt_bbr.Prelude.Reader.{bind-ok, ok}
use gt_bbr.Ackhandler.SentHistory.{
  Packet, SentPacketHistory, history_remove, get_packet, find_packet, remove_packet, change_packet,
}
use gt_bbr.Ackhandler.Sent.Acked.{
  forget_acked, stop_retransmissions, stop_retransmissions_for, detach, drop_retransmission,
  or_not_found,
}
use gt_bbr.Ackhandler.Sent.Acked.Fuel.{shape, IsSame, stop-KeepsShape}
use gt_bbr.Ackhandler.SentHistory.{count_down, readjust_first_outstanding}

-- The bytes of a packet that are in flight.
abbrev pub size : Packet → ℕ
size p = if p.included_in_bytes_in_flight then p.length else 0

abbrev pub list_bytes : List Packet → ℕ
list_bytes [] = 0
list_bytes (p ∷ ps) = size p + list_bytes ps

abbrev pub size_of : Option Packet → ℕ
size_of none = 0
size_of (some p) = size p

abbrev pub size_at : ℕ → List Packet → ℕ
size_at n ps = size_of (find_packet n ps)

pub list_bytes-shape : (ps : List Packet) → list_bytes (shape ps) ≡ list_bytes ps
list_bytes-shape [] = refl
list_bytes-shape (p ∷ ps) = ap (λ k. size p + k) (list_bytes-shape ps)

size_at-shape : (n : ℕ) (ps : List Packet) → size_at n (shape ps) ≡ size_at n ps
unfolding find_packet
size_at-shape n [] = refl
size_at-shape n (p ∷ ps) = ground (arith, size_at-shape n ps)

pub same-list_bytes :
    (h h' : SentPacketHistory) → IsSame h h' → list_bytes h'.packet_list ≡ list_bytes h.packet_list
same-list_bytes h h' s =
    sym (list_bytes-shape h'.packet_list) ∙ ap list_bytes s ∙ list_bytes-shape h.packet_list

pub same-size_at :
    (n : ℕ) (h h' : SentPacketHistory)
    → IsSame h h'
    → size_at n h'.packet_list ≡ size_at n h.packet_list
same-size_at n h h' s =
    sym (size_at-shape n h'.packet_list) ∙ ap (size_at n) s ∙ size_at-shape n h.packet_list

pub list_bytes-remove :
    (n : ℕ) (ps : List Packet) → list_bytes ps ≡ size_at n ps + list_bytes (remove_packet n ps)
unfolding find_packet remove_packet
list_bytes-remove n [] = refl
list_bytes-remove n (p ∷ ps) = ground (arith, list_bytes-remove n ps)

size_at-remove :
    (m n : ℕ) (ps : List Packet) → m ≢ n → size_at m (remove_packet n ps) ≡ size_at m ps
unfolding find_packet remove_packet
size_at-remove m n [] h = refl
size_at-remove m n (p ∷ ps) h = ground (arith, size_at-remove m n ps h, h)

pub removed-list :
    (n : ℕ) (h h' : SentPacketHistory)
    → history_remove n h ≡ ok h'
    → h'.packet_list ≡ remove_packet n h.packet_list
unfolding history_remove get_packet count_down readjust_first_outstanding
removed-list n h h' e = ground (arith, e)

pub remove-bytes :
    (n : ℕ) (h h' : SentPacketHistory)
    → history_remove n h ≡ ok h'
    → list_bytes h.packet_list ≡ size_at n h.packet_list + list_bytes h'.packet_list
remove-bytes n h h' e =
    list_bytes-remove n h.packet_list
    ∙ ap (λ l. size_at n h.packet_list + list_bytes l) (sym (removed-list n h h' e))

pub remove-size_at :
    (m n : ℕ) (h h' : SentPacketHistory)
    → m ≢ n
    → history_remove n h ≡ ok h'
    → size_at m h'.packet_list ≡ size_at m h.packet_list
remove-size_at m n h h' d e =
    ap (size_at m) (removed-list n h h' e) ∙ size_at-remove m n h.packet_list d

pub stop-IsSame :
    (p : Packet) (h h' : SentPacketHistory) → stop_retransmissions p h ≡ ok h' → IsSame h h'
unfolding stop_retransmissions
stop-IsSame p h h' e =
    let n = length h.packet_list in
    let (r, e1, e2) = bind-ok (stop_retransmissions_for n p h) or_not_found h' e in
    let same : r.0 ≡ h' = ground (arith, e2) in subst (IsSame h) same (stop-KeepsShape n p h r e1)

pub forget_acked-bytes :
    (p : Packet) (h h' : SentPacketHistory)
    → forget_acked p h ≡ ok h'
    → list_bytes h.packet_list ≡ size_at p.packet_number h.packet_list + list_bytes h'.packet_list
unfolding forget_acked
forget_acked-bytes p h h' e =
    let n = p.packet_number in
    let (h1, e1, e2) = bind-ok (stop_retransmissions p h) _ h' e in
    let s = stop-IsSame p h h1 e1 in
    omega (arith, same-list_bytes h h1 s, same-size_at n h h1 s, remove-bytes n h1 h' e2)

change-bytes :
    (n q : ℕ) (ps : List Packet)
    → list_bytes (change_packet (drop_retransmission q) n ps) ≡ list_bytes ps
unfolding change_packet drop_retransmission
change-bytes n q [] = refl
change-bytes n q (p ∷ ps) = ground (arith, change-bytes n q ps)

change-size_at :
    (m n q : ℕ) (ps : List Packet)
    → size_at m (change_packet (drop_retransmission q) n ps) ≡ size_at m ps
unfolding change_packet find_packet drop_retransmission
change-size_at m n q [] = refl
change-size_at m n q (p ∷ ps) = ground (arith, change-size_at m n q ps)

pub detach-bytes :
    (p : Packet) (h : SentPacketHistory)
    → list_bytes (detach p h).packet_list ≡ list_bytes h.packet_list
unfolding detach
detach-bytes p h = ground (arith, change-bytes p.retransmission_of p.packet_number h.packet_list)

pub detach-size_at :
    (m : ℕ) (p : Packet) (h : SentPacketHistory)
    → size_at m (detach p h).packet_list ≡ size_at m h.packet_list
unfolding detach
detach-size_at m p h =
    ground (arith, change-size_at m p.retransmission_of p.packet_number h.packet_list)

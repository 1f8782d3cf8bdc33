-- ===== src/Ackhandler/Sent/Accounting/Sent.antt =====
-- internal/ackhandler/sent_packet_handler.go: the bytes in flight when packets are sent.
use gt_bbr.Utils.VarInt.{u64}
use gt_bbr.Prelude.{
  ℕ, ◌+◌, ◌≡◌, refl, sym, ap, ◌∙◌, subst, inl, inr, true, some, List, [], ◌∷◌, ◌++◌, arith,
  if◌then◌else◌, Bool-cases, Option-cases,
}
use gt_bbr.Prelude.Reader.{bind-ok, Result, ok, ◌>>=◌}
use gt_bbr.Wire.FrameParser.{EncryptionLevel}
use gt_bbr.Ackhandler.SentHistory.{
  Packet, SentPacketHistory, get_packet, change_packet, sent_packet_impl,
  history_sent_as_retransmission,
}
use gt_bbr.Ackhandler.Sent.{
  PacketNumberSpace, SentPacketHandler, get_packet_number_space, set_packet_number_space,
  update_loss_detection_alarm, u64,
}
use gt_bbr.Ackhandler.Sent.Bytes.{list_bytes, size}
use gt_bbr.Ackhandler.Sent.Sending.{
  is_ack_eliciting, send_packet_impl, tell_congestion, count_ack_eliciting_packet, keep_packet,
  handler_sent_packet, change_history, sent_copy, sent_copies, send_packets_impl,
  handler_sent_packets_as_retransmission, first_level,
}
use gt_bbr.Ackhandler.SentHistory.{sent_packets_impl, as_retransmissions, numbers}
use gt_bbr.Ackhandler.Sent.Accounting.{total, IsCounted, set-total, set-bytes}
use gt_bbr.Ackhandler.Sent.Accounting.Acknowledged.{alarm-IsCounted}

-- What an ack-eliciting packet adds.
abbrev added : Packet → ℕ
added p = if is_ack_eliciting p then p.length else 0

-- The bytes in flight are counted, but for `n` bytes of packets that are not yet in a space.
abbrev IsAhead : ℕ → SentPacketHandler → Type 0
IsAhead n h = h.bytes_in_flight ≡ u64 (total h + n)

send-IsAhead :
    (n : ℕ) (p : Packet) (h h' : SentPacketHandler)
    → send_packet_impl p h ≡ ok h'
    → IsAhead n h
    → IsAhead (n + added p) h'
unfolding send_packet_impl tell_congestion count_ack_eliciting_packet
send-IsAhead n p h h' e c =
    let level = p.encryption_level in
    let (s, es, e1) = bind-ok (get_packet_number_space level h) _ h' e in
    let s1 : PacketNumberSpace = record s { largest_sent = some p.packet_number } in
    ground (arith, e1, set-total level s s1 h es, set-bytes level s1 h, c)

list_bytes-append : (ps qs : List Packet) → list_bytes (ps ++ qs) ≡ list_bytes ps + list_bytes qs
list_bytes-append [] qs = omega arith
list_bytes-append (p ∷ ps) qs = omega (arith, list_bytes-append ps qs)

-- A change of a history that adds `n` bytes.
change-IsCounted :
    (level : EncryptionLevel) (f : SentPacketHistory → SentPacketHistory) (n : ℕ)
    (h h' : SentPacketHandler)
    → ((k : SentPacketHistory) → list_bytes (f k).packet_list ≡ list_bytes k.packet_list + n)
    → change_history level f h ≡ ok h'
    → IsAhead n h
    → IsCounted h'
unfolding change_history
change-IsCounted level f n h h' more e c =
    let (s, es, e1) = bind-ok (get_packet_number_space level h) _ h' e in
    let s1 : PacketNumberSpace = record s { history = f s.history } in
    let same : set_packet_number_space level s1 h ≡ h' = ground (arith, e1) in
    let sum : total (set_packet_number_space level s1 h) ≡ total h + n =
      omega (arith, set-total level s s1 h es, more s.history) in
    subst IsCounted same (set-bytes level s1 h ∙ c ∙ ap u64 (sym sum))

impl-bytes :
    (p : Packet) (k : SentPacketHistory)
    → list_bytes (sent_packet_impl p k).packet_list ≡ list_bytes k.packet_list + size p
unfolding sent_packet_impl
impl-bytes p k = list_bytes-append k.packet_list (p ∷ []) ∙ omega arith

copy-size : (p : Packet) → is_ack_eliciting p ≡ true → size (sent_copy p) ≡ p.length
unfolding sent_copy
copy-size p e = ground (arith, e)

pub sent-IsCounted :
    (p : Packet) (h h' : SentPacketHandler)
    → handler_sent_packet p h ≡ ok h'
    → IsCounted h
    → IsCounted h'
unfolding handler_sent_packet keep_packet
sent-IsCounted p h h' e c =
    let (h1, e1, e2) = bind-ok (send_packet_impl p h) _ h' e in
    let c1 = send-IsAhead 0 p h h1 e1 (c ∙ ap u64 (omega arith)) in
    elim (Bool-cases (is_ack_eliciting p)) [
      | inl k ↦
          let go_on : SentPacketHandler → Result SentPacketHandler =
            λ x. ok (update_loss_detection_alarm x) in
          let f = sent_packet_impl (sent_copy p) in
          let chain : (change_history p.encryption_level f h1 >>= go_on) ≡ ok h' =
            ground (arith, e2, k) in
          let (h2, e3, e4) = bind-ok (change_history p.encryption_level f h1) go_on h' chain in
          let same : update_loss_detection_alarm h2 ≡ h' = ground (arith, e4) in
          let ahead : IsAhead (size (sent_copy p)) h1 = ground (arith, c1, copy-size p k, k) in
          subst IsCounted same (
            alarm-IsCounted h2 (
              change-IsCounted p.encryption_level f (size (sent_copy p)) h1 h2
                (impl-bytes (sent_copy p)) e3 ahead))
      | inr k ↦
          let same : h1 ≡ h' = ground (arith, e2, k) in subst IsCounted same (ground (arith, c1, k))
    ]

sent_packets-bytes :
    (ps : List Packet) (k : SentPacketHistory)
    → list_bytes (sent_packets_impl ps k).packet_list ≡ list_bytes k.packet_list + list_bytes ps
sent_packets-bytes [] k = omega arith
sent_packets-bytes (p ∷ ps) k =
    omega (arith, sent_packets-bytes ps (sent_packet_impl p k), impl-bytes p k)

as_retransmissions-bytes :
    (n : ℕ) (ps : List Packet) → list_bytes (as_retransmissions n ps) ≡ list_bytes ps
as_retransmissions-bytes n [] = refl
as_retransmissions-bytes n (p ∷ ps) = ap (λ k. size p + k) (as_retransmissions-bytes n ps)

abbrev set_retransmitted_as : List ℕ → Packet → Packet
set_retransmitted_as ns p = record p { retransmitted_as = ns }

change-bytes :
    (n : ℕ) (ns : List ℕ) (ps : List Packet)
    → list_bytes (change_packet (set_retransmitted_as ns) n ps) ≡ list_bytes ps
unfolding change_packet
change-bytes n ns [] = refl
change-bytes n ns (p ∷ ps) = ground (arith, change-bytes n ns ps)

again-bytes :
    (ps : List Packet) (n : ℕ) (k : SentPacketHistory)
    → list_bytes (history_sent_as_retransmission ps n k).packet_list
      ≡ list_bytes k.packet_list + list_bytes ps
unfolding history_sent_as_retransmission
again-bytes ps n k = elim (Option-cases (get_packet n k)) [
  | inl e ↦ ground (arith, e, sent_packets-bytes ps k)
  | inr (p, e) ↦
      let changed : SentPacketHistory = record k {
        packet_list = change_packet (set_retransmitted_as (numbers ps)) n k.packet_list;
      } in
      ground (
        arith,
        e,
        sent_packets-bytes (as_retransmissions n ps) changed,
        as_retransmissions-bytes n ps,
        change-bytes n (numbers ps) k.packet_list,
      )
]

copies-bytes :
    (p : Packet) (ps : List Packet)
    → list_bytes (sent_copies (p ∷ ps)) ≡ added p + list_bytes (sent_copies ps)
copies-bytes p ps = ground (arith, copy-size p)

send_packets-IsAhead :
    (n : ℕ) (ps : List Packet) (h h' : SentPacketHandler)
    → send_packets_impl ps h ≡ ok h'
    → IsAhead n h
    → IsAhead (n + list_bytes (sent_copies ps)) h'
send_packets-IsAhead n [] h h' e c = ground (arith, e, c)
send_packets-IsAhead n (p ∷ ps) h h' e c =
    let (h1, e1, e2) = bind-ok (send_packet_impl p h) _ h' e in
    let c1 = send_packets-IsAhead (n + added p) ps h1 h' e2 (send-IsAhead n p h h1 e1 c) in
    c1 ∙ ap u64 (omega (arith, copies-bytes p ps))

pub again-IsCounted :
    (ps : List Packet) (pn : ℕ) (h h' : SentPacketHandler)
    → handler_sent_packets_as_retransmission ps pn h ≡ ok h'
    → IsCounted h
    → IsCounted h'
unfolding handler_sent_packets_as_retransmission
again-IsCounted ps pn h h' e c =
    let f = history_sent_as_retransmission (sent_copies ps) pn in
    let (h1, e1, e2) = bind-ok (send_packets_impl ps h) _ h' e in
    let (level, e3, e4) = bind-ok (first_level (sent_copies ps)) _ h' e2 in
    let (h2, e5, e6) = bind-ok (change_history level f h1) _ h' e4 in
    let n = list_bytes (sent_copies ps) in
    let zero_ahead : IsAhead 0 h = c ∙ ap u64 (omega arith) in
    let ahead : IsAhead n h1 =
      send_packets-IsAhead 0 ps h h1 e1 zero_ahead ∙ ap u64 (omega arith) in
    let same : update_loss_detection_alarm h2 ≡ h' = ground (arith, e6) in
    subst IsCounted same (
      alarm-IsCounted h2
        (change-IsCounted level f n h1 h2 (again-bytes (sent_copies ps) pn) e5 ahead))

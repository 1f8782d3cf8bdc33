-- ===== src/Ackhandler/Sent/Calls.antt =====
-- internal/ackhandler/sent_packet_handler.go: the calls of the handler, as steps.
use gt_bbr.Ackhandler.Sent.Dequeue.{
  dequeue_packet_for_retransmission, dequeue_probe_packet, pop_packet_number, drop_packets,
  reset_for_retry,
}
use gt_bbr.Ackhandler.Sent.Loss.{on_alarm}
use gt_bbr.Ackhandler.Sent.Received.{received_ack}
use gt_bbr.Ackhandler.Sent.Sending.{handler_sent_packet, handler_sent_packets_as_retransmission}
use gt_bbr.Prelude.{ℕ, ◌≡◌, Option, List}
use gt_bbr.Prelude.Reader.{ok}
use gt_bbr.Wire.FrameParser.{EncryptionLevel}
use gt_bbr.Wire.AckFrame.{AckFrame}
use gt_bbr.Ackhandler.SentHistory.{Packet}
use gt_bbr.Ackhandler.Sent.{SentPacketHandler, Outside}
use gt_bbr.Ackhandler.Sent.{set_max_ack_delay}

-- The calls of the handler, in any order, as long as none of them returns an error.
pub data Call : SentPacketHandler → SentPacketHandler → Type 0 where
  sent : (p : Packet) (h h' : SentPacketHandler) → handler_sent_packet p h ≡ ok h' → Call h h'
  sent_again :
      (ps : List Packet) (pn : ℕ) (h h' : SentPacketHandler)
      → handler_sent_packets_as_retransmission ps pn h ≡ ok h'
      → Call h h'
  ack :
      (o : Outside) (f : AckFrame) (level : EncryptionLevel) (time : ℕ) (h h' : SentPacketHandler)
      → received_ack o f level time h ≡ ok h'
      → Call h h'
  alarm : (o : Outside) (now : ℕ) (h h' : SentPacketHandler) → on_alarm o now h ≡ ok h' → Call h h'
  dequeue : (h : SentPacketHandler) → Call h (dequeue_packet_for_retransmission h).0
  probe :
      (h : SentPacketHandler) (r : SentPacketHandler × Option Packet)
      → dequeue_probe_packet h ≡ ok r
      → Call h r.0
  pop :
      (random : ℕ) (level : EncryptionLevel) (h : SentPacketHandler) (r : SentPacketHandler × ℕ)
      → pop_packet_number random level h ≡ ok r
      → Call h r.0
  drop_keys :
      (level : EncryptionLevel) (h h' : SentPacketHandler)
      → drop_packets level h ≡ ok h'
      → Call h h'
  retry : (random : ℕ) (h h' : SentPacketHandler) → reset_for_retry random h ≡ ok h' → Call h h'
  set_delay : (delay : ℕ) (h : SentPacketHandler) → Call h (set_max_ack_delay delay h)

pub data Calls (h : SentPacketHandler) : SentPacketHandler → Type 0 where
  none_yet : Calls h h
  next : {h' h'' : SentPacketHandler} → Calls h h' → Call h' h'' → Calls h h''

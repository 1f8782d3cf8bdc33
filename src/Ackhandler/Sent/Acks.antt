-- ===== src/Ackhandler/Sent/Acks.antt =====
-- internal/ackhandler/sent_packet_handler.go: which packets a frame acknowledges for the first time.
use gt_bbr.Prelude.{ℕ, List, [], ◌∷◌, ltb, if◌then◌else◌}
use gt_bbr.Prelude.Reader.{◌>>=◌, Result, ok, err, panic, acked_wrong_packet}
use gt_bbr.Wire.AckFrame.{AckFrame, AckRange}
use gt_bbr.Wire.AckFrame.Acks.{largest_acked, lowest_acked}
use gt_bbr.Ackhandler.SentHistory.{Packet}

-- The range of the frame, from the lowest, that the packet is compared with: as long as there is a
-- further one, ranges below the packet are left behind.
pub record Position : Type 0 where
  pub range : AckRange
  pub above : List AckRange

abbrev pub advance : ℕ → AckRange → List AckRange → Position
advance pn r [] = record { range = r; above = [] }
advance pn r (s ∷ rest) =
    if ltb r.largest pn then advance pn s rest else record { range = r; above = s ∷ rest }

-- The packets of the history from one on, at a position in the ranges, without and with a check of
-- the range. The loop ends at the first packet above the largest acknowledged.
abbrev pub acked_in_one_range : ℕ → ℕ → List Packet → List Packet
acked_in_one_range lowest largest [] = []
acked_in_one_range lowest largest (p ∷ ps) =
    let rest = acked_in_one_range lowest largest ps in
    if ltb p.packet_number lowest
    then rest
    else if ltb largest p.packet_number
    then []
    else p ∷ rest

-- A packet in the range is acknowledged; one above it, at the last range, is a bug.
abbrev pub take_packet : Packet → AckRange → Result (List Packet) → Result (List Packet)
take_packet p r rest =
    if ltb p.packet_number r.smallest
    then rest
    else if ltb r.largest p.packet_number
    then err acked_wrong_packet
    else do ps ← rest; ok (p ∷ ps)

abbrev pub acked_in_ranges : ℕ → ℕ → AckRange → List AckRange → List Packet → Result (List Packet)
acked_in_ranges lowest largest r above [] = ok []
acked_in_ranges lowest largest r above (p ∷ ps) =
    let at = advance p.packet_number r above in
    let skip = acked_in_ranges lowest largest r above ps in
    let go_on = acked_in_ranges lowest largest at.range at.above ps in
    if ltb p.packet_number lowest
    then skip
    else if ltb largest p.packet_number
    then ok []
    else take_packet p at.range go_on

-- The ranges from the lowest; a frame without a range makes the Go code panic.
abbrev pub reverse_ranges : List AckRange → List AckRange → List AckRange
reverse_ranges [] acc = acc
reverse_ranges (r ∷ rs) acc = reverse_ranges rs (r ∷ acc)

abbrev pub acked_by_ranges : ℕ → ℕ → List AckRange → List Packet → Result (List Packet)
acked_by_ranges lowest largest [] ps = err panic
acked_by_ranges lowest largest (r ∷ []) ps = ok (acked_in_one_range lowest largest ps)
acked_by_ranges lowest largest (r ∷ s ∷ rest) ps = acked_in_ranges lowest largest r (s ∷ rest) ps

unfoldable pub determine_newly_acked_packets : AckFrame → List Packet → Result (List Packet)
determine_newly_acked_packets ack ps =
    acked_by_ranges (lowest_acked ack) (largest_acked ack) (reverse_ranges ack.ack_ranges []) ps

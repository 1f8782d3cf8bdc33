-- ===== src/Ackhandler/PacketHistory.antt =====
-- internal/ackhandler/received_packet_history.go: the packet numbers that were received, as intervals.
-- The linked list is a list with the highest interval first, the direction in which most loops go.
-- Packet numbers that are received are not negative.
pub mod Order
pub mod Deleted
use gt_bbr.Prelude.{
  ℕ, ◌+◌, Bool, true, false, not, ◌&&◌, List, [], ◌∷◌, map, ltb, leb, ◌==◌, if◌then◌else◌, length,
}
use gt_bbr.Wire.AckFrame.{AckRange}

-- `utils.PacketInterval`
pub record PacketInterval : Type 0 where
  pub start : ℕ
  pub end : ℕ

-- `ranges` from its back to its front.
pub record ReceivedPacketHistory : Type 0 where
  pub ranges : List PacketInterval
  pub lowest : ℕ

abbrev pub max_tracked_received_ack_ranges : ℕ
max_tracked_received_ack_ranges = 1000

unfoldable pub new_received_packet_history : ReceivedPacketHistory
new_received_packet_history = record { ranges = []; lowest = 0 }

abbrev pub single : ℕ → PacketInterval
single p = record { start = p; end = p }

-- After `el` was extended: it is merged with the interval before it, if the two touch.
unfoldable pub merge_prev : PacketInterval → List PacketInterval → List PacketInterval
merge_prev el [] = el ∷ []
merge_prev el (prev ∷ rest) =
    if prev.end + 1 == el.start
    then record { start = prev.start; end = el.end } ∷ rest
    else el ∷ prev ∷ rest

-- The loop of `ReceivedPacket` from the back of the list; at the end of the loop the new interval
-- stands at the front of the linked list. `el.Value.End == p-1` is `el.end + 1 == p`.
unfoldable pub insert_packet : ℕ → List PacketInterval → List PacketInterval
insert_packet p [] = single p ∷ []
insert_packet p (el ∷ rest) =
    let further = insert_packet p rest in
    if leb el.start p && leb p el.end
    then el ∷ rest
    else if el.end + 1 == p
    then merge_prev (record el { end = p }) rest
    else if el.start == p + 1
    then merge_prev (record el { start = p }) rest
    else if ltb el.end p
    then single p ∷ el ∷ rest
    else el ∷ further

-- The flag says that there are too many ranges, and that nothing was recorded.
unfoldable pub received_packet : ℕ → ReceivedPacketHistory → ReceivedPacketHistory × Bool
received_packet p h =
    if leb max_tracked_received_ack_ranges (length h.ranges)
    then (h, true)
    else (record h { ranges = insert_packet p h.ranges }, false)

-- `DeleteBelow` walks from the front of the linked list, the lowest interval: it drops intervals
-- below `p`, cuts the one that holds `p`, and returns at the first that is not affected. The flag
-- says that the loop is still running. One turn of the loop, after the turns on the lower intervals:
unfoldable pub delete_turn :
    ℕ → PacketInterval → List PacketInterval × Bool → List PacketInterval × Bool
delete_turn p el (lower, running) =
    if not running
    then (el ∷ lower, false)
    else if ltb el.start p && leb p el.end
    then (record el { start = p } ∷ lower, true)
    else if ltb el.end p
    then (lower, true)
    else (el ∷ lower, false)

unfoldable pub delete_loop : ℕ → List PacketInterval → List PacketInterval × Bool
delete_loop p [] = ([], true)
delete_loop p (el ∷ rest) = delete_turn p el (delete_loop p rest)

unfoldable pub delete_below : ℕ → ReceivedPacketHistory → ReceivedPacketHistory
delete_below p h =
    if leb p h.lowest then h else record { ranges = (delete_loop p h.ranges).0; lowest = p }

-- `GetAckRanges`: the highest range first.
unfoldable pub get_ack_ranges : ReceivedPacketHistory → List AckRange
get_ack_ranges h = map (λ el. record { smallest = el.start; largest = el.end }) h.ranges

-- `GetHighestAckRange`: the zero range if there is none.
abbrev pub highest_range : List PacketInterval → AckRange
highest_range [] = record { smallest = 0; largest = 0 }
highest_range (r ∷ rs) = record { smallest = r.start; largest = r.end }

unfoldable pub get_highest_ack_range : ReceivedPacketHistory → AckRange
get_highest_ack_range h = highest_range h.ranges

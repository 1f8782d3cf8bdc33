-- ===== src/Protocol/PacketNumber.antt =====
-- internal/protocol/packet_number.go: packet numbers are sent in 1 to 4 bytes, and completed from the
-- highest number that was received. Packet numbers are natural numbers below 2 ^ 62.
pub mod Decode
use gt_bbr.Prelude.{ℕ, zero, suc, ◌+◌, ◌-◌, ◌%◌, ◌^◌, ltb, ◌==◌, if◌then◌else◌}

-- `1 << (8 * n)` for a length that is valid, and 0 for any other.
unfoldable pub epoch_delta : ℕ → ℕ
epoch_delta packet_number_length =
    if packet_number_length == 1
    then 2 ^ 8
    else if packet_number_length == 2
    then 2 ^ 16
    else if packet_number_length == 3
    then 2 ^ 24
    else if packet_number_length == 4
    then 2 ^ 32
    else 0

-- `last & ^(delta - 1)`, of a power of two; `^(0 - 1)` is 0.
unfoldable pub epoch_begin : ℕ → ℕ → ℕ
epoch_begin last zero = 0
epoch_begin last (suc d) = last - last % suc d

unfoldable pub delta : ℕ → ℕ → ℕ
delta a b = if ltb a b then b - a else a - b

unfoldable pub closest_to : ℕ → ℕ → ℕ → ℕ
unfolding delta
closest_to target a b = if ltb (delta target a) (delta target b) then a else b

unfoldable pub decode_packet_number : ℕ → ℕ → ℕ → ℕ
unfolding epoch_delta epoch_begin closest_to
decode_packet_number packet_number_length last wire =
    let d = epoch_delta packet_number_length in
    let epoch = epoch_begin last d in
    let prev = if ltb d epoch then epoch - d else 0 in
    closest_to (last + 1) (epoch + wire) (closest_to (last + 1) (prev + wire) (epoch + d + wire))

-- `uint64(packetNumber - leastUnacked)`; the packet number is not below the least unacked one.
unfoldable pub get_packet_number_length_for_header : ℕ → ℕ → ℕ
get_packet_number_length_for_header packet_number least_unacked =
    let diff = packet_number - least_unacked in
    if ltb diff (2 ^ 15) then 2 else if ltb diff (2 ^ 23) then 3 else 4

unfoldable pub get_packet_number_length : ℕ → ℕ
get_packet_number_length packet_number =
    if ltb packet_number (2 ^ 8)
    then 1
    else if ltb packet_number (2 ^ 16)
    then 2
    else if ltb packet_number (2 ^ 24)
    then 3
    else 4

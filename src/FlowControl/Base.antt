-- ===== src/FlowControl/Base.antt =====
-- internal/flowcontrol/base_flow_controller.go: what the controllers of a stream and of a connection
-- have in common. A `ByteCount` is a 64-bit word. The windows stay below 2 ^ 51 bytes, where the
-- products with 0.75 and 1.5, which the code takes in floating point, are exact.
use gt_bbr.Prelude.{
  ℕ, ◌+◌, ◌-◌, ◌*◌, ◌/◌, ◌%◌, ◌^◌, ◌≤◌, ◌<◌, ◌≡◌, ◌⊎◌, Bool, true, false, not, ◌||◌, Option, none,
  some, arith, ltb, leb, ◌==◌, if◌then◌else◌,
}
use gt_bbr.Utils.VarInt.{u64}

-- What an operation reads of its environment: the clock, which is read once, the smoothed
-- round-trip time, and the floating-point bound `4 * fraction * rtt` on the length of an epoch, as a
-- function of the bytes read in it, the window size and the round-trip time.
pub record Env : Type 0 where
  pub now : ℕ
  pub smoothed_rtt : ℕ
  pub epoch_limit : ℕ → ℕ → ℕ → ℕ

pub record BaseFlowController : Type 0 where
  pub bytes_sent : ℕ
  pub send_window : ℕ
  pub last_blocked_at : ℕ
  pub bytes_read : ℕ
  pub highest_received : ℕ
  pub receive_window : ℕ
  pub receive_window_size : ℕ
  pub max_receive_window_size : ℕ
  pub epoch_start_time : ℕ
  pub epoch_start_offset : ℕ

-- `a - b` on 64-bit words.
abbrev pub sub64 : ℕ → ℕ → ℕ
sub64 a b = (a + 2 ^ 64 - b) % 2 ^ 64

-- `utils.MinByteCount`
abbrev pub min_byte_count : ℕ → ℕ → ℕ
min_byte_count a b = if ltb a b then a else b

unfoldable pub send_window_size : BaseFlowController → ℕ
send_window_size c = if ltb c.send_window c.bytes_sent then 0 else c.send_window - c.bytes_sent

-- The offset, if the sender is newly blocked.
unfoldable pub is_newly_blocked : BaseFlowController → BaseFlowController × Option ℕ
unfolding send_window_size
is_newly_blocked c =
    if not (send_window_size c == 0) || c.send_window == c.last_blocked_at
    then (c, none)
    else (record c { last_blocked_at = c.send_window }, some c.send_window)

unfoldable pub add_bytes_sent : ℕ → BaseFlowController → BaseFlowController
add_bytes_sent n c = record c { bytes_sent = u64 (c.bytes_sent + n) }

unfoldable pub update_send_window : ℕ → BaseFlowController → BaseFlowController
update_send_window offset c =
    if ltb c.send_window offset then record c { send_window = offset } else c

unfoldable pub start_new_auto_tuning_epoch : Env → BaseFlowController → BaseFlowController
start_new_auto_tuning_epoch env c = record c {
  epoch_start_time = env.now;
  epoch_start_offset = c.bytes_read;
}

unfoldable pub add_bytes_read : Env → ℕ → BaseFlowController → BaseFlowController
unfolding start_new_auto_tuning_epoch
add_bytes_read env n c =
    let c' = if c.bytes_read == 0 then start_new_auto_tuning_epoch env c else c in
    record c' { bytes_read = u64 (c'.bytes_read + n) }

-- `float64(size) * float64(1 - 0.25)`
abbrev pub update_threshold : ℕ → ℕ
update_threshold size = size * 3 / 4

unfoldable pub has_window_update : BaseFlowController → Bool
has_window_update c =
    leb (sub64 c.receive_window c.bytes_read) (update_threshold c.receive_window_size)

unfoldable pub maybe_adjust_window_size : Env → BaseFlowController → BaseFlowController
unfolding start_new_auto_tuning_epoch
maybe_adjust_window_size env c =
    let in_epoch = sub64 c.bytes_read c.epoch_start_offset in
    let limit = env.epoch_limit in_epoch c.receive_window_size env.smoothed_rtt in
    let grown = min_byte_count (u64 (2 * c.receive_window_size)) c.max_receive_window_size in
    let c' =
      if ltb (env.now - c.epoch_start_time) limit
      then record c { receive_window_size = grown }
      else c in
    if leb in_epoch (c.receive_window_size / 2)
    then c
    else if env.smoothed_rtt == 0
    then c
    else start_new_auto_tuning_epoch env c'

-- The new offset, or 0.
unfoldable pub get_window_update : Env → BaseFlowController → BaseFlowController × ℕ
unfolding has_window_update maybe_adjust_window_size
get_window_update env c =
    if not (has_window_update c)
    then (c, 0)
    else let c' = maybe_adjust_window_size env c in
      let window = u64 (c'.bytes_read + c'.receive_window_size) in
      (record c' { receive_window = window }, window)

unfoldable pub check_flow_control_violation : BaseFlowController → Bool
check_flow_control_violation c = ltb c.receive_window c.highest_received

-- The credit that was given is never more than the window ahead of what was read, and the sizes are
-- small enough for the arithmetic.
pub record IsSound (c : BaseFlowController) : Type 0 where
  pub read_le_received : c.bytes_read ≤ c.highest_received
  pub epoch_le_read : c.epoch_start_offset ≤ c.bytes_read
  pub size_le_max : c.receive_window_size ≤ c.max_receive_window_size
  pub size_pos : 0 < c.receive_window_size
  pub max_small : c.max_receive_window_size < 2 ^ 51
  pub window_small : c.receive_window < 2 ^ 62

-- In a controller with sound windows that has received nothing above its window: `getWindowUpdate`,
-- if an update is due, raises the window, to exactly the window size above the bytes read, and the
-- window size does not shrink and does not pass the maximum; otherwise it leaves the controller as it
-- was and returns 0.
pub get_window_update_lem :
    (env : Env) (c : BaseFlowController)
    → IsSound c
    → c.highest_received ≤ c.receive_window
    → let (c', offset) = get_window_update env c in
      ((has_window_update c ≡ false) × (c' ≡ c) × (offset ≡ 0))
      ⊎ ((has_window_update c ≡ true)
          × (c.receive_window < offset)
          × (offset ≡ c'.receive_window)
          × (offset ≡ c.bytes_read + c'.receive_window_size)
          × (c.receive_window_size ≤ c'.receive_window_size)
          × (c'.receive_window_size ≤ c.max_receive_window_size)
          × (c'.bytes_read ≡ c.bytes_read)
          × (c'.highest_received ≡ c.highest_received))
unfolding get_window_update
get_window_update_lem env c s h = ground arith

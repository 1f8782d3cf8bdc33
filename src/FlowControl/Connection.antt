-- ===== src/FlowControl/Connection.antt =====
-- internal/flowcontrol/connection_flow_controller.go: the controller of the connection. Its callback
-- `queueWindowUpdate` shows as a flag in the result; locks and log messages are left out.
use gt_bbr.Prelude.{ℕ, ◌+◌, Bool, Option, none, some, ltb, if◌then◌else◌}
use gt_bbr.FlowControl.Base.{
  BaseFlowController, Env, add_bytes_read, has_window_update, get_window_update,
  check_flow_control_violation, start_new_auto_tuning_epoch, min_byte_count,
}
use gt_bbr.Utils.VarInt.{u64}

pub data FlowError : Type 0 where
  flow_control_error final_size_error : FlowError

-- The struct adds only the callback to the base.
abbrev pub ConnectionFlowController : Type 0
ConnectionFlowController = BaseFlowController

-- `NewConnectionFlowController`
unfoldable pub new_connection_flow_controller : ℕ → ℕ → ConnectionFlowController
new_connection_flow_controller receive_window max_receive_window = record {
  bytes_sent = 0;
  send_window = 0;
  last_blocked_at = 0;
  bytes_read = 0;
  highest_received = 0;
  receive_window = receive_window;
  receive_window_size = receive_window;
  max_receive_window_size = max_receive_window;
  epoch_start_time = 0;
  epoch_start_offset = 0;
}

unfoldable pub connection_increment_highest_received :
    ℕ → ConnectionFlowController → ConnectionFlowController × Option FlowError
unfolding check_flow_control_violation
connection_increment_highest_received increment c =
    let c' = record c { highest_received = u64 (c.highest_received + increment) } in
    (c', if check_flow_control_violation c' then some flow_control_error else none)

-- The flag says that a window update was queued.
unfoldable pub connection_add_bytes_read :
    Env → ℕ → ConnectionFlowController → ConnectionFlowController × Bool
unfolding add_bytes_read has_window_update
connection_add_bytes_read env n c = let c' = add_bytes_read env n c in (c', has_window_update c')

unfoldable pub connection_get_window_update :
    Env → ConnectionFlowController → ConnectionFlowController × ℕ
unfolding get_window_update
connection_get_window_update env c = get_window_update env c

unfoldable pub ensure_minimum_window_size :
    Env → ℕ → ConnectionFlowController → ConnectionFlowController
unfolding start_new_auto_tuning_epoch
ensure_minimum_window_size env inc c =
    if ltb c.receive_window_size inc
    then start_new_auto_tuning_epoch env
        (record c { receive_window_size = min_byte_count inc c.max_receive_window_size })
    else c

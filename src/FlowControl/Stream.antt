-- ===== src/FlowControl/Stream.antt =====
-- internal/flowcontrol/stream_flow_controller.go: the controller of a stream. An operation takes the
-- stream's controller and the connection's, which all streams share, and returns both.
pub mod Receive
pub mod Send
use gt_bbr.Prelude.{
  ℕ, ◌-◌, ◌*◌, ◌/◌, Bool, false, not, ◌&&◌, ◌||◌, Option, none, some, ltb, leb, ◌==◌, if◌then◌else◌,
}
use gt_bbr.FlowControl.Base.{
  BaseFlowController, Env, add_bytes_read, add_bytes_sent, has_window_update, get_window_update,
  check_flow_control_violation, send_window_size, min_byte_count, sub64,
}
use gt_bbr.FlowControl.Connection.{
  ConnectionFlowController, FlowError, flow_control_error, final_size_error,
  connection_increment_highest_received, connection_add_bytes_read, ensure_minimum_window_size,
}

pub record StreamFlowController : Type 0 where
  pub base : BaseFlowController
  pub stream_id : ℕ
  pub received_final_offset : Bool

-- `NewStreamFlowController`; the connection's controller is an argument of the operations.
unfoldable pub new_stream_flow_controller : ℕ → ℕ → ℕ → ℕ → StreamFlowController
new_stream_flow_controller stream_id receive_window max_receive_window initial_send_window =
    record {
      base = record {
        bytes_sent = 0;
        send_window = initial_send_window;
        last_blocked_at = 0;
        bytes_read = 0;
        highest_received = 0;
        receive_window = receive_window;
        receive_window_size = receive_window;
        max_receive_window_size = max_receive_window;
        epoch_start_time = 0;
        epoch_start_offset = 0;
      };
      stream_id = stream_id;
      received_final_offset = false;
    }

-- The controllers of a stream and of its connection.
pub record Flow : Type 0 where
  pub stream : StreamFlowController
  pub connection : ConnectionFlowController

-- The part of `UpdateHighestReceived` behind the check of a known final offset.
unfoldable pub raise_highest_received : ℕ → Bool → Flow → Flow × Option FlowError
unfolding check_flow_control_violation connection_increment_highest_received
raise_highest_received offset final w =
    let s = w.stream in
    let highest = s.base.highest_received in
    let s1 = record s { received_final_offset = final || s.received_final_offset } in
    let s2 = record s1 { base = record (s.base) { highest_received = offset } } in
    let (c', e) = connection_increment_highest_received (offset - highest) w.connection in
    if offset == highest
    then (record w { stream = s1 }, none)
    else if leb offset highest
    then (record w { stream = s1 }, if final then some final_size_error else none)
    else if check_flow_control_violation s2.base
    then (record w { stream = s2 }, some flow_control_error)
    else (record { stream = s2; connection = c' }, e)

unfoldable pub update_highest_received : ℕ → Bool → Flow → Flow × Option FlowError
unfolding raise_highest_received
update_highest_received offset final w =
    let s = w.stream in
    let highest = s.base.highest_received in
    if s.received_final_offset && (final && not (offset == highest))
    then (w, some final_size_error)
    else if s.received_final_offset && ltb highest offset
    then (w, some final_size_error)
    else raise_highest_received offset final w

-- The flags say whether the stream and the connection queued a window update.
unfoldable pub stream_add_bytes_read : Env → ℕ → Flow → Flow × Bool × Bool
unfolding add_bytes_read has_window_update connection_add_bytes_read
stream_add_bytes_read env n w =
    let b = add_bytes_read env n w.stream.base in
    let (c, queued) = connection_add_bytes_read env n w.connection in
    (
      record { stream = record (w.stream) { base = b }; connection = c },
      not w.stream.received_final_offset && has_window_update b,
      queued,
    )

-- The flag says whether the connection queued a window update.
unfoldable pub abandon : Env → Flow → Flow × Bool
unfolding connection_add_bytes_read
abandon env w =
    let unread = sub64 w.stream.base.highest_received w.stream.base.bytes_read in
    let (c, queued) = connection_add_bytes_read env unread w.connection in
    if ltb 0 unread then (record w { connection = c }, queued) else (w, false)

unfoldable pub stream_add_bytes_sent : ℕ → Flow → Flow
unfolding add_bytes_sent
stream_add_bytes_sent n w = record {
  stream = record (w.stream) { base = add_bytes_sent n w.stream.base };
  connection = add_bytes_sent n w.connection;
}

unfoldable pub stream_send_window_size : Flow → ℕ
unfolding send_window_size
stream_send_window_size w =
    min_byte_count (send_window_size w.stream.base) (send_window_size w.connection)

-- `float64(size) * 1.5`
abbrev pub connection_multiplied : ℕ → ℕ
connection_multiplied size = size * 3 / 2

unfoldable pub stream_get_window_update : Env → Flow → Flow × ℕ
unfolding get_window_update ensure_minimum_window_size
stream_get_window_update env w =
    let s = w.stream in
    let (b, offset) = get_window_update env s.base in
    let s' = record s { base = b } in
    let c' =
      ensure_minimum_window_size env (connection_multiplied b.receive_window_size) w.connection in
    if s.received_final_offset
    then (w, 0)
    else if ltb s.base.receive_window_size b.receive_window_size
    then (record { stream = s'; connection = c' }, offset)
    else (record w { stream = s' }, offset)

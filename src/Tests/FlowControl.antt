-- ===== src/Tests/FlowControl.antt =====
-- internal/flowcontrol: the controllers of a connection and of a stream at concrete windows.
use gt_bbr.Prelude.{
  ℕ, ◌+◌, ◌*◌, ◌/◌, ◌≤◌, ◌<◌, min, ◌≡◌, refl, ◌↔◌, ◌⊎◌, true, false, none, some, [], arith,
}
use gt_bbr.FlowControl.Base.{
  BaseFlowController, Env, IsSound, update_send_window, get_window_update, has_window_update,
  get_window_update_lem,
}
use gt_bbr.FlowControl.Connection.{new_connection_flow_controller, final_size_error}
use gt_bbr.FlowControl.Stream.{
  Flow, new_stream_flow_controller, update_highest_received, stream_send_window_size,
  stream_add_bytes_sent, stream_get_window_update,
}
use gt_bbr.FlowControl.Stream.Receive.{
  RespectsFinalSize, WithinCredit, update_highest_received_iff, update_highest_received_ok,
  stream_get_window_update_lem,
}
use gt_bbr.FlowControl.Stream.Send.{WithinWindows, stream_send_window_size_exact}
use gt_bbr.FlowControl.Accounts.{
  here, next, raise_window, open_stream, send, receive, sys, Accounts, Reach-Accounts,
}

-- A stream with a window of 100 bytes on a connection with a window of 150 bytes; 60 were received
-- and read.
abbrev used : ℕ → BaseFlowController
used window = record {
  bytes_sent = 10;
  send_window = 50;
  last_blocked_at = 0;
  bytes_read = 60;
  highest_received = 60;
  receive_window = window;
  receive_window_size = window;
  max_receive_window_size = 1000;
  epoch_start_time = 0;
  epoch_start_offset = 0;
}

abbrev flow : Flow
flow = record {
  stream = record { base = used 100; stream_id = 4; received_final_offset = false };
  connection = used 150;
}

abbrev env : Env
env = record { now = 1000; smoothed_rtt = 10; epoch_limit = λ a b c. 4 * c }

accepts-80 : (update_highest_received 80 true flow).1 ≡ none
unfolding update_highest_received
accepts-80 = refl

update_highest_received_iff_example :
    (((update_highest_received 80 true flow).1 ≡ none)
      ↔ (RespectsFinalSize 80 true flow × WithinCredit 80 flow))
    × (((update_highest_received 80 true flow).1 ≡ some final_size_error)
        ↔ ¬ RespectsFinalSize 80 true flow)
update_highest_received_iff_example =
    update_highest_received_iff 80 true flow (omega arith) (omega arith)

update_highest_received_ok_example :
    ((update_highest_received 80 true flow).0.stream ≡ record {
      base = record (used 100) { highest_received = 80 };
      stream_id = 4;
      received_final_offset = true;
    })
    × ((update_highest_received 80 true flow).0.connection
        ≡ record (used 150) { highest_received = 80 })
update_highest_received_ok_example =
    update_highest_received_ok 80 true flow (omega arith) (omega arith) accepts-80

-- A stream on a new connection whose peer allows 100 bytes: 20 bytes are sent, and 30 received.
abbrev opened : Flow
opened = record {
  stream = new_stream_flow_controller 4 100 1000 50;
  connection = update_send_window 100 (new_connection_flow_controller 150 1000);
}

abbrev sent_20 : Flow
sent_20 = stream_add_bytes_sent 20 opened

sends-20 : 20 ≤ stream_send_window_size opened
unfolding stream_send_window_size update_send_window new_stream_flow_controller
    new_connection_flow_controller
sends-20 = omega arith

receives-30 : (update_highest_received 30 false sent_20).1 ≡ none
unfolding update_highest_received stream_add_bytes_sent update_send_window
    new_stream_flow_controller new_connection_flow_controller
receives-30 = refl

Reach-Accounts_example : Accounts (sys [] [] (update_highest_received 30 false sent_20).0)
Reach-Accounts_example = Reach-Accounts 150 1000 (
    next
      (next
        (next
          (next here (raise_window [] (new_connection_flow_controller 150 1000) 100 (omega arith)))
          (open_stream [] opened.connection 4 100 1000 50))
        (send [] [] opened 20 sends-20))
      (receive [] [] sent_20 30 false (omega arith) receives-30))

stream_send_window_size_exact_example :
    (20 ≤ stream_send_window_size flow) ↔ WithinWindows (stream_add_bytes_sent 20 flow)
stream_send_window_size_exact_example =
    stream_send_window_size_exact 20 flow (omega arith, omega arith) (omega arith) (omega arith)
      (omega arith)

IsSound-100 : IsSound (used 100)
IsSound-100 = record {
  read_le_received = omega arith;
  epoch_le_read = omega arith;
  size_le_max = omega arith;
  size_pos = omega arith;
  max_small = omega arith;
  window_small = omega arith;
}

get_window_update_lem_example :
    ((has_window_update (used 100) ≡ false)
      × ((get_window_update env (used 100)).0 ≡ used 100)
      × ((get_window_update env (used 100)).1 ≡ 0))
    ⊎ ((has_window_update (used 100) ≡ true)
        × (100 < (get_window_update env (used 100)).1)
        × ((get_window_update env (used 100)).1
            ≡ (get_window_update env (used 100)).0.receive_window)
        × ((get_window_update env (used 100)).1
            ≡ 60 + (get_window_update env (used 100)).0.receive_window_size)
        × (100 ≤ (get_window_update env (used 100)).0.receive_window_size)
        × ((get_window_update env (used 100)).0.receive_window_size ≤ 1000)
        × ((get_window_update env (used 100)).0.bytes_read ≡ 60)
        × ((get_window_update env (used 100)).0.highest_received ≡ 60))
get_window_update_lem_example = get_window_update_lem env (used 100) IsSound-100 (omega arith)

stream_get_window_update_lem_example :
    let (w', offset) = stream_get_window_update env flow in
    let size = w'.stream.base.receive_window_size in
    (((false ≡ true) × (w' ≡ flow) × (offset ≡ 0))
      ⊎ ((false ≡ false)
          × ((offset ≡ 0) ⊎ (100 < offset))
          × ((size ≡ 100) ⊎ (min (size * 3 / 2) 1000 ≤ w'.connection.receive_window_size))))
    × (150 ≤ w'.connection.receive_window_size)
    × (w'.connection.receive_window_size ≤ 1000)
stream_get_window_update_lem_example =
    stream_get_window_update_lem env flow IsSound-100 (omega arith) (omega arith)

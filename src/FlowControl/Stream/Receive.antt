-- ===== src/FlowControl/Stream/Receive.antt =====
-- internal/flowcontrol/stream_flow_controller.go: the receiving side. Which offsets a peer may use.
use gt_bbr.Prelude.{
  ℕ, ◌+◌, ◌-◌, ◌*◌, ◌/◌, ◌^◌, ◌≤◌, ◌<◌, min, max, ◌≡◌, ◌↔◌, ◌⊎◌, Bool, true, false, ◌||◌, none,
  some, arith,
}
use gt_bbr.FlowControl.Base.{Env, IsSound}
use gt_bbr.FlowControl.Connection.{final_size_error}
use gt_bbr.FlowControl.Stream.{Flow, update_highest_received, stream_get_window_update}

-- The final size is respected: it does not change once it is known, nothing lies behind it, and it
-- does not lie before what was received.
abbrev pub RespectsFinalSize : ℕ → Bool → Flow → Type 0
RespectsFinalSize offset final w =
    (w.stream.received_final_offset ≡ true → offset ≤ w.stream.base.highest_received)
    × (final ≡ true → w.stream.base.highest_received ≤ offset)

-- New data lie within the credit of the stream and of the connection.
abbrev pub WithinCredit : ℕ → Flow → Type 0
WithinCredit offset w =
    w.stream.base.highest_received < offset
    → (offset ≤ w.stream.base.receive_window)
      × (w.connection.highest_received + (offset - w.stream.base.highest_received)
          ≤ w.connection.receive_window)

-- For an offset below 2 ^ 62, while the connection has counted fewer than 2 ^ 63 bytes:
-- `UpdateHighestReceived` answers with no error exactly if the final size is respected and new data
-- lie within the credit of the stream and of the connection; with a final size error exactly if the
-- final size is not respected; and else with a flow control error.
pub update_highest_received_iff :
    (offset : ℕ) (final : Bool) (w : Flow)
    → offset < 2 ^ 62
    → w.connection.highest_received < 2 ^ 63
    → let e = (update_highest_received offset final w).1 in
      ((e ≡ none) ↔ (RespectsFinalSize offset final w × WithinCredit offset w))
      × ((e ≡ some final_size_error) ↔ ¬ RespectsFinalSize offset final w)
unfolding update_highest_received
update_highest_received_iff offset final w h k = ground arith

-- For an offset below 2 ^ 62, while the connection has counted fewer than 2 ^ 63 bytes: if
-- `UpdateHighestReceived` answers with no error, the highest offset of the stream becomes the larger one, the connection's grows by
-- the same amount, a final size stays known, and nothing else changes.
pub update_highest_received_ok :
    (offset : ℕ) (final : Bool) (w : Flow)
    → offset < 2 ^ 62
    → w.connection.highest_received < 2 ^ 63
    → (update_highest_received offset final w).1 ≡ none
    → let w' = (update_highest_received offset final w).0 in
      let high = max w.stream.base.highest_received offset in
      (w'.stream ≡ record (w.stream) {
        base = record (w.stream.base) { highest_received = high };
        received_final_offset = final || w.stream.received_final_offset;
      })
      × (w'.connection ≡ record (w.connection) {
        highest_received = w.connection.highest_received + (high - w.stream.base.highest_received);
      })
unfolding update_highest_received
update_highest_received_ok offset final w h k e = ground arith

-- If the stream's windows are sound and its received offsets within them: once the final size is
-- known, a stream asks for no more credit. Before that, the offset that `GetWindowUpdate` returns is
-- 0 or raises the window of the stream; the window size of the stream stays, or the window size of
-- the connection becomes at least 1.5 times as large as the new one, as far as its maximum allows.
-- The window size of the connection does not shrink, and does not pass its maximum.
pub stream_get_window_update_lem :
    (env : Env) (w : Flow)
    → IsSound w.stream.base
    → w.stream.base.highest_received ≤ w.stream.base.receive_window
    → w.connection.receive_window_size ≤ w.connection.max_receive_window_size
    → let (w', offset) = stream_get_window_update env w in
      let size = w'.stream.base.receive_window_size in
      (((w.stream.received_final_offset ≡ true) × (w' ≡ w) × (offset ≡ 0))
        ⊎ ((w.stream.received_final_offset ≡ false)
            × ((offset ≡ 0) ⊎ (w.stream.base.receive_window < offset))
            × ((size ≡ w.stream.base.receive_window_size)
                ⊎ (min (size * 3 / 2) w.connection.max_receive_window_size
                    ≤ w'.connection.receive_window_size))))
      × (w.connection.receive_window_size ≤ w'.connection.receive_window_size)
      × (w'.connection.receive_window_size ≤ w.connection.max_receive_window_size)
unfolding stream_get_window_update
stream_get_window_update_lem env w s h m = ground arith

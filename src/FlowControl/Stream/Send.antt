-- ===== src/FlowControl/Stream/Send.antt =====
-- internal/flowcontrol: the sending side. What is sent stays within the windows of the peer.
use gt_bbr.Prelude.{ℕ, ◌^◌, ◌≤◌, ◌<◌, max, ◌≡◌, ◌≢◌, ◌↔◌, none, some, arith}
use gt_bbr.FlowControl.Base.{
  BaseFlowController, send_window_size, is_newly_blocked, update_send_window,
}
use gt_bbr.FlowControl.Stream.{Flow, stream_send_window_size, stream_add_bytes_sent}

-- What was sent lies within the windows of the stream and of the connection.
abbrev pub WithinWindows : Flow → Type 0
WithinWindows w =
    (w.stream.base.bytes_sent ≤ w.stream.base.send_window)
    × (w.connection.bytes_sent ≤ w.connection.send_window)

-- With windows and amounts below 2 ^ 62, and what was sent within both windows, the `SendWindowSize`
-- of a stream is exactly what may still be sent: an amount stays within the windows of the stream
-- and of the connection if and only if it is at most that.
pub stream_send_window_size_exact :
    (n : ℕ) (w : Flow)
    → WithinWindows w
    → w.stream.base.send_window < 2 ^ 62
    → w.connection.send_window < 2 ^ 62
    → n < 2 ^ 62
    → (n ≤ stream_send_window_size w) ↔ WithinWindows (stream_add_bytes_sent n w)
unfolding stream_send_window_size stream_add_bytes_sent
stream_send_window_size_exact n w h a b k = ground arith

-- `IsNewlyBlocked` reports the window exactly if nothing may be sent and the window is not the one
-- that it last reported, and a second call reports nothing.
is_newly_blocked_once :
    (c : BaseFlowController)
    → let (c', r) = is_newly_blocked c in
      ((r ≡ some c.send_window) ↔ ((send_window_size c ≡ 0) × (c.send_window ≢ c.last_blocked_at)))
      × ((is_newly_blocked c').1 ≡ none)
unfolding is_newly_blocked
is_newly_blocked_once c = ground arith

-- A window update never lowers the window.
pub update_send_window-max :
    (c : BaseFlowController) (offset : ℕ)
    → update_send_window offset c ≡ record c { send_window = max c.send_window offset }
unfolding update_send_window
update_send_window-max c offset = ground arith

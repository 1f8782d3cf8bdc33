-- ===== src/FlowControl/Accounts.antt =====
-- internal/flowcontrol: many streams share the controller of one connection. What the connection
-- counts is the sum of what the streams count.
use gt_bbr.Prelude.{
  ℕ, ◌+◌, ◌-◌, ◌%◌, ◌^◌, ◌≤◌, ◌<◌, ◌≡◌, ◌∙◌, Bool, none, List, [], ◌∷◌, ◌++◌, arith,
}
use gt_bbr.FlowControl.Base.{update_send_window, Env}
use gt_bbr.FlowControl.Connection.{ConnectionFlowController, connection_get_window_update}
use gt_bbr.FlowControl.Stream.{
  StreamFlowController, Flow, update_highest_received, stream_send_window_size,
  stream_add_bytes_sent, stream_add_bytes_read, stream_get_window_update, abandon,
  new_stream_flow_controller,
}
use gt_bbr.FlowControl.Connection.{new_connection_flow_controller}

pub record System : Type 0 where
  pub streams : List StreamFlowController
  pub connection : ConnectionFlowController

abbrev pub total : (StreamFlowController → ℕ) → List StreamFlowController → ℕ
total g [] = 0
total g (s ∷ ss) = g s + total g ss

abbrev pub highest : StreamFlowController → ℕ
highest s = s.base.highest_received

abbrev pub sent : StreamFlowController → ℕ
sent s = s.base.bytes_sent

-- One stream, `s` between `front` and `back`, and the connection make a step.
abbrev pub sys : List StreamFlowController → List StreamFlowController → Flow → System
sys front back w = record { streams = front ++ (w.stream ∷ back); connection = w.connection }

-- What can happen: a frame with an allowed offset arrives, data are sent within the windows, data are
-- read, a stream or the connection gives credit, a stream is given up, a MAX_DATA frame arrives, or a
-- stream is opened.
pub data Step : System → System → Type 0 where
  receive :
      (front back : List StreamFlowController) (w : Flow) (offset : ℕ) (final : Bool)
      → offset < 2 ^ 62
      → (update_highest_received offset final w).1 ≡ none
      → Step (sys front back w) (sys front back (update_highest_received offset final w).0)
  send :
      (front back : List StreamFlowController) (w : Flow) (n : ℕ)
      → n ≤ stream_send_window_size w
      → Step (sys front back w) (sys front back (stream_add_bytes_sent n w))
  read :
      (front back : List StreamFlowController) (w : Flow) (env : Env) (n : ℕ)
      → Step (sys front back w) (sys front back (stream_add_bytes_read env n w).0)
  give_credit :
      (front back : List StreamFlowController) (w : Flow) (env : Env)
      → Step (sys front back w) (sys front back (stream_get_window_update env w).0)
  give_up :
      (front back : List StreamFlowController) (w : Flow) (env : Env)
      → Step (sys front back w) (sys front back (abandon env w).0)
  connection_credit :
      (streams : List StreamFlowController) (c : ConnectionFlowController) (env : Env)
      → Step
          (record { streams = streams; connection = c })
          (record { streams = streams; connection = (connection_get_window_update env c).0 })
  raise_window :
      (streams : List StreamFlowController) (c : ConnectionFlowController) (offset : ℕ)
      → offset < 2 ^ 62
      → Step
          (record { streams = streams; connection = c })
          (record { streams = streams; connection = update_send_window offset c })
  open_stream :
      (streams : List StreamFlowController) (c : ConnectionFlowController)
      (id window most credit : ℕ)
      → Step
          (record { streams = streams; connection = c })
          (record {
            streams = new_stream_flow_controller id window most credit ∷ streams;
            connection = c;
          })

pub data Reach (s : System) : System → Type 0 where
  here : Reach s s
  next : {t u : System} → Reach s t → Step t u → Reach s u

-- The connection accounts for its streams: for what they received, up to the wrap of a 64-bit word,
-- and for what they sent, which stays within the window of the connection.
pub record Accounts (y : System) : Type 0 where
  pub received_total : y.connection.highest_received ≡ total highest y.streams % 2 ^ 64
  pub sent_total : y.connection.bytes_sent ≡ total sent y.streams
  pub sent_within : y.connection.bytes_sent ≤ y.connection.send_window
  pub window_small : y.connection.send_window < 2 ^ 62

total-append :
    (g : StreamFlowController → ℕ) (xs ys : List StreamFlowController)
    → total g (xs ++ ys) ≡ total g xs + total g ys
total-append g [] ys = omega arith
total-append g (x ∷ xs) ys = omega (arith, total-append g xs ys)

sent-le-total :
    (front back : List StreamFlowController) (w : Flow)
    → sent w.stream ≤ total sent (front ++ (w.stream ∷ back))
sent-le-total front back w = omega (arith, total-append sent front (w.stream ∷ back))

-- What a step changes in the counts of a stream and of the connection.
record SameChange (w w' : Flow) : Type 0 where
  pub grows : highest w.stream ≤ highest w'.stream
  pub received :
      w'.connection.highest_received
      ≡ (w.connection.highest_received + (highest w'.stream - highest w.stream)) % 2 ^ 64
  pub sent_same :
      w'.connection.bytes_sent + sent w.stream ≡ w.connection.bytes_sent + sent w'.stream
  pub within : w'.connection.bytes_sent ≤ w'.connection.send_window
  pub small : w'.connection.send_window < 2 ^ 62

-- A step of one stream keeps the accounts if it changes the stream as much as the connection.
Accounts-focus :
    (front back : List StreamFlowController) (w w' : Flow)
    → (w.connection.highest_received < 2 ^ 64
        → sent w.stream ≤ w.connection.bytes_sent
        → w.connection.bytes_sent ≤ w.connection.send_window
        → w.connection.send_window < 2 ^ 62
        → SameChange w w')
    → Accounts (sys front back w)
    → Accounts (sys front back w')
Accounts-focus front back w w' change a =
    let c =
      change (omega (arith, a.received_total))
        (omega (arith, a.sent_total, sent-le-total front back w)) a.sent_within a.window_small in
    record {
      received_total = omega (
        arith,
        a.received_total,
        c.grows,
        c.received,
        total-append highest front (w.stream ∷ back),
        total-append highest front (w'.stream ∷ back),
      );
      sent_total = omega (
        arith,
        a.sent_total,
        c.sent_same,
        total-append sent front (w.stream ∷ back),
        total-append sent front (w'.stream ∷ back),
      );
      sent_within = c.within;
      window_small = c.small;
    }

module _ (w : Flow) (word : w.connection.highest_received < 2 ^ 64)
    (stream_sent : sent w.stream ≤ w.connection.bytes_sent)
    (within : w.connection.bytes_sent ≤ w.connection.send_window)
    (small : w.connection.send_window < 2 ^ 62) where
  receive_change :
      (offset : ℕ) (final : Bool)
      → offset < 2 ^ 62
      → (update_highest_received offset final w).1 ≡ none
      → SameChange w (update_highest_received offset final w).0
  unfolding update_highest_received
  receive_change offset final h e = ground arith

  send_change : (n : ℕ) → n ≤ stream_send_window_size w → SameChange w (stream_add_bytes_sent n w)
  unfolding stream_send_window_size stream_add_bytes_sent
  send_change n h = ground arith

  read_change : (env : Env) (n : ℕ) → SameChange w (stream_add_bytes_read env n w).0
  unfolding stream_add_bytes_read
  read_change env n = ground arith

  credit_change : (env : Env) → SameChange w (stream_get_window_update env w).0
  unfolding stream_get_window_update
  credit_change env = ground arith

  give_up_change : (env : Env) → SameChange w (abandon env w).0
  unfolding abandon
  give_up_change env = ground arith

connection_credit_change :
    (c : ConnectionFlowController) (env : Env)
    → let c' = (connection_get_window_update env c).0 in
      (c'.highest_received ≡ c.highest_received)
      × (c'.bytes_sent ≡ c.bytes_sent)
      × (c'.send_window ≡ c.send_window)
unfolding connection_get_window_update
connection_credit_change c env = ground arith

-- Every step keeps the accounts.
pub Step-Accounts : {y z : System} → Step y z → Accounts y → Accounts z
Step-Accounts (receive front back w offset final h e) a =
    Accounts-focus front back w _ (λ p q r s. receive_change w p q r s offset final h e) a
Step-Accounts (send front back w n h) a =
    Accounts-focus front back w _ (λ p q r s. send_change w p q r s n h) a
Step-Accounts (read front back w env n) a =
    Accounts-focus front back w _ (λ p q r s. read_change w p q r s env n) a
Step-Accounts (give_credit front back w env) a =
    Accounts-focus front back w _ (λ p q r s. credit_change w p q r s env) a
Step-Accounts (give_up front back w env) a =
    Accounts-focus front back w _ (λ p q r s. give_up_change w p q r s env) a
Step-Accounts (connection_credit streams c env) a =
    let (h, b, w) = connection_credit_change c env in
    record {
      received_total = h ∙ a.received_total;
      sent_total = b ∙ a.sent_total;
      sent_within = omega (arith, a.sent_within);
      window_small = omega (arith, a.window_small);
    }
Step-Accounts (raise_window streams c offset h) a = unfold update_send_window in ground arith
Step-Accounts (open_stream streams c id window most credit) a =
    unfold new_stream_flow_controller in
    record {
      received_total = omega (arith, a.received_total);
      sent_total = omega (arith, a.sent_total);
      sent_within = a.sent_within;
      window_small = a.window_small;
    }

-- However receiving, sending, reading, giving credit, MAX_DATA frames, giving up and opening
-- streams follow on one another, as long as no received offset is refused, received offsets and
-- those of MAX_DATA frames are below 2 ^ 62, and a stream never sends more at once than its
-- `SendWindowSize`: the bytes that the
-- connection counts as sent are the sum of what its streams sent, and lie within its window, and the
-- bytes that it counts as received are the sum of the streams' highest offsets, modulo 2 ^ 64.
pub Reach-Accounts :
    (receive_window max_receive_window : ℕ) {z : System}
    → Reach
        (record {
          streams = [];
          connection = new_connection_flow_controller receive_window max_receive_window;
        })
        z
    → Accounts z
Reach-Accounts receive_window max_receive_window here =
    unfold new_connection_flow_controller in omega arith
Reach-Accounts receive_window max_receive_window (next r st) =
    Step-Accounts st (Reach-Accounts receive_window max_receive_window r)

-- ===== src/Ackhandler/Tracker/Acked.antt =====
-- internal/ackhandler/received_packet_tracker.go: the ACK frame against the packets that were recorded.
use gt_bbr.Prelude.{
  ℕ, ◌+◌, ◌-◌, ◌≤◌, ◌<◌, ◌≡◌, refl, sym, ◌↔◌, ◌⊎◌, inl, inr, Bool, true, some, List, [], ◌∷◌, map,
  arith, ltb, leb, if◌then◌else◌, ltb→lt, Bool-cases,
}
use gt_bbr.Wire.AckFrame.{AckFrame, AckRange, validate_ack_ranges}
use gt_bbr.Wire.AckFrame.Acks.{acks_packet, acks_packet_iff, InRanges}
use gt_bbr.Ackhandler.PacketHistory.{
  PacketInterval, delete_below, get_ack_ranges, new_received_packet_history,
}
use gt_bbr.Ackhandler.PacketHistory.Order.{
  IsOrdered, Has, insert_packet-IsOrdered, insert_packet-Has,
}
use gt_bbr.Ackhandler.PacketHistory.Deleted.{delete_loop-IsOrdered, delete_loop-Has}
use gt_bbr.Ackhandler.Tracker.{
  ReceivedPacketTracker, new_received_packet_tracker, received_packet, accepted, too_many_ranges,
  ignore_below_packet, get_ack_frame,
}
use gt_bbr.Ackhandler.Tracker.Recording.{
  SameHistory, Recorded, accepted-Recorded, accepted-ignored, refused-SameHistory,
}

-- A tracker, and the log of the packet numbers that it recorded.
pub record State : Type 0 where
  pub tracker : ReceivedPacketTracker
  pub log : List ℕ

-- The number `q` was recorded.
abbrev pub Logged : ℕ → List ℕ → Type 0
Logged q [] = ⊥
Logged q (p ∷ ps) = (q ≡ p) ⊎ Logged q ps

pub data Step : State → State → Type 0 where
  receive :
      (min_rtt p rcv_time : ℕ) (should_instigate_ack : Bool) (t t' : ReceivedPacketTracker)
      (log : List ℕ)
      → received_packet min_rtt p rcv_time should_instigate_ack t ≡ accepted t'
      → Step
          (record { tracker = t; log = log })
          (record { tracker = t'; log = if ltb p t.ignore_below then log else p ∷ log })
  refuse :
      (min_rtt p rcv_time : ℕ) (should_instigate_ack : Bool) (t t' : ReceivedPacketTracker)
      (log : List ℕ)
      → received_packet min_rtt p rcv_time should_instigate_ack t ≡ too_many_ranges t'
      → Step (record { tracker = t; log = log }) (record { tracker = t'; log = log })
  ignore :
      (p : ℕ) (t : ReceivedPacketTracker) (log : List ℕ)
      → Step
          (record { tracker = t; log = log })
          (record { tracker = ignore_below_packet p t; log = log })
  acknowledge :
      (now : ℕ) (t : ReceivedPacketTracker) (log : List ℕ)
      → Step
          (record { tracker = t; log = log })
          (record { tracker = (get_ack_frame now t).0; log = log })

pub data Reach : State → Type 0 where
  start : Reach (record { tracker = new_received_packet_tracker; log = [] })
  next : {s t : State} → Reach s → Step s t → Reach t

pub record Tracks (s : State) : Type 0 where
  pub ordered : IsOrdered s.tracker.packet_history.ranges
  pub has :
      (q : ℕ)
      → Has q s.tracker.packet_history.ranges ↔ (Logged q s.log × (s.tracker.ignore_below ≤ q))
  pub same_limit : s.tracker.packet_history.lowest ≡ s.tracker.ignore_below

ignore_below_packet-Tracks :
    (p : ℕ) (t : ReceivedPacketTracker) (log : List ℕ)
    → Tracks (record { tracker = t; log = log })
    → Tracks (record { tracker = ignore_below_packet p t; log = log })
unfolding ignore_below_packet delete_below
ignore_below_packet-Tracks p t log k =
    let ranges = t.packet_history.ranges in
    elim (Bool-cases (leb p t.ignore_below)) [
      | inl h ↦ rw h k
      | inr h ↦
          rw (h, k.same_limit, h)
            (record {
              ordered = delete_loop-IsOrdered p ranges k.ordered;
              has = λ q. ground (arith, delete_loop-Has p q ranges k.ordered, k.has q);
              same_limit = refl;
            })
    ]

get_ack_frame-SameHistory :
    (now : ℕ) (t : ReceivedPacketTracker) → SameHistory t (get_ack_frame now t).0
unfolding get_ack_frame
get_ack_frame-SameHistory now t = ground arith

SameHistory-Tracks :
    (t t' : ReceivedPacketTracker) (log : List ℕ)
    → SameHistory t t'
    → Tracks (record { tracker = t; log = log })
    → Tracks (record { tracker = t'; log = log })
SameHistory-Tracks t t' log (a, b) k = record {
  ordered = rw a k.ordered;
  has = λ q. rw (a, b) (k.has q);
  same_limit = rw (a, b) k.same_limit;
}

Recorded-Tracks :
    (p : ℕ) (t t' : ReceivedPacketTracker) (log : List ℕ)
    → t.ignore_below ≤ p
    → Recorded p t t'
    → Tracks (record { tracker = t; log = log })
    → Tracks (record { tracker = t'; log = p ∷ log })
Recorded-Tracks p t t' log le (a, b, c) k = record {
  ordered = rw a (insert_packet-IsOrdered p _ k.ordered);
  has = λ q.
      rw (a, c) (ground (arith, insert_packet-Has p q t.packet_history.ranges k.ordered, k.has q));
  same_limit = rw (b, c) k.same_limit;
}

receive-Tracks :
    (r p rcv : ℕ) (i : Bool) (t t' : ReceivedPacketTracker) (log : List ℕ)
    → received_packet r p rcv i t ≡ accepted t'
    → Tracks (record { tracker = t; log = log })
    → Tracks (record { tracker = t'; log = if ltb p t.ignore_below then log else p ∷ log })
receive-Tracks r p rcv i t t' log e k = elim (Bool-cases (ltb p t.ignore_below)) [
  | inl h ↦ rw h (SameHistory-Tracks t t' log (accepted-ignored r p rcv i t t' e (ltb→lt _ _ h)) k)
  | inr h ↦
      let le : t.ignore_below ≤ p = ground arith in
      rw h (Recorded-Tracks p t t' log le (accepted-Recorded r p rcv i t t' e le) k)
]

Step-Tracks : (s t : State) → Step s t → Tracks s → Tracks t
Step-Tracks s t (receive r p rcv i a b log e) k = receive-Tracks r p rcv i a b log e k
Step-Tracks s t (refuse r p rcv i a b log e) k =
    SameHistory-Tracks a b log (refused-SameHistory r p rcv i a b e) k
Step-Tracks s t (ignore p a log) k = ignore_below_packet-Tracks p a log k
Step-Tracks s t (acknowledge now a log) k =
    SameHistory-Tracks a _ log (get_ack_frame-SameHistory now a) k

pub Reach-Tracks : (s : State) → Reach s → Tracks s
unfolding new_received_packet_tracker new_received_packet_history
Reach-Tracks s start = record { ordered = tt; has = λ q. ground arith; same_limit = refl }
Reach-Tracks s (next {s = r} {t = t} h e) = Step-Tracks r t e (Reach-Tracks r h)

-- The ranges of a frame that is made of intervals.
get_ack_ranges-InRanges :
    (rs : List PacketInterval) (q : ℕ)
    → InRanges (map (λ el. record { smallest = el.start; largest = el.end }) rs) q ↔ Has q rs
get_ack_ranges-InRanges [] q = ground arith
get_ack_ranges-InRanges (r ∷ rs) q = ground (arith, get_ack_ranges-InRanges rs q)

validate_ack_ranges_cons :
    (r s : AckRange) (rs : List AckRange)
    → r.smallest ≤ r.largest
    → s.largest + 1 < r.smallest
    → validate_ack_ranges (s ∷ rs) ≡ true
    → validate_ack_ranges (r ∷ s ∷ rs) ≡ true
unfolding validate_ack_ranges
validate_ack_ranges_cons r s rs a b c = ground arith

abbrev to_range : PacketInterval → AckRange
to_range el = record { smallest = el.start; largest = el.end }

get_ack_ranges-valid :
    (r : PacketInterval) (rs : List PacketInterval)
    → IsOrdered (r ∷ rs)
    → validate_ack_ranges (map to_range (r ∷ rs)) ≡ true
get_ack_ranges-valid r [] o = unfold validate_ack_ranges in ground arith
get_ack_ranges-valid r (s ∷ rs) o =
    validate_ack_ranges_cons (to_range r) (to_range s) (map to_range rs) o.0 o.1
      (get_ack_ranges-valid s rs o.2)

-- The frame of a tracker whose history is in order and not empty.
frame_of_history :
    (rs : List PacketInterval) (d q q' : ℕ)
    → IsOrdered rs
    → Has q' rs
    → let f : AckFrame = record { ack_ranges = map to_range rs; delay_time = d } in
      (validate_ack_ranges f.ack_ranges ≡ true) × ((acks_packet f q ≡ true) ↔ Has q rs)
frame_of_history [] d q q' o h = elim h [ ]
frame_of_history (r ∷ rs) d q q' o h =
    let valid = get_ack_ranges-valid r rs o in
    let f : AckFrame = record { ack_ranges = map to_range (r ∷ rs); delay_time = d } in
    let (a, b) = acks_packet_iff f q valid in
    let (c, e) = get_ack_ranges-InRanges (r ∷ rs) q in (valid, (λ h. c (a h), λ h. b (e h)))

get_ack_frame-some :
    (now : ℕ) (t : ReceivedPacketTracker) (f : AckFrame)
    → (get_ack_frame now t).1 ≡ some f
    → record {
      ack_ranges = map to_range t.packet_history.ranges;
      delay_time = now - t.largest_observed_received_time;
    }
      ≡ f
unfolding get_ack_frame get_ack_ranges
get_ack_frame-some now t f e = ground arith

-- After any sequence of calls, while a recorded packet number is not below the limit of `IgnoreBelow`:
-- a frame that `GetAckFrame` returns has valid ranges, and it acknowledges exactly the packet
-- numbers that were recorded and are not below the limit.
pub get_ack_frame_exact :
    (s : State) (now q q' : ℕ) (f : AckFrame)
    → Reach s
    → Logged q' s.log
    → s.tracker.ignore_below ≤ q'
    → (get_ack_frame now s.tracker).1 ≡ some f
    → (validate_ack_ranges f.ack_ranges ≡ true)
      × ((acks_packet f q ≡ true) ↔ (Logged q s.log × (s.tracker.ignore_below ≤ q)))
get_ack_frame_exact s now q q' f reach logged le e =
    let k = Reach-Tracks s reach in
    let t = s.tracker in
    let (valid, (to, from)) =
      frame_of_history t.packet_history.ranges (now - t.largest_observed_received_time) q q'
        k.ordered ((k.has q').1 (logged, le)) in
    let (c, d) = k.has q in
    rw (sym (get_ack_frame-some now t f e)) (valid, (λ h. c (to h), λ h. from (d h)))

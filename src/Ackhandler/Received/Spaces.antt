-- ===== src/Ackhandler/Received/Spaces.antt =====
-- internal/ackhandler/received_packet_handler.go: the spaces do not influence each other.
use gt_bbr.Prelude.{
  ℕ, ◌≡◌, refl, sym, ap, ◌∙◌, Bool, true, Option, none, some, List, [], ◌∷◌, if◌then◌else◌, arith,
  Option-cases, Bool-cases, inl, inr,
}
use gt_bbr.Wire.AckFrame.{AckFrame}
use gt_bbr.Wire.FrameParser.{EncryptionLevel, unspecified, initial, handshake, one_rtt, is_level}
use gt_bbr.Ackhandler.Tracker
use gt_bbr.Ackhandler.Tracker.{
  ReceivedPacketTracker, Received, accepted, too_many_ranges, panicked, ignore_below_packet,
  get_ack_frame,
}
use gt_bbr.Ackhandler.Received.{
  ReceivedPacketHandler, put_back, received_on, handler_received_packet, handler_ignore_below,
  drop_received, without_delay, ack_on, handler_get_ack_frame,
}
use gt_bbr.Ackhandler.Received.Calls.{
  Op, receive, ignore, drop_keys, acknowledge, handler_of, call, run, tracker_at, at_once,
  tracker_of, track, is_for, replay, reported,
}

put_back-tracker :
    (f : ReceivedPacketTracker → ReceivedPacketHandler) (r : Received) (h : ReceivedPacketHandler)
    → handler_of (put_back f r) ≡ some h
    → (t : ReceivedPacketTracker) × (h ≡ f t) × (tracker_of r ≡ some t)
unfolding put_back handler_of tracker_of
put_back-tracker f (accepted t) h e = (t, ground (arith, e), refl)
put_back-tracker f (too_many_ranges t) h e = (t, ground (arith, e), refl)
put_back-tracker f panicked h e = ground (arith, e)

received_on-tracker :
    (f : ReceivedPacketTracker → ReceivedPacketHandler) (m pn r : ℕ) (i : Bool)
    (l : EncryptionLevel) (o : Option ReceivedPacketTracker) (h : ReceivedPacketHandler)
    → handler_of (received_on f m pn r i o) ≡ some h
    → (t : ReceivedPacketTracker) × (h ≡ f t) × (track (receive m pn l r i) o ≡ some t)
unfolding received_on handler_of track
received_on-tracker f m pn r i l none h e = ground (arith, e)
received_on-tracker f m pn r i l (some t) h e =
    put_back-tracker f (Tracker.received_packet m pn r i t) h e

initial-at :
    (level : EncryptionLevel) (h : ReceivedPacketHandler) (o : Option ReceivedPacketTracker)
    → tracker_at level (record h { initial_packets = o })
      ≡ (if is_level level initial then o else tracker_at level h)
unfolding tracker_at
initial-at unspecified h o = refl
initial-at initial h o = refl
initial-at handshake h o = refl
initial-at one_rtt h o = refl

handshake-at :
    (level : EncryptionLevel) (h : ReceivedPacketHandler) (o : Option ReceivedPacketTracker)
    → tracker_at level (record h { handshake_packets = o })
      ≡ (if is_level level handshake then o else tracker_at level h)
unfolding tracker_at
handshake-at unspecified h o = refl
handshake-at initial h o = refl
handshake-at handshake h o = refl
handshake-at one_rtt h o = refl

one_rtt-at :
    (level : EncryptionLevel) (h : ReceivedPacketHandler) (t : ReceivedPacketTracker)
    → tracker_at level (record h { one_rtt_packets = t })
      ≡ (if is_level level one_rtt then some t else tracker_at level h)
unfolding tracker_at
one_rtt-at unspecified h t = refl
one_rtt-at initial h t = refl
one_rtt-at handshake h t = refl
one_rtt-at one_rtt h t = refl

-- A level after a call that leaves a tracker `o` on the level `l`.
abbrev after :
    EncryptionLevel
    → EncryptionLevel
    → ReceivedPacketHandler
    → Option ReceivedPacketTracker
    → Option ReceivedPacketTracker
after level l h o = if is_level level l then o else tracker_at level h

is_level-eq : (level l : EncryptionLevel) → is_level level l ≡ true → level ≡ l
is_level-eq level l e = ground (arith, e)

-- The tracker at the level that is equal is the one at the other.
after-own :
    (level l : EncryptionLevel) (h : ReceivedPacketHandler)
    (f : Option ReceivedPacketTracker → Option ReceivedPacketTracker)
    → after level l h (f (tracker_at l h))
      ≡ (if is_level level l then f (tracker_at level h) else tracker_at level h)
after-own level l h f = elim (Bool-cases (is_level level l)) [
  | inl e ↦ rw (e, ap (λ x. f (tracker_at x h)) (sym (is_level-eq level l e)))
  | inr e ↦ rw (e)
]

unspecified-at :
    (level : EncryptionLevel) (h : ReceivedPacketHandler)
    → tracker_at level h ≡ after level unspecified h none
unfolding tracker_at
unspecified-at unspecified h = refl
unspecified-at initial h = refl
unspecified-at handshake h = refl
unspecified-at one_rtt h = refl

same_handler : {h h' : ReceivedPacketHandler} → some h ≡ some h' → h' ≡ h
same_handler e = ground (arith, e)

track-drop_keys :
    (l : EncryptionLevel) (o : Option ReceivedPacketTracker) → track (drop_keys l) o ≡ none
unfolding track
track-drop_keys l none = refl
track-drop_keys l (some t) = refl

-- The code's way to clear the delay, and the specification's.
without_delay-at_once : (x : ReceivedPacketTracker × Option AckFrame) → without_delay x ≡ at_once x
unfolding without_delay at_once
without_delay-at_once (t, none) = refl
without_delay-at_once (t, some f) = refl

ack_on-initial :
    (f : Option ReceivedPacketTracker → ReceivedPacketHandler) (now : ℕ)
    (o : Option ReceivedPacketTracker)
    → ack_on f now o ≡ (f (track (acknowledge now initial) o), reported initial now o)
unfolding ack_on track reported
ack_on-initial f now none = refl
ack_on-initial f now (some t) =
    ap (λ x. (f (some x.0), x.1)) (without_delay-at_once (get_ack_frame now t))

ack_on-handshake :
    (f : Option ReceivedPacketTracker → ReceivedPacketHandler) (now : ℕ)
    (o : Option ReceivedPacketTracker)
    → ack_on f now o ≡ (f (track (acknowledge now handshake) o), reported handshake now o)
unfolding ack_on track reported
ack_on-handshake f now none = refl
ack_on-handshake f now (some t) =
    ap (λ x. (f (some x.0), x.1)) (without_delay-at_once (get_ack_frame now t))

receive-Own :
    (level l : EncryptionLevel) (m pn r : ℕ) (i : Bool) (h h' : ReceivedPacketHandler)
    → handler_of (handler_received_packet m pn l r i h) ≡ some h'
    → tracker_at level h' ≡ after level l h (track (receive m pn l r i) (tracker_at l h))
unfolding handler_received_packet tracker_at handler_of track
receive-Own level initial m pn r i h h' e =
    let (t, eh, et) =
      received_on-tracker (λ t. record h { initial_packets = some t }) m pn r i initial
        h.initial_packets h' e in
    ap (tracker_at level) eh ∙ initial-at level h (some t) ∙ ap (after level initial h) (sym et)
receive-Own level handshake m pn r i h h' e =
    let (t, eh, et) =
      received_on-tracker (λ t. record h { handshake_packets = some t }) m pn r i handshake
        h.handshake_packets h' e in
    ap (tracker_at level) eh ∙ handshake-at level h (some t) ∙ ap (after level handshake h) (sym et)
receive-Own level one_rtt m pn r i h h' e =
    let (t, eh, et) =
      received_on-tracker (λ t. record h { one_rtt_packets = t }) m pn r i one_rtt
        (some h.one_rtt_packets) h' e in
    ap (tracker_at level) eh ∙ one_rtt-at level h t ∙ ap (after level one_rtt h) (sym et)
receive-Own level unspecified m pn r i h h' e =
    ap (tracker_at level) (same_handler e) ∙ unspecified-at level h

ack-Own :
    (level l : EncryptionLevel) (now : ℕ) (h : ReceivedPacketHandler)
    → tracker_at level (handler_get_ack_frame now l h).0
      ≡ after level l h (track (acknowledge now l) (tracker_at l h))
unfolding handler_get_ack_frame tracker_at track
ack-Own level initial now h =
    ap (λ x. tracker_at level x.0)
      (ack_on-initial (λ t. record h { initial_packets = t }) now h.initial_packets)
    ∙ initial-at level h (track (acknowledge now initial) h.initial_packets)
ack-Own level handshake now h =
    ap (λ x. tracker_at level x.0)
      (ack_on-handshake (λ t. record h { handshake_packets = t }) now h.handshake_packets)
    ∙ handshake-at level h (track (acknowledge now handshake) h.handshake_packets)
ack-Own level one_rtt now h = one_rtt-at level h (get_ack_frame now h.one_rtt_packets).0
ack-Own level unspecified now h = unspecified-at level h

drop-Own :
    (level l : EncryptionLevel) (h h' : ReceivedPacketHandler)
    → drop_received l h ≡ some h'
    → tracker_at level h' ≡ after level l h (track (drop_keys l) (tracker_at l h))
unfolding drop_received tracker_at
drop-Own level initial h h' e =
    ap (tracker_at level) (same_handler e)
    ∙ initial-at level h none
    ∙ ap (after level initial h) (sym (track-drop_keys initial h.initial_packets))
drop-Own level handshake h h' e =
    ap (tracker_at level) (same_handler e)
    ∙ handshake-at level h none
    ∙ ap (after level handshake h) (sym (track-drop_keys handshake h.handshake_packets))
drop-Own level one_rtt h h' e = ground (arith, e)
drop-Own level unspecified h h' e = ground (arith, e)

ignore-Own :
    (level : EncryptionLevel) (pn : ℕ) (h : ReceivedPacketHandler)
    → tracker_at level (handler_ignore_below pn h)
      ≡ after level one_rtt h (track (ignore pn) (tracker_at one_rtt h))
unfolding handler_ignore_below tracker_at track
ignore-Own level pn h = one_rtt-at level h (ignore_below_packet pn h.one_rtt_packets)

call-Own :
    (level : EncryptionLevel) (op : Op) (h h' : ReceivedPacketHandler)
    → call op h ≡ some h'
    → tracker_at level h'
      ≡ (if is_for level op then track op (tracker_at level h) else tracker_at level h)
unfolding call is_for
call-Own level (receive m pn l r i) h h' e =
    receive-Own level l m pn r i h h' e ∙ after-own level l h (track (receive m pn l r i))
call-Own level (ignore pn) h h' e =
    ap (tracker_at level) (same_handler e)
    ∙ ignore-Own level pn h
    ∙ after-own level one_rtt h (track (ignore pn))
call-Own level (drop_keys l) h h' e =
    drop-Own level l h h' e ∙ after-own level l h (track (drop_keys l))
call-Own level (acknowledge now l) h h' e =
    ap (tracker_at level) (same_handler e)
    ∙ ack-Own level l now h
    ∙ after-own level l h (track (acknowledge now l))

run-next :
    (op : Op) (ops : List Op) (h h' : ReceivedPacketHandler)
    → run (op ∷ ops) h ≡ some h'
    → (h1 : ReceivedPacketHandler) × (call op h ≡ some h1) × (run ops h1 ≡ some h')
unfolding run
run-next op ops h h' e = elim (Option-cases (call op h)) [
  | inl n ↦ ground (arith, n, e)
  | inr (h1, g) ↦ (h1, g, ground (arith, g, e))
]

run-Own :
    (level : EncryptionLevel) (ops : List Op) (h h' : ReceivedPacketHandler)
    → run ops h ≡ some h'
    → tracker_at level h' ≡ replay level ops (tracker_at level h)
unfolding run replay
run-Own level [] h h' e = ap (tracker_at level) (same_handler e)
run-Own level (op ∷ ops) h h' e =
    let (h1, g, r) = run-next op ops h h' e in
    run-Own level ops h1 h' r ∙ ap (replay level ops) (call-Own level op h h1 g)

frame-reported :
    (level : EncryptionLevel) (now : ℕ) (h : ReceivedPacketHandler)
    → (handler_get_ack_frame now level h).1 ≡ reported level now (tracker_at level h)
unfolding handler_get_ack_frame tracker_at reported
frame-reported initial now h =
    ap (λ x. x.1) (ack_on-initial (λ t. record h { initial_packets = t }) now h.initial_packets)
frame-reported handshake now h =
    ap (λ x. x.1)
      (ack_on-handshake (λ t. record h { handshake_packets = t }) now h.handshake_packets)
frame-reported one_rtt now h = refl
frame-reported unspecified now h = refl

-- The three spaces do not influence each other: after any calls that do not panic, the tracker of
-- each level is a tracker on which only the calls for that level were made, and the ACK frame that
-- the handler gives at the level is the one of that tracker, with a delay of 0 except on 1-RTT.
pub spaces_are_separate :
    (level : EncryptionLevel) (ops : List Op) (now : ℕ) (h h' : ReceivedPacketHandler)
    → run ops h ≡ some h'
    → (tracker_at level h' ≡ replay level ops (tracker_at level h))
      × ((handler_get_ack_frame now level h').1
          ≡ reported level now (replay level ops (tracker_at level h)))
spaces_are_separate level ops now h h' e =
    let o = run-Own level ops h h' e in (o, frame-reported level now h' ∙ ap (reported level now) o)

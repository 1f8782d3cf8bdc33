-- ===== src/Ackhandler/Sent/Accounting/Losses.antt =====
-- internal/ackhandler/sent_packet_handler.go: the bytes in flight, when packets are lost or queued.
use gt_bbr.Utils.VarInt.{u64}
use gt_bbr.Ackhandler.Sent.Loss.{
  queue_packet_for_retransmission, update_history, subtract_lost, above_largest, scan_packets,
  scan_turn, scan_time, Scan, queue_packets_for_retransmission, lose_packet, lose_packets,
  scan_packets,
}
use gt_bbr.Prelude.{
  ℕ, ◌-◌, ◌<◌, ◌≡◌, refl, sym, ap, ◌∙◌, subst, inl, inr, Bool, true, false, Option, List, [], ◌∷◌,
  ◌++◌, arith, ltb, if◌then◌else◌, All,
}
use gt_bbr.Prelude.Reader.{bind-ok, if-ok, Result, ok, ◌>>=◌}
use gt_bbr.Wire.FrameParser.{EncryptionLevel}
use gt_bbr.Ackhandler.SentHistory.{
  Packet, history_remove, mark_cannot_be_retransmitted, find_packet,
}
use gt_bbr.Ackhandler.Sent.{PacketNumberSpace, SentPacketHandler, get_packet_number_space, u64}
use gt_bbr.Ackhandler.Sent.Bytes.{
  size, size_at, same-list_bytes, same-size_at, remove-bytes, remove-size_at,
}
use gt_bbr.Ackhandler.Sent.Acked.Fuel.{IsSame, mark-IsSame, shape}
use gt_bbr.Ackhandler.SentHistory.Outstanding.{Above, IsAscending}
use gt_bbr.Ackhandler.Sent.Accounting.{
  total, IsCounted, IsOwed, update-Updated, ok-injective, subtract-IsOwed, subtract-spaces,
  take-IsCounted, get-spaces,
}

-- A packet is queued: the totals and the shape of the space stay.
pub record Queued (level : EncryptionLevel) (h h' : SentPacketHandler) : Type 0 where
  pub space : PacketNumberSpace
  pub space' : PacketNumberSpace
  pub found : get_packet_number_space level h ≡ ok space
  pub found' : get_packet_number_space level h' ≡ ok space'
  pub same : IsSame space.history space'.history
  pub totals : total h' ≡ total h
  pub bytes : h'.bytes_in_flight ≡ h.bytes_in_flight

pub queue-Queued :
    (level : EncryptionLevel) (p : Packet) (h h' : SentPacketHandler)
    → queue_packet_for_retransmission level p h ≡ ok h'
    → Queued level h h'
unfolding queue_packet_for_retransmission
queue-Queued level p h h' e =
    let f = mark_cannot_be_retransmitted p.packet_number in
    let go_on : SentPacketHandler → Result SentPacketHandler =
      λ k. ok (record k { retransmission_queue = k.retransmission_queue ++ (p ∷ []) }) in
    let chain : (update_history level f h >>= go_on) ≡ ok h' = ground (arith, e) in
    let (h1, e1, e2) = bind-ok (update_history level f h) go_on h' chain in
    let u = update-Updated level f h h1 e1 in
    let s' : PacketNumberSpace = record u.space { history = u.history } in
    let s = mark-IsSame p.packet_number u.space.history u.history u.changed in
    let h2 : SentPacketHandler = record h1 {
      retransmission_queue = h1.retransmission_queue ++ (p ∷ []);
    } in
    let same : h2 ≡ h' = ground (arith, e2) in
    let kept : total h1 ≡ total h =
      omega (arith, u.totals, same-list_bytes u.space.history u.history s) in
    record {
      space = u.space;
      space' = s';
      found = u.found;
      found' = ap (get_packet_number_space level) (sym same) ∙ get-spaces level h1 h2 refl ∙ u.now;
      same = s;
      totals = ap total (sym same) ∙ kept;
      bytes = ap (λ k. k.bytes_in_flight) (sym same) ∙ u.bytes;
    }

pub queue-IsCounted :
    (level : EncryptionLevel) (p : Packet) (h h' : SentPacketHandler)
    → queue_packet_for_retransmission level p h ≡ ok h'
    → IsCounted h
    → IsCounted h'
queue-IsCounted level p h h' e c =
    let q = queue-Queued level p h h' e in q.bytes ∙ c ∙ ap u64 (sym q.totals)

pub queue_packets-IsCounted :
    (level : EncryptionLevel) (ps : List Packet) (h h' : SentPacketHandler)
    → queue_packets_for_retransmission level ps h ≡ ok h'
    → IsCounted h
    → IsCounted h'
unfolding queue_packets_for_retransmission
queue_packets-IsCounted level [] h h' e c =
    let same : h ≡ h' = ground (arith, e) in subst IsCounted same c
queue_packets-IsCounted level (p ∷ ps) h h' e c =
    let (h1, e1, e2) = bind-ok (queue_packet_for_retransmission level p h) _ h' e in
    queue_packets-IsCounted level ps h1 h' e2 (queue-IsCounted level p h h1 e1 c)

-- What losing a packet of a space leaves: the other packets of the space have the same sizes.
pub record Lost (level : EncryptionLevel) (p : Packet) (s : PacketNumberSpace)
    (h' : SentPacketHandler) : Type 0 where
  pub space : PacketNumberSpace
  pub found : get_packet_number_space level h' ≡ ok space
  pub others :
      (m : ℕ)
      → p.packet_number < m
      → size_at m space.history.packet_list ≡ size_at m s.history.packet_list
  pub counted : IsCounted h'

-- A packet that is subtracted is removed from a space of the same shape.
remove-Lost :
    (level : EncryptionLevel) (p : Packet) (s t : PacketNumberSpace) (h h' : SentPacketHandler)
    → get_packet_number_space level h ≡ ok t
    → IsSame s.history t.history
    → size_at p.packet_number s.history.packet_list ≡ size p
    → update_history level (history_remove p.packet_number) h ≡ ok h'
    → IsOwed p h
    → Lost level p s h'
remove-Lost level p s t h h' et k z e owed =
    let n = p.packet_number in
    let u = update-Updated level (history_remove n) h h' e in
    let same = ok-injective level h t u.space et u.found in
    record {
      space = record u.space { history = u.history };
      found = u.now;
      others = λ m lt.
          remove-size_at m n u.space.history u.history (λ eq. omega (arith, eq, lt)) u.changed
          ∙ ap (λ x. size_at m x.history.packet_list) (sym same)
          ∙ same-size_at m s.history t.history k;
      counted =
          take-IsCounted level p (history_remove n) t h h' et
            (same-size_at n s.history t.history k ∙ z) (remove-bytes n) e owed;
    }

lose-Lost :
    (level : EncryptionLevel) (p : Packet) (s : PacketNumberSpace) (h h' : SentPacketHandler)
    → get_packet_number_space level h ≡ ok s
    → size_at p.packet_number s.history.packet_list ≡ size p
    → lose_packet level p h ≡ ok h'
    → IsCounted h
    → Lost level p s h'
unfolding lose_packet
lose-Lost level p s h h' es z e c =
    let h0 = subtract_lost p h in
    let queued = queue_packet_for_retransmission level p h0 in
    let (h1, e1, e2) = bind-ok (if p.can_be_retransmitted then queued else ok h0) _ h' e in
    let there = get-spaces level h h0 (subtract-spaces p h) ∙ es in
    let owed = subtract-IsOwed p h c in
    elim (if-ok p.can_be_retransmitted queued (ok h0) h1 e1) [
      | inl q ↦
          let k = queue-Queued level p h0 h1 q in
          let same = ok-injective level h0 s k.space there k.found in
          remove-Lost level p s k.space' h1 h' k.found'
            (k.same ∙ ap (λ x. shape x.history.packet_list) (sym same)) z e2
            (λ r t. k.bytes ∙ owed r (sym k.totals ∙ t))
      | inr k ↦
          let same : h0 ≡ h1 = ground (arith, k) in
          remove-Lost level p s s h1 h' (ap (get_packet_number_space level) (sym same) ∙ there) refl
            z e2 (subst (IsOwed p) same owed)
    ]

-- Lost packets with ascending numbers, each with its size in a space.
abbrev pub Sized : List Packet → List Packet → Type 0
Sized ps qs = All (λ p. size_at p.packet_number qs ≡ size p) ps

Sized-transfer :
    (n : ℕ) (ps qs rs : List Packet)
    → ((m : ℕ) → n < m → size_at m rs ≡ size_at m qs)
    → Above n ps
    → Sized ps qs
    → Sized ps rs
Sized-transfer n [] qs rs f a z = z
Sized-transfer n (p ∷ ps) qs rs f (lt, a) (e, z) =
    (f p.packet_number lt ∙ e, Sized-transfer n ps qs rs f a z)

pub lose_packets-IsCounted :
    (level : EncryptionLevel) (ps : List Packet) (s : PacketNumberSpace) (h h' : SentPacketHandler)
    → get_packet_number_space level h ≡ ok s
    → Sized ps s.history.packet_list
    → IsAscending ps
    → lose_packets level ps h ≡ ok h'
    → IsCounted h
    → IsCounted h'
unfolding lose_packets
lose_packets-IsCounted level [] s h h' es z a e c =
    let same : h ≡ h' = ground (arith, e) in subst IsCounted same c
lose_packets-IsCounted level (p ∷ ps) s h h' es (zp, z) (above, a) e c =
    let (h1, e1, e2) = bind-ok (lose_packet level p h) _ h' e in
    let l = lose-Lost level p s h h1 es zp e1 c in
    lose_packets-IsCounted level ps l.space h1 h' l.found
      (Sized-transfer p.packet_number ps s.history.packet_list l.space.history.packet_list l.others
        above z)
      a e2 l.counted

turn-Above :
    (x y : Bool) (time n : ℕ) (p : Packet) (rest : Scan)
    → n < p.packet_number
    → Above n rest.lost
    → Above n (scan_turn x y time p rest).lost
turn-Above true y time n p rest lt a = tt
turn-Above false true time n p rest lt a = (lt, a)
turn-Above false false time n p rest lt a = a

-- The packets that the scan finds, of a history in ascending order.
scan-Above :
    (now d : ℕ) (one : Bool) (largest : Option ℕ) (time n : ℕ) (ps : List Packet)
    → Above n ps
    → Above n (scan_packets now d one largest time ps).lost
scan-Above now d one largest time n [] a = a
scan-Above now d one largest time n (p ∷ ps) (lt, a) =
    let t = scan_time now d one time p in
    turn-Above (above_largest p.packet_number largest) (ltb d (now - p.send_time)) time n p
      (scan_packets now d one largest t ps) lt (scan-Above now d one largest t n ps a)

turn-IsAscending :
    (x y : Bool) (time : ℕ) (p : Packet) (rest : Scan)
    → Above p.packet_number rest.lost
    → IsAscending rest.lost
    → IsAscending (scan_turn x y time p rest).lost
turn-IsAscending true y time p rest a s = tt
turn-IsAscending false true time p rest a s = (a, s)
turn-IsAscending false false time p rest a s = s

pub scan-IsAscending :
    (now d : ℕ) (one : Bool) (largest : Option ℕ) (time : ℕ) (ps : List Packet)
    → IsAscending ps
    → IsAscending (scan_packets now d one largest time ps).lost
scan-IsAscending now d one largest time [] a = a
scan-IsAscending now d one largest time (p ∷ ps) (above, a) =
    let t = scan_time now d one time p in
    turn-IsAscending (above_largest p.packet_number largest) (ltb d (now - p.send_time)) time p
      (scan_packets now d one largest t ps)
      (scan-Above now d one largest t p.packet_number ps above)
      (scan-IsAscending now d one largest t ps a)

size_at-cons :
    (m : ℕ) (p : Packet) (ps : List Packet)
    → p.packet_number < m
    → size_at m (p ∷ ps) ≡ size_at m ps
unfolding find_packet
size_at-cons m p ps lt = ground (arith, lt)

size_at-head : (p : Packet) (ps : List Packet) → size_at p.packet_number (p ∷ ps) ≡ size p
unfolding find_packet
size_at-head p ps = ground arith

turn-Sized :
    (x y : Bool) (time : ℕ) (p : Packet) (rest : Scan) (ps : List Packet)
    → Sized rest.lost (p ∷ ps)
    → Sized (scan_turn x y time p rest).lost (p ∷ ps)
turn-Sized true y time p rest ps z = tt
turn-Sized false true time p rest ps z = (size_at-head p ps, z)
turn-Sized false false time p rest ps z = z

pub scan-Sized :
    (now d : ℕ) (one : Bool) (largest : Option ℕ) (time : ℕ) (ps : List Packet)
    → IsAscending ps
    → Sized (scan_packets now d one largest time ps).lost ps
scan-Sized now d one largest time [] a = tt
scan-Sized now d one largest time (p ∷ ps) (above, a) =
    let t = scan_time now d one time p in
    let rest = scan_packets now d one largest t ps in
    turn-Sized (above_largest p.packet_number largest) (ltb d (now - p.send_time)) time p rest ps (
      Sized-transfer p.packet_number rest.lost ps (p ∷ ps) (λ m lt. size_at-cons m p ps lt)
        (scan-Above now d one largest t p.packet_number ps above)
        (scan-Sized now d one largest t ps a))

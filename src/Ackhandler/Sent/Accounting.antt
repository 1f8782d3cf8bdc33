-- ===== src/Ackhandler/Sent/Accounting.antt =====
-- internal/ackhandler/sent_packet_handler.go: the bytes in flight, over the three spaces: what a change
-- of a space and a lost packet do to them.
pub mod Losses
pub mod Ordered
pub mod Acknowledged
pub mod Sent
pub mod Traces
use gt_bbr.Utils.VarInt.{u64}
use gt_bbr.Prelude.{
  ℕ, ◌+◌, ◌-◌, ◌≡◌, refl, sym, ap, ◌∙◌, subst, inl, inr, Option, none, some, arith, if◌then◌else◌,
  Option-cases, length, take,
}
use gt_bbr.Prelude.Reader.{bind-ok, Result, ok}
use gt_bbr.Wire.FrameParser.{EncryptionLevel, unspecified, initial, handshake, one_rtt}
use gt_bbr.Ackhandler.SentHistory.{Packet, SentPacketHistory, get_packet, find_packet}
use gt_bbr.Ackhandler.Sent.{
  PacketNumberSpace, SentPacketHandler, get_packet_number_space, set_packet_number_space, sub_word,
  present, u64,
}
use gt_bbr.Ackhandler.Sent.Bytes.{
  size_of, list_bytes, size, size_at, forget_acked-bytes, detach-bytes, detach-size_at,
}
use gt_bbr.Ackhandler.Sent.Acked
use gt_bbr.Ackhandler.Sent.Acked.{detach, forget_acked}
use gt_bbr.Ackhandler.Sent.Acked.Fuel.{found-number}
use gt_bbr.Ackhandler.Sent.Loss.{update_history, subtract_lost}

abbrev pub space_bytes : Option PacketNumberSpace → ℕ
space_bytes none = 0
space_bytes (some s) = list_bytes s.history.packet_list

abbrev pub total : SentPacketHandler → ℕ
total h =
    space_bytes h.initial_packets
    + space_bytes h.handshake_packets
    + list_bytes h.one_rtt_packets.history.packet_list

abbrev pub IsCounted : SentPacketHandler → Type 0
IsCounted h = h.bytes_in_flight ≡ u64 (total h)

abbrev pub spaces :
    SentPacketHandler → Option PacketNumberSpace × Option PacketNumberSpace × PacketNumberSpace
spaces h = (h.initial_packets, h.handshake_packets, h.one_rtt_packets)

pub set-total :
    (level : EncryptionLevel) (s t : PacketNumberSpace) (h : SentPacketHandler)
    → get_packet_number_space level h ≡ ok s
    → total (set_packet_number_space level t h) + list_bytes s.history.packet_list
      ≡ total h + list_bytes t.history.packet_list
unfolding get_packet_number_space set_packet_number_space
set-total unspecified s t h e = absurd (ground (arith, e))
set-total one_rtt s t h e =
    let same : h.one_rtt_packets ≡ s = ground (arith, e) in
    omega (arith, ap (λ k. list_bytes k.history.packet_list) same)
set-total initial s t h e = elim (Option-cases h.initial_packets) [
  | inl n ↦ absurd (ground (arith, e, n))
  | inr (k, n) ↦
      let same : k ≡ s = ground (arith, e, n) in
      omega (arith, ap space_bytes n, ap (λ k. list_bytes k.history.packet_list) same)
]
set-total handshake s t h e = elim (Option-cases h.handshake_packets) [
  | inl n ↦ absurd (ground (arith, e, n))
  | inr (k, n) ↦
      let same : k ≡ s = ground (arith, e, n) in
      omega (arith, ap space_bytes n, ap (λ k. list_bytes k.history.packet_list) same)
]

pub set-get :
    (level : EncryptionLevel) (s t : PacketNumberSpace) (h : SentPacketHandler)
    → get_packet_number_space level h ≡ ok s
    → get_packet_number_space level (set_packet_number_space level t h) ≡ ok t
unfolding get_packet_number_space set_packet_number_space
set-get unspecified s t h e = absurd (ground (arith, e))
set-get initial s t h e = refl
set-get handshake s t h e = refl
set-get one_rtt s t h e = refl

pub set-bytes :
    (level : EncryptionLevel) (t : PacketNumberSpace) (h : SentPacketHandler)
    → (set_packet_number_space level t h).bytes_in_flight ≡ h.bytes_in_flight
unfolding set_packet_number_space
set-bytes unspecified t h = refl
set-bytes initial t h = refl
set-bytes handshake t h = refl
set-bytes one_rtt t h = refl

pub get-spaces :
    (level : EncryptionLevel) (h h' : SentPacketHandler)
    → spaces h' ≡ spaces h
    → get_packet_number_space level h' ≡ get_packet_number_space level h
unfolding get_packet_number_space
get-spaces unspecified h h' e = refl
get-spaces initial h h' e = ap (λ v. present v.0) e
get-spaces handshake h h' e = ap (λ v. present v.1) e
get-spaces one_rtt h h' e =
    let same : h'.one_rtt_packets ≡ h.one_rtt_packets = ap (λ v. v.2) e in ap ok same

-- What a change of a history that succeeds does.
pub record Updated (level : EncryptionLevel) (f : SentPacketHistory → Result SentPacketHistory)
    (h h' : SentPacketHandler) : Type 0 where
  pub space : PacketNumberSpace
  pub history : SentPacketHistory
  pub found : get_packet_number_space level h ≡ ok space
  pub changed : f space.history ≡ ok history
  pub now : get_packet_number_space level h' ≡ ok (record space { history = history })
  pub totals :
      total h' + list_bytes space.history.packet_list ≡ total h + list_bytes history.packet_list
  pub bytes : h'.bytes_in_flight ≡ h.bytes_in_flight

pub update-Updated :
    (level : EncryptionLevel) (f : SentPacketHistory → Result SentPacketHistory)
    (h h' : SentPacketHandler)
    → update_history level f h ≡ ok h'
    → Updated level f h h'
unfolding update_history
update-Updated level f h h' e =
    let (s, es, e1) = bind-ok (get_packet_number_space level h) _ h' e in
    let (t, et, e2) = bind-ok (f s.history) _ h' e1 in
    let s1 : PacketNumberSpace = record s { history = t } in
    let same : set_packet_number_space level s1 h ≡ h' = ground (arith, e2) in
    record {
      space = s;
      history = t;
      found = es;
      changed = et;
      now = ap (get_packet_number_space level) (sym same) ∙ set-get level s s1 h es;
      totals =
          ap (λ k. total k + list_bytes s.history.packet_list) (sym same)
          ∙ set-total level s s1 h es;
      bytes = ap (λ k. k.bytes_in_flight) (sym same) ∙ set-bytes level s1 h;
    }

pub sub_word-u64 : (b x r : ℕ) → b ≡ u64 (x + r) → sub_word b x ≡ u64 r
sub_word-u64 b x r e = omega (arith, e)

pub subtract-bytes :
    (p : Packet) (h : SentPacketHandler) (r : ℕ)
    → h.bytes_in_flight ≡ u64 (size p + r)
    → (subtract_lost p h).bytes_in_flight ≡ u64 r
unfolding subtract_lost
subtract-bytes p h r e = ground (arith, e, sub_word-u64 h.bytes_in_flight p.length r)

pub subtract-spaces : (p : Packet) (h : SentPacketHandler) → spaces (subtract_lost p h) ≡ spaces h
unfolding subtract_lost
subtract-spaces p h = ground arith

abbrev total_of : Option PacketNumberSpace × Option PacketNumberSpace × PacketNumberSpace → ℕ
total_of v = space_bytes v.0 + space_bytes v.1 + list_bytes v.2.history.packet_list

pub total-spaces : (h h' : SentPacketHandler) → spaces h' ≡ spaces h → total h' ≡ total h
total-spaces h h' e = ap total_of e

pub ok-injective :
    (level : EncryptionLevel) (h : SentPacketHandler) (s t : PacketNumberSpace)
    → get_packet_number_space level h ≡ ok s
    → get_packet_number_space level h ≡ ok t
    → s ≡ t
ok-injective level h s t e e' = ground (arith, e, e')

-- The bytes in flight do not count a packet that is still in its space.
abbrev pub IsOwed : Packet → SentPacketHandler → Type 0
IsOwed p h = (r : ℕ) → total h ≡ size p + r → h.bytes_in_flight ≡ u64 r

pub subtract-IsOwed :
    (p : Packet) (h : SentPacketHandler) → IsCounted h → IsOwed p (subtract_lost p h)
subtract-IsOwed p h c r e =
    subtract-bytes p h r
      (c ∙ ap u64 (sym (total-spaces h (subtract_lost p h) (subtract-spaces p h)) ∙ e))

-- Such a packet is removed by a change of the history.
pub take-IsCounted :
    (level : EncryptionLevel) (p : Packet) (f : SentPacketHistory → Result SentPacketHistory)
    (s : PacketNumberSpace) (h h' : SentPacketHandler)
    → get_packet_number_space level h ≡ ok s
    → size_at p.packet_number s.history.packet_list ≡ size p
    → ((k k' : SentPacketHistory)
        → f k ≡ ok k'
        → list_bytes k.packet_list
          ≡ size_at p.packet_number k.packet_list + list_bytes k'.packet_list)
    → update_history level f h ≡ ok h'
    → IsOwed p h
    → IsCounted h'
take-IsCounted level p f s h h' es z take e owed =
    let u = update-Updated level f h h' e in
    let same = ok-injective level h s u.space es u.found in
    let sized : size_at p.packet_number u.space.history.packet_list ≡ size p =
      ap (λ k. size_at p.packet_number k.history.packet_list) (sym same) ∙ z in
    let less : total h ≡ size p + total h' =
      omega (arith, take u.space.history u.history u.changed, sized, u.totals) in
    u.bytes ∙ owed (total h') less

-- A packet that is acknowledged is subtracted and removed.
pub acked-IsCounted :
    (p : Packet) (h h' : SentPacketHandler)
    → Acked.on_packet_acked p h ≡ ok h'
    → IsCounted h
    → IsCounted h'
unfolding Acked.on_packet_acked get_packet
acked-IsCounted p0 h h' e c =
    let level = p0.encryption_level in
    let n = p0.packet_number in
    let (s, es, e1) = bind-ok (get_packet_number_space level h) _ h' e in
    elim (Option-cases (find_packet n s.history.packet_list)) [
      | inl m ↦ let same : h ≡ h' = ground (arith, e1, m) in subst IsCounted same c
      | inr (p, m) ↦
          let s1 : PacketNumberSpace = record s { history = detach p s.history } in
          let h1 = set_packet_number_space level s1 h in
          let updated : update_history level (forget_acked p) (subtract_lost p h1) ≡ ok h' =
            ground (arith, e1, m) in
          let num = found-number n p s.history.packet_list m in
          let sized : size_at p.packet_number s1.history.packet_list ≡ size p =
            detach-size_at p.packet_number p s.history
            ∙ ap (λ k. size_at k s.history.packet_list) num
            ∙ ap size_of m in
          let same : total h1 ≡ total h =
            omega (arith, set-total level s s1 h es, detach-bytes p s.history) in
          let h2 = subtract_lost p h1 in
          let there = get-spaces level h1 h2 (subtract-spaces p h1) ∙ set-get level s s1 h es in
          take-IsCounted level p (forget_acked p) s1 h2 h' there sized (forget_acked-bytes p)
            updated (subtract-IsOwed p h1 (set-bytes level s1 h ∙ c ∙ ap u64 (sym same)))
    ]

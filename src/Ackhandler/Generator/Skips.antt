-- ===== src/Ackhandler/Generator/Skips.antt =====
-- internal/ackhandler/packet_number_generator.go: which numbers are sent, which are skipped, and which
-- acknowledgements are refused.
use gt_bbr.Prelude.{
  ℕ, ◌+◌, ◌≤◌, ◌<◌, ◌≡◌, refl, subst, ◌≢◌, ◌⊎◌, inl, inr, true, false, List, [], ◌∷◌, arith, ltb,
  ◌==◌, ltb→lt, Bool-cases, length, drop, All, length-append, length-drop, All-append, All-imp,
  All-drop,
}
use gt_bbr.Wire.AckFrame.{AckFrame}
use gt_bbr.Wire.AckFrame.Acks.{acks_packet}
use gt_bbr.Ackhandler.Generator.{
  PacketNumberGenerator, generate_new_skip, new_packet_number_generator, remember, pop, none_acked,
  validate,
}

-- A generator and the numbers that it has returned.
pub data Reach (initial period : ℕ) : PacketNumberGenerator → List ℕ → Type 0 where
  start : (num : ℕ) → Reach initial period (new_packet_number_generator num initial period) []
  next :
      (num : ℕ) (g : PacketNumberGenerator) (sent : List ℕ)
      → Reach initial period g sent
      → Reach initial period (pop num g).0 ((pop num g).1 ∷ sent)

-- The number was returned by `Pop`.
abbrev pub Sent : ℕ → List ℕ → Type 0
Sent q [] = ⊥
Sent q (p ∷ ps) = (q ≡ p) ⊎ Sent q ps

-- A number is skipped between two that are not, or is followed by the next number to be sent.
abbrev pub SentOrSkipped : ℕ → List ℕ → ℕ → Type 0
SentOrSkipped ahead sent q =
    Sent q sent ⊎ ((p : ℕ) × (q ≡ p + 1) × Sent p sent × ((q + 1 ≡ ahead) ⊎ Sent (q + 1) sent))

-- A number of the history was passed over.
abbrev pub PassedOver : ℕ → List ℕ → ℕ → Type 0
PassedOver ahead sent p = (p < ahead) × ¬ Sent p sent

pub record Keeps (initial : ℕ) (g : PacketNumberGenerator) (sent : List ℕ) : Type 0 where
  pub ahead : g.next < g.next_to_skip
  pub sent_below : (q : ℕ) → Sent q sent → q < g.next
  pub dense : (q : ℕ) → initial ≤ q → q < g.next → SentOrSkipped g.next sent q
  pub skipped : All (PassedOver g.next sent) g.history
  pub bounded : length g.history ≤ 10

PassedOver-later :
    (n n' : ℕ) (sent : List ℕ) (p : ℕ) → n < n' → PassedOver n sent p → PassedOver n' (n ∷ sent) p
PassedOver-later n n' sent p lt (a, b) =
    (omega arith, λ s. elim s [ inl e ↦ absurd (omega arith) | inr t ↦ b t ])

SentOrSkipped-later :
    (n n' : ℕ) (sent : List ℕ) (q : ℕ) → SentOrSkipped n sent q → SentOrSkipped n' (n ∷ sent) q
SentOrSkipped-later n n' sent q (inl s) = inl (inr s)
SentOrSkipped-later n n' sent q (inr (p, e, s, inl next_is)) = inr (p, e, inr s, inr (inl next_is))
SentOrSkipped-later n n' sent q (inr (p, e, s, inr t)) = inr (p, e, inr s, inr (inr t))

remember-All :
    (P : ℕ → Type 0) (p : ℕ) (history : List ℕ) → All P history → P p → All P (remember p history)
unfolding remember
remember-All P p history a h = elim (Bool-cases (ltb 10 (length history + 1))) [
  | inl e ↦ rw e (All-append P (drop 1 history) (p ∷ []) (All-drop P 1 history a) (h, tt))
  | inr e ↦ rw e (All-append P history (p ∷ []) a (h, tt))
]

length-remember :
    (p : ℕ) (history : List ℕ) → length history ≤ 10 → length (remember p history) ≤ 10
unfolding remember
length-remember p history h = ground (
  arith,
  length-append (drop 1 history) (p ∷ []),
  length-append history (p ∷ []),
  length-drop 1 history,
)

-- The numbers up to the one that is returned, when the next is `n'`.
dense-later :
    (initial n n' : ℕ) (sent : List ℕ)
    → ((q : ℕ) → initial ≤ q → q < n → SentOrSkipped n sent q)
    → (q : ℕ) → initial ≤ q
    → q < n + 1
    → SentOrSkipped n' (n ∷ sent) q
dense-later initial n n' sent d q lo hi = elim (Bool-cases (ltb q n)) [
  | inl e ↦ SentOrSkipped-later n n' sent q (d q lo (ltb→lt _ _ e))
  | inr e ↦ inl (inl (ground arith))
]

skipped-later :
    (n n' : ℕ) (sent history : List ℕ)
    → n < n'
    → All (PassedOver n sent) history
    → All (PassedOver n' (n ∷ sent)) history
skipped-later n n' sent history lt =
    All-imp (PassedOver n sent) (PassedOver n' (n ∷ sent)) history
      (λ p. PassedOver-later n n' sent p lt)

pop_skips :
    (initial num : ℕ) (g : PacketNumberGenerator) (sent : List ℕ)
    → Keeps initial g sent
    → let after = g.next + 1 in
      Keeps initial
        (generate_new_skip num (record g { next = after + 1; history = remember after g.history }))
        (g.next ∷ sent)
unfolding generate_new_skip
pop_skips initial num g sent k = record {
  ahead = omega arith;
  sent_below = λ q s. ground (arith, k.sent_below q);
  dense = λ q lo hi. elim (Bool-cases (ltb q (g.next + 1))) [
    | inl e ↦ dense-later initial g.next (g.next + 1 + 1) sent k.dense q lo (ltb→lt _ _ e)
    | inr e ↦ inr (g.next, ground arith, inl refl, inl (ground arith))
  ];
  skipped =
      remember-All (PassedOver (g.next + 1 + 1) (g.next ∷ sent)) (g.next + 1) g.history
        (skipped-later g.next (g.next + 1 + 1) sent g.history (omega arith) k.skipped)
        (omega arith, λ s. ground (arith, k.sent_below (g.next + 1)));
  bounded = length-remember (g.next + 1) g.history k.bounded;
}

pop_continues :
    (initial : ℕ) (g : PacketNumberGenerator) (sent : List ℕ)
    → Keeps initial g sent
    → g.next + 1 ≢ g.next_to_skip
    → Keeps initial (record g { next = g.next + 1 }) (g.next ∷ sent)
pop_continues initial g sent k ne = record {
  ahead = ground (arith, k.ahead);
  sent_below = λ q s. ground (arith, k.sent_below q);
  dense = λ q lo hi. dense-later initial g.next (g.next + 1) sent k.dense q lo hi;
  skipped = skipped-later g.next (g.next + 1) sent g.history (omega arith) k.skipped;
  bounded = k.bounded;
}

pop-Keeps :
    (initial num : ℕ) (g : PacketNumberGenerator) (sent : List ℕ)
    → Keeps initial g sent
    → Keeps initial (pop num g).0 ((pop num g).1 ∷ sent)
unfolding pop
pop-Keeps initial num g sent k = elim (Bool-cases (g.next + 1 == g.next_to_skip)) [
  | inl e ↦ rw e (pop_skips initial num g sent k)
  | inr e ↦ rw e (pop_continues initial g sent k (ground arith))
]

-- Whatever the random numbers are, in a generator that started at `initial`: the next
-- number lies above those that `Pop` returned; of the numbers from `initial` up to the next one, each was returned, or the one before it
-- was returned and the one after it was, or is the next; and at most 10 numbers are remembered,
-- none of which was returned.
pub Reach-Keeps :
    (initial period : ℕ) (g : PacketNumberGenerator) (sent : List ℕ)
    → Reach initial period g sent
    → Keeps initial g sent
Reach-Keeps initial period g sent (start num) =
    unfold new_packet_number_generator in
    record {
      ahead = omega arith;
      sent_below = λ q s. elim s [ ];
      dense = λ q lo hi. absurd (omega arith);
      skipped = tt;
      bounded = omega arith;
    }
Reach-Keeps initial period g sent (next num h before r) =
    pop-Keeps initial num h before (Reach-Keeps initial period h before r)

none_acked_lem :
    (ack : AckFrame) (n : ℕ) (sent history : List ℕ)
    → All (PassedOver n sent) history
    → ((q : ℕ) → acks_packet ack q ≡ true → Sent q sent)
    → none_acked ack history ≡ true
unfolding none_acked
none_acked_lem ack n sent [] a h = refl
none_acked_lem ack n sent (p ∷ ps) a h = elim (Bool-cases (acks_packet ack p)) [
  | inl e ↦ absurd (a.0.1 (h p e))
  | inr e ↦ rw e (none_acked_lem ack n sent ps a.1 h)
]

none_acked-false :
    (ack : AckFrame) (history : List ℕ) (q : ℕ)
    → Sent q history
    → acks_packet ack q ≡ true
    → none_acked ack history ≡ false
unfolding none_acked
none_acked-false ack [] q s h = elim s [ ]
none_acked-false ack (p ∷ ps) q (inl e) h = rw (subst (λ x. acks_packet ack x ≡ true) e h) refl
none_acked-false ack (p ∷ ps) q (inr s) h = elim (Bool-cases (acks_packet ack p)) [
  | inl e ↦ rw e refl
  | inr e ↦ rw e (none_acked-false ack ps q s h)
]

-- In a generator that has returned the numbers `sent`, `Validate` accepts an ACK that acknowledges only
-- these; and it refuses an ACK that acknowledges a number `q` of the history, none of which was
-- returned.
pub validate_lem :
    (initial period q : ℕ) (g : PacketNumberGenerator) (sent : List ℕ) (honest forged : AckFrame)
    → Reach initial period g sent
    → ((p : ℕ) → acks_packet honest p ≡ true → Sent p sent)
    → Sent q g.history
    → acks_packet forged q ≡ true
    → (validate honest g ≡ true) × (validate forged g ≡ false)
unfolding validate
validate_lem initial period q g sent honest forged r h s e = (
  none_acked_lem honest g.next sent g.history (Reach-Keeps initial period g sent r).skipped h,
  none_acked-false forged g.history q s e,
)

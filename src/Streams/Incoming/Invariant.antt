-- ===== src/Streams/Incoming/Invariant.antt =====
-- streams_map_incoming_generic.go: what every operation keeps.
use gt_bbr.Prelude.{
  ℕ, ◌+◌, ◌-◌, ◌≤◌, ◌<◌, ◌≡◌, subst, inl, inr, Bool, true, false, ◌∷◌, arith, ltb, leb,
  if◌then◌else◌, Bool-cases, length,
}
use gt_bbr.Streams.NumSet.{
  contains, delete, HasNoRepeats, length-delete, contains-delete, delete-HasNoRepeats,
  contains-other, contains-delete-ne, delete-absent,
}
use gt_bbr.Streams.Incoming.{
  IncomingItemsMap, new_incoming_items_map, give_stream_credit, delete_incoming, Accepted,
  accept_stream, open_streams, get_or_open_stream,
}
use gt_bbr.Streams.Incoming.Opening.{
  open_streams-contains, open_streams-HasNoRepeats, length-open_streams,
}

-- No stream is twice in a map; only streams that were opened are; those that are not accepted yet are
-- all there; only these are marked for deletion; and the open streams and those that the peer may
-- still open are no more than the limit.
pub record IsSound (m : IncomingItemsMap) : Type 0 where
  pub no_repeats : HasNoRepeats m.streams
  pub none_twice : HasNoRepeats m.streams_to_delete
  pub known : (n : ℕ) → contains n m.streams ≡ true → n < m.next_stream_to_open
  pub waiting :
      (n : ℕ)
      → m.next_stream_to_accept ≤ n
      → n < m.next_stream_to_open
      → contains n m.streams ≡ true
  pub pending :
      (n : ℕ)
      → contains n m.streams_to_delete ≡ true
      → (m.next_stream_to_accept ≤ n) × (n < m.next_stream_to_open)
  pub credit : length m.streams + (m.max_stream + 1) ≤ m.max_num_streams + m.next_stream_to_open
  pub open_le_max : m.next_stream_to_open ≤ m.max_stream + 1
  pub accept_le_open : m.next_stream_to_accept ≤ m.next_stream_to_open

-- Opening the streams up to `num`, within the limit.
opened-IsSound :
    (num : ℕ) (m : IncomingItemsMap)
    → IsSound m
    → m.next_stream_to_open ≤ num
    → num ≤ m.max_stream
    → IsSound (record m {
      streams = open_streams (num + 1 - m.next_stream_to_open) m.next_stream_to_open m.streams;
      next_stream_to_open = num + 1;
    })
opened-IsSound num m s lo hi =
    let count = num + 1 - m.next_stream_to_open in
    let first = m.next_stream_to_open in
    record {
      no_repeats = open_streams-HasNoRepeats count first m.streams s.no_repeats;
      none_twice = s.none_twice;
      known = λ n h. ground (arith, open_streams-contains count first n m.streams, s.known n);
      waiting =
          λ n a b. ground (arith, open_streams-contains count first n m.streams, s.waiting n a);
      pending = λ n h. ground (arith, s.pending n h);
      credit = omega (arith, length-open_streams count first m.streams, s.credit);
      open_le_max = omega arith;
      accept_le_open = omega (arith, s.accept_le_open);
    }

pub get_or_open_stream-IsSound :
    (num : ℕ) (m : IncomingItemsMap) → IsSound m → IsSound (get_or_open_stream num m).0
unfolding get_or_open_stream
get_or_open_stream-IsSound num m s = elim (Bool-cases (ltb m.max_stream num)) [
  | inl e ↦ rw e s
  | inr e ↦ elim (Bool-cases (ltb num m.next_stream_to_open)) [
    | inl e' ↦ rw (e, e') s
    | inr e' ↦ rw (e, e') (opened-IsSound num m s (ground arith) (ground arith))
  ]
]

-- Deleting a stream that was accepted leaves the map sound, and raises the limit.
give_stream_credit-IsSound :
    (num : ℕ) (m : IncomingItemsMap)
    → IsSound m
    → contains num m.streams ≡ true
    → num < m.next_stream_to_accept
    → IsSound (give_stream_credit num m).0
unfolding give_stream_credit
give_stream_credit-IsSound num m s h lt =
    let e : ltb (length (delete num m.streams)) m.max_num_streams ≡ true =
      ground (arith, length-delete num m.streams h, s.credit, s.open_le_max) in
    rw e (record {
      no_repeats = delete-HasNoRepeats num m.streams s.no_repeats;
      none_twice = s.none_twice;
      known = λ n c. s.known n (contains-delete n num m.streams c);
      waiting =
          λ n a b. contains-other n num m.streams (λ e. absurd (omega arith)) (s.waiting n a b);
      pending = s.pending;
      credit = ground (arith, length-delete num m.streams h, s.credit, s.open_le_max);
      open_le_max = ground (arith, length-delete num m.streams h, s.credit, s.open_le_max);
      accept_le_open = s.accept_le_open;
    })

-- A stream that was not accepted yet is only marked.
marked-IsSound :
    (num : ℕ) (m : IncomingItemsMap)
    → IsSound m
    → contains num m.streams ≡ true
    → m.next_stream_to_accept ≤ num
    → contains num m.streams_to_delete ≡ false
    → IsSound (record m { streams_to_delete = num ∷ m.streams_to_delete })
marked-IsSound num m s h le fresh = record {
  no_repeats = s.no_repeats;
  none_twice = (fresh, s.none_twice);
  known = s.known;
  waiting = s.waiting;
  pending = λ n c. unfold contains in ground (arith, s.pending n, s.known num h);
  credit = s.credit;
  open_le_max = s.open_le_max;
  accept_le_open = s.accept_le_open;
}

pub delete_incoming-IsSound :
    (num : ℕ) (m : IncomingItemsMap) → IsSound m → IsSound (delete_incoming num m).0
unfolding delete_incoming
delete_incoming-IsSound num m s = elim (Bool-cases (contains num m.streams)) [
  | inr e ↦ rw e s
  | inl e ↦ elim (Bool-cases (leb m.next_stream_to_accept num)) [
    | inr e' ↦ rw (e, e') (give_stream_credit-IsSound num m s e (ground arith))
    | inl e' ↦ elim (Bool-cases (contains num m.streams_to_delete)) [
      | inl twice ↦ rw (e, e', twice) s
      | inr fresh ↦ rw (e, e', fresh) (marked-IsSound num m s e (ground arith) fresh)
    ]
  ]
]

-- Accepting the next stream.
accepted-IsSound :
    (m : IncomingItemsMap)
    → IsSound m
    → contains m.next_stream_to_accept m.streams ≡ true
    → IsSound (record m {
      next_stream_to_accept = m.next_stream_to_accept + 1;
      streams_to_delete = delete m.next_stream_to_accept m.streams_to_delete;
    })
accepted-IsSound m s h = record {
  no_repeats = s.no_repeats;
  none_twice = delete-HasNoRepeats m.next_stream_to_accept m.streams_to_delete s.none_twice;
  known = s.known;
  waiting = λ n a b. s.waiting n (omega arith) b;
  pending = λ n c.
      let ne = contains-delete-ne n m.next_stream_to_accept m.streams_to_delete s.none_twice c in
      let (a, b) = s.pending n (contains-delete n m.next_stream_to_accept m.streams_to_delete c) in
      (ground arith, b);
  credit = s.credit;
  open_le_max = s.open_le_max;
  accept_le_open = omega (arith, s.known m.next_stream_to_accept h);
}

-- Accepting a stream that was not marked.
accepted-unmarked-IsSound :
    (m : IncomingItemsMap)
    → IsSound m
    → contains m.next_stream_to_accept m.streams ≡ true
    → contains m.next_stream_to_accept m.streams_to_delete ≡ false
    → IsSound (record m { next_stream_to_accept = m.next_stream_to_accept + 1 })
accepted-unmarked-IsSound m s h fresh =
    subst
      (λ l.
        IsSound
          (record m { next_stream_to_accept = m.next_stream_to_accept + 1; streams_to_delete = l }))
      (delete-absent m.next_stream_to_accept m.streams_to_delete fresh) (accepted-IsSound m s h)

either-IsSound :
    (b : Bool) (x y : IncomingItemsMap × Accepted)
    → IsSound x.0
    → IsSound y.0
    → IsSound (if b then x else y).0
either-IsSound true x y s t = s
either-IsSound false x y s t = t

pub accept_stream-IsSound : (m : IncomingItemsMap) → IsSound m → IsSound (accept_stream m).0
unfolding accept_stream
accept_stream-IsSound m s =
    either-IsSound m.close_err _ _ s
      (elim (Bool-cases (contains m.next_stream_to_accept m.streams)) [
        | inr e ↦ rw e s
        | inl e ↦ elim (Bool-cases (contains m.next_stream_to_accept m.streams_to_delete)) [
          | inl marked ↦
              rw (e, marked)
                (delete_incoming-IsSound m.next_stream_to_accept _ (accepted-IsSound m s e))
          | inr fresh ↦ rw (e, fresh) (accepted-unmarked-IsSound m s e fresh)
        ]
      ])

pub new_incoming_items_map-IsSound : (n : ℕ) → IsSound (new_incoming_items_map n)
unfolding new_incoming_items_map contains
new_incoming_items_map-IsSound n = record {
  no_repeats = tt;
  none_twice = tt;
  known = λ k h. ground arith;
  waiting = λ k a b. absurd (omega arith);
  pending = λ k h. ground arith;
  credit = omega arith;
  open_le_max = omega arith;
  accept_le_open = omega arith;
}

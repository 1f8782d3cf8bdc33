-- ===== src/Streams/Incoming/Limits.antt =====
-- streams_map_incoming_generic.go: how many streams the peer can open, and which are accepted.
use gt_bbr.Prelude.{
  ℕ, ◌+◌, ◌-◌, ◌≤◌, ◌<◌, ◌≡◌, refl, ◌∙◌, ◌≢◌, ◌↔◌, true, false, some, arith, leb, length,
}
use gt_bbr.Streams.NumSet.{contains, length-delete}
use gt_bbr.Streams.Incoming.{
  IncomingItemsMap, new_incoming_items_map, deleted, give_stream_credit, delete_incoming, waits,
  failed, accepted_or_failed, accept_stream, get_or_open_stream, close_incoming,
}
use gt_bbr.Streams.Incoming.Invariant.{
  IsSound, accept_stream-IsSound, get_or_open_stream-IsSound, delete_incoming-IsSound,
  new_incoming_items_map-IsSound,
}

pub data Step (m : IncomingItemsMap) : IncomingItemsMap → Type 0 where
  accept : Step m (accept_stream m).0
  open_to : (num : ℕ) → Step m (get_or_open_stream num m).0
  finish : (num : ℕ) → Step m (delete_incoming num m).0
  close : Step m (close_incoming m)

pub data Reach (max_streams : ℕ) : IncomingItemsMap → Type 0 where
  start : Reach max_streams (new_incoming_items_map max_streams)
  next : {m m' : IncomingItemsMap} → Reach max_streams m → Step m m' → Reach max_streams m'

Step-IsSound : (m m' : IncomingItemsMap) → Step m m' → IsSound m → IsSound m'
Step-IsSound m m' accept s = accept_stream-IsSound m s
Step-IsSound m m' (open_to num) s = get_or_open_stream-IsSound num m s
Step-IsSound m m' (finish num) s = delete_incoming-IsSound num m s
Step-IsSound m m' close s =
    unfold close_incoming in
    record {
      no_repeats = s.no_repeats;
      none_twice = s.none_twice;
      known = s.known;
      waiting = s.waiting;
      pending = s.pending;
      credit = s.credit;
      open_le_max = s.open_le_max;
      accept_le_open = s.accept_le_open;
    }

pub Reach-IsSound : (n : ℕ) (m : IncomingItemsMap) → Reach n m → IsSound m
Reach-IsSound n m start = new_incoming_items_map-IsSound n
Reach-IsSound n m (next {m = a} r t) = Step-IsSound a m t (Reach-IsSound n a r)

Step-max_num_streams :
    (m m' : IncomingItemsMap) → Step m m' → m'.max_num_streams ≡ m.max_num_streams
unfolding close_incoming get_or_open_stream delete_incoming accept_stream give_stream_credit
Step-max_num_streams m m' accept = ground arith
Step-max_num_streams m m' (open_to num) = ground arith
Step-max_num_streams m m' (finish num) = ground arith
Step-max_num_streams m m' close = refl

Reach-max_num_streams : (n : ℕ) (m : IncomingItemsMap) → Reach n m → m.max_num_streams ≡ n
Reach-max_num_streams n m start = unfold new_incoming_items_map in refl
Reach-max_num_streams n m (next {m = a} r t) =
    Step-max_num_streams a m t ∙ Reach-max_num_streams n a r

-- After any calls on a map that was made for `n` streams: the streams in the map, together with those
-- that the peer may still open, are at most `n`, and each has a number within the limit.
pub incoming_limit :
    (n : ℕ) (m : IncomingItemsMap) (k : ℕ)
    → Reach n m
    → contains k m.streams ≡ true
    → (length m.streams + (m.max_stream + 1 - m.next_stream_to_open) ≤ n) × (k ≤ m.max_stream)
incoming_limit n m k r h =
    let s = Reach-IsSound n m r in
    (
      omega (arith, s.credit, s.open_le_max, Reach-max_num_streams n m r),
      omega (arith, s.known k h, s.open_le_max),
    )

give_stream_credit_raises :
    (num : ℕ) (m : IncomingItemsMap)
    → IsSound m
    → contains num m.streams ≡ true
    → let (m', d) = give_stream_credit num m in
      (d ≡ deleted (some m'.max_stream)) × (m.max_stream < m'.max_stream)
unfolding give_stream_credit
give_stream_credit_raises num m s h =
    ground (arith, length-delete num m.streams h, s.credit, s.open_le_max)

-- After any calls, `DeleteStream` of a stream that is in the map and was accepted raises the limit, and
-- queues a MAX_STREAMS frame with the new limit.
pub delete_incoming_raises :
    (n num : ℕ) (m : IncomingItemsMap)
    → Reach n m
    → contains num m.streams ≡ true
    → num < m.next_stream_to_accept
    → let (m', d) = delete_incoming num m in
      (d ≡ deleted (some m'.max_stream)) × (m.max_stream < m'.max_stream)
unfolding delete_incoming
delete_incoming_raises n num m r h lt =
    let before : leb m.next_stream_to_accept num ≡ false = ground arith in
    rw (h, before) (give_stream_credit_raises num m (Reach-IsSound n m r) h)

-- After any calls, `AcceptStream` returns no error but the one that the map was closed with; and while
-- it is open, it waits exactly if every stream that was opened has been accepted.
pub accept_stream_in_order :
    (n : ℕ) (m : IncomingItemsMap)
    → Reach n m
    → ((accept_stream m).1 ≢ failed)
      × (((accept_stream m).1 ≡ waits)
          ↔ ((m.close_err ≡ false) × (m.next_stream_to_accept ≡ m.next_stream_to_open)))
unfolding accept_stream delete_incoming give_stream_credit accepted_or_failed
accept_stream_in_order n m r =
    let s = Reach-IsSound n m r in
    let here = s.waiting m.next_stream_to_accept (omega arith) in
    let known = s.known m.next_stream_to_accept in let le = s.accept_le_open in ground arith

-- ===== src/Tests/Streams.antt =====
-- streams_map_incoming_generic.go and streams_map_outgoing_generic.go: a map for two streams, of which
-- the peer opens one; and a caller that waits for the peer's limit.
use gt_bbr.Prelude.{
  ℕ, ◌+◌, ◌-◌, ◌≤◌, ◌<◌, ◌≡◌, refl, ◌≢◌, ◌↔◌, true, false, some, [], ◌∷◌, arith, List, none, Bool,
  Option,
}
use gt_bbr.Streams.NumSet.{contains}
use gt_bbr.Streams.Incoming.{
  IncomingItemsMap, new_incoming_items_map, deleted, delete_incoming, waits, failed, accept_stream,
  get_or_open_stream, open_streams,
}
use gt_bbr.Streams.Incoming.Limits.{
  accept, open_to, Reach, start, next, incoming_limit, delete_incoming_raises,
  accept_stream_in_order,
}
use gt_bbr.Streams.Outgoing
use gt_bbr.Streams.Outgoing.{
  OutgoingItemsMap, new_outgoing_items_map, open_stream_sync, maybe_send_blocked_frame,
  set_max_stream, unblock_open_sync,
}

abbrev one_open : ℕ → IncomingItemsMap
one_open n = record {
  streams = 1 ∷ [];
  streams_to_delete = [];
  next_stream_to_accept = n;
  next_stream_to_open = 2;
  max_stream = 2;
  max_num_streams = 2;
  close_err = false;
}

Reach-opened : Reach 2 (one_open 1)
unfolding new_incoming_items_map get_or_open_stream open_streams contains
Reach-opened = next start (open_to 1)

Reach-accepted : Reach 2 (one_open 2)
unfolding accept_stream contains
Reach-accepted = next Reach-opened accept

has_1 : contains 1 (1 ∷ []) ≡ true
unfolding contains
has_1 = refl

incoming_limit_example : (1 + (2 + 1 - 2) ≤ 2) × (1 ≤ 2)
incoming_limit_example = incoming_limit 2 (one_open 2) 1 Reach-accepted has_1

delete_incoming_raises_example :
    let (m', d) = delete_incoming 1 (one_open 2) in
    (d ≡ deleted (some m'.max_stream)) × (2 < m'.max_stream)
delete_incoming_raises_example =
    delete_incoming_raises 2 1 (one_open 2) Reach-accepted has_1 (omega arith)

accept_stream_in_order_example :
    ((accept_stream (one_open 2)).1 ≢ failed)
    × (((accept_stream (one_open 2)).1 ≡ waits)
        ↔ ((false ≡ false) × ((one_open 2).next_stream_to_accept ≡ 2)))
accept_stream_in_order_example = accept_stream_in_order 2 (one_open 2) Reach-accepted

abbrev one_waits : List Bool → Option ℕ → Bool → OutgoingItemsMap
one_waits queue most sent = record {
  open_queue = queue;
  outgoing = [];
  next_stream = 1;
  max_outgoing = most;
  blocked_sent = sent;
  shut = false;
}

Reach-waits : Outgoing.Queue.Reach (one_waits (false ∷ []) none true)
unfolding open_stream_sync new_outgoing_items_map maybe_send_blocked_frame
Reach-waits = Outgoing.Queue.next Outgoing.Queue.start Outgoing.Queue.open_sync

Reach-signalled : Outgoing.Queue.Reach (one_waits (true ∷ []) (some 1) false)
unfolding set_max_stream unblock_open_sync
Reach-signalled = Outgoing.Queue.next Reach-waits (Outgoing.Queue.raise_limit 1 _ refl)

Reach-IsFair_example : Outgoing.Queue.IsFair (one_waits (true ∷ []) (some 1) false)
Reach-IsFair_example =
    Outgoing.Queue.Reach-IsFair (one_waits (true ∷ []) (some 1) false) Reach-signalled

-- ===== src/Streams/Incoming.antt =====
-- streams_map_incoming_generic.go: the streams of one type that the peer opens. A stream is given by its
-- number: `newStream` makes the object. A `MaxStreamsFrame` that is queued is a result.
-- The operations hold the mutex while they run. `GetOrOpenStream` gives its read lock back before it
-- takes the write lock; only the receiving loop of the session calls it, and the limit that it has
-- checked only grows.
pub mod Opening
pub mod Invariant
pub mod Limits
use gt_bbr.Prelude.{
  ℕ, zero, suc, ◌+◌, ◌-◌, Bool, true, false, not, Option, none, some, List, [], ◌∷◌, ltb, leb,
  if◌then◌else◌, length,
}
use gt_bbr.Streams.NumSet.{contains, delete}

-- `close_err` says that `closeErr` is set.
pub record IncomingItemsMap : Type 0 where
  pub streams : List ℕ
  pub streams_to_delete : List ℕ
  pub next_stream_to_accept : ℕ
  pub next_stream_to_open : ℕ
  pub max_stream : ℕ
  pub max_num_streams : ℕ
  pub close_err : Bool

unfoldable pub new_incoming_items_map : ℕ → IncomingItemsMap
new_incoming_items_map max_streams = record {
  streams = [];
  streams_to_delete = [];
  next_stream_to_accept = 1;
  next_stream_to_open = 1;
  max_stream = max_streams;
  max_num_streams = max_streams;
  close_err = false;
}

-- `deleteStream` returns an error, or nil after it has queued a frame with the new limit or not.
pub data Deleted : Type 0 where
  unknown_stream deleted_before : Deleted
  deleted : Option ℕ → Deleted

-- The map without the stream, and a new limit for the peer.
unfoldable pub give_stream_credit : ℕ → IncomingItemsMap → IncomingItemsMap × Deleted
give_stream_credit num m =
    let left = delete num m.streams in
    let limit = m.next_stream_to_open + (m.max_num_streams - length left) - 1 in
    if ltb (length left) m.max_num_streams
    then (record m { streams = left; max_stream = limit }, deleted (some limit))
    else (record m { streams = left }, deleted none)

unfoldable pub delete_incoming : ℕ → IncomingItemsMap → IncomingItemsMap × Deleted
delete_incoming num m =
    if not (contains num m.streams)
    then (m, unknown_stream)
    else if leb m.next_stream_to_accept num
    then (if contains num m.streams_to_delete
        then (m, deleted_before)
        else (record m { streams_to_delete = num ∷ m.streams_to_delete }, deleted none))
    else give_stream_credit num m

-- `AcceptStream` returns `closeErr`, waits, returns a stream, or returns an error of `deleteStream`.
pub data Accepted : Type 0 where
  closed waits : Accepted
  accepted : ℕ → Option ℕ → Accepted
  failed : Accepted

unfoldable pub accepted_or_failed : ℕ → Deleted → Accepted
accepted_or_failed num unknown_stream = failed
accepted_or_failed num deleted_before = failed
accepted_or_failed num (deleted frame) = accepted num frame

-- One turn of the loop of `AcceptStream`.
unfoldable pub accept_stream : IncomingItemsMap → IncomingItemsMap × Accepted
accept_stream m =
    let num = m.next_stream_to_accept in
    let m1 = record m { next_stream_to_accept = num + 1 } in
    let m2 = record m1 { streams_to_delete = delete num m.streams_to_delete } in
    let (m3, d) = delete_incoming num m2 in
    if m.close_err
    then (m, closed)
    else if not (contains num m.streams)
    then (m, waits)
    else if contains num m.streams_to_delete
    then (m3, accepted_or_failed num d)
    else (m1, accepted num none)

-- The loop that opens `count` streams from `first` on.
unfoldable pub open_streams : ℕ → ℕ → List ℕ → List ℕ
open_streams zero first ms = ms
open_streams (suc count) first ms =
    open_streams count (first + 1) (if contains first ms then ms else first ∷ ms)

-- `GetOrOpenStream` refuses the number, or returns a stream or nil.
pub data Opened : Type 0 where
  too_high : Opened
  stream : Option ℕ → Opened

unfoldable pub lookup : ℕ → List ℕ → Option ℕ
lookup n ms = if contains n ms then some n else none

unfoldable pub get_or_open_stream : ℕ → IncomingItemsMap → IncomingItemsMap × Opened
unfolding lookup
get_or_open_stream num m =
    let count = num + 1 - m.next_stream_to_open in
    let opened = open_streams count m.next_stream_to_open m.streams in
    if ltb m.max_stream num
    then (m, too_high)
    else if ltb num m.next_stream_to_open
    then (m, stream (if contains num m.streams_to_delete then none else lookup num m.streams))
    else (record m { streams = opened; next_stream_to_open = num + 1 }, stream (lookup num opened))

-- `CloseWithError`; the streams are closed too.
unfoldable pub close_incoming : IncomingItemsMap → IncomingItemsMap
close_incoming m = record m { close_err = true }

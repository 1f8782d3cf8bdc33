-- ===== src/Streams/Outgoing.antt =====
-- streams_map_outgoing_generic.go: the streams of one type that this side opens. A stream is given by its
-- number. A caller of `OpenStreamSync` that waits is the flag of its channel of capacity 1; only the
-- first of the queue is ever signalled. Every operation runs under the mutex; `wake` is a turn of the
-- waiting loop of the first caller in the queue.
pub mod Queue
use gt_bbr.Prelude.{
  ℕ, ◌+◌, Bool, true, false, not, ◌&&◌, ◌||◌, Option, none, some, List, [], ◌∷◌, ◌++◌, leb,
  if◌then◌else◌,
}
use gt_bbr.Streams.NumSet.{contains, delete}

-- `max_stream` is `none` for `InvalidStreamNum`; `close_err` says that `closeErr` is set.
pub record OutgoingItemsMap : Type 0 where
  pub open_queue : List Bool
  pub outgoing : List ℕ
  pub next_stream : ℕ
  pub max_outgoing : Option ℕ
  pub blocked_sent : Bool
  pub shut : Bool

unfoldable pub new_outgoing_items_map : OutgoingItemsMap
new_outgoing_items_map = record {
  open_queue = [];
  outgoing = [];
  next_stream = 1;
  max_outgoing = none;
  blocked_sent = false;
  shut = false;
}

abbrev pub limit_of : Option ℕ → ℕ
limit_of none = 0
limit_of (some n) = n

abbrev pub below_limit : ℕ → Option ℕ → Bool
below_limit next none = false
below_limit next (some n) = leb next n

-- `nextStream <= maxStream`
abbrev pub can_open : OutgoingItemsMap → Bool
can_open m = below_limit m.next_stream m.max_outgoing

-- The answer of an operation, and the limit of a STREAMS_BLOCKED frame that is queued.
pub data OpenResult : Type 0 where
  shut_down too_many_open_streams keeps_waiting : OpenResult
  opened_stream : ℕ → OpenResult

-- `openStream`
unfoldable pub open_next : OutgoingItemsMap → OutgoingItemsMap
open_next m = record m { outgoing = m.next_stream ∷ m.outgoing; next_stream = m.next_stream + 1 }

unfoldable pub maybe_send_blocked_frame : OutgoingItemsMap → OutgoingItemsMap × Option ℕ
maybe_send_blocked_frame m =
    if m.blocked_sent
    then (m, none)
    else (record m { blocked_sent = true }, some (limit_of m.max_outgoing))

abbrev pub signal_first : List Bool → List Bool
signal_first [] = []
signal_first (c ∷ cs) = true ∷ cs

-- `unblockOpenSync`
unfoldable pub unblock_open_sync : OutgoingItemsMap → OutgoingItemsMap
unblock_open_sync m = record m { open_queue = signal_first m.open_queue }

abbrev pub is_empty : List Bool → Bool
is_empty [] = true
is_empty (c ∷ cs) = false

unfoldable pub open_stream : OutgoingItemsMap → OutgoingItemsMap × OpenResult × Option ℕ
unfolding open_next maybe_send_blocked_frame
open_stream m =
    let (blocked, frame) = maybe_send_blocked_frame m in
    if m.shut
    then (m, shut_down, none)
    else if not (is_empty m.open_queue) || not (can_open m)
    then (blocked, too_many_open_streams, frame)
    else (open_next m, opened_stream m.next_stream, none)

unfoldable pub open_stream_sync : OutgoingItemsMap → OutgoingItemsMap × OpenResult × Option ℕ
unfolding open_next maybe_send_blocked_frame
open_stream_sync m =
    let (blocked, frame) =
      maybe_send_blocked_frame (record m { open_queue = m.open_queue ++ (false ∷ []) }) in
    if m.shut
    then (m, shut_down, none)
    else if is_empty m.open_queue && can_open m
    then (open_next m, opened_stream m.next_stream, none)
    else (blocked, keeps_waiting, frame)

-- The first caller has taken the signal out of its channel, or the channels are closed.
unfoldable pub wake_first : List Bool → OutgoingItemsMap → OutgoingItemsMap × OpenResult
unfolding open_next unblock_open_sync
wake_first cs m =
    if m.shut
    then (m, shut_down)
    else if can_open m
    then (unblock_open_sync (record (open_next m) { open_queue = cs }), opened_stream m.next_stream)
    else (record m { open_queue = false ∷ cs }, keeps_waiting)

unfoldable pub wake_queue : List Bool → OutgoingItemsMap → OutgoingItemsMap × OpenResult
unfolding wake_first
wake_queue [] m = (m, keeps_waiting)
wake_queue (c ∷ cs) m = if c || m.shut then wake_first cs m else (m, keeps_waiting)

unfoldable pub wake : OutgoingItemsMap → OutgoingItemsMap × OpenResult
unfolding wake_queue
wake m = wake_queue m.open_queue m

-- `num <= m.maxStream`
abbrev pub is_no_more : ℕ → Option ℕ → Bool
is_no_more num none = false
is_no_more num (some n) = leb num n

-- `none` is a panic: the channel of the first caller is closed.
unfoldable pub set_max_stream : ℕ → OutgoingItemsMap → Option OutgoingItemsMap
unfolding unblock_open_sync
set_max_stream num m =
    if is_no_more num m.max_outgoing
    then some m
    else if m.shut && not (is_empty m.open_queue)
    then none
    else some (unblock_open_sync (record m { max_outgoing = some num; blocked_sent = false }))

-- The flag says that the stream was unknown.
unfoldable pub delete_outgoing : ℕ → OutgoingItemsMap → OutgoingItemsMap × Bool
delete_outgoing num m =
    if not (contains num m.outgoing)
    then (m, true)
    else (record m { outgoing = delete num m.outgoing }, false)

-- `CloseWithError`; `none` is a panic: the channels of the callers are closed already.
unfoldable pub close_outgoing : OutgoingItemsMap → Option OutgoingItemsMap
close_outgoing m =
    if m.shut && not (is_empty m.open_queue) then none else some (record m { shut = true })

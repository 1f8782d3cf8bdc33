-- ===== src/Streams/Outgoing/Queue.antt =====
-- streams_map_outgoing_generic.go: no stream is opened above the limit, and no waiting caller is forgotten.
use gt_bbr.Prelude.{
  ℕ, ◌+◌, ◌≤◌, ◌<◌, ◌≡◌, refl, subst, ◌⊎◌, inl, inr, Bool, true, false, ◌&&◌, ◌||◌, Option, none,
  some, List, [], ◌∷◌, ◌++◌, arith, if◌then◌else◌, Bool-cases,
}
use gt_bbr.Streams.NumSet.{contains, contains-delete}
use gt_bbr.Streams.Outgoing.{
  OutgoingItemsMap, new_outgoing_items_map, limit_of, can_open, signal_first, is_empty, OpenResult,
  shut_down, keeps_waiting, opened_stream, open_next, maybe_send_blocked_frame, unblock_open_sync,
  open_stream, open_stream_sync, wake_first, wake_queue, wake, set_max_stream, delete_outgoing,
  close_outgoing,
}

pub data Step (m : OutgoingItemsMap) : OutgoingItemsMap → Type 0 where
  try_open : Step m (open_stream m).0
  open_sync : Step m (open_stream_sync m).0
  wake_up : Step m (wake m).0
  raise_limit : (num : ℕ) (m' : OutgoingItemsMap) → set_max_stream num m ≡ some m' → Step m m'
  finish : (num : ℕ) → Step m (delete_outgoing num m).0
  close : (m' : OutgoingItemsMap) → close_outgoing m ≡ some m' → Step m m'

pub data Reach : OutgoingItemsMap → Type 0 where
  start : Reach new_outgoing_items_map
  next : {m m' : OutgoingItemsMap} → Reach m → Step m m' → Reach m'

-- If a stream can be opened, the first caller that waits has been signalled.
abbrev pub FirstSignalled : List Bool → Bool → Type 0
FirstSignalled [] can = Unit {0}
FirstSignalled (c ∷ cs) can = can ≡ true → c ≡ true

abbrev pub IsFair : OutgoingItemsMap → Type 0
IsFair m =
    FirstSignalled m.open_queue (can_open m)
    × (m.next_stream ≤ limit_of m.max_outgoing + 1)
    × ((n : ℕ) → contains n m.outgoing ≡ true → n < m.next_stream)

abbrev Signalled : OutgoingItemsMap → Type 0
Signalled m = FirstSignalled m.open_queue (can_open m)

either-Signalled {ℓ} :
    {R : Type ℓ} (b : Bool) (x y : OutgoingItemsMap × R)
    → (b ≡ true → Signalled x.0)
    → (b ≡ false → Signalled y.0)
    → Signalled (if b then x else y).0
either-Signalled true x y s t = s refl
either-Signalled false x y s t = t refl

either-Signalled_of_answer {ℓ κ} :
    {R : Type ℓ} {S : Type κ} (b : Bool) (x y : OutgoingItemsMap × R × S)
    → (b ≡ true → Signalled x.0)
    → (b ≡ false → Signalled y.0)
    → Signalled (if b then x else y).0
either-Signalled_of_answer true x y s t = s refl
either-Signalled_of_answer false x y s t = t refl

FirstSignalled-empty : (cs : List Bool) (can : Bool) → is_empty cs ≡ true → FirstSignalled cs can
FirstSignalled-empty [] can e = tt
FirstSignalled-empty (c ∷ cs) can e = λ h. ground arith

open_next-known :
    (m : OutgoingItemsMap)
    → ((n : ℕ) → contains n m.outgoing ≡ true → n < m.next_stream)
    → (n : ℕ) → contains n (m.next_stream ∷ m.outgoing) ≡ true
    → n < m.next_stream + 1
unfolding contains
open_next-known m c n h = ground (arith, c n)

open_stream-IsFair : (m : OutgoingItemsMap) → IsFair m → IsFair (open_stream m).0
unfolding open_stream open_next maybe_send_blocked_frame
open_stream-IsFair m (a, b, c) =
    (ground arith, ground arith, λ n h. ground (arith, c n, open_next-known m c n))

FirstSignalled-append :
    (cs : List Bool) (can : Bool)
    → FirstSignalled cs can
    → (is_empty cs && can) ≡ false
    → FirstSignalled (cs ++ (false ∷ [])) can
FirstSignalled-append [] can a e = λ h. ground arith
FirstSignalled-append (c ∷ cs) can a e = a

FirstSignalled-signal : (cs : List Bool) (can : Bool) → FirstSignalled (signal_first cs) can
FirstSignalled-signal [] can = tt
FirstSignalled-signal (c ∷ cs) can = λ h. refl

open_stream_sync-Signalled : (m : OutgoingItemsMap) → Signalled m → Signalled (open_stream_sync m).0
unfolding open_stream_sync open_next maybe_send_blocked_frame
open_stream_sync-Signalled m a =
    let queued : OutgoingItemsMap = record m { open_queue = m.open_queue ++ (false ∷ []) } in
    let (blocked, frame) = maybe_send_blocked_frame queued in
    let rest : OutgoingItemsMap × OpenResult × Option ℕ =
      if is_empty m.open_queue && can_open m
      then (open_next m, opened_stream m.next_stream, none)
      else (blocked, keeps_waiting, frame) in
    either-Signalled_of_answer m.shut (m, shut_down, none) rest (λ h. a)
      (λ h.
        either-Signalled_of_answer (is_empty m.open_queue && can_open m)
          (open_next m, opened_stream m.next_stream, none) (blocked, keeps_waiting, frame)
          (λ e. FirstSignalled-empty m.open_queue _ (ground arith))
          (λ e.
            either-Signalled m.blocked_sent (queued, none)
              (record queued { blocked_sent = true }, some (limit_of m.max_outgoing))
              (λ h'. FirstSignalled-append m.open_queue (can_open m) a e)
              (λ h'. FirstSignalled-append m.open_queue (can_open m) a e)))

open_stream_sync-IsFair : (m : OutgoingItemsMap) → IsFair m → IsFair (open_stream_sync m).0
unfolding open_stream_sync open_next maybe_send_blocked_frame
open_stream_sync-IsFair m (a, b, c) = (
  open_stream_sync-Signalled m a,
  ground arith,
  λ n h. ground (arith, c n, open_next-known m c n),
)

wake_first-Signalled :
    (m : OutgoingItemsMap) (cs : List Bool) → Signalled m → Signalled (wake_first cs m).0
unfolding wake_first open_next unblock_open_sync
wake_first-Signalled m cs a =
    either-Signalled m.shut _ _ (λ h. a)
      (λ h.
        either-Signalled (can_open m) _ _ (λ e. FirstSignalled-signal cs _) (λ e h'. ground arith))

wake_first-IsFair : (m : OutgoingItemsMap) (cs : List Bool) → IsFair m → IsFair (wake_first cs m).0
unfolding wake_first open_next unblock_open_sync
wake_first-IsFair m cs (a, b, c) =
    (wake_first-Signalled m cs a, ground arith, λ n h. ground (arith, c n, open_next-known m c n))

wake_queue-IsFair : (m : OutgoingItemsMap) (cs : List Bool) → IsFair m → IsFair (wake_queue cs m).0
unfolding wake_queue
wake_queue-IsFair m [] f = f
wake_queue-IsFair m (c ∷ cs) f = elim (Bool-cases (c || m.shut)) [
  | inl e ↦ rw e (wake_first-IsFair m cs f)
  | inr e ↦ rw e f
]

set_max_stream-cases :
    (num : ℕ) (m m' : OutgoingItemsMap)
    → set_max_stream num m ≡ some m'
    → (m ≡ m')
      ⊎ ((limit_of m.max_outgoing ≤ num)
          × (record m {
            open_queue = signal_first m.open_queue;
            max_outgoing = some num;
            blocked_sent = false;
          }
              ≡ m'))
unfolding set_max_stream unblock_open_sync
set_max_stream-cases num m m' e = ground arith

set_max_stream-IsFair :
    (num : ℕ) (m m' : OutgoingItemsMap) → set_max_stream num m ≡ some m' → IsFair m → IsFair m'
set_max_stream-IsFair num m m' e (a, b, c) = elim (set_max_stream-cases num m m' e) [
  | inl same ↦ subst IsFair same (a, b, c)
  | inr (le, raised) ↦ subst IsFair raised (FirstSignalled-signal m.open_queue _, omega arith, c)
]

delete_outgoing-IsFair :
    (num : ℕ) (m : OutgoingItemsMap) → IsFair m → IsFair (delete_outgoing num m).0
unfolding delete_outgoing
delete_outgoing-IsFair num m (a, b, c) = elim (Bool-cases (contains num m.outgoing)) [
  | inr e ↦ rw e (a, b, c)
  | inl e ↦ rw e (a, b, λ n h. c n (contains-delete n num m.outgoing h))
]

close_outgoing-same :
    (m m' : OutgoingItemsMap) → close_outgoing m ≡ some m' → record m { shut = true } ≡ m'
unfolding close_outgoing
close_outgoing-same m m' e = ground arith

Step-IsFair : (m m' : OutgoingItemsMap) → Step m m' → IsFair m → IsFair m'
Step-IsFair m m' try_open f = open_stream-IsFair m f
Step-IsFair m m' open_sync f = open_stream_sync-IsFair m f
Step-IsFair m m' wake_up f = unfold wake in wake_queue-IsFair m m.open_queue f
Step-IsFair m m' (raise_limit num _ e) f = set_max_stream-IsFair num m m' e f
Step-IsFair m m' (finish num) f = delete_outgoing-IsFair num m f
Step-IsFair m m' (close _ e) (a, b, c) = subst IsFair (close_outgoing-same m m' e) (a, b, c)

-- After any calls, as long as none panics: while a stream may be opened under the peer's limit, the
-- first caller that waits in `OpenStreamSync` has a signal in its channel; the next stream is at most
-- one above the limit; and every stream in the map has a number below the next one.
pub Reach-IsFair : (m : OutgoingItemsMap) → Reach m → IsFair m
Reach-IsFair m start =
    unfold new_outgoing_items_map contains in (tt, omega arith, λ n h. ground arith)
Reach-IsFair m (next {m = a} r t) = Step-IsFair a m t (Reach-IsFair a r)

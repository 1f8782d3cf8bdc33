-- ===== src/Protocol/Stream/Numbering.antt =====
-- internal/protocol/stream.go: stream IDs are exactly the stream numbers of each type and side.
use gt_bbr.Prelude.{ℕ, ◌+◌, ◌-◌, ◌*◌, ◌<◌, ◌≡◌, some, arith}
use gt_bbr.Protocol.Stream.{
  StreamType, uni, bidi, Perspective, server, client, stream_id_of, initiated_by, type_of,
  stream_num,
}

-- Every stream ID is the ID of its own type, side and number.
stream_id_of_parts :
    (id : ℕ) → stream_id_of (type_of id) (initiated_by id) (stream_num id) ≡ some id
unfolding stream_id_of type_of initiated_by stream_num
stream_id_of_parts id = ground arith

-- A stream number that is not 0 has an ID, of which `Type`, `InitiatedBy` and `StreamNum` return the
-- type, the side and the number that it was made from.
pub parts-stream_id_of :
    (stype : StreamType) (pers : Perspective) (s : ℕ)
    → 0 < s
    → (id : ℕ) × (stream_id_of stype pers s ≡ some id)
      × (type_of id ≡ stype)
      × (initiated_by id ≡ pers)
      × (stream_num id ≡ s)
unfolding stream_id_of type_of initiated_by stream_num
parts-stream_id_of bidi client s h =
    (0 + 4 * (s - 1), ground arith, ground arith, ground arith, ground arith)
parts-stream_id_of bidi server s h =
    (1 + 4 * (s - 1), ground arith, ground arith, ground arith, ground arith)
parts-stream_id_of uni client s h =
    (2 + 4 * (s - 1), ground arith, ground arith, ground arith, ground arith)
parts-stream_id_of uni server s h =
    (3 + 4 * (s - 1), ground arith, ground arith, ground arith, ground arith)

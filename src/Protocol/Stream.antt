-- ===== src/Protocol/Stream.antt =====
-- internal/protocol/stream.go and perspective.go: stream numbers count the streams of one type that
-- one side opens; a stream ID names a stream.
pub mod Numbering
use gt_bbr.Prelude.{ℕ, ◌+◌, ◌-◌, ◌*◌, ◌/◌, ◌%◌, Option, none, some, leb, ◌==◌, if◌then◌else◌}

pub data StreamType : Type 0 where
  uni bidi : StreamType

pub data Perspective : Type 0 where
  server client : Perspective

abbrev pub first_stream : StreamType → Perspective → ℕ
first_stream bidi client = 0
first_stream bidi server = 1
first_stream uni client = 2
first_stream uni server = 3

-- `StreamNum.StreamID`; `none` is `InvalidStreamID`, the ID of the number 0.
unfoldable pub stream_id_of : StreamType → Perspective → ℕ → Option ℕ
stream_id_of stype pers s = if s == 0 then none else some (first_stream stype pers + 4 * (s - 1))

-- `StreamID.InitiatedBy`
unfoldable pub initiated_by : ℕ → Perspective
initiated_by id = if id % 2 == 0 then client else server

-- `StreamID.Type`
unfoldable pub type_of : ℕ → StreamType
type_of id = if leb 2 (id % 4) then uni else bidi

-- `StreamID.StreamNum`
unfoldable pub stream_num : ℕ → ℕ
stream_num id = id / 4 + 1

-- ===== src/Utils.antt =====
-- internal/utils: variable-length integers and big-endian words.
pub mod VarInt
pub mod ByteOrder

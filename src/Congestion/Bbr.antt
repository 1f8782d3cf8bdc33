-- ===== src/Congestion/Bbr.antt =====
-- internal/congestion/bbr_sender.go: the state of the BBR sender and what is read off it. The fields
-- that no method writes are a record of their own. What a method gets from outside is the record
-- `Inputs`: the bytes in flight, the random number, the minimum of the RTT statistics, and the
-- floating-point products, which are arbitrary functions.
pub mod State
pub mod Queries
pub mod Model
pub mod Modes
pub mod Windows
pub mod Event
pub mod Frame
pub mod Recovery
pub mod Bounds
pub mod Phases
pub mod FullBandwidth

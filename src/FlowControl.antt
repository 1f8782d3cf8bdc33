-- ===== src/FlowControl.antt =====
-- internal/flowcontrol: credit for data, of a connection and of the streams that share it.
pub mod Base
pub mod Connection
pub mod Stream
pub mod Accounts

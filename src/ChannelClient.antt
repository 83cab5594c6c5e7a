-- ===== src/ChannelClient.antt =====
-- server/red-channel-client.cpp: one channel of one client. The parts of its state that the code
-- keeps apart: the reader of incoming messages, the sender with its pipe and its acknowledgement
-- window, and the monitors of latency and connectivity; and the theorems on each.
pub mod State
pub mod Monitor
pub mod Sending
pub mod Timing
pub mod Ordering
pub mod Beginning
pub mod Items
pub mod Pushing
pub mod Handling
pub mod Start
pub mod Upkeep
pub mod Session
pub mod Stale
pub mod Alive
pub mod Incoming
pub mod Framing
pub mod Splitting
pub mod Unparsable
mod Tests
mod Runs

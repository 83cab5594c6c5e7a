-- ===== src/CharDevice.antt =====
-- server/char-device.cpp: the flow control that the character devices of a guest share. The parts:
-- the state, the way from clients to the device, the way from the device to clients, and the
-- management of clients and migration; and the theorems on each.
pub mod State
pub mod Writing
pub mod Reading
pub mod Manage
pub mod Migration
pub mod Delivery
pub mod Reads
pub mod Stream
pub mod Tokens
pub mod Writes
pub mod Grants
pub mod Session
pub mod Turnover
pub mod Restoring
mod Tests

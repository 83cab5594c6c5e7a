-- ===== src/StreamDevice.antt =====
-- server/red-stream-device.cpp: the device over which a streaming agent in the guest sends video
-- frames and cursors. The state and the layout of messages, the handler of each message, the reader
-- that frames the messages, and the events of the port; and the theorems on them.
pub mod State
pub mod Messages
pub mod Reader
pub mod Port
pub mod Bounds
pub mod Handlers
pub mod Framing
pub mod Safety
pub mod History
pub mod Frames
pub mod Faults
mod Tests

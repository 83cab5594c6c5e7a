-- ===== src/WebSocket/Tests.antt =====
-- Headers of frames, and an instance of the theorem on them.
use spice.Prelude.{◌≡◌, refl, true, false, some, none, [], ◌∷◌, arith}
use spice.WebSocket.{pos, Frame, fill_header, frame_bytes_needed, websocket_get_frame_header}
use spice.WebSocket.RoundTrip.{opened, first_byte, header-read}

-- A binary frame of 300 bytes.
abbrev binary_frame : Frame
binary_frame = record {
  frame_type = 0;
  fin = false;
  unfinished = 0;
  header = 130 ∷ 126 ∷ 1 ∷ 44 ∷ [];
  frame_ready = false;
  masked = false;
  mask = [];
  relayed = 0;
  expected_len = 0;
}

-- A reserved bit is refused.
reserved : websocket_get_frame_header (record binary_frame { header = 194 ∷ 0 ∷ [] }) ≡ none
unfolding websocket_get_frame_header frame_bytes_needed
reserved = refl

header-read_example :
    (frame_bytes_needed binary_frame.header ≡ pos 0)
    × (websocket_get_frame_header binary_frame ≡ some (opened true true 300 binary_frame))
unfolding fill_header
header-read_example = header-read true true 300 binary_frame (omega arith) refl filled
  where
    filled : binary_frame.header ≡ fill_header 300 (first_byte true true)
    filled = refl

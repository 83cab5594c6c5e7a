-- ===== src/StreamDevice/State.antt =====
-- The state of a stream device (server/red-stream-device.h), the layout of its messages, and reading.
-- A buffer that is filled step by step is the list of the bytes filled in so far, so `hdr_pos` and
-- `msg_pos` are lengths, and a position set back to zero is an empty list.
use spice.Prelude.{
  ℕ, ◌-◌, ◌≤◌, ◌<◌, ◌≡◌, Bool, true, false, Option, none, some, List, [], ◌∷◌, ◌++◌, ltb, leb,
  if◌then◌else◌, length, take, drop, ◌>>◌, check,
}

-- `StreamDevHeader`, as far as it is used.
pub record Header : Type 0 where
  pub kind : ℕ
  pub size : ℕ

-- `StreamMsgCursorSet`; `pixels` is what stands behind the fixed part.
pub record CursorSet : Type 0 where
  pub kind : ℕ
  pub width : ℕ
  pub height : ℕ
  pub hot_spot_x : ℕ
  pub hot_spot_y : ℕ
  pub pixels : List ℕ

-- `StreamMsgDeviceDisplayInfo`; `address` is what stands behind the fixed part.
pub record DisplayInfoMessage : Type 0 where
  pub stream_id : ℕ
  pub device_display_id : ℕ
  pub device_address_len : ℕ
  pub address : List ℕ

-- What spice/stream-device.h and spice/enums.h define: the sizes and layouts of messages, and
-- constants. A reader gets the bytes of the message; `messages_size` is the size of the union
-- `AllMessages`.
pub record StreamProtocol : Type 0 where
  pub header_size : ℕ
  pub read_header : List ℕ → Header
  pub type_format : ℕ
  pub type_device_display_info : ℕ
  pub type_data : ℕ
  pub type_cursor_set : ℕ
  pub type_cursor_move : ℕ
  pub type_capabilities : ℕ
  pub messages_size : ℕ
  pub format_size : ℕ
  pub read_format : List ℕ → ℕ × ℕ
  pub device_display_info_size : ℕ
  pub read_device_display_info : List ℕ → DisplayInfoMessage
  pub capabilities_max_bytes : ℕ
  pub max_guest_capabilities_bytes : ℕ
  pub cursor_set_size : ℕ
  pub read_cursor_set : List ℕ → CursorSet
  pub cursor_set_max_width : ℕ
  pub cursor_set_max_height : ℕ
  pub cursor_alpha : ℕ
  pub cursor_color24 : ℕ
  pub cursor_color32 : ℕ
  pub cursor_move_size : ℕ
  pub read_cursor_move : List ℕ → ℕ × ℕ

-- What the code relies on: a header has bytes, the union has room for its members, and a message's
-- tail is what its fixed part leaves of it.
pub record IsStreamProtocol (p : StreamProtocol) : Type 0 where
  pub header_pos : 0 < p.header_size
  pub format_fits : p.format_size ≤ p.messages_size
  pub capabilities_fits : p.capabilities_max_bytes ≤ p.messages_size
  pub cursor_move_fits : p.cursor_move_size ≤ p.messages_size
  pub cursor_tail :
      (m : List ℕ) → length (p.read_cursor_set m).pixels ≡ length m - p.cursor_set_size
  pub address_tail :
      (m : List ℕ)
      → length (p.read_device_display_info m).address ≡ length m - p.device_display_info_size

-- `StreamDeviceDisplayInfo`
pub record DisplayInfo : Type 0 where
  pub stream_id : ℕ
  pub device_address : List ℕ
  pub device_display_id : ℕ

-- `RedCursorCmd`, as it is filled in here.
pub data CursorCmd : Type 0 where
  cursor_shape : CursorSet → CursorCmd
  cursor_position : ℕ → ℕ → CursorCmd

-- The texts that are sent to the guest with an error.
pub data ErrorText : Type 0 where
  protocol_error wrong_format_size display_info_too_large data_too_large wrong_cursor_move_size
        wrong_capabilities_size invalid_message_type invalid_cursor_size :
      ErrorText

-- What the device does to its surroundings: calls of its two channels, of the server and of the
-- device at the other end, and messages written to the guest.
pub data Event : Type 0 where
  create_channels : Event
  change_format : ℕ × ℕ → Event
  send_data : List ℕ → ℕ → Event
  process_cmd : CursorCmd → Event
  send_device_display_info : DisplayInfo → Event
  reset_channels : Event
  notify_error : ErrorText → Event
  send_capabilities : ℕ → Event
  start_stop : List ℕ → Event
  set_state : ℕ → Event
  reset_device : Event
  wakeup : Event

-- `StreamDevice`. The two channels are created together; `close_timer` says that the timer runs.
pub record StreamDevice : Type 0 where
  pub hdr : List ℕ
  pub msg : List ℕ
  pub msg_len : ℕ
  pub has_error : Bool
  pub opened : Bool
  pub flow_stopped : Bool
  pub guest_capabilities : List ℕ
  pub has_channels : Bool
  pub close_timer : Bool
  pub frame_mmtime : ℕ
  pub device_display_info : DisplayInfo
  pub events : List Event

abbrev pub log : StreamDevice → Event → StreamDevice
log d e = record d { events = d.events ++ (e ∷ []) }

-- What the device at the other end has ready: bytes, which a read takes from the front as far as
-- it has room, or a failure. The end of the list, or an empty answer, is a read of no bytes.
pub data Answer : Type 0 where
  bytes : List ℕ → Answer
  failure : Answer

-- `RedCharDevice::read` of at most `len` bytes: `none` is a negative result.
unfoldable pub read : ℕ → List Answer → Option (List ℕ) × List Answer
read len [] = (some [], [])
read len (failure ∷ ans) = (none, ans)
read len (bytes c ∷ ans) =
    if ltb len (length c) then (some (take len c), bytes (drop len c) ∷ ans) else (some c, ans)

-- What a read brought in: nothing when it failed.
abbrev pub brought : Option (List ℕ) → List ℕ
brought none = []
brought (some bs) = bs

-- `n > 0`
abbrev pub is_positive : Option (List ℕ) → Bool
is_positive (some (x ∷ bs)) = true
is_positive _ = false

-- A read into `msg` behind `msg_pos`, up to `end`. A position behind `end`, or an `end` behind the
-- allocated buffer, would let the device overwrite memory, and counts as a failed assertion.
unfoldable pub receive :
    ℕ → StreamDevice → List Answer → Option (Option (List ℕ) × StreamDevice × List Answer)
receive end d ans = do
  check (leb (length d.msg) end)
  check (leb end d.msg_len)
  some (received (read (end - length d.msg) ans))
  where
    received : Option (List ℕ) × List Answer → Option (List ℕ) × StreamDevice × List Answer
    received r = (r.0, record d { msg = d.msg ++ brought r.0 }, r.1)

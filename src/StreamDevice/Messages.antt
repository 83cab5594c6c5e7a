-- ===== src/StreamDevice/Messages.antt =====
-- The handler of each message. A handler returns the device, the answers that are left, and
-- whether the message is handled; `none` is an access outside of a buffer.
use spice.Prelude.{
  ℕ, ◌+◌, ◌-◌, ◌*◌, ◌/◌, min, Bool, true, false, not, ◌||◌, Option, none, some, List, ◌++◌, ltb,
  leb, ◌==◌, if◌then◌else◌, length, take, drop, set, replicate, ◌>>=◌, ◌>>◌, check,
}
use spice.StreamDevice.State.{
  CursorSet, DisplayInfoMessage, StreamProtocol, DisplayInfo, cursor_shape, cursor_position,
  ErrorText, protocol_error, wrong_capabilities_size, invalid_cursor_size, change_format, send_data,
  process_cmd, send_device_display_info, notify_error, StreamDevice, log, Answer, is_positive,
  receive,
}

abbrev pub Outcome : Type 0
Outcome = StreamDevice × List Answer × Bool

-- `MAX_DEVICE_ADDRESS_LEN` of server/display-limits.h
abbrev pub max_device_address_len : ℕ
max_device_address_len = 256

-- `StreamDevice::handle_msg_invalid`; it always returns false.
abbrev pub handle_msg_invalid : ErrorText → StreamDevice → StreamDevice
handle_msg_invalid text d = record (log d (notify_error text)) { has_error = true }

-- `g_realloc` of `msg` when it is smaller than the message.
abbrev pub grow : ℕ → StreamDevice → StreamDevice
grow size d = if ltb d.msg_len size then record d { msg_len = size } else d

module _ (p : StreamProtocol) where
  abbrev pub format_read : Option (List ℕ) → StreamDevice → List Answer → Outcome
  format_read none d ans = (handle_msg_invalid protocol_error d, ans, false)
  format_read (some bs) d ans =
      if ltb (length d.msg) p.format_size
      then (d, ans, false)
      else (log d (change_format (p.read_format d.msg)), ans, true)

  -- `StreamDevice::handle_msg_format`
  unfoldable pub handle_msg_format : StreamDevice → List Answer → Option Outcome
  handle_msg_format d ans = receive p.format_size d ans >>= λ r. some (format_read r.0 r.1 r.2)

  -- The address cut to the size of the field, and its last byte made zero. The field keeps its
  -- bytes behind that. Copying more than the message or the field holds is a failed assertion.
  unfoldable pub copy_address : ℕ → List ℕ → List ℕ → Option (List ℕ)
  copy_address len from old = do
    check (leb len (length from))
    check (leb len max_device_address_len)
    some (set (take len from ++ drop len old) (len - 1) 0)

  -- A whole DeviceDisplayInfo message.
  unfoldable pub display_info_read : ℕ → DisplayInfoMessage → StreamDevice → Option StreamDevice
  unfolding copy_address
  display_info_read size m d =
      let len =
        if ltb max_device_address_len m.device_address_len
        then max_device_address_len
        else m.device_address_len in
      if len == 0
      then some d
      else if ltb size (p.device_display_info_size + len)
      then some d
      else (copy_address len m.address d.device_display_info.device_address >>= λ address.
          let info : DisplayInfo = record {
            stream_id = m.stream_id;
            device_address = address;
            device_display_id = m.device_display_id;
          } in
          some (log (record d { device_display_info = info }) (send_device_display_info info)))

  abbrev pub display_info_arrived :
      ℕ → Option (List ℕ) → StreamDevice → List Answer → Option Outcome
  display_info_arrived size n d ans =
      if not (is_positive n)
      then some (d, ans, length d.msg == size)
      else if not (length d.msg == size)
      then some (d, ans, false)
      else (display_info_read size (p.read_device_display_info d.msg) d >>= λ d'.
          some (d', ans, true))

  -- `StreamDevice::handle_msg_device_display_info`
  unfoldable pub handle_msg_device_display_info : ℕ → StreamDevice → List Answer → Option Outcome
  handle_msg_device_display_info size d ans =
      receive size (grow size d) ans >>= λ r. display_info_arrived size r.0 r.1 r.2

  abbrev pub capabilities_read : ℕ → Option (List ℕ) → StreamDevice → List Answer → Outcome
  capabilities_read size none d ans = (handle_msg_invalid protocol_error d, ans, false)
  capabilities_read size (some bs) d ans =
      let known = min p.max_guest_capabilities_bytes size in
      if ltb (length d.msg) size then (d, ans, false) else (
        record d {
          guest_capabilities =
              take known d.msg ++ replicate (p.max_guest_capabilities_bytes - known) 0;
        },
        ans,
        true,
      )

  -- `StreamDevice::handle_msg_capabilities`
  unfoldable pub handle_msg_capabilities : ℕ → StreamDevice → List Answer → Option Outcome
  handle_msg_capabilities size d ans =
      if ltb p.capabilities_max_bytes size
      then some (handle_msg_invalid wrong_capabilities_size d, ans, false)
      else (receive size d ans >>= λ r. some (capabilities_read size r.0 r.1 r.2))

  -- The start of a frame takes the time, and makes room for the whole frame.
  abbrev pub begin_frame : ℕ → ℕ → StreamDevice → StreamDevice
  begin_frame now size d =
      if length d.msg == 0 then grow size (record d { frame_mmtime = now }) else d

  abbrev pub data_arrived : ℕ → Option (List ℕ) → StreamDevice → List Answer → Outcome
  data_arrived size n d ans =
      if not (is_positive n)
      then (d, ans, length d.msg == size)
      else if not (length d.msg == size)
      then (d, ans, false)
      else (log d (send_data d.msg d.frame_mmtime), ans, true)

  -- `StreamDevice::handle_msg_data`
  unfoldable pub handle_msg_data : ℕ → ℕ → StreamDevice → List Answer → Option Outcome
  handle_msg_data now size d ans =
      receive size (begin_frame now size d) ans >>= λ r. some (data_arrived size r.0 r.1 r.2)

  -- `get_cursor_type_bits`
  abbrev pub get_cursor_type_bits : ℕ → ℕ
  get_cursor_type_bits t =
      if t == p.cursor_alpha
      then 32
      else if t == p.cursor_color24
      then 24 + 1
      else if t == p.cursor_color32
      then 32 + 1
      else 0

  -- The bytes that the pixels and the mask of a cursor need: `SPICE_ALIGN` rounds up to 8 bits.
  abbrev pub size_required : CursorSet → ℕ
  size_required m = (m.width * m.height * get_cursor_type_bits m.kind + 7) / 8 * 8 / 8

  -- `stream_msg_cursor_set_to_cursor_cmd`; the inner `none` is a null pointer.
  unfoldable pub stream_msg_cursor_set_to_cursor_cmd : CursorSet → ℕ → Option (Option CursorSet)
  stream_msg_cursor_set_to_cursor_cmd m msg_size =
      if ltb p.cursor_set_max_width m.width || ltb p.cursor_set_max_height m.height
      then some none
      else if get_cursor_type_bits m.kind == 0
      then some none
      else if ltb msg_size (p.cursor_set_size + size_required m)
      then some none
      else (check (leb (size_required m) (length m.pixels))
          >> some (some (record m { pixels = take (size_required m) m.pixels })))

  abbrev pub cursor_made : Option CursorSet → StreamDevice → List Answer → Outcome
  cursor_made none d ans = (handle_msg_invalid protocol_error d, ans, false)
  cursor_made (some c) d ans = (log d (process_cmd (cursor_shape c)), ans, true)

  abbrev pub cursor_arrived : ℕ → Option (List ℕ) → StreamDevice → List Answer → Option Outcome
  cursor_arrived size n d ans =
      if not (is_positive n)
      then some (d, ans, false)
      else if not (length d.msg == size)
      then some (d, ans, false)
      else (stream_msg_cursor_set_to_cursor_cmd (p.read_cursor_set d.msg) (length d.msg) >>= λ c.
          some (cursor_made c d ans))

  -- The largest cursor message that is taken.
  abbrev pub max_cursor_set_size : ℕ
  max_cursor_set_size =
      p.cursor_set_size
      + (p.cursor_set_max_width * 4 + (p.cursor_set_max_width + 7) / 8) * p.cursor_set_max_height

  -- `StreamDevice::handle_msg_cursor_set`
  unfoldable pub handle_msg_cursor_set : ℕ → StreamDevice → List Answer → Option Outcome
  handle_msg_cursor_set size d ans =
      if ltb size p.cursor_set_size || ltb max_cursor_set_size size
      then some (handle_msg_invalid invalid_cursor_size d, ans, false)
      else (receive size (grow size d) ans >>= λ r. cursor_arrived size r.0 r.1 r.2)

  abbrev pub cursor_move_arrived : ℕ → Option (List ℕ) → StreamDevice → List Answer → Outcome
  cursor_move_arrived size n d ans =
      if not (is_positive n)
      then (d, ans, false)
      else if not (length d.msg == size)
      then (d, ans, false)
      else let to = p.read_cursor_move d.msg in
        (log d (process_cmd (cursor_position to.0 to.1)), ans, true)

  -- `StreamDevice::handle_msg_cursor_move`
  unfoldable pub handle_msg_cursor_move : ℕ → StreamDevice → List Answer → Option Outcome
  handle_msg_cursor_move size d ans =
      receive size d ans >>= λ r. some (cursor_move_arrived size r.0 r.1 r.2)

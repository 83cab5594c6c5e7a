-- ===== src/StreamDevice/Reader.antt =====
-- The reader that frames the messages of the device.
use spice.Prelude.{
  ℕ, zero, suc, ◌+◌, ◌-◌, ◌*◌, true, false, not, ◌||◌, Option, none, some, List, [], ◌∷◌, ◌++◌, ltb,
  ◌==◌, if◌then◌else◌, length, ◌>>=◌,
}
use spice.StreamDevice.State.{
  Header, StreamProtocol, ErrorText, wrong_format_size, display_info_too_large, data_too_large,
  wrong_cursor_move_size, invalid_message_type, StreamDevice, Answer, bytes, failure, read,
  is_positive, brought,
}
use spice.StreamDevice.Messages.{
  Outcome, max_device_address_len, handle_msg_invalid, handle_msg_format,
  handle_msg_device_display_info, handle_msg_capabilities, handle_msg_data, handle_msg_cursor_set,
  handle_msg_cursor_move,
}

-- The loop that discards data after an error: it reads until a read brings nothing.
unfoldable pub discard : List Answer → List Answer
discard [] = []
discard (failure ∷ ans) = ans
discard (bytes [] ∷ ans) = ans
discard (bytes (x ∷ c) ∷ ans) = discard ans

module _ (p : StreamProtocol) where
  -- Bytes of the header; the last of them makes the message buffer empty.
  abbrev pub extend_header : StreamDevice → List ℕ → StreamDevice
  extend_header d bs =
      let hdr = d.hdr ++ bs in
      if ltb (length hdr) p.header_size
      then record d { hdr = hdr }
      else record d { hdr = hdr; msg = [] }

  -- The loop that reads the header, one answer of the device after the other; true if the header
  -- is complete.
  unfoldable pub read_header_loop : StreamDevice → List Answer → Outcome
  unfolding read
  read_header_loop d [] = (d, [], not (ltb (length d.hdr) p.header_size))
  read_header_loop d (a ∷ ans) =
      let (n, left) = read (p.header_size - length d.hdr) (a ∷ []) in
      let d' = extend_header d (brought n) in
      let rest = read_header_loop d' ans in
      if not (ltb (length d.hdr) p.header_size)
      then (d, a ∷ ans, true)
      else if not (is_positive n)
      then (d, left ++ ans, false)
      else if ltb (length d'.hdr) p.header_size
      then rest
      else (d', left ++ ans, true)

  -- The message of the header.
  unfoldable pub handle : ℕ → Header → StreamDevice → List Answer → Option Outcome
  handle now h d ans =
      let invalid : ErrorText → Option Outcome =
        λ text. some (handle_msg_invalid text d, ans, false) in
      if h.kind == p.type_format
      then (if not (h.size == p.format_size)
          then invalid wrong_format_size
          else handle_msg_format p d ans)
      else if h.kind == p.type_device_display_info
      then (if ltb (p.device_display_info_size + max_device_address_len) h.size
          then invalid display_info_too_large
          else handle_msg_device_display_info p h.size d ans)
      else if h.kind == p.type_data
      then (if ltb (32 * 1024 * 1024) h.size
          then invalid data_too_large
          else handle_msg_data p now h.size d ans)
      else if h.kind == p.type_cursor_set
      then handle_msg_cursor_set p h.size d ans
      else if h.kind == p.type_cursor_move
      then (if not (h.size == p.cursor_move_size)
          then invalid wrong_cursor_move_size
          else handle_msg_cursor_move p h.size d ans)
      else if h.kind == p.type_capabilities
      then handle_msg_capabilities p h.size d ans
      else invalid invalid_message_type

  -- After a handled message the reader waits for a header, and a buffer that has grown shrinks.
  abbrev pub finish_message : StreamDevice → StreamDevice
  finish_message d = record d {
    hdr = [];
    msg_len = if ltb p.messages_size d.msg_len then p.messages_size else d.msg_len;
  }

  abbrev pub finish : Outcome → Outcome
  finish r = let d = r.0 in (if r.2 then finish_message d else d, r.1, r.2 || d.has_error)

  abbrev pub read_message : ℕ → Outcome → Option Outcome
  read_message now r =
      if not r.2
      then some (r.0, r.1, false)
      else (handle now (p.read_header r.0.hdr) r.0 r.1 >>= λ s. some (finish s))

  -- `StreamDevice::partial_read`
  unfoldable pub partial_read : ℕ → StreamDevice → List Answer → Option Outcome
  partial_read now d ans =
      if d.has_error
      then some (record d { close_timer = true }, discard ans, false)
      else if d.flow_stopped || not d.has_channels
      then some (d, ans, false)
      else read_message now (read_header_loop d ans)

  -- `StreamDevice::read_one_msg_from_device`: the loop on fuel, which is `none` when it runs out.
  -- The time may differ in each turn.
  unfoldable pub read_one_msg_from_device :
      (ℕ → ℕ) → ℕ → StreamDevice → List Answer → Option (StreamDevice × List Answer)
  read_one_msg_from_device clock zero d ans = none
  read_one_msg_from_device clock (suc fuel) d ans = partial_read (clock fuel) d ans >>= λ r.
      (let rest = read_one_msg_from_device clock fuel r.0 r.1 in
        if r.2 then rest else some (r.0, r.1))

-- ===== src/StreamDevice/Handlers.antt =====
-- Each handler of a message reads and copies inside of its buffers.
use spice.Prelude.{
  ℕ, ◌≤◌, ◌<◌, ◌≡◌, refl, subst, inl, inr, true, false, Option, some, List, ltb, not, ◌&&◌, ◌||◌,
  length, Bool-cases, some_of_ne_none, arith, ◌==◌,
}
use spice.StreamDevice.State.{
  StreamProtocol, IsStreamProtocol, StreamDevice, Answer, is_positive, CursorSet,
  wrong_capabilities_size, invalid_cursor_size,
}
use spice.StreamDevice.Messages.{
  Outcome, handle_msg_invalid, format_read, display_info_arrived, capabilities_read, data_arrived,
  cursor_arrived, cursor_made, cursor_move_arrived, grow, begin_frame, copy_address,
  display_info_read, handle_msg_format, handle_msg_device_display_info, handle_msg_capabilities,
  handle_msg_data, stream_msg_cursor_set_to_cursor_cmd, handle_msg_cursor_set,
  handle_msg_cursor_move, max_cursor_set_size,
}
use spice.StreamDevice.Bounds.{
  pending, Handled, refused-Handled, read-Handled, Received, receive-runs, SameBuffer,
}

module _ (p : StreamProtocol) (v : IsStreamProtocol p) where
  pub format-runs :
      (d : StreamDevice) (ans : List Answer)
      → p.messages_size ≤ d.msg_len
      → length d.msg ≤ p.format_size
      → (o : Outcome) × (handle_msg_format p d ans ≡ some o) × Handled p p.format_size d ans o
  unfolding handle_msg_format
  format-runs d ans room short =
      let (r, ran, t) =
        receive-runs p.messages_size p.format_size d ans room short
          (omega (arith, v.format_fits)) in
      let o = format_read p r.0 r.1 r.2 in
      (
        o,
        ground arith,
        read-Handled p p.format_size d ans room r.1 r.2 o t (ground arith) (ground arith),
      )

  pub capabilities-runs :
      (size : ℕ) (d : StreamDevice) (ans : List Answer)
      → p.messages_size ≤ d.msg_len
      → length d.msg ≤ size
      → (o : Outcome) × (handle_msg_capabilities p size d ans ≡ some o) × Handled p size d ans o
  unfolding handle_msg_capabilities
  capabilities-runs size d ans room short = elim (Bool-cases (ltb p.capabilities_max_bytes size)) [
    | inl large ↦
        let o : Outcome = (handle_msg_invalid wrong_capabilities_size d, ans, false) in
        (o, ground arith, refused-Handled p size d ans room o refl refl refl refl)
    | inr fits ↦
        let (r, ran, t) =
          receive-runs p.messages_size size d ans room short
            (ground (arith, v.capabilities_fits)) in
        let o = capabilities_read p size r.0 r.1 r.2 in
        (o, ground arith, read-Handled p size d ans room r.1 r.2 o t (ground arith) (ground arith))
  ]

  pub data-runs :
      (now size : ℕ) (d : StreamDevice) (ans : List Answer)
      → p.messages_size ≤ d.msg_len
      → length d.msg ≤ size
      → (0 < length d.msg → size ≤ d.msg_len)
      → (o : Outcome) × (handle_msg_data p now size d ans ≡ some o) × Handled p size d ans o
  unfolding handle_msg_data
  data-runs now size d ans room short large =
      let d1 = begin_frame p now size d in
      let fits : size ≤ d1.msg_len = ground (arith, large) in
      let (r, ran, t) =
        receive-runs p.messages_size size d1 ans (ground arith) (ground arith) fits in
      let o = data_arrived p size r.0 r.1 r.2 in
      let same : d1.hdr ≡ d.hdr = ground arith in
      (
        o,
        ground arith,
        read-Handled p size d ans room r.1 r.2 o
            (subst (λ h. Received p.messages_size size h (pending ans) r.1 r.2) same t)
            (ground arith) (ground arith),
      )

  pub cursor_move-runs :
      (size : ℕ) (d : StreamDevice) (ans : List Answer)
      → p.messages_size ≤ d.msg_len
      → size ≡ p.cursor_move_size
      → length d.msg ≤ size
      → (o : Outcome) × (handle_msg_cursor_move p size d ans ≡ some o) × Handled p size d ans o
  unfolding handle_msg_cursor_move
  cursor_move-runs size d ans room same short =
      let (r, ran, t) =
        receive-runs p.messages_size size d ans room short (omega (arith, v.cursor_move_fits)) in
      let o = cursor_move_arrived p size r.0 r.1 r.2 in
      (o, ground arith, read-Handled p size d ans room r.1 r.2 o t (ground arith) (ground arith))

  -- The address that is copied lies in the message and fits its field.
  display_info_read-runs :
      (d : StreamDevice)
      → (d' : StreamDevice) × (display_info_read p
            (length d.msg)
            (p.read_device_display_info d.msg)
            d
          ≡ some d')
        × SameBuffer d d'
  unfolding display_info_read copy_address
  display_info_read-runs d =
      let m = p.read_device_display_info d.msg in
      let (d', e) =
        some_of_ne_none (display_info_read p (length d.msg) m d)
          (ground (arith, v.address_tail d.msg)) in
      (d', e, ground arith)

  -- The same after any read.
  display_info_arrived-runs :
      (size : ℕ) (n : Option (List ℕ)) (d : StreamDevice) (ans : List Answer)
      → (o : Outcome) × (display_info_arrived p size n d ans ≡ some o)
        × SameBuffer d o.0
        × (o.1 ≡ ans)
  display_info_arrived-runs size n d ans =
      let (d', whole, same) = display_info_read-runs d in
      elim (Bool-cases (not (is_positive n))) [
        | inl nothing ↦ ((d, ans, length d.msg == size), ground arith, (refl, refl, refl), refl)
        | inr got ↦ elim (Bool-cases (length d.msg == size)) [
          | inr more ↦ ((d, ans, false), ground arith, (refl, refl, refl), refl)
          | inl all ↦
              let e : length d.msg ≡ size = ground arith in
              let whole' =
                subst (λ k. display_info_read p k (p.read_device_display_info d.msg) d ≡ some d') e
                  whole in
              ((d', ans, true), ground arith, same, refl)
        ]
      ]

  pub display_info-runs :
      (size : ℕ) (d : StreamDevice) (ans : List Answer)
      → p.messages_size ≤ d.msg_len
      → length d.msg ≤ size
      → (o : Outcome) × (handle_msg_device_display_info p size d ans ≡ some o)
        × Handled p size d ans o
  unfolding handle_msg_device_display_info
  display_info-runs size d ans room short =
      let d1 = grow size d in
      let (r, ran, t) =
        receive-runs p.messages_size size d1 ans (ground arith) (ground arith) (ground arith) in
      let (o, ends, same, left) = display_info_arrived-runs size r.0 r.1 r.2 in
      let hdr : d1.hdr ≡ d.hdr = ground arith in
      (
        o,
        rw ran ends,
        read-Handled p size d ans room r.1 r.2 o
            (subst (λ h. Received p.messages_size size h (pending ans) r.1 r.2) hdr t) same left,
      )

  -- The pixels that are copied lie in the message.
  cursor_cmd-runs :
      (m : List ℕ)
      → (c : Option CursorSet) × (stream_msg_cursor_set_to_cursor_cmd p
            (p.read_cursor_set m)
            (length m)
          ≡ some c)
  unfolding stream_msg_cursor_set_to_cursor_cmd
  cursor_cmd-runs m =
      some_of_ne_none (stream_msg_cursor_set_to_cursor_cmd p (p.read_cursor_set m) (length m))
        (ground (arith, v.cursor_tail m))

  cursor_arrived-runs :
      (size : ℕ) (n : Option (List ℕ)) (d : StreamDevice) (ans : List Answer)
      → (o : Outcome) × (cursor_arrived p size n d ans ≡ some o) × SameBuffer d o.0 × (o.1 ≡ ans)
  cursor_arrived-runs size n d ans =
      let (c, made) = cursor_cmd-runs d.msg in
      elim (Bool-cases (is_positive n && length d.msg == size)) [
        | inr not_all ↦ ((d, ans, false), ground arith, (refl, refl, refl), refl)
        | inl all ↦ (cursor_made p c d ans, ground arith, ground arith, ground arith)
      ]

  pub cursor_set-runs :
      (size : ℕ) (d : StreamDevice) (ans : List Answer)
      → p.messages_size ≤ d.msg_len
      → length d.msg ≤ size
      → (o : Outcome) × (handle_msg_cursor_set p size d ans ≡ some o) × Handled p size d ans o
  unfolding handle_msg_cursor_set
  cursor_set-runs size d ans room short =
      let d1 = grow size d in
      elim (Bool-cases (ltb size p.cursor_set_size || ltb (max_cursor_set_size p) size)) [
        | inl wrong ↦
            let o : Outcome = (handle_msg_invalid invalid_cursor_size d, ans, false) in
            (o, rw wrong refl, refused-Handled p size d ans room o refl refl refl refl)
        | inr fine ↦
            let (r, ran, t) =
              receive-runs p.messages_size size d1 ans (ground arith) (ground arith)
                (ground arith) in
            let (o, ends, same, left) = cursor_arrived-runs size r.0 r.1 r.2 in
            let hdr : d1.hdr ≡ d.hdr = ground arith in
            (
              o,
              rw (fine, ran) ends,
              read-Handled p size d ans room r.1 r.2 o
                  (subst (λ h. Received p.messages_size size h (pending ans) r.1 r.2) hdr t) same
                  left,
            )
      ]

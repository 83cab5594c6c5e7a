-- ===== src/StreamDevice/Framing.antt =====
-- The header loop, and the handling of the message that a header announces, inside of the buffers.
use spice.Prelude.{
  ℕ, ◌+◌, ◌-◌, ◌*◌, ◌≤◌, ◌<◌, ◌≡◌, refl, sym, subst, inl, inr, true, false, some, List, [], ◌∷◌,
  ◌++◌, ltb, length, length-append, Bool-cases, arith, ◌==◌,
}
use spice.StreamDevice.State.{
  Header, StreamProtocol, IsStreamProtocol, StreamDevice, Answer, bytes, failure, read, brought,
  is_positive, ErrorText, wrong_format_size, display_info_too_large, data_too_large,
  wrong_cursor_move_size, invalid_message_type,
}
use spice.StreamDevice.Messages.{Outcome, handle_msg_invalid, max_device_address_len}
use spice.StreamDevice.Reader.{extend_header, read_header_loop, handle}
use spice.StreamDevice.Bounds.{pending, read_bounds, Handled, refused-Handled}
use spice.StreamDevice.Handlers.{
  format-runs, capabilities-runs, data-runs, cursor_move-runs, display_info-runs, cursor_set-runs,
}

-- The message that the header announces.
abbrev pub size_of : StreamProtocol → StreamDevice → ℕ
size_of p d = (p.read_header d.hdr).size

-- The buffers are never smaller than what they hold or are about to hold: the header and the least
-- size of `msg`; and within a message, what has been read is no more than the message's size, for
-- which there is room as soon as its first byte is there.
pub record IsSound (p : StreamProtocol) (d : StreamDevice) : Type 0 where
  pub hdr_fits : length d.hdr ≤ p.header_size
  pub room : p.messages_size ≤ d.msg_len
  pub inside :
      d.has_error ≡ false
      → length d.hdr ≡ p.header_size
      → (length d.msg ≤ size_of p d) × (0 < length d.msg → size_of p d ≤ d.msg_len)

pending-append : (xs ys : List Answer) → pending (xs ++ ys) ≡ pending xs + pending ys
pending-append [] ys = omega arith
pending-append (bytes c ∷ xs) ys = omega (arith, pending-append xs ys)
pending-append (failure ∷ xs) ys = pending-append xs ys

module _ (p : StreamProtocol) (v : IsStreamProtocol p) where
  pub handle-runs :
      (now : ℕ) (h : Header) (d : StreamDevice) (ans : List Answer)
      → p.messages_size ≤ d.msg_len
      → length d.msg ≤ h.size
      → (0 < length d.msg → h.size ≤ d.msg_len)
      → (o : Outcome) × (handle p now h d ans ≡ some o) × Handled p h.size d ans o
  unfolding handle
  handle-runs now h d ans room short large =
      let refuse : ErrorText → Outcome = λ text. (handle_msg_invalid text d, ans, false) in
      let is_refused : (text : ErrorText) → Handled p h.size d ans (refuse text) =
        λ text. refused-Handled p h.size d ans room (refuse text) refl refl refl refl in
      elim (Bool-cases (h.kind == p.type_format)) [
        | inl a ↦ elim (Bool-cases (h.size == p.format_size)) [
          | inr k ↦ (refuse wrong_format_size, rw (a, k) refl, is_refused wrong_format_size)
          | inl k ↦
              let e : h.size ≡ p.format_size = ground arith in
              let (o, ends, t) = format-runs p v d ans room (omega arith) in
              (o, rw (a, k) ends, subst (λ n. Handled p n d ans o) (sym e) t)
        ]
        | inr a ↦ elim (Bool-cases (h.kind == p.type_device_display_info)) [
          | inl b ↦
              elim (Bool-cases (ltb (p.device_display_info_size + max_device_address_len) h.size)) [
                | inl k ↦ (
                  refuse display_info_too_large,
                  rw (a, b, k) refl,
                  is_refused display_info_too_large,
                )
                | inr k ↦
                    let (o, ends, t) = display_info-runs p v h.size d ans room short in
                    (o, rw (a, b, k) ends, t)
              ]
          | inr b ↦ elim (Bool-cases (h.kind == p.type_data)) [
            | inl c ↦ elim (Bool-cases (ltb (32 * 1024 * 1024) h.size)) [
              | inl k ↦ (refuse data_too_large, rw (a, b, c, k) refl, is_refused data_too_large)
              | inr k ↦
                  let (o, ends, t) = data-runs p v now h.size d ans room short large in
                  (o, rw (a, b, c, k) ends, t)
            ]
            | inr c ↦ elim (Bool-cases (h.kind == p.type_cursor_set)) [
              | inl e ↦
                  let (o, ends, t) = cursor_set-runs p v h.size d ans room short in
                  (o, rw (a, b, c, e) ends, t)
              | inr e ↦ elim (Bool-cases (h.kind == p.type_cursor_move)) [
                | inl f ↦ elim (Bool-cases (h.size == p.cursor_move_size)) [
                  | inr k ↦ (
                    refuse wrong_cursor_move_size,
                    rw (a, b, c, e, f, k) refl,
                    is_refused wrong_cursor_move_size,
                  )
                  | inl k ↦
                      let (o, ends, t) =
                        cursor_move-runs p v h.size d ans room (ground arith) short in
                      (o, rw (a, b, c, e, f, k) ends, t)
                ]
                | inr f ↦ elim (Bool-cases (h.kind == p.type_capabilities)) [
                  | inl g ↦
                      let (o, ends, t) = capabilities-runs p v h.size d ans room short in
                      (o, rw (a, b, c, e, f, g) ends, t)
                  | inr g ↦ (
                    refuse invalid_message_type,
                    rw (a, b, c, e, f, g) refl,
                    is_refused invalid_message_type,
                  )
                ]
              ]
            ]
          ]
        ]
      ]

  -- The header loop: the header grows by what is taken from the answers, and the message buffer is
  -- emptied if this completes it.
  pub record HeaderRead (d : StreamDevice) (ans : List Answer) (o : Outcome) : Type 0 where
    pub fits : length o.0.hdr ≤ p.header_size
    pub complete : o.2 ≡ true → length o.0.hdr ≡ p.header_size
    pub incomplete : o.2 ≡ false → length o.0.hdr < p.header_size
    pub input : pending o.1 + length o.0.hdr ≤ pending ans + length d.hdr
    pub same : (o.0.msg_len ≡ d.msg_len) × (o.0.has_error ≡ d.has_error)
    pub message :
        (length d.hdr ≡ p.header_size → o.0 ≡ d)
        × (length d.hdr < p.header_size → o.2 ≡ true → o.0.msg ≡ [])

  pub read_header_loop-reads :
      (d : StreamDevice) (ans : List Answer)
      → length d.hdr ≤ p.header_size
      → HeaderRead d ans (read_header_loop p d ans)
  unfolding read_header_loop
  read_header_loop-reads d [] h = record {
    fits = h;
    complete = λ e. ground arith;
    incomplete = λ e. ground arith;
    input = omega arith;
    same = (refl, refl);
    message = (λ e. refl, λ k e. ground arith);
  }
  read_header_loop-reads d (a ∷ ans) h =
      let asked = p.header_size - length d.hdr in
      let r = read asked (a ∷ []) in
      let d' = extend_header p d (brought r.0) in
      let (short, taken) = read_bounds asked (a ∷ []) in
      let grown : length d'.hdr ≡ length d.hdr + length (brought r.0) =
        ground (arith, length-append d.hdr (brought r.0)) in
      let joined : pending (r.1 ++ ans) ≡ pending r.1 + pending ans = pending-append r.1 ans in
      let front : pending (a ∷ ans) ≡ pending (a ∷ []) + pending ans =
        pending-append (a ∷ []) ans in
      let t = read_header_loop-reads d' ans (omega (arith, short, grown)) in
      elim (Bool-cases (ltb (length d.hdr) p.header_size)) [
        | inr full ↦ rw full (record {
          fits = h;
          complete = λ e. ground arith;
          incomplete = λ e. ground arith;
          input = omega arith;
          same = (refl, refl);
          message = (λ e. refl, λ k e. ground arith);
        })
        | inl part ↦ elim (Bool-cases (is_positive r.0)) [
          | inr stuck ↦
              rw (part, stuck)
                (record {
                  fits = h;
                  complete = λ e. ground arith;
                  incomplete = λ e. ground arith;
                  input = omega (arith, taken, joined, front);
                  same = (refl, refl);
                  message = (λ e. refl, λ k e. ground arith);
                })
          | inl got ↦ elim (Bool-cases (ltb (length d'.hdr) p.header_size)) [
            | inl more ↦
                rw (part, got, more)
                  (record {
                    fits = t.fits;
                    complete = t.complete;
                    incomplete = t.incomplete;
                    input = omega (arith, taken, joined, front, grown, t.input);
                    same = ground (arith, t.same);
                    message = (λ e. ground arith, λ k e. t.message.1 (ground arith) e);
                  })
            | inr last ↦
                rw (part, got, last)
                  (record {
                    fits = omega (arith, short, grown);
                    complete = λ e. ground (arith, short, grown);
                    incomplete = λ e. ground arith;
                    input = omega (arith, taken, joined, front, grown);
                    same = ground arith;
                    message = (λ e. ground arith, λ k e. ground arith);
                  })
          ]
        ]
      ]

-- ===== src/ChannelClient/Unparsable.antt =====
-- What a message that the channel cannot parse leaves behind.
use spice.Prelude.{
  ℕ, suc, ◌+◌, ◌-◌, ◌<◌, ◌≡◌, refl, true, false, none, some, List, [], ◌∷◌, ◌++◌, ltb, ◌==◌, length,
  append-nil, length-append, arith,
}
use spice.ChannelClient.Incoming.{
  Answer, bytes, Methods, Reader, peer_receive, fail, data_read, read_header, read_message,
  process_message, go_on, incoming_loop, handle_incoming, round, fault,
}

peer_receive-all :
    (c : List ℕ) → 0 < length c → peer_receive (length c) (bytes c ∷ []) ≡ (some c, [])
unfolding peer_receive
peer_receive-all c h = ground (arith, append-nil c)

module _ {S : Type 0} (v : Methods S) (r : Reader S) (stream : r.has_stream ≡ true)
    (whole : length r.header ≡ v.header_size) where
  read_header-whole : (ans : List Answer) → read_header v r ans ≡ go_on r ans
  unfolding read_header
  read_header-whole ans = ground arith

  -- A message whose buffer is gone although its position is at the end.
  null_faults :
      (ans : List Answer)
      → r.has_buffer ≡ false
      → 0 < v.get_msg_size r.header
      → length r.msg ≡ v.get_msg_size r.header
      → round v r ans ≡ fault
  unfolding read_message process_message
  null_faults ans gone pos full =
      let read : ltb (length r.msg) (v.get_msg_size r.header) ≡ false = ground arith in
      let some_size : (v.get_msg_size r.header == 0) ≡ false = ground arith in
      rw (read_header-whole ans, read, gone, some_size) refl

module _ {S : Type 0} (v : Methods S) (r : Reader S) (stream : r.has_stream ≡ true)
    (whole : length r.header ≡ v.header_size) where
  -- When the last bytes of a message arrive that the channel cannot parse, the call ends, with the
  -- client disconnected; but the header and the positions in the buffers stay, and whatever a
  -- further round of the loop, as the next call of `handle_incoming` begins with, finds on the
  -- socket, it hands the parser a null pointer.
  pub unparsable_faults :
      (fuel : ℕ) (c : List ℕ) (ans : List Answer)
      → r.has_buffer ≡ true
      → v.has_watch r.state ≡ true
      → 0 < length c
      → length r.msg + length c ≡ v.get_msg_size r.header
      → v.parse (v.get_msg_type r.header) (r.msg ++ c) ≡ none
      → (r' : Reader S) × (handle_incoming v (suc fuel) r (bytes c ∷ []) ≡ some r')
        × (r'.state ≡ v.disconnect r.state)
        × (r'.has_stream ≡ true)
        × (round v r' ans ≡ fault)
  unfolding handle_incoming incoming_loop read_message process_message
  unparsable_faults fuel c ans buffer watch pos all bad =
      let r1 : Reader S = record (data_read v r) { has_buffer = true; msg = r.msg ++ c } in
      let len = length-append r.msg c in
      let short : ltb (length r.msg) (v.get_msg_size r.header) ≡ true = ground arith in
      let asked : v.get_msg_size r.header - length r.msg ≡ length c = omega (arith, all) in
      let full : ltb (length (r.msg ++ c)) (v.get_msg_size r.header) ≡ false =
        ground (arith, len) in
      (
        fail v r1,
        rw
            (
              read_header-whole v r stream whole (bytes c ∷ []),
              stream,
              short,
              buffer,
              asked,
              watch,
              peer_receive-all c pos,
              full,
              bad,
            )
            refl,
        refl,
        stream,
        null_faults v (fail v r1) stream whole ans refl (omega (arith, all, pos))
            (omega (arith, len, all)),
      )

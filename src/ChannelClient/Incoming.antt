-- ===== src/ChannelClient/Incoming.antt =====
-- How a channel client reads messages. A buffer that is filled step by step is the list of the
-- bytes filled in so far, so `header_pos` and `msg_pos` are lengths. When a buffer is given back its
-- position stays, and `has_buffer` says whether there is one.
use spice.Prelude.{
  ℕ, zero, suc, ◌-◌, Bool, true, false, not, ◌&&◌, ◌||◌, Option, none, some, List, [], ◌∷◌, ◌++◌,
  ltb, ◌==◌, if◌then◌else◌, length, take, drop,
}

-- What the socket has ready in one call of `receive`: bytes, an interruption, or the end of the
-- stream or an error. When the list has run out a read fails with EAGAIN.
pub data Answer : Type 0 where
  bytes : List ℕ → Answer
  interrupted : Answer
  broken : Answer

-- What is not the reader's own: the layout of the header, mini or full, and the methods of the
-- channel and of the client, over the rest `S` of the state. `alloc` says whether `alloc_recv_buf`
-- gives a buffer for a message's type and size, `parse` is the channel's parser on a type and a
-- message, `has_watch`,
-- `block_read` and `has_connectivity_timer` say what the fields of that name are, or whether they are
-- null.
pub record Methods (S : Type 0) : Type 0 where
  pub header_size : ℕ
  pub get_msg_size : List ℕ → ℕ
  pub get_msg_type : List ℕ → ℕ
  pub has_watch : S → Bool
  pub block_read : S → Bool
  pub has_connectivity_timer : S → Bool
  pub alloc : S → ℕ → ℕ → Bool
  pub parse : ℕ → List ℕ → Option (List ℕ)
  pub handle_message : S → ℕ → List ℕ → S × Bool
  pub disconnect : S → S

-- `IncomingMessageBuffer`, the stream, `received_bytes` of the connectivity monitor, and the rest.
pub record Reader (S : Type 0) : Type 0 where
  pub has_stream : Bool
  pub header : List ℕ
  pub has_buffer : Bool
  pub msg : List ℕ
  pub received_bytes : Bool
  pub state : S

abbrev pub prepend : List ℕ → Option (List ℕ) → Option (List ℕ)
prepend c none = none
prepend c (some d) = some (c ++ d)

-- `red_peer_receive` with a watch: `none` is -1. An empty read is the end of the stream.
unfoldable pub peer_receive : ℕ → List Answer → Option (List ℕ) × List Answer
peer_receive size [] = (some [], [])
peer_receive size (broken ∷ ans) = if size == 0 then (some [], broken ∷ ans) else (none, ans)
peer_receive size (interrupted ∷ ans) =
    let rest = peer_receive size ans in if size == 0 then (some [], interrupted ∷ ans) else rest
peer_receive size (bytes c ∷ ans) =
    let rest = peer_receive (size - length c) ans in
    if size == 0
    then (some [], bytes c ∷ ans)
    else if length c == 0
    then (none, ans)
    else if ltb size (length c)
    then (some (take size c), bytes (drop size c) ∷ ans)
    else (prepend c rest.0, rest.1)

module _ {S : Type 0} (v : Methods S) where
  -- `red_peer_receive`
  abbrev pub receive_bytes : S → ℕ → List Answer → Option (List ℕ) × List Answer
  receive_bytes s size ans =
      if v.has_watch s || size == 0 then peer_receive size ans else (none, ans)

  -- The end of the client, with the buffer given back.
  abbrev pub fail : Reader S → Reader S
  fail r = record r { has_buffer = false; state = v.disconnect r.state }

  -- `RedChannelClientPrivate::data_read`, but for its statistics. The number of bytes does not matter.
  abbrev pub data_read : Reader S → Reader S
  data_read r = record r { received_bytes = r.received_bytes || v.has_connectivity_timer r.state }

  -- What a part of a round of the loop does: leave the loop, go on, or read from a null
  -- pointer.
  pub data Round : Type 0 where
    leave : Reader S → Round
    go_on : Reader S → List Answer → Round
    fault : Round

  abbrev pub header_arrived : Reader S → Option (List ℕ) → List Answer → Round
  header_arrived r none ans = leave (record r { state = v.disconnect r.state })
  header_arrived r (some bs) ans =
      let r' : Reader S = record (data_read r) { header = r.header ++ bs } in
      if ltb (length r'.header) v.header_size then leave r' else go_on r' ans

  -- The header.
  unfoldable pub read_header : Reader S → List Answer → Round
  read_header r ans =
      let got = receive_bytes r.state (v.header_size - length r.header) ans in
      if ltb (length r.header) v.header_size then header_arrived r got.0 got.1 else go_on r ans

  abbrev pub message_arrived : Reader S → Option (List ℕ) → List Answer → Round
  message_arrived r none ans = leave (fail r)
  message_arrived r (some bs) ans =
      let r' : Reader S = record (data_read r) { has_buffer = true; msg = r.msg ++ bs } in
      if ltb (length r'.msg) (v.get_msg_size r.header) then leave r' else go_on r' ans

  -- The message behind the header.
  unfoldable pub read_message : Reader S → List Answer → Round
  read_message r ans =
      let size = v.get_msg_size r.header in
      let got = receive_bytes r.state (size - length r.msg) ans in
      if not (ltb (length r.msg) size)
      then go_on r ans
      else if r.has_buffer || v.alloc r.state (v.get_msg_type r.header) size
      then message_arrived r got.0 got.1
      else if v.block_read r.state
      then leave r
      else leave (record r { state = v.disconnect r.state })

  abbrev pub message_handled : Reader S → S × Bool → List Answer → Round
  message_handled r h ans =
      let r' : Reader S = record r { header = []; has_buffer = false; msg = []; state = h.0 } in
      if h.1 then go_on r' ans else leave (record r' { state = v.disconnect h.0 })

  abbrev pub message_parsed : Reader S → Option (List ℕ) → List Answer → Round
  message_parsed r none ans = leave (fail r)
  message_parsed r (some m) ans =
      message_handled r (v.handle_message r.state (v.get_msg_type r.header) m) ans

  -- The whole message: the parser reads the buffer, unless the message is empty.
  unfoldable pub process_message : Reader S → List Answer → Round
  process_message r ans =
      if not r.has_buffer && not (v.get_msg_size r.header == 0)
      then fault
      else message_parsed r (v.parse (v.get_msg_type r.header) r.msg) ans

  abbrev pub then_round : Round → (Reader S → List Answer → Round) → Round
  then_round fault f = fault
  then_round (leave r) f = leave r
  then_round (go_on r ans) f = f r ans

  abbrev pub round : Reader S → List Answer → Round
  round r ans = then_round (then_round (read_header r ans) read_message) process_message

  -- What follows a round.
  abbrev pub next_round : (Reader S → List Answer → Option (Reader S)) → Round → Option (Reader S)
  next_round again (leave r) = some r
  next_round again (go_on r ans) = again r ans
  next_round again fault = none

  -- The loop of `RedChannelClient::handle_incoming` on fuel, which is `none` when it runs out,
  -- and for a fault.
  unfoldable pub incoming_loop : ℕ → Reader S → List Answer → Option (Reader S)
  incoming_loop zero r ans = none
  incoming_loop (suc fuel) r ans = next_round (incoming_loop fuel) (round r ans)

  -- `RedChannelClient::handle_incoming`
  unfoldable pub handle_incoming : ℕ → Reader S → List Answer → Option (Reader S)
  handle_incoming fuel r ans = if r.has_stream then incoming_loop fuel r ans else some r

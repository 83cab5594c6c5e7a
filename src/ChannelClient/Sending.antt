-- ===== src/ChannelClient/Sending.antt =====
-- How a channel client takes items off its pipe and writes them to the socket.
use spice.Prelude.{
  ℕ, zero, suc, ◌+◌, Bool, true, false, not, ◌&&◌, ◌||◌, Option, none, some, List, [], ◌∷◌, ◌++◌,
  ◌==◌, if◌then◌else◌, length, take, drop, ◌>>=◌, ◌>>◌, check,
}
use spice.ChannelClient.State.{
  Item, set_ack, migrate, ping, empty_msg, marker, other, Sends, nothing, message, urgent_first,
  Channel, Latency, AckData, Sender, u32, u64, is_none, is_empty, is_free, watch_update_mask,
  waiting_for_ack, disconnect,
}
use spice.ChannelClient.Monitor.{cancel_ping_timer, restart_ping_timer}

-- What the socket answers to one write: a number of bytes, as far as it was given them, EAGAIN,
-- EINTR, or another error. When the list of answers has run out a write fails with EAGAIN.
pub data Reply : Type 0 where
  wrote : ℕ → Reply
  again interrupted broken : Reply

-- How the loop of `handle_outgoing` ends: the message was written, the call returns before that, or
-- the rounds that it was given are used up.
pub data Written : Type 0 where
  finished : Sender → List Reply → Written
  stopped : Sender → List Reply → Written
  spins : Written

-- `prepare_out_msg`: the bytes from the position on.
abbrev pub rest_of : Sender → List ℕ
rest_of c = drop c.out_pos c.current

-- `RedChannelClientPrivate::data_sent`, with the bytes that the socket took.
abbrev pub data_sent : ℕ → Sender → Sender
data_sent n c = record c {
  out_pos = c.out_pos + length (take n (rest_of c));
  written = c.written ++ take n (rest_of c);
  connectivity = record (c.connectivity) {
    sent_bytes = c.connectivity.sent_bytes || not (is_none c.connectivity.timer);
  };
}

-- `red_stream_writev`. There are as many vectors as it takes to hold the bytes, so none without
-- bytes; then no call of the stream is made, and the result is 0.
unfoldable pub stream_writev : List ℕ → List Reply → Reply × List Reply
stream_writev [] rs = (wrote 0, rs)
stream_writev (b ∷ bs) [] = (again, [])
stream_writev (b ∷ bs) (r ∷ rs) = (r, rs)

-- What the loop of `RedChannelClient::handle_outgoing` does with the result of a write; `go_on` is
-- the next round.
unfoldable pub after_writev :
    (Sender → List Reply → Written) → Sender → Reply × List Reply → Written
after_writev go_on c (again, rs) = stopped (record c { is_blocked = true }) rs
after_writev go_on c (interrupted, rs) = go_on c rs
after_writev go_on c (broken, rs) = stopped (disconnect c) rs
after_writev go_on c (wrote n, rs) =
    let c' = data_sent n c in
    let next = go_on c' rs in
    if c'.out_pos == c'.out_size
    then finished (record c' { out_pos = 0; out_size = 0 }) rs
    else next

-- The loop of `RedChannelClient::handle_outgoing`, for a number of rounds.
unfoldable pub write_loop : ℕ → Sender → List Reply → Written
write_loop zero c rs = spins
write_loop (suc rounds) c rs = after_writev (write_loop rounds) c (stream_writev (rest_of c) rs)

-- `RedChannelClient::handle_outgoing`, up to `msg_sent`, for a number of rounds of its loop.
unfoldable pub transmit_for : ℕ → Sender → List Reply → Written
transmit_for rounds c rs =
    let size = if c.out_size == 0 then length c.current else c.out_size in
    if size == 0 then stopped c rs else write_loop rounds (record c { out_size = size }) rs

-- Each write that asks the socket takes an answer, and the one behind the last answer gives EAGAIN.
abbrev pub transmit : Sender → List Reply → Written
transmit c rs = transmit_for (suc (length rs)) c rs

-- `RedChannelClientPrivate::clear_sent_item`
abbrev pub clear_sent_item : Sender → Sender
clear_sent_item c = record c { current = []; is_blocked = false }

-- `RedChannelClient::begin_send_message`, up to `send`.
unfoldable pub prepare : List ℕ → Sender → Sender
prepare m c = record c {
  current = m;
  begun = c.begun ++ (m ∷ []);
  latency = cancel_ping_timer c.latency;
  last_sent_serial = u64 (c.last_sent_serial + 1);
  ack = record (c.ack) { messages_window = u32 (c.ack.messages_window + 1) };
}

abbrev pub next_serial : Sender → ℕ
next_serial c = u64 (c.last_sent_serial + 1)

-- What follows a call, unless it never ends.
abbrev pub then_on :
    Written → (Sender → List Reply → Option (Sender × List Reply)) → Option (Sender × List Reply)
then_on (finished c rs) f = f c rs
then_on (stopped c rs) f = some (c, rs)
then_on spins f = none

-- The end of `RedChannelClient::push`.
abbrev pub stop_watching : Channel → Sender → Sender
stop_watching ch c =
    let c' : Sender =
      if is_free c && is_empty c.pipe || waiting_for_ack ch c
      then watch_update_mask false c
      else c in
    record c' { during_send = false }

abbrev pub block_unfinished : Sender → Sender
block_unfinished c =
    if not (is_free c) && not c.is_blocked then record c { is_blocked = true } else c

module _ (ch : Channel) (now : ℕ) where
  -- The end of `RedChannelClient::msg_sent`.
  unfoldable pub idle : Sender → Sender
  idle c = if is_empty c.pipe then record c { latency = restart_ping_timer now c.latency } else c

  -- The main marshaller's message is sent.
  abbrev pub main_sent : Sender → List Reply → Option (Sender × List Reply)
  main_sent c rs = some (idle (clear_sent_item c), rs)

  abbrev pub restore_main : Option (List ℕ) → Sender → List Reply → Option (Sender × List Reply)
  restore_main none c rs = main_sent c rs
  restore_main (some m) c rs =
      then_on (transmit (prepare m (record (clear_sent_item c) { deferred = none })) rs) main_sent

  -- `RedChannelClient::msg_sent`, but for the file descriptors of a message.
  unfoldable pub msg_sent : Sender → List Reply → Option (Sender × List Reply)
  msg_sent c rs = restore_main c.deferred c rs

  -- `RedChannelClient::handle_outgoing`
  unfoldable pub handle_outgoing : Sender → List Reply → Option (Sender × List Reply)
  handle_outgoing c rs = then_on (transmit c rs) msg_sent

  -- `RedChannelClient::begin_send_message`
  abbrev pub begin_send_message : List ℕ → Sender → List Reply → Option (Sender × List Reply)
  begin_send_message m c rs = handle_outgoing (prepare m c) rs

  -- `RedChannelClient::send_set_ack`
  unfoldable pub send_set_ack : Sender → List Reply → Option (Sender × List Reply)
  send_set_ack c rs =
      let a : AckData = record (c.ack) {
        generation = u32 (c.ack.generation + 1);
        messages_window = 0;
      } in
      begin_send_message (ch.set_ack_message (next_serial c) a.generation a.client_window)
        (record c { ack = a }) rs

  -- `RedChannelClient::send_migrate`. The flag is set before the message begins.
  unfoldable pub send_migrate : Sender → List Reply → Option (Sender × List Reply)
  send_migrate c rs =
      begin_send_message (ch.migrate_message (next_serial c))
        (record c { wait_migrate_flush_mark = c.wait_migrate_flush_mark || ch.needs_flush }) rs

  abbrev pub nodelay_of : Option Bool → Bool
  nodelay_of none = true
  nodelay_of (some b) = b

  -- `RedChannelClient::send_ping`
  unfoldable pub send_ping : Sender → List Reply → Option (Sender × List Reply)
  send_ping c rs =
      let l : Latency = if c.latency.warmup_was_sent then c.latency else record (c.latency) {
        warmup_was_sent = true;
        tcp_nodelay = nodelay_of ch.get_no_delay;
      } in
      begin_send_message (ch.ping_message (next_serial c) l.id now) (record c { latency = l }) rs

  -- A virtual `send_item`.
  abbrev pub send_item : Sends → Sender → List Reply → Option (Sender × List Reply)
  send_item nothing c rs = some (c, rs)
  send_item (message m) c rs = begin_send_message m c rs
  send_item (urgent_first u m) c rs = begin_send_message u (record c { deferred = some m }) rs

  -- The branches of `RedChannelClient::send_any_item`; a message of type 0 fails an assertion.
  unfoldable pub send_by_type : Item → Sender → List Reply → Option (Sender × List Reply)
  send_by_type set_ack c rs = send_set_ack c rs
  send_by_type migrate c rs = send_migrate c rs
  send_by_type ping c rs = send_ping c rs
  send_by_type (empty_msg n) c rs =
      check (not (n == 0)) >> begin_send_message (ch.empty_message (next_serial c) n) c rs
  send_by_type (marker n) c rs = some (record c { markers_sent = n ∷ c.markers_sent }, rs)
  send_by_type (other n) c rs = send_item (ch.send_item n (next_serial c)) c rs

  -- `RedChannelClient::send_any_item`
  unfoldable pub send_any_item : Item → Sender → List Reply → Option (Sender × List Reply)
  send_any_item i c rs = check (is_free c) >> send_by_type i c rs

  -- `pipe_item_get` and the loop of `RedChannelClient::push`, for the items that `pipe` holds.
  unfoldable pub push_items : ℕ → List Item → Sender → List Reply → Option (Sender × List Reply)
  push_items fuel [] c rs = some (c, rs)
  push_items zero (i ∷ is) c rs = none
  push_items (suc fuel) (i ∷ is) c rs =
      let sent = send_any_item i (record c { pipe = is }) rs in
      if c.is_blocked || waiting_for_ack ch c
      then some (c, rs)
      else (sent >>= λ r. push_items fuel r.0.pipe r.0 r.1)

  unfoldable pub push_loop : Sender → List Reply → Option (Sender × List Reply)
  push_loop c rs = push_items (length c.pipe) c.pipe c rs

  -- `RedChannelClient::push`, but for `red_stream_flush`.
  unfoldable pub push : Sender → List Reply → Option (Sender × List Reply)
  push c rs =
      let begun : Sender = record c { during_send = true } in
      let retried = if c.is_blocked then handle_outgoing begun rs else some (begun, rs) in
      if c.during_send
      then some (c, rs)
      else (retried >>= λ r.
          push_loop (block_unfinished r.0) r.1 >>= λ q. some (stop_watching ch q.0, q.1))

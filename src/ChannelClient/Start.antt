-- ===== src/ChannelClient/Start.antt =====
-- The start of a channel client, and the calls that it may get.
use spice.Prelude.{
  ℕ, ◌-◌, ◌^◌, Bool, true, false, not, ◌||◌, Option, none, some, List, [], ◌∷◌, if◌then◌else◌,
  ◌>>=◌,
}
use spice.ChannelClient.State.{
  Item, Channel, is_none, Latency, ping_none, connected, Sender, disconnect,
}
use spice.ChannelClient.Monitor.{
  pipe_add, pipe_add_tail, ping_timer_fired, connectivity_timer, start_ping_timer, stop_timers,
  start_connectivity_monitoring, ping_test_timeout_ms, ping_test_long_timeout_ms,
  ping_test_idle_net_timeout_ms,
}
use spice.ChannelClient.Sending.{Reply, push, handle_outgoing}
use spice.ChannelClient.Handling.{
  Message, handle_message, ack_zero_messages_window, ack_set_client_window,
  init_outgoing_messages_window,
}
use spice.ChannelClient.Timing.{is_armed}

abbrev pub client_ack_window : ℕ
client_ack_window = 20

-- The latency monitor after `RedChannelClient::init`: on a socket of the local host there is none.
abbrev pub new_latency : Bool → Bool → Bool → Latency
new_latency local migrating monitored =
    let l : Latency = record {
      state = ping_none;
      last_pong_time = 0;
      timer = if local then none else some none;
      timeout =
          if local
          then 0
          else if monitored
          then ping_test_timeout_ms
          else ping_test_long_timeout_ms;
      id = 0;
      tcp_nodelay = false;
      warmup_was_sent = false;
      roundtrip = if local then some 0 else none;
    } in
    if migrating then l else start_ping_timer ping_test_idle_net_timeout_ms l

-- `RedChannelClientPrivate::RedChannelClientPrivate` and `RedChannelClient::init`, when that succeeds.
unfoldable pub new_sender : Bool → Bool → Bool → Sender
new_sender local migrating monitored = record {
  pipe = [];
  current = [];
  deferred = none;
  is_blocked = false;
  last_sent_serial = 0;
  out_pos = 0;
  out_size = 0;
  during_send = false;
  is_connected = true;
  has_watch = true;
  watches_write = false;
  wait_migrate_flush_mark = false;
  ack = record {
    generation = 0;
    client_generation = 2 ^ 32 - 1;
    messages_window = 2 ^ 32 - 1;
    client_window = client_ack_window;
  };
  latency = new_latency local migrating monitored;
  connectivity = record {
    state = connected;
    sent_bytes = false;
    received_bytes = false;
    timeout = 0;
    timer = none;
  };
  markers_sent = [];
  begun = [];
  written = [];
}

-- What happens to a channel client: items, messages, the watch on its socket, its timers, and `send`
-- alone, as the waits for an item call it.
pub data Call : Type 0 where
  adds adds_tail : Item → Call
  pushes sends inits_window : ℕ → List Reply → Call
  receives : ℕ → Message → List Reply → Call
  zeroes_window : Call
  sets_window : ℕ → Call
  ping_timer_ends : ℕ → ℕ → Call
  connectivity_timer_ends : Call
  monitors : Bool → ℕ → Call
  migrates : Call
  disconnects : Call

-- A message that is not taken ends the client, as in `handle_incoming`.
abbrev pub end_if_refused : (Sender × List Reply) × Bool → Sender
end_if_refused r = if r.1 then r.0.0 else disconnect r.0.0

-- `RedChannelClientPrivate::data_read`
abbrev pub data_read : Sender → Sender
data_read c = record c {
  connectivity = record (c.connectivity) {
    received_bytes = c.connectivity.received_bytes || not (is_none c.connectivity.timer);
  };
}

-- One call. A timer that does not run does not end.
unfoldable pub perform : Channel → Call → Sender → Option Sender
perform ch (adds i) c = some (pipe_add i c)
perform ch (adds_tail i) c = some (pipe_add_tail i c)
perform ch (pushes now rs) c = push ch now c rs >>= λ r. some r.0
perform ch (inits_window now rs) c = init_outgoing_messages_window ch now c rs >>= λ r. some r.0
perform ch (sends now rs) c = handle_outgoing ch now c rs >>= λ r. some r.0
perform ch (receives now m rs) c =
    handle_message ch now m (data_read c) rs >>= λ r. some (end_if_refused r)
perform ch zeroes_window c = some (ack_zero_messages_window c)
perform ch (sets_window n) c = some (ack_set_client_window n c)
perform ch (ping_timer_ends unsent rand) c =
    if is_armed c.latency.timer then ping_timer_fired unsent rand c else some c
perform ch connectivity_timer_ends c =
    if is_armed c.connectivity.timer then connectivity_timer ch c else some c
perform ch (monitors migrating timeout) c = start_connectivity_monitoring migrating timeout c
perform ch migrates c = some (stop_timers c)
perform ch disconnects c = some (disconnect c)

unfoldable pub run : Channel → List Call → Sender → Option Sender
run ch [] c = some c
run ch (k ∷ ks) c = perform ch k c >>= λ c'. run ch ks c'

-- ===== src/ChannelClient/Runs.antt =====
-- Runs of the sending side of a channel client, and instances of the theorems on it.
use spice.Prelude.{ℕ, ◌≡◌, refl, true, false, some, none, List, [], ◌∷◌, ◌++◌, arith}
use mathlib.Core.Option
use spice.ChannelClient.State.{
  ping_none, connected, blocked, set_ack, other, message, Channel, Sender, disconnect,
}
use spice.ChannelClient.Monitor.{
  connectivity_timer, pipe_add, ping_timer_fired, push_ping, start_connectivity_monitoring,
  start_ping_timer, cancel_ping_timer, restart_ping_timer,
}
use spice.ChannelClient.Sending.{
  Reply, wrote, again, interrupted, push, handle_outgoing, write_loop, stream_writev, after_writev,
  msg_sent, idle, push_loop, push_items, send_any_item, send_by_type, send_set_ack, prepare,
  transmit_for, spins,
}
use spice.ChannelClient.Handling.{
  ack_sync, ack, handle_message, ack_set_client_window, init_outgoing_messages_window,
}
use spice.ChannelClient.Start.{
  Call, adds, pushes, sends, inits_window, receives, ping_timer_ends, connectivity_timer_ends,
  monitors, disconnects, new_sender, perform, run,
}
use spice.ChannelClient.Ordering.{joined, is_idle}
use spice.ChannelClient.Items.{IsTyped, AllTyped}
use spice.ChannelClient.Pushing.{IsSound, Rests, push-Rests}
use spice.ChannelClient.Session.{IsProper, AllProper, all_safe, is_safe, run-sends}
use spice.ChannelClient.Stale.{send-disconnect_spins}

-- Messages of a type and the serial number; an item is sent as one message.
abbrev small_channel : Channel
small_channel = record {
  set_ack_message = λ serial generation window. 1 ∷ serial ∷ generation ∷ window ∷ [];
  migrate_message = λ serial. 2 ∷ serial ∷ [];
  ping_message = λ serial id stamp. 3 ∷ serial ∷ id ∷ stamp ∷ [];
  empty_message = λ serial type. type ∷ serial ∷ [];
  send_item = λ n serial. message (n ∷ serial ∷ []);
  get_no_delay = some true;
  handle_acks = true;
  needs_flush = false;
}

-- A client with two items, that waits for nothing.
abbrev two_items : Sender
two_items = record {
  pipe = set_ack ∷ other 9 ∷ [];
  current = [];
  deferred = none;
  is_blocked = false;
  last_sent_serial = 4;
  out_pos = 0;
  out_size = 0;
  during_send = false;
  is_connected = true;
  has_watch = true;
  watches_write = true;
  wait_migrate_flush_mark = false;
  ack = record { generation = 0; client_generation = 0; messages_window = 0; client_window = 20 };
  latency = record {
    state = ping_none;
    last_pong_time = 0;
    timer = none;
    timeout = 0;
    id = 0;
    tcp_nodelay = false;
    warmup_was_sent = false;
    roundtrip = none;
  };
  connectivity = record {
    state = connected;
    sent_bytes = false;
    received_bytes = false;
    timeout = 0;
    timer = none;
  };
  markers_sent = [];
  begun = [];
  written = [];
}

two_items-IsSound : IsSound two_items
unfolding AllTyped IsTyped
two_items-IsSound = record {
  phase = is_idle (record {
    connected' = refl;
    current = refl;
    unblocked = refl;
    pos = refl;
    size = refl;
    wrote' = refl;
  });
  typed = (tt, (tt, tt));
  outside = refl;
  timed = refl;
}

-- One message is written, the next in part.
push-Rests_example :
    (q : Sender × List Reply) × (push small_channel 0 two_items
        (wrote 3 ∷ wrote 9 ∷ interrupted ∷ wrote 1 ∷ again ∷ [])
      ≡ some q)
    × IsSound q.0
    × Rests small_channel true q.0
push-Rests_example =
    push-Rests small_channel 0 two_items (wrote 3 ∷ wrote 9 ∷ interrupted ∷ wrote 1 ∷ again ∷ [])
      two_items-IsSound

abbrev calls : List Call
calls =
    monitors false 1000
    ∷ adds set_ack
    ∷ inits_window 0 (wrote 3 ∷ again ∷ [])
    ∷ adds (other 7)
    ∷ adds (other 8)
    ∷ pushes 5 (wrote 4 ∷ wrote 1 ∷ [])
    ∷ sends 6 (again ∷ [])
    ∷ receives 6 (ack_sync 1) []
    ∷ receives 7 ack (wrote 2 ∷ wrote 2 ∷ [])
    ∷ ping_timer_ends 0 77
    ∷ connectivity_timer_ends
    ∷ disconnects
    ∷ []

calls-AllProper : AllProper calls
unfolding AllProper IsProper IsTyped
calls-AllProper =
    (omega arith, (tt, (tt, (tt, (tt, (tt, (tt, (tt, (tt, (tt, (tt, (tt, tt))))))))))))

calls-all_safe : all_safe small_channel calls (new_sender false false true) ≡ true
unfolding all_safe is_safe perform new_sender pipe_add push handle_outgoing transmit_for write_loop
    stream_writev after_writev msg_sent idle push_loop push_items send_any_item send_by_type
    send_set_ack prepare handle_message ack_set_client_window init_outgoing_messages_window
    connectivity_timer ping_timer_fired push_ping start_connectivity_monitoring start_ping_timer
    cancel_ping_timer restart_ping_timer
calls-all_safe = refl

run-sends_example :
    (c : Sender) × (bs : List ℕ) × (run small_channel calls (new_sender false false true) ≡ some c)
    × (c.written ++ bs ≡ joined c.begun)
run-sends_example = run-sends small_channel false false true calls calls-AllProper calls-all_safe

-- Two bytes of three are written.
abbrev in_part : Sender
in_part = record two_items {
  current = 1 ∷ 2 ∷ 3 ∷ [];
  begun = (1 ∷ 2 ∷ 3 ∷ []) ∷ [];
  written = 1 ∷ 2 ∷ [];
  out_pos = 2;
  out_size = 3;
  is_blocked = true;
}

send-disconnect_spins_example :
    ((rounds : ℕ) → transmit_for rounds (disconnect in_part) (again ∷ wrote 1 ∷ []) ≡ spins)
    × (handle_outgoing small_channel 0 (disconnect in_part) (again ∷ wrote 1 ∷ []) ≡ none)
send-disconnect_spins_example =
    send-disconnect_spins small_channel 0 in_part (again ∷ wrote 1 ∷ [])
      (record { connected' = refl; size = refl; pos = omega arith; wrote' = refl })

-- The client stays blocked and sends nothing.
abbrev silent : Sender
silent = record in_part {
  connectivity = record (in_part.connectivity) { state = blocked; timer = some (some 0) };
}

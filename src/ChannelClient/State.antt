-- ===== src/ChannelClient/State.antt =====
-- The sending side of a channel client and its two monitors. A marshaller is the bytes of the
-- message that is being sent, empty when there is none, so `send_data.size` is their number. What
-- `red_timer_start` was given is kept until the timer is cancelled or runs out.
use spice.Prelude.{
  ℕ, ◌*◌, ◌%◌, ◌^◌, Bool, true, false, not, ◌&&◌, Option, none, some, List, [], ◌∷◌, ltb, ◌==◌,
  if◌then◌else◌, length,
}

-- Pipe items, by what `send_any_item` does with them.
pub data Item : Type 0 where
  set_ack migrate ping : Item
  empty_msg marker other : ℕ → Item

-- What the virtual method `send_item` does with an item: it may send nothing, begin a message, or
-- begin an urgent one before the message that is ready.
pub data Sends : Type 0 where
  nothing : Sends
  message : List ℕ → Sends
  urgent_first : List ℕ → List ℕ → Sends

-- What the channel and the generated marshallers give: whole messages with their headers, by the
-- serial number and the contents, two properties of the channel, and what
-- `red_stream_get_no_delay` says of the socket, `none` for -1.
pub record Channel : Type 0 where
  pub set_ack_message : ℕ → ℕ → ℕ → List ℕ
  pub migrate_message : ℕ → List ℕ
  pub ping_message : ℕ → ℕ → ℕ → List ℕ
  pub empty_message : ℕ → ℕ → List ℕ
  pub send_item : ℕ → ℕ → Sends
  pub get_no_delay : Option Bool
  pub handle_acks : Bool
  pub needs_flush : Bool

-- `QosPingState`
pub data PingState : Type 0 where
  ping_none ping_timer ping_warmup ping_latency : PingState

-- `RedChannelClientLatencyMonitor`. `timer` is `none` for no timer, and then whether and for how long
-- it runs; a roundtrip of -1 is `none`.
pub record Latency : Type 0 where
  pub state : PingState
  pub last_pong_time : ℕ
  pub timer : Option (Option ℕ)
  pub timeout : ℕ
  pub id : ℕ
  pub tcp_nodelay : Bool
  pub warmup_was_sent : Bool
  pub roundtrip : Option ℕ

-- `ConnectivityState`
pub data ConnectivityState : Type 0 where
  connected blocked wait_pong disconnected : ConnectivityState

-- `RedChannelClientConnectivityMonitor`
pub record Connectivity : Type 0 where
  pub state : ConnectivityState
  pub sent_bytes : Bool
  pub received_bytes : Bool
  pub timeout : ℕ
  pub timer : Option (Option ℕ)

-- `ack_data`
pub record AckData : Type 0 where
  pub generation : ℕ
  pub client_generation : ℕ
  pub messages_window : ℕ
  pub client_window : ℕ

-- `RedChannelClientPrivate`, as far as it is about sending. `pipe` stands oldest first: `push_front`
-- adds at the end here. `deferred` is the main message while an urgent one is sent. `begun`
-- and `written` collect the messages that were begun and the bytes that the socket took.
pub record Sender : Type 0 where
  pub pipe : List Item
  pub current : List ℕ
  pub deferred : Option (List ℕ)
  pub is_blocked : Bool
  pub last_sent_serial : ℕ
  pub out_pos : ℕ
  pub out_size : ℕ
  pub during_send : Bool
  pub is_connected : Bool
  pub has_watch : Bool
  pub watches_write : Bool
  pub wait_migrate_flush_mark : Bool
  pub ack : AckData
  pub latency : Latency
  pub connectivity : Connectivity
  pub markers_sent : List ℕ
  pub begun : List (List ℕ)
  pub written : List ℕ

abbrev pub u32 : ℕ → ℕ
u32 n = n % 2 ^ 32

abbrev pub u64 : ℕ → ℕ
u64 n = n % 2 ^ 64

abbrev pub is_none {ℓ} : {A : Type ℓ} → Option A → Bool
is_none none = true
is_none (some a) = false

-- `no_item_being_sent`
abbrev pub is_free : Sender → Bool
is_free c = length c.current == 0

abbrev pub is_empty {ℓ} : {A : Type ℓ} → List A → Bool
is_empty [] = true
is_empty (x ∷ xs) = false

-- `watch_update_mask`; true keeps the write events.
abbrev pub watch_update_mask : Bool → Sender → Sender
watch_update_mask w c = if c.has_watch then record c { watches_write = w } else c

-- `RedChannelClientPrivate::waiting_for_ack`
abbrev pub waiting_for_ack : Channel → Sender → Bool
waiting_for_ack ch c = ch.handle_acks && ltb (u32 (c.ack.client_window * 2)) c.ack.messages_window

-- `RedChannelClient::disconnect`, with `pipe_clear` and `shutdown`.
abbrev pub disconnect : Sender → Sender
disconnect c = if not c.is_connected then c else record c {
  pipe = [];
  current = [];
  is_blocked = false;
  is_connected = false;
  has_watch = false;
  latency = record (c.latency) { timer = none };
  connectivity = record (c.connectivity) { timer = none };
}

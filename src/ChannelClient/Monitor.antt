-- ===== src/ChannelClient/Monitor.antt =====
-- The monitors of latency and of connectivity. Times are in nanoseconds, timeouts in milliseconds.
use spice.Prelude.{
  ℕ, ◌+◌, ◌-◌, ◌*◌, ◌/◌, ◌^◌, Bool, true, false, not, ◌||◌, ◌&&◌, Option, none, some, [], ◌∷◌, ◌++◌,
  ltb, ◌==◌, if◌then◌else◌, ◌>>◌, check,
}
use spice.ChannelClient.State.{
  Item, ping, Channel, PingState, ping_none, ping_timer, ping_warmup, ping_latency, Latency,
  ConnectivityState, connected, blocked, wait_pong, disconnected, Connectivity, Sender, u64,
  is_none, is_empty, watch_update_mask, waiting_for_ack, disconnect,
}

abbrev pub is_ping_none : PingState → Bool
is_ping_none ping_none = true
is_ping_none _ = false

abbrev pub is_ping_timer : PingState → Bool
is_ping_timer ping_timer = true
is_ping_timer _ = false

-- A ping was sent, or is about to be, and its pong has not come.
abbrev pub awaits_pong : PingState → Bool
awaits_pong ping_warmup = true
awaits_pong ping_latency = true
awaits_pong _ = false

abbrev pub ping_test_timeout_ms : ℕ
ping_test_timeout_ms = 1000 * 15

abbrev pub ping_test_long_timeout_ms : ℕ
ping_test_long_timeout_ms = 1000 * 60 * 5

abbrev pub ping_test_idle_net_timeout_ms : ℕ
ping_test_idle_net_timeout_ms = 1000 / 10

-- `RedChannelClientPrivate::start_ping_timer`
unfoldable pub start_ping_timer : ℕ → Latency → Latency
start_ping_timer timeout l =
    if is_none l.timer || not (is_ping_none l.state)
    then l
    else record l { state = ping_timer; timer = some (some timeout) }

-- `RedChannelClientPrivate::cancel_ping_timer`
unfoldable pub cancel_ping_timer : Latency → Latency
cancel_ping_timer l =
    if is_none l.timer || not (is_ping_timer l.state)
    then l
    else record l { state = ping_none; timer = some none }

-- `RedChannelClientPrivate::restart_ping_timer`
unfoldable pub restart_ping_timer : ℕ → Latency → Latency
restart_ping_timer now l =
    let passed = u64 (now + 2 ^ 64 - l.last_pong_time) / 1000000 in
    let left = if ltb passed l.timeout then l.timeout - passed else 0 in
    start_ping_timer (ping_test_idle_net_timeout_ms + left) l

-- `RedChannelClient::prepare_pipe_add` and `pipe_add`
unfoldable pub pipe_add : Item → Sender → Sender
pipe_add i c =
    if not c.is_connected
    then c
    else let c' : Sender = if is_empty c.pipe then watch_update_mask true c else c in
      record c' { pipe = c'.pipe ++ (i ∷ []) }

-- `RedChannelClient::pipe_add_tail`
unfoldable pub pipe_add_tail : Item → Sender → Sender
pipe_add_tail i c =
    if not c.is_connected
    then c
    else let c' : Sender = if is_empty c.pipe then watch_update_mask true c else c in
      record c' { pipe = i ∷ c'.pipe }

-- `RedChannelClient::push_ping`, with the number that `rand` gives.
unfoldable pub push_ping : ℕ → Sender → Option Sender
push_ping rand c =
    check (is_ping_none c.latency.state)
    >> (let l : Latency = record (c.latency) {
      state = ping_warmup;
      warmup_was_sent = false;
      id = rand;
    } in
        some (pipe_add ping (pipe_add ping (record c { latency = l }))))

-- `RedChannelClient::ping_timer`, when the timer runs out; `unsent` is what the socket's send
-- buffer holds. Without that call the value is zero.
unfoldable pub ping_timer_fired : ℕ → ℕ → Sender → Option Sender
ping_timer_fired unsent rand c =
    let l = cancel_ping_timer c.latency in
    check (is_ping_timer c.latency.state)
    >> (if ltb 0 unsent
        then some (record c { latency = start_ping_timer ping_test_idle_net_timeout_ms l })
        else push_ping rand (record c { latency = l }))

-- A new roundtrip is kept if it is the least so far.
abbrev pub least : Option ℕ → ℕ → Option ℕ
least none r = some r
least (some old) r = if ltb r old then some r else some old

-- What `RedChannelClientPrivate::handle_pong` does in each state.
unfoldable pub pong_in : PingState → ℕ → ℕ → Latency → Latency
pong_in ping_warmup now timestamp l = record l { state = ping_latency }
pong_in ping_latency now timestamp l = start_ping_timer l.timeout (record l {
  roundtrip = least l.roundtrip (u64 (now + 2 ^ 64 - timestamp));
  last_pong_time = now;
  state = ping_none;
})
pong_in _ now timestamp l = l

-- `RedChannelClientPrivate::handle_pong`, but for the socket's TCP_NODELAY.
unfoldable pub handle_pong : ℕ → ℕ → ℕ → Latency → Latency
handle_pong now id timestamp l = if not (id == l.id) then l else pong_in l.state now timestamp l

abbrev pub is_stuck : Channel → Sender → Bool
is_stuck ch c = c.is_blocked || waiting_for_ack ch c

abbrev pub alive_in : ConnectivityState → Bool → Bool → Bool
alive_in blocked received sent = received || sent
alive_in wait_pong received sent = received
alive_in _ received sent = true

-- Whether `connectivity_timer` takes the connection for alive.
abbrev pub is_alive : Connectivity → Bool
is_alive m = alive_in m.state m.received_bytes m.sent_bytes

-- Whether `connectivity_timer` finds an idle connection, and the client in another state than the
-- monitor says.
abbrev pub is_mismatched : Channel → Sender → Bool
is_mismatched ch c =
    let m = c.connectivity in
    elim m.state [
      | blocked ↦ not m.received_bytes && not m.sent_bytes && not (is_stuck ch c)
      | wait_pong ↦ not m.received_bytes && not (awaits_pong c.latency.state)
      | connected ↦ false
      | disconnected ↦ false
    ]

-- The end of it, for a client that is alive, or not.
abbrev pub tick : Channel → Sender → Sender
tick ch c =
    let m = c.connectivity in
    let next =
      if is_stuck ch c
      then blocked
      else if awaits_pong c.latency.state
      then wait_pong
      else connected in
    if is_alive m
    then record c {
      connectivity = record m {
        received_bytes = false;
        sent_bytes = false;
        state = next;
        timer = some (some m.timeout);
      };
    }
    else disconnect (record c { connectivity = record m { state = disconnected } })

-- `RedChannelClient::connectivity_timer`. A mismatch is a `spice_error`.
unfoldable pub connectivity_timer : Channel → Sender → Option Sender
connectivity_timer ch c = if is_mismatched ch c then none else some (tick ch c)

-- The latency monitor in `start_connectivity_monitoring`: made if there is none, and started.
abbrev pub activate : Latency → Latency
activate l =
    let l' : Latency =
      if is_none l.timer
      then record l { timer = some none; roundtrip = none }
      else cancel_ping_timer l in
    record l' { timeout = ping_test_timeout_ms }

abbrev pub start_latency : Bool → Latency → Latency
start_latency migrating l =
    if migrating then activate l else start_ping_timer ping_test_idle_net_timeout_ms (activate l)

-- The connectivity monitor there.
abbrev pub start_connectivity : Bool → ℕ → Connectivity → Connectivity
start_connectivity migrating timeout_ms m =
    if is_none m.timer
    then record m {
      state = connected;
      timeout = timeout_ms;
      timer = some (if migrating then none else some timeout_ms);
    }
    else m

-- `RedChannelClient::start_connectivity_monitoring`
unfoldable pub start_connectivity_monitoring : Bool → ℕ → Sender → Option Sender
start_connectivity_monitoring migrating timeout_ms c =
    if not c.is_connected
    then some c
    else (check (ltb 0 timeout_ms)
        >> some (record c {
          latency = start_latency migrating c.latency;
          connectivity = start_connectivity migrating timeout_ms c.connectivity;
        }))

-- `RedChannelClient::migrate`, up to its pipe item.
unfoldable pub stop_timers : Sender → Sender
stop_timers c = record c {
  latency = record (cancel_ping_timer c.latency) { timer = none };
  connectivity = record (c.connectivity) { timer = none };
}

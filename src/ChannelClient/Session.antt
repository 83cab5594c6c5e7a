-- ===== src/ChannelClient/Session.antt =====
-- A channel client from its start, over any sequence of calls.
use spice.Prelude.{
  ℕ, ◌<◌, ◌≡◌, refl, ◌∙◌, Bool, true, false, not, ◌||◌, ◌&&◌, length, ap, none, Option, some, List,
  [], ◌∷◌, ◌++◌, inl, inr, ◌==◌, append-nil, arith, Bool-cases, ◌>>=◌,
}
use spice.ChannelClient.State.{Channel, Sender, disconnect, watch_update_mask}
use spice.ChannelClient.Sending.{Reply, push, rest_of, handle_outgoing, transmit_for}
use spice.ChannelClient.Handling.{
  Message, ack_sync, ack, disconnecting, migrate_flush_mark, invalid, pong, acknowledge,
  handle_message, ack_zero_messages_window, ack_set_client_window, init_outgoing_messages_window,
}
use spice.ChannelClient.Start.{
  Call, data_read, adds, adds_tail, pushes, sends, inits_window, receives, zeroes_window,
  sets_window, ping_timer_ends, connectivity_timer_ends, monitors, migrates, disconnects, perform,
  run, end_if_refused, new_sender, new_latency,
}
use spice.ChannelClient.Timing.{IsTimed, is_armed, start-IsTimed, pong-IsTimed}
use spice.ChannelClient.Ordering.{joined, Phase, is_idle, is_writing, is_dead}
use spice.ChannelClient.Items.{IsTyped, AllTyped, typed_pipe}
use spice.ChannelClient.Monitor.{connectivity_timer, is_mismatched, tick}
use spice.ChannelClient.Beginning.{Went, retry-Went}
use spice.ChannelClient.Pushing.{IsSound, push-Rests}
use spice.ChannelClient.Upkeep.{
  IsSound-core, disconnect-IsSound, pipe_add-IsSound, pipe_add_tail-IsSound, latency-IsSound,
  watch-IsSound, ack-IsSound, ping_timer_fired-IsSound, tick-IsSound, monitors-IsSound,
  stop_timers-IsSound, start_connectivity_monitoring-IsSound,
}

-- What the callers see to: items have a type, and a timeout is not zero.
unfoldable pub IsProper : Call → Type 0
IsProper (adds i) = IsTyped i
IsProper (adds_tail i) = IsTyped i
IsProper (monitors migrating timeout) = 0 < timeout
IsProper _ = Unit {0}

unfoldable pub AllProper : List Call → Type 0
AllProper [] = Unit {0}
AllProper (k ∷ ks) = IsProper k × AllProper ks

-- A result that is there, and sound.
abbrev pub IsSoundResult : Option Sender → Type 0
IsSoundResult o = (c : Sender) × (o ≡ some c) × IsSound c

-- What the code relies on, at each call: `send` alone is for a client that is connected, the peer
-- sends its flush mark when it is waited for, and the timer of connectivity, when it ends, finds the
-- client as its monitor says.
unfoldable pub is_safe : Channel → Call → Sender → Bool
is_safe ch (sends now rs) c = c.is_connected
is_safe ch (receives now migrate_flush_mark rs) c = c.wait_migrate_flush_mark
is_safe ch connectivity_timer_ends c =
    not (is_armed c.connectivity.timer) || not (is_mismatched ch c)
is_safe ch _ c = true

-- The same for all calls, each where the ones before have led.
unfoldable pub all_safe : Channel → List Call → Sender → Bool
all_safe ch [] c = true
all_safe ch (k ∷ ks) c =
    is_safe ch k c && elim (perform ch k c) [ none ↦ true | some c' ↦ all_safe ch ks c' ]

module _ (ch : Channel) where
  pushes-IsSound :
      (now : ℕ) (rs : List Reply) (c : Sender)
      → IsSound c
      → IsSoundResult (push ch now c rs >>= λ r. some r.0)
  pushes-IsSound now rs c s =
      let (q, ran, s', _) = push-Rests ch now c rs s in (q.0, rw ran refl, s')

  end-IsSound : (r : (Sender × List Reply) × Bool) → IsSound r.0.0 → IsSound (end_if_refused r)
  end-IsSound (r, true) s = s
  end-IsSound (r, false) s = disconnect-IsSound r.0 s

  acknowledge-IsSound : (c : Sender) → IsSound c → IsSound (acknowledge c)
  acknowledge-IsSound c s = ack-IsSound (watch_update_mask true c) _ (watch-IsSound c true s)

  receives-IsSound :
      (now : ℕ) (m : Message) (rs : List Reply) (c : Sender)
      → (is_safe ch (receives now m rs) c ≡ true)
      → IsSound c
      → IsSoundResult (handle_message ch now m c rs >>= λ r. some (end_if_refused r))
  unfolding handle_message is_safe
  receives-IsSound now (ack_sync g) rs c safe s = (_, refl, ack-IsSound c _ s)
  receives-IsSound now ack rs c safe s =
      elim (Bool-cases (c.ack.client_generation == c.ack.generation)) [
        | inr e ↦ (c, rw e refl, s)
        | inl e ↦
            let (q, ran, s', _) = push-Rests ch now (acknowledge c) rs (acknowledge-IsSound c s) in
            (q.0, rw (e, ran) refl, s')
      ]
  receives-IsSound now disconnecting rs c safe s = (c, refl, s)
  receives-IsSound now migrate_flush_mark rs c safe s = (
    record c { wait_migrate_flush_mark = false },
    rw safe refl,
    IsSound-core c (record c { wait_migrate_flush_mark = false }) refl refl refl s.timed s,
  )
  receives-IsSound now (pong id stamp) rs c safe s =
      (_, refl, latency-IsSound c _ (pong-IsTimed now id stamp c.latency s.timed) s)
  receives-IsSound now invalid rs c safe s = (disconnect c, refl, disconnect-IsSound c s)

  data_read-is_safe :
      (now : ℕ) (m : Message) (rs : List Reply) (c : Sender)
      → is_safe ch (receives now m rs) c ≡ true
      → is_safe ch (receives now m rs) (data_read c) ≡ true
  unfolding is_safe
  data_read-is_safe now (ack_sync g) rs c h = refl
  data_read-is_safe now ack rs c h = refl
  data_read-is_safe now disconnecting rs c h = refl
  data_read-is_safe now migrate_flush_mark rs c h = h
  data_read-is_safe now (pong id stamp) rs c h = refl
  data_read-is_safe now invalid rs c h = refl

  -- What a call that went well leaves.
  Went-IsSound :
      (c : Sender) (o : Option (Sender × List Reply))
      → Went c o
      → IsSound c
      → IsSoundResult (o >>= λ r. some r.0)
  unfolding Went
  Went-IsSound c none w s = absurd w
  Went-IsSound c (some r) w s = (
    r.0,
    refl,
    record {
      phase = w.0;
      typed = typed_pipe ch 0 c.pipe r.0.pipe s.typed w.1.pipe;
      outside = w.1.during ∙ s.outside;
      timed = w.1.timed;
    },
  )

  sends-IsSound :
      (now : ℕ) (rs : List Reply) (c : Sender)
      → c.is_connected ≡ true
      → IsSound c
      → IsSoundResult (handle_outgoing ch now c rs >>= λ r. some r.0)
  unfolding handle_outgoing transmit_for
  sends-IsSound now rs c on s = elim (s.phase) [
    | is_dead d ↦ cc
    | is_idle i ↦
        let none_left : length c.current ≡ 0 = ap length i.current in
        (c, rw (i.size, none_left) refl, s)
    | is_writing w b ↦
        Went-IsSound c _
          (retry-Went ch now c c rs w
            (record { pipe = inl refl; during = refl; watch = refl; timed = s.timed }))
          s
  ]

  both : (a b : Bool) → (a && b) ≡ true → (a ≡ true) × (b ≡ true)
  both true b e = (refl, e)
  both false b e = cc

  perform-IsSound :
      (k : Call) (c : Sender)
      → IsProper k
      → is_safe ch k c ≡ true
      → IsSound c
      → IsSoundResult (perform ch k c)
  unfolding perform IsProper is_safe connectivity_timer ack_zero_messages_window
      ack_set_client_window init_outgoing_messages_window
  perform-IsSound (adds i) c h safe s = (_, refl, pipe_add-IsSound i c h s)
  perform-IsSound (adds_tail i) c h safe s = (_, refl, pipe_add_tail-IsSound i c h s)
  perform-IsSound (pushes now rs) c h safe s = pushes-IsSound now rs c s
  perform-IsSound (sends now rs) c h safe s = sends-IsSound now rs c safe s
  perform-IsSound (inits_window now rs) c h safe s = pushes-IsSound now rs _ (ack-IsSound c _ s)
  perform-IsSound (receives now m rs) c h safe s =
      receives-IsSound now m rs (data_read c) (data_read-is_safe now m rs c safe)
        (monitors-IsSound c c.latency _ s.timed s)
  perform-IsSound zeroes_window c h safe s =
      (_, refl, ack-IsSound (watch_update_mask true c) _ (watch-IsSound c true s))
  perform-IsSound (sets_window n) c h safe s = (_, refl, ack-IsSound c _ s)
  perform-IsSound (ping_timer_ends unsent rand) c h safe s =
      elim (Bool-cases (is_armed c.latency.timer)) [
        | inr e ↦ (c, rw e refl, s)
        | inl e ↦
            let (c', ran, s') = ping_timer_fired-IsSound unsent rand c e s in
            (c', rw (e, ran) refl, s')
      ]
  perform-IsSound connectivity_timer_ends c h safe s =
      elim (Bool-cases (is_armed c.connectivity.timer)) [
        | inr e ↦ (c, rw e refl, s)
        | inl e ↦
            let fits : is_mismatched ch c ≡ false = ground arith in
            (tick ch c, rw (e, fits) refl, tick-IsSound ch c s)
      ]
  perform-IsSound (monitors migrating timeout) c h safe s =
      start_connectivity_monitoring-IsSound migrating timeout c h s
  perform-IsSound migrates c h safe s = (_, refl, stop_timers-IsSound c s)
  perform-IsSound disconnects c h safe s = (_, refl, disconnect-IsSound c s)

  run-IsSound :
      (ks : List Call) (c : Sender)
      → AllProper ks
      → all_safe ch ks c ≡ true
      → IsSound c
      → IsSoundResult (run ch ks c)
  unfolding run AllProper all_safe
  run-IsSound [] c h safe s = (c, refl, s)
  run-IsSound (k ∷ ks) c h safe s =
      let (first, rest) = both (is_safe ch k c) _ safe in
      let (c1, ran1, s1) = perform-IsSound k c h.0 first s in
      let (c2, ran2, s2) = run-IsSound ks c1 h.1 (rw ran1 at rest) s1 in
      (c2, rw (ran1, ran2) refl, s2)

new_latency-IsTimed :
    (local migrating monitored : Bool) → IsTimed (new_latency local migrating monitored)
new_latency-IsTimed local true monitored = ground arith
new_latency-IsTimed local false monitored = start-IsTimed _ _ (ground arith)

new_sender-IsSound :
    (local migrating monitored : Bool) → IsSound (new_sender local migrating monitored)
unfolding new_sender AllTyped
new_sender-IsSound local migrating monitored = record {
  phase = is_idle (record {
    connected' = refl;
    current = refl;
    unblocked = refl;
    pos = refl;
    size = refl;
    wrote' = refl;
  });
  typed = tt;
  outside = refl;
  timed = new_latency-IsTimed local migrating monitored;
}

sent-Phase : (c : Sender) → Phase c → (bs : List ℕ) × (c.written ++ bs ≡ joined c.begun)
sent-Phase c (is_idle i) = ([], append-nil c.written ∙ i.wrote')
sent-Phase c (is_writing w b) = (rest_of c, w.wrote')
sent-Phase c (is_dead d) = (d.lost, d.wrote')

-- Over any sequence of calls on a new channel client, in which each item for an empty message has a
-- type and no timeout is zero, and whatever its socket answers and its peer sends: if `send` alone is
-- called only while the client is connected, a flush mark comes only while it is waited for, and the
-- timer of connectivity finds no mismatch, then no assertion of the code fails and every call ends;
-- and the bytes that the socket took are a first part of the messages that were begun, joined in
-- order.
pub run-sends :
    (ch : Channel) (local migrating monitored : Bool) (ks : List Call)
    → AllProper ks
    → all_safe ch ks (new_sender local migrating monitored) ≡ true
    → (c : Sender) × (bs : List ℕ) × (run ch ks (new_sender local migrating monitored) ≡ some c)
      × (c.written ++ bs ≡ joined c.begun)
run-sends ch local migrating monitored ks h safe =
    let (c, ran, s) = run-IsSound ch ks _ h safe (new_sender-IsSound local migrating monitored) in
    let (bs, e) = sent-Phase c s.phase in (c, bs, ran, e)

-- ===== src/ChannelClient/Upkeep.antt =====
-- What the operations on the pipe and on the monitors of a channel client keep.
use spice.Prelude.{
  ℕ, ◌<◌, ◌≡◌, refl, sym, ap, subst, ◌∙◌, Bool, true, false, none, some, List, [], ◌∷◌, ◌++◌,
  if◌then◌else◌, inl, inr, ltb, length, drop, arith, Bool-cases, ◌&&◌, append-nil, lt→ltb,
}
use spice.ChannelClient.State.{
  Item, ping, Channel, Latency, Connectivity, ping_warmup, AckData, Sender, is_empty, disconnect,
  watch_update_mask,
}
use spice.ChannelClient.Monitor.{
  pipe_add, pipe_add_tail, push_ping, ping_timer_fired, tick, start_ping_timer, cancel_ping_timer,
  stop_timers, is_alive, ping_test_idle_net_timeout_ms, start_connectivity_monitoring,
  start_latency, start_connectivity,
}
use spice.ChannelClient.Sending.{rest_of}
use spice.ChannelClient.Timing.{
  IsTimed, is_armed, start-IsTimed, cancel-IsTimed, start_latency-IsTimed, cancel-none,
  cancel-unarmed, armed-state,
}
use spice.ChannelClient.Ordering.{joined, Phase, is_idle, is_writing, is_dead}
use spice.ChannelClient.Items.{IsTyped, AllTyped}
use spice.ChannelClient.Pushing.{IsSound}

-- The fields that `Phase` is about, but for the pipe.
abbrev pub core : Sender → Bool × List ℕ × Bool × ℕ × ℕ × List ℕ × List (List ℕ)
core c = (c.is_connected, c.current, c.is_blocked, c.out_pos, c.out_size, c.written, c.begun)

Phase-core :
    (c c' : Sender)
    → core c' ≡ core c
    → (c.is_connected ≡ false → c.pipe ≡ [] → c'.pipe ≡ [])
    → Phase c
    → Phase c'
Phase-core c c' e p (is_idle i) = is_idle (record {
  connected' = ap (λ z. z.0) e ∙ i.connected';
  current = ap (λ z. z.1) e ∙ i.current;
  unblocked = ap (λ z. z.2) e ∙ i.unblocked;
  pos = ap (λ z. z.3) e ∙ i.pos;
  size = ap (λ z. z.4) e ∙ i.size;
  wrote' = ap (λ z. z.5) e ∙ i.wrote' ∙ ap (λ z. joined z.6) (sym e);
})
Phase-core c c' e p (is_writing w b) =
    is_writing
      (record {
        connected' = ap (λ z. z.0) e ∙ w.connected';
        size = ap (λ z. z.4) e ∙ w.size ∙ ap (λ z. length z.1) (sym e);
        pos =
            subst (λ (z : Bool × List ℕ × Bool × ℕ × ℕ × List ℕ × List (List ℕ)). z.3 < length z.1)
              (sym e) w.pos;
        wrote' = ap (λ z. z.5 ++ drop z.3 z.1) e ∙ w.wrote' ∙ ap (λ z. joined z.6) (sym e);
      })
      (ap (λ z. z.2) e ∙ b)
Phase-core c c' e p (is_dead d) = is_dead (record {
  disconnected' = ap (λ z. z.0) e ∙ d.disconnected';
  current = ap (λ z. z.1) e ∙ d.current;
  unblocked = ap (λ z. z.2) e ∙ d.unblocked;
  pipe = p d.disconnected' d.pipe;
  lost = d.lost;
  wrote' = ap (λ z. z.5 ++ d.lost) e ∙ d.wrote' ∙ ap (λ z. joined z.6) (sym e);
})

-- The client once it is disconnected.
abbrev pub ended : Sender → Sender
ended c = record c {
  pipe = [];
  current = [];
  is_blocked = false;
  is_connected = false;
  has_watch = false;
  latency = record (c.latency) { timer = none };
  connectivity = record (c.connectivity) { timer = none };
}

disconnect-off : (c : Sender) → c.is_connected ≡ false → disconnect c ≡ c
disconnect-off c h = ground arith

pub disconnect-on : (c : Sender) → c.is_connected ≡ true → disconnect c ≡ ended c
disconnect-on c h = ground arith

ended-Phase : (c : Sender) (bs : List ℕ) → c.written ++ bs ≡ joined c.begun → Phase (ended c)
ended-Phase c bs h = is_dead (record {
  disconnected' = refl;
  current = refl;
  unblocked = refl;
  pipe = refl;
  lost = bs;
  wrote' = h;
})

ended-IsSound :
    (c : Sender) (bs : List ℕ)
    → c.written ++ bs ≡ joined c.begun
    → c.during_send ≡ false
    → IsSound (ended c)
unfolding AllTyped
ended-IsSound c bs h d = record {
  phase = ended-Phase c bs h;
  typed = tt;
  outside = d;
  timed = refl;
}

pub disconnect-IsSound : (c : Sender) → IsSound c → IsSound (disconnect c)
disconnect-IsSound c s = elim (s.phase) [
  | is_dead d ↦ subst IsSound (sym (disconnect-off c d.disconnected')) s
  | is_idle i ↦
      subst IsSound (sym (disconnect-on c i.connected'))
        (ended-IsSound c [] (append-nil c.written ∙ i.wrote') s.outside)
  | is_writing w b ↦
      subst IsSound (sym (disconnect-on c w.connected'))
        (ended-IsSound c (rest_of c) w.wrote' s.outside)
]

-- A change of what soundness does not look at.
pub IsSound-core :
    (c c' : Sender)
    → core c' ≡ core c
    → c'.pipe ≡ c.pipe
    → c'.during_send ≡ c.during_send
    → IsTimed c'.latency
    → IsSound c
    → IsSound c'
IsSound-core c c' e p d t s = record {
  phase = Phase-core c c' e (λ off empty. p ∙ empty) s.phase;
  typed = subst AllTyped (sym p) s.typed;
  outside = d ∙ s.outside;
  timed = t;
}

-- An item is added, in front or behind.
AllTyped-append : (is : List Item) (i : Item) → AllTyped is → IsTyped i → AllTyped (is ++ (i ∷ []))
unfolding AllTyped
AllTyped-append [] i t h = (h, tt)
AllTyped-append (x ∷ is) i t h = (t.0, AllTyped-append is i t.1 h)

piped-IsSound :
    (c : Sender) (is : List Item) (w : Bool)
    → c.is_connected ≡ true
    → AllTyped is
    → IsSound c
    → IsSound (record c { pipe = is; watches_write = w })
piped-IsSound c is w on t s = record {
  phase = Phase-core c (record c { pipe = is; watches_write = w }) refl (λ off. cc) s.phase;
  typed = t;
  outside = s.outside;
  timed = s.timed;
}

pub pipe_add-IsSound : (i : Item) (c : Sender) → IsTyped i → IsSound c → IsSound (pipe_add i c)
unfolding pipe_add
pipe_add-IsSound i c h s = elim (Bool-cases c.is_connected) [
  | inr off ↦ subst IsSound (eq_off off) s
  | inl on ↦ subst IsSound (eq_on on) (
      piped-IsSound c (c.pipe ++ (i ∷ []))
        (if is_empty c.pipe && c.has_watch then true else c.watches_write) on
        (AllTyped-append c.pipe i s.typed h) s)
]
  where
    eq_off : c.is_connected ≡ false → c ≡ pipe_add i c
    eq_off off = ground arith

    eq_on :
        c.is_connected ≡ true
        → record c {
          pipe = c.pipe ++ (i ∷ []);
          watches_write = if is_empty c.pipe && c.has_watch then true else c.watches_write;
        }
          ≡ pipe_add i c
    eq_on on = ground arith

pub pipe_add_tail-IsSound :
    (i : Item) (c : Sender) → IsTyped i → IsSound c → IsSound (pipe_add_tail i c)
unfolding pipe_add_tail AllTyped
pipe_add_tail-IsSound i c h s = elim (Bool-cases c.is_connected) [
  | inr off ↦ subst IsSound (eq_off off) s
  | inl on ↦ subst IsSound (eq_on on) (
      piped-IsSound c (i ∷ c.pipe)
        (if is_empty c.pipe && c.has_watch then true else c.watches_write) on (h, s.typed) s)
]
  where
    eq_off : c.is_connected ≡ false → c ≡ pipe_add_tail i c
    eq_off off = ground arith

    eq_on :
        c.is_connected ≡ true
        → record c {
          pipe = i ∷ c.pipe;
          watches_write = if is_empty c.pipe && c.has_watch then true else c.watches_write;
        }
          ≡ pipe_add_tail i c
    eq_on on = ground arith

-- The latency monitor alone changes.
pub latency-IsSound :
    (c : Sender) (l : Latency) → IsTimed l → IsSound c → IsSound (record c { latency = l })
latency-IsSound c l t s = IsSound-core c (record c { latency = l }) refl refl refl t s

-- Both monitors change.
pub monitors-IsSound :
    (c : Sender) (l : Latency) (m : Connectivity)
    → IsTimed l
    → IsSound c
    → IsSound (record c { latency = l; connectivity = m })
monitors-IsSound c l m t s =
    IsSound-core c (record c { latency = l; connectivity = m }) refl refl refl t s

pub watch-IsSound : (c : Sender) (w : Bool) → IsSound c → IsSound (watch_update_mask w c)
watch-IsSound c w s = subst IsSound watched (
    IsSound-core c (record c { watches_write = if c.has_watch then w else c.watches_write }) refl
      refl refl s.timed s)
  where
    watched :
        record c { watches_write = if c.has_watch then w else c.watches_write }
        ≡ watch_update_mask w c
    watched = ground arith

pub ack-IsSound : (c : Sender) (a : AckData) → IsSound c → IsSound (record c { ack = a })
ack-IsSound c a s = IsSound-core c (record c { ack = a }) refl refl refl s.timed s

-- The ping timer runs out.
pub ping_timer_fired-IsSound :
    (unsent rand : ℕ) (c : Sender)
    → is_armed c.latency.timer ≡ true
    → IsSound c
    → (c' : Sender) × (ping_timer_fired unsent rand c ≡ some c') × IsSound c'
unfolding ping_timer_fired push_ping IsTyped
ping_timer_fired-IsSound unsent rand c a s =
    let l = cancel_ping_timer c.latency in
    let t = cancel-IsTimed c.latency s.timed in
    elim (Bool-cases (ltb 0 unsent)) [
      | inl e ↦ (
        record c { latency = start_ping_timer ping_test_idle_net_timeout_ms l },
        rw (armed-state c.latency s.timed a, e) refl,
        latency-IsSound c _ (start-IsTimed ping_test_idle_net_timeout_ms l t) s,
      )
      | inr e ↦
          let l' : Latency = record l { state = ping_warmup; warmup_was_sent = false; id = rand } in
          (
            pipe_add ping (pipe_add ping (record c { latency = l' })),
            rw (armed-state c.latency s.timed a, e, cancel-none c.latency s.timed a) refl,
            pipe_add-IsSound ping _ tt (
                pipe_add-IsSound ping _ tt (
                  latency-IsSound c l' (ap (λ z. z && true) (cancel-unarmed c.latency s.timed)) s)),
          )
    ]

pub tick-IsSound : (ch : Channel) (c : Sender) → IsSound c → IsSound (tick ch c)
tick-IsSound ch c s = elim (Bool-cases (is_alive c.connectivity)) [
  | inl e ↦ rw e (monitors-IsSound c c.latency _ s.timed s)
  | inr e ↦ rw e (disconnect-IsSound _ (monitors-IsSound c c.latency _ s.timed s))
]

pub stop_timers-IsSound : (c : Sender) → IsSound c → IsSound (stop_timers c)
unfolding stop_timers
stop_timers-IsSound c s = monitors-IsSound c _ _ refl s

pub start_connectivity_monitoring-IsSound :
    (migrating : Bool) (timeout : ℕ) (c : Sender)
    → 0 < timeout
    → IsSound c
    → (c' : Sender) × (start_connectivity_monitoring migrating timeout c ≡ some c') × IsSound c'
unfolding start_connectivity_monitoring
start_connectivity_monitoring-IsSound migrating timeout c h s = elim (Bool-cases c.is_connected) [
  | inr off ↦ (c, rw off refl, s)
  | inl on ↦ (
    record c {
      latency = start_latency migrating c.latency;
      connectivity = start_connectivity migrating timeout c.connectivity;
    },
    rw (on, lt→ltb 0 timeout h) refl,
    monitors-IsSound c _ _ (start_latency-IsTimed migrating c.latency s.timed) s,
  )
]

-- ===== src/ChannelClient/Pushing.antt =====
-- `RedChannelClient::push`: it fails no assertion and ends, and what it leaves.
use spice.Prelude.{
  ℕ, ◌≡◌, refl, sym, ap, Bool, true, false, Option, none, some, List, [], if◌then◌else◌, inl, inr,
  ◌==◌, length, arith, Bool-cases, ◌||◌, ◌&&◌, subst, ◌>>=◌,
}
use spice.ChannelClient.State.{Channel, Sender, is_empty, is_free, waiting_for_ack}
use spice.ChannelClient.Sending.{
  Reply, handle_outgoing, push_loop, push, block_unfinished, stop_watching,
}
use spice.ChannelClient.Timing.{IsTimed}
use spice.ChannelClient.Ordering.{Phase, is_idle, is_writing, is_dead}
use spice.ChannelClient.Beginning.{Went, retry-Went}
use spice.ChannelClient.Items.{AllTyped, Halted, Pushed, typed_pipe, push_items-Pushed}

-- Between two calls.
pub record IsSound (c : Sender) : Type 0 where
  pub phase : Phase c
  pub typed : AllTyped c.pipe
  pub outside : c.during_send ≡ false
  pub timed : IsTimed c.latency

-- A client at rest has no socket to watch, or has nothing to send, or waits for the acknowledgement
-- of the client, or its socket takes no more; and write events are watched in the last case alone.
pub data Rests (ch : Channel) (watched : Bool) (c : Sender) : Type 0 where
  unwatched : c.has_watch ≡ false → Rests ch watched c
  done : c.current ≡ [] → c.pipe ≡ [] → c.watches_write ≡ false → Rests ch watched c
  waits : waiting_for_ack ch c ≡ true → c.watches_write ≡ false → Rests ch watched c
  full : c.is_blocked ≡ true → c.watches_write ≡ watched → Rests ch watched c

block_unfinished-Phase : (c : Sender) → Phase c → block_unfinished c ≡ c
block_unfinished-Phase c (is_idle i) = ground (arith, ap (λ z. length z == 0) i.current)
block_unfinished-Phase c (is_writing w b) = ground arith
block_unfinished-Phase c (is_dead d) = ground (arith, ap (λ z. length z == 0) d.current)

watching-Phase :
    (c : Sender) (w d : Bool) → Phase c → Phase (record c { watches_write = w; during_send = d })
watching-Phase c w d (is_idle i) = is_idle (record {
  connected' = i.connected';
  current = i.current;
  unblocked = i.unblocked;
  pos = i.pos;
  size = i.size;
  wrote' = i.wrote';
})
watching-Phase c w d (is_writing p b) =
    is_writing (record { connected' = p.connected'; size = p.size; pos = p.pos; wrote' = p.wrote' })
      b
watching-Phase c w d (is_dead q) = is_dead (record {
  disconnected' = q.disconnected';
  current = q.current;
  unblocked = q.unblocked;
  pipe = q.pipe;
  lost = q.lost;
  wrote' = q.wrote';
})

module _ (ch : Channel) (c : Sender) where
  -- Whether there is nothing to send.
  abbrev stops : Bool
  stops = is_free c && is_empty c.pipe || waiting_for_ack ch c

  stop_watching-eq : stop_watching ch c ≡ record c {
    watches_write = if stops && c.has_watch then false else c.watches_write;
    during_send = false;
  }
  stop_watching-eq = ground arith

  stop_watching-Phase : Phase c → Phase (stop_watching ch c)
  stop_watching-Phase p = rw stop_watching-eq (watching-Phase c _ _ p)

  stop_watching-AllTyped : AllTyped c.pipe → AllTyped (stop_watching ch c).pipe
  stop_watching-AllTyped t = subst (λ (z : Sender). AllTyped z.pipe) (sym stop_watching-eq) t

  stop_watching-IsTimed : IsTimed c.latency → IsTimed (stop_watching ch c).latency
  stop_watching-IsTimed t = subst (λ (z : Sender). IsTimed z.latency) (sym stop_watching-eq) t

  rest_stopped : (w : Bool) → stops ≡ true → c.has_watch ≡ true → Rests ch w (stop_watching ch c)
  rest_stopped w s h = elim (Bool-cases (waiting_for_ack ch c)) [
    | inl a ↦ waits (ground arith) (ground arith)
    | inr a ↦ done (ground arith) (ground arith) (ground arith)
  ]

  Halted-full : Phase c → Halted ch c → stops ≡ false → (stop_watching ch c).is_blocked ≡ true
  unfolding Halted
  Halted-full (is_writing q b) h s = ground arith
  Halted-full p (inr (inl b)) s = ground arith
  Halted-full p (inr (inr a)) s = ground arith
  Halted-full (is_idle i) (inl e) s = ground (arith, ap (λ z. length z == 0) i.current)
  Halted-full (is_dead d) (inl e) s = ground (arith, ap (λ z. length z == 0) d.current)

  stop_watching-Rests :
      (w : Bool) → Phase c → Halted ch c → c.watches_write ≡ w → Rests ch w (stop_watching ch c)
  unfolding Halted
  stop_watching-Rests w p h e = elim (Bool-cases c.has_watch) [
    | inr n ↦ unwatched (ground arith)
    | inl y ↦ elim (Bool-cases stops) [
      | inl s ↦ rest_stopped w s y
      | inr s ↦ full (Halted-full p h s) (ground arith)
    ]
  ]

module _ (ch : Channel) (now : ℕ) where
  Pushed-some :
      (c : Sender) (o : Option (Sender × List Reply))
      → Pushed ch now c o
      → (r : Sender × List Reply) × (o ≡ some r) × Pushed ch now c (some r)
  unfolding Pushed
  Pushed-some c none h = absurd h
  Pushed-some c (some r) h = (r, refl, h)

  push_loop-Pushed :
      (c : Sender) (rs : List Reply)
      → Phase c
      → AllTyped c.pipe
      → IsTimed c.latency
      → (r : Sender × List Reply) × (push_loop ch now c rs ≡ some r) × Pushed ch now c (some r)
  unfolding push_loop
  push_loop-Pushed c rs p t m =
      Pushed-some c _
        (push_items-Pushed ch now (length c.pipe) c.pipe c rs refl (omega arith) p t m)

  -- What follows the retry.
  abbrev resume : Sender × List Reply → Option (Sender × List Reply)
  resume r = push_loop ch now (block_unfinished r.0) r.1 >>= λ q. some (stop_watching ch q.0, q.1)

  resume-IsSound :
      (r : Sender × List Reply)
      → Phase r.0
      → AllTyped r.0.pipe
      → IsTimed r.0.latency
      → (q : Sender × List Reply) × (resume r ≡ some q)
        × IsSound q.0
        × Rests ch r.0.watches_write q.0
  unfolding Pushed
  resume-IsSound r p t m =
      let (q, ran, (p', t', w, h, m')) = push_loop-Pushed r.0 r.1 p t m in
      (
        (stop_watching ch q.0, q.1),
        rw (block_unfinished-Phase r.0 p, ran) refl,
        record {
          phase = stop_watching-Phase ch q.0 p';
          typed = stop_watching-AllTyped ch q.0 t';
          outside = refl;
          timed = stop_watching-IsTimed ch q.0 m';
        },
        stop_watching-Rests ch q.0 r.0.watches_write p' h w,
      )

  after_retry :
      (c : Sender) (o : Option (Sender × List Reply))
      → Went c o
      → AllTyped c.pipe
      → (q : Sender × List Reply) × ((o >>= resume) ≡ some q)
        × IsSound q.0
        × Rests ch c.watches_write q.0
  unfolding Went
  after_retry c none w t = absurd w
  after_retry c (some r) w t =
      let (q, ran, s, h) =
        resume-IsSound r w.0 (typed_pipe ch now c.pipe r.0.pipe t w.1.pipe) w.1.timed in
      (q, ran, s, subst (λ z. Rests ch z q.0) w.1.watch h)

  push-blocked :
      (c : Sender) (rs : List Reply)
      → c.during_send ≡ false
      → c.is_blocked ≡ true
      → push ch now c rs ≡ (handle_outgoing ch now (record c { during_send = true }) rs >>= resume)
  unfolding push
  push-blocked c rs d b = ground arith

  push-unblocked :
      (c : Sender) (rs : List Reply)
      → c.during_send ≡ false
      → c.is_blocked ≡ false
      → push ch now c rs ≡ (some (record c { during_send = true }, rs) >>= resume)
  unfolding push
  push-unblocked c rs d b = ground arith

  retried-Went :
      (c : Sender) (rs : List Reply)
      → Phase c
      → c.is_blocked ≡ true
      → IsTimed c.latency
      → Went
          (record c { during_send = true })
          (handle_outgoing ch now (record c { during_send = true }) rs)
  retried-Went c rs (is_idle i) b h = cc
  retried-Went c rs (is_dead d) b h = cc
  retried-Went c rs (is_writing w _) b h =
      retry-Went ch now (record c { during_send = true }) (record c { during_send = true }) rs
        (record { connected' = w.connected'; size = w.size; pos = w.pos; wrote' = w.wrote' })
        (record { pipe = inl refl; during = refl; watch = refl; timed = h })

  -- From a sound state, whatever the socket answers, `push` ends, fails no assertion, and leaves a
  -- sound state, in which the bytes written are those of the messages begun, in order and each
  -- once; and it stops only when there is no socket to watch, when nothing is left to send, when
  -- the client owes an acknowledgement, or when the socket takes no more, and it watches for
  -- write events as before in the last case and for none in the two before.
  pub push-Rests :
      (c : Sender) (rs : List Reply)
      → IsSound c
      → (q : Sender × List Reply) × (push ch now c rs ≡ some q)
        × IsSound q.0
        × Rests ch c.watches_write q.0
  unfolding Went
  push-Rests c rs s = elim (Bool-cases c.is_blocked) [
    | inl b ↦ rw (push-blocked c rs s.outside b) (
        after_retry (record c { during_send = true }) _ (retried-Went c rs s.phase b s.timed)
          s.typed)
    | inr b ↦ rw (push-unblocked c rs s.outside b) (
        after_retry (record c { during_send = true }) (some (record c { during_send = true }, rs))
          (
            watching-Phase c c.watches_write true s.phase,
            record { pipe = inl refl; during = refl; watch = refl; timed = s.timed },
          )
          s.typed)
  ]

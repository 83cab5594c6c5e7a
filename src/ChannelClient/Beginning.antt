-- ===== src/ChannelClient/Beginning.antt =====
-- A message that is begun, or tried again, keeps the order of the bytes.
use spice.Prelude.{
  ℕ, suc, ◌≡◌, refl, sym, ap, ◌∙◌, false, Option, none, some, List, ◌++◌, ◌==◌, length, drop,
  append-nil, arith, inl, inr, Bool-cases,
}
use spice.ChannelClient.State.{Channel, Sender, is_empty}
use spice.ChannelClient.Timing.{cancel-IsTimed, restart-IsTimed}
use spice.ChannelClient.Sending.{
  Reply, Written, finished, stopped, spins, transmit, transmit_for, prepare, clear_sent_item, idle,
  main_sent, restore_main, msg_sent, handle_outgoing, begin_send_message, then_on,
}
use spice.ChannelClient.Ordering.{
  joined, joined-append, nil_of_length, IsIdle, IsWriting, Phase, is_idle, Kept, IsWritten,
  WentWell, write_loop-WentWell,
}

-- A message is begun when nothing is being sent.
pub begin-WentWell :
    (c0 c : Sender) (m : List ℕ) (rs : List Reply)
    → IsIdle c
    → Kept c0 c
    → WentWell c0 (transmit (prepare m c) rs)
unfolding transmit_for prepare WentWell
begin-WentWell c0 c m rs i k = elim (Bool-cases (length m == 0)) [
  | inl e ↦
      let none_left = nil_of_length m (ground (arith, e)) in
      rw (i.size, e)
        (
          is_idle (record {
            connected' = i.connected';
            current = none_left;
            unblocked = i.unblocked;
            pos = i.pos;
            size = refl;
            wrote' =
                i.wrote'
                ∙ sym (append-nil (joined c.begun))
                ∙ ap (λ z. joined c.begun ++ z) (sym none_left)
                ∙ sym (joined-append c.begun m);
          }),
          record {
            pipe = k.pipe;
            during = k.during;
            watch = k.watch;
            timed = cancel-IsTimed c.latency k.timed;
          },
        )
  | inr e ↦
      rw (i.size, e)
        (write_loop-WentWell (suc (length rs)) c0 (record (prepare m c) { out_size = length m }) rs
          (omega arith)
          (record {
            connected' = i.connected';
            size = refl;
            pos = ground (arith, i.pos, e);
            wrote' =
                ap (λ z. c.written ++ drop z m) i.pos
                ∙ ap (λ z. z ++ m) i.wrote'
                ∙ sym (joined-append c.begun m);
          })
          (record {
            pipe = k.pipe;
            during = k.during;
            watch = k.watch;
            timed = cancel-IsTimed c.latency k.timed;
          }))
]

-- A message that is written in part is tried again.
pub retry-WentWell :
    (c0 c : Sender) (rs : List Reply) → IsWriting c → Kept c0 c → WentWell c0 (transmit c rs)
unfolding transmit_for
retry-WentWell c0 c rs w k =
    let some_size : (c.out_size == 0) ≡ false = ground (arith, w.size, w.pos) in
    rw (some_size, some_size)
      (write_loop-WentWell (suc (length rs)) c0 (record c { out_size = c.out_size }) rs
        (omega arith)
        (record { connected' = w.connected'; size = w.size; pos = w.pos; wrote' = w.wrote' })
        (record { pipe = k.pipe; during = k.during; watch = k.watch; timed = k.timed }))

-- What a call leaves, which ends and fails no assertion.
unfoldable pub Went : Sender → Option (Sender × List Reply) → Type 0
Went c0 none = ⊥
Went c0 (some r) = Phase r.0 × Kept c0 r.0

module _ (ch : Channel) (now : ℕ) where
  main_sent-Went :
      (c0 c : Sender) (rs : List Reply) → IsWritten c → Kept c0 c → Went c0 (main_sent ch now c rs)
  unfolding idle Went
  main_sent-Went c0 c rs d k = elim (Bool-cases (is_empty c.pipe)) [
    | inl e ↦ rw e (
      is_idle (record {
        connected' = d.connected';
        current = refl;
        unblocked = refl;
        pos = d.pos;
        size = d.size;
        wrote' = d.wrote';
      }),
      record {
        pipe = k.pipe;
        during = k.during;
        watch = k.watch;
        timed = restart-IsTimed now c.latency k.timed;
      },
    )
    | inr e ↦ rw e (
      is_idle (record {
        connected' = d.connected';
        current = refl;
        unblocked = refl;
        pos = d.pos;
        size = d.size;
        wrote' = d.wrote';
      }),
      record { pipe = k.pipe; during = k.during; watch = k.watch; timed = k.timed },
    )
  ]

  then_main-Went :
      (c0 : Sender) (w : Written) → WentWell c0 w → Went c0 (then_on w (main_sent ch now))
  unfolding WentWell Went
  then_main-Went c0 (finished c rs) h = main_sent-Went c0 c rs h.0 h.1
  then_main-Went c0 (stopped c rs) h = h
  then_main-Went c0 spins h = h

  restore_main-Went :
      (o : Option (List ℕ)) (c0 c : Sender) (rs : List Reply)
      → IsWritten c
      → Kept c0 c
      → Went c0 (restore_main ch now o c rs)
  restore_main-Went none c0 c rs d k = main_sent-Went c0 c rs d k
  restore_main-Went (some m) c0 c rs d k =
      then_main-Went c0 (transmit (prepare m (record (clear_sent_item c) { deferred = none })) rs) (
        begin-WentWell c0 (record (clear_sent_item c) { deferred = none }) m rs
          (record {
            connected' = d.connected';
            current = refl;
            unblocked = refl;
            pos = d.pos;
            size = d.size;
            wrote' = d.wrote';
          })
          (record { pipe = k.pipe; during = k.during; watch = k.watch; timed = k.timed }))

  then_sent-Went :
      (c0 : Sender) (w : Written) → WentWell c0 w → Went c0 (then_on w (msg_sent ch now))
  unfolding WentWell Went msg_sent
  then_sent-Went c0 (finished c rs) h = restore_main-Went c.deferred c0 c rs h.0 h.1
  then_sent-Went c0 (stopped c rs) h = h
  then_sent-Went c0 spins h = h

  pub begin-Went :
      (c0 c : Sender) (m : List ℕ) (rs : List Reply)
      → IsIdle c
      → Kept c0 c
      → Went c0 (begin_send_message ch now m c rs)
  unfolding handle_outgoing
  begin-Went c0 c m rs i k =
      then_sent-Went c0 (transmit (prepare m c) rs) (begin-WentWell c0 c m rs i k)

  pub retry-Went :
      (c0 c : Sender) (rs : List Reply)
      → IsWriting c
      → Kept c0 c
      → Went c0 (handle_outgoing ch now c rs)
  unfolding handle_outgoing
  retry-Went c0 c rs w k = then_sent-Went c0 (transmit c rs) (retry-WentWell c0 c rs w k)

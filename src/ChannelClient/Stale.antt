-- ===== src/ChannelClient/Stale.antt =====
-- Sending after a disconnection in the middle of a message.
use spice.Prelude.{
  ℕ, zero, suc, ◌≡◌, refl, ap, ◌∙◌, false, length, none, List, [], ◌==◌, drop, arith,
}
use spice.ChannelClient.State.{Channel, Sender, disconnect}
use spice.ChannelClient.Sending.{
  Reply, spins, rest_of, data_sent, stream_writev, after_writev, write_loop, transmit_for,
  handle_outgoing, msg_sent, then_on,
}
use spice.ChannelClient.Upkeep.{ended, disconnect-on}
use spice.ChannelClient.Ordering.{IsWriting}

nothing_left : (i : ℕ) → drop {A = ℕ} i [] ≡ []
nothing_left zero = refl
nothing_left (suc i) = refl

-- Without bytes a write gives 0, and the position stays short of the size.
write_loop-spins :
    (rounds : ℕ) (c : Sender) (rs : List Reply)
    → c.current ≡ []
    → (c.out_pos == c.out_size) ≡ false
    → write_loop rounds c rs ≡ spins
unfolding write_loop stream_writev after_writev
write_loop-spins zero c rs empty short = refl
write_loop-spins (suc rounds) c rs empty short =
    let none_left : rest_of c ≡ [] = ap (drop c.out_pos) empty ∙ nothing_left c.out_pos in
    let stays : (data_sent 0 c).out_pos ≡ c.out_pos = omega arith in
    let short' : ((data_sent 0 c).out_pos == c.out_size) ≡ false =
      ap (λ z. z == c.out_size) stays ∙ short in
    ap (λ z. after_writev (write_loop rounds) c (stream_writev z rs)) none_left
    ∙ rw short' (write_loop-spins rounds (data_sent 0 c) rs empty short')

transmit-spins :
    (rounds : ℕ) (c : Sender) (rs : List Reply)
    → IsWriting c
    → transmit_for rounds (ended c) rs ≡ spins
unfolding transmit_for
transmit-spins rounds c rs w =
    let some_size : (c.out_size == 0) ≡ false = ground (arith, w.size, w.pos) in
    let short : (c.out_pos == c.out_size) ≡ false = ground (arith, w.size, w.pos) in
    rw (some_size, some_size)
      (write_loop-spins rounds (record (ended c) { out_size = c.out_size }) rs refl short)

-- When a client is disconnected while a message is written in part, the buffer is emptied but its
-- position and size stay: a further `send`, as `wait_outgoing_item` makes it after `receive`, is
-- never done with its loop, however many rounds that makes, since it asks the stream to write no
-- vectors; so the call has no result.
pub send-disconnect_spins :
    (ch : Channel) (now : ℕ) (c : Sender) (rs : List Reply)
    → IsWriting c
    → ((rounds : ℕ) → transmit_for rounds (disconnect c) rs ≡ spins)
      × (handle_outgoing ch now (disconnect c) rs ≡ none)
unfolding handle_outgoing
send-disconnect_spins ch now c rs w =
    let gone = disconnect-on c w.connected' in
    (
      λ rounds. ap (λ z. transmit_for rounds z rs) gone ∙ transmit-spins rounds c rs w,
      ap (λ z. handle_outgoing ch now z rs) gone
          ∙ ap (λ z. then_on z (msg_sent ch now)) (transmit-spins (suc (length rs)) c rs w),
    )

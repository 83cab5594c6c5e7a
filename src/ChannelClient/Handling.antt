-- ===== src/ChannelClient/Handling.antt =====
-- The messages that every channel client handles, and the acknowledgement window.
use spice.Prelude.{
  ℕ, ◌+◌, ◌-◌, ◌^◌, Bool, true, false, not, Option, some, none, List, ◌==◌, if◌then◌else◌, ◌>>=◌,
}
use spice.ChannelClient.State.{Channel, Sender, u32, watch_update_mask}
use spice.ChannelClient.Monitor.{handle_pong}
use spice.ChannelClient.Sending.{Reply, push}

-- The types of message that `RedChannelClient::handle_message` tells apart, but for migration data.
pub data Message : Type 0 where
  ack_sync : ℕ → Message
  ack disconnecting migrate_flush_mark invalid : Message
  pong : ℕ → ℕ → Message

-- `RedChannelClient::ack_zero_messages_window`
unfoldable pub ack_zero_messages_window : Sender → Sender
ack_zero_messages_window c =
    let c' = watch_update_mask true c in record c' { ack = record (c'.ack) { messages_window = 0 } }

-- `RedChannelClient::ack_set_client_window`
unfoldable pub ack_set_client_window : ℕ → Sender → Sender
ack_set_client_window n c = record c { ack = record (c.ack) { client_window = u32 n } }

-- An acknowledgement takes a whole window off the messages sent.
abbrev pub acknowledge : Sender → Sender
acknowledge c =
    let c' = watch_update_mask true c in
    record c' {
      ack = record (c'.ack) {
        messages_window = u32 (c.ack.messages_window + 2 ^ 32 - c.ack.client_window);
      };
    }

-- What a handler gives, and whether it took the message.
abbrev pub taking : Option (Sender × List Reply) → Option ((Sender × List Reply) × Bool)
taking o = o >>= λ r. some (r, true)

module _ (ch : Channel) (now : ℕ) where
  -- `RedChannelClient::init_outgoing_messages_window`
  unfoldable pub init_outgoing_messages_window : Sender → List Reply → Option (Sender × List Reply)
  init_outgoing_messages_window c rs =
      push ch now (record c { ack = record (c.ack) { messages_window = 0 } }) rs

  -- `RedChannelClient::handle_message`; the virtual `handle_migrate_flush_mark` does nothing here, and
  -- an unexpected flush mark is a `spice_error`.
  unfoldable pub handle_message :
      Message → Sender → List Reply → Option ((Sender × List Reply) × Bool)
  handle_message (ack_sync g) c rs =
      some ((record c { ack = record (c.ack) { client_generation = g } }, rs), true)
  handle_message ack c rs =
      if c.ack.client_generation == c.ack.generation
      then taking (push ch now (acknowledge c) rs)
      else some ((c, rs), true)
  handle_message disconnecting c rs = some ((c, rs), true)
  handle_message migrate_flush_mark c rs =
      if not c.wait_migrate_flush_mark
      then none
      else some ((record c { wait_migrate_flush_mark = false }, rs), true)
  handle_message (pong id timestamp) c rs =
      some ((record c { latency = handle_pong now id timestamp c.latency }, rs), true)
  handle_message invalid c rs = some ((c, rs), false)

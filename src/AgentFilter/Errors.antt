-- ===== src/AgentFilter/Errors.antt =====
-- When the filter reports a protocol error, and what it then leaves of its state.
use spice.Prelude.{ℕ, ◌+◌, ◌≤◌, ◌<◌, ◌≡◌, ◌↔◌, ◌⊎◌, ◌≢◌, List, arith, length}
use spice.AgentFilter.{
  Filter, proto_error, AgentProtocol, take_data, classify, start_message, process_data,
}

-- The reasons for which a chunk is refused.
abbrev pub IsRefused : AgentProtocol → Filter → List ℕ → Type 0
IsRefused p f c =
    (p.max_data_size < length c)
    ⊎ (f.msg_data_to_read ≢ 0) × (f.msg_data_to_read < length c)
    ⊎ (f.msg_data_to_read ≡ 0) × (length c < p.header_size)
    ⊎ (f.msg_data_to_read ≡ 0) × ((p.read_header c).protocol ≢ p.protocol)
    ⊎ (f.msg_data_to_read ≡ 0)
      × ((p.read_header c).size ≢ 0)
      × (p.header_size + (p.read_header c).size < length c)

module _ (p : AgentProtocol) where
  pub classify-ne-proto_error : (f : Filter) (t : ℕ) → classify p f t ≢ proto_error
  unfolding classify
  classify-ne-proto_error f t = ground arith

  -- While the stored verdict is not an error itself, a chunk is reported as a protocol error
  -- exactly if it is over the limit, or has more bytes than are left of the message that it goes
  -- on with, or should begin a message and is shorter than a header, or has another protocol, or
  -- has more bytes than its header says, where the header says a number other than zero.
  pub proto_error_iff :
      (f : Filter) (c : List ℕ)
      → f.result ≢ proto_error
      → ((process_data p f c).1 ≡ proto_error) ↔ IsRefused p f c
  unfolding process_data start_message take_data
  proto_error_iff f c ne =
      let r = classify-ne-proto_error f (p.read_header c).kind in (ground arith, ground arith)

  -- The stored verdict is never an error, whatever chunks come.
  process_data-result :
      (f : Filter) (c : List ℕ)
      → f.result ≢ proto_error
      → (process_data p f c).0.result ≢ proto_error
  unfolding process_data start_message take_data
  process_data-result f c ne = ground (arith, classify-ne-proto_error f (p.read_header c).kind)

  -- A chunk that begins a message whose header gives the size zero: whatever bytes stand behind the
  -- header, the chunk gets the verdict that the header alone would get, and leaves the same state.
  pub empty_message_excess :
      (f : Filter) (c header : List ℕ)
      → length c ≤ p.max_data_size
      → f.msg_data_to_read ≡ 0
      → p.header_size ≤ length c
      → (p.read_header c).size ≡ 0
      → length header ≡ p.header_size
      → p.read_header header ≡ p.read_header c
      → process_data p f c ≡ process_data p f header
  unfolding process_data start_message take_data
  empty_message_excess f c header h k l z n e = ground (arith, e)

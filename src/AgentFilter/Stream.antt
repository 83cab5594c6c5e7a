-- ===== src/AgentFilter/Stream.antt =====
-- One message over several chunks: the verdict of its header holds for all of them.
use spice.Prelude.{ℕ, ◌+◌, ◌-◌, ◌≤◌, ◌<◌, ◌≡◌, List, [], ◌∷◌, arith, length}
use spice.AgentFilter.{
  Filter, FilterResult, AgentProtocol, take_data, classify, start_message, process_data,
}

-- The verdicts of the chunks in order, and the filter after them.
unfoldable pub run : AgentProtocol → Filter → List (List ℕ) → Filter × List FilterResult
run p f [] = (f, [])
run p f (c ∷ cs) = let (f', r) = process_data p f c in let (g, rs) = run p f' cs in (g, r ∷ rs)

-- The number of bytes in a list of chunks.
abbrev pub total : List (List ℕ) → ℕ
total [] = 0
total (c ∷ cs) = length c + total cs

-- One copy of a verdict for each chunk.
abbrev pub for_each : List (List ℕ) → FilterResult → List FilterResult
for_each [] r = []
for_each (c ∷ cs) r = r ∷ for_each cs r

-- No chunk is empty or over the limit.
abbrev pub AllFit : ℕ → List (List ℕ) → Type 0
AllFit m [] = Unit {0}
AllFit m (c ∷ cs) = (0 < length c) × (length c ≤ m) × AllFit m cs

module _ (p : AgentProtocol) where
  -- A chunk inside a message is counted off and gets the message's verdict.
  pub process_data-inside :
      (f : Filter) (c : List ℕ)
      → length c ≤ p.max_data_size
      → 0 < f.msg_data_to_read
      → length c ≤ f.msg_data_to_read
      → process_data p f c
        ≡ (record f { msg_data_to_read = f.msg_data_to_read - length c }, f.result)
  unfolding process_data take_data
  process_data-inside f c h k l = ground arith

  pub run-inside :
      (f : Filter) (cs : List (List ℕ))
      → AllFit p.max_data_size cs
      → total cs ≤ f.msg_data_to_read
      → run p f cs
        ≡ (record f { msg_data_to_read = f.msg_data_to_read - total cs }, for_each cs f.result)
  unfolding run
  run-inside f [] a h = ground arith
  run-inside f (c ∷ cs) a h = ground (
    arith,
    process_data-inside f c,
    run-inside (record f { msg_data_to_read = f.msg_data_to_read - length c }) cs a.2,
  )

  -- A chunk that begins a message of the right protocol, with no more data than its header says.
  pub process_data-start :
      (f : Filter) (c : List ℕ)
      → length c ≤ p.max_data_size
      → f.msg_data_to_read ≡ 0
      → p.header_size ≤ length c
      → (p.read_header c).protocol ≡ p.protocol
      → length c ≤ p.header_size + (p.read_header c).size
      → process_data p f c ≡ (
        record f {
          msg_data_to_read = p.header_size + (p.read_header c).size - length c;
          result = classify p f (p.read_header c).kind;
        },
        classify p f (p.read_header c).kind,
      )
  unfolding process_data start_message take_data
  process_data-start f c h k l e m = ground arith

  -- A message that arrives between two messages, in any split into a chunk with its header and
  -- further chunks that are not empty, each within the size limit, and which together hold as
  -- many bytes as the header says: every chunk gets the verdict that the header's type has, the
  -- settings stay, and the filter waits for the next header.
  pub message_verdict :
      (f : Filter) (c : List ℕ) (cs : List (List ℕ))
      → length c ≤ p.max_data_size
      → f.msg_data_to_read ≡ 0
      → p.header_size ≤ length c
      → (p.read_header c).protocol ≡ p.protocol
      → AllFit p.max_data_size cs
      → length c + total cs ≡ p.header_size + (p.read_header c).size
      → let r = classify p f (p.read_header c).kind in
        run p f (c ∷ cs) ≡ (record f { msg_data_to_read = 0; result = r }, for_each (c ∷ cs) r)
  unfolding run
  message_verdict f c cs h k l e a t = ground (
    arith,
    process_data-start f c h k l e,
    run-inside
        (record f {
          msg_data_to_read = p.header_size + (p.read_header c).size - length c;
          result = classify p f (p.read_header c).kind;
        })
        cs a,
  )

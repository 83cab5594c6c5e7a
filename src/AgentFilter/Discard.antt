-- ===== src/AgentFilter/Discard.antt =====
-- A filter that is set up to discard everything lets no chunk through, whatever the guest sends and
-- however the filter is configured meanwhile.
use spice.Prelude.{ℕ, ◌≡◌, ◌≢◌, Bool, true, List, [], ◌∷◌, ◌⊎◌, arith}
use spice.AgentFilter.{
  Filter, FilterResult, discard, proto_error, AgentProtocol, init, config, take_data, classify,
  start_message, process_data,
}

-- What happens to a filter after its initialisation.
pub data Event : Type 0 where
  chunk : List ℕ → Event
  configure : Bool → Bool → Bool → Event

-- The verdicts of the chunks among the events.
pub verdicts : AgentProtocol → Filter → List Event → List FilterResult
verdicts p f [] = []
verdicts p f (chunk c ∷ es) = let (f', r) = process_data p f c in r ∷ verdicts p f' es
verdicts p f (configure a b c ∷ es) = verdicts p (config f a b c) es

abbrev pub AllStopped : List FilterResult → Type 0
AllStopped [] = Unit {0}
AllStopped (r ∷ rs) = ((r ≡ discard) ⊎ (r ≡ proto_error)) × AllStopped rs

-- Inside a message the stored verdict is `discard`.
pub record IsDiscarding (f : Filter) : Type 0 where
  pub discards : f.discard_all ≡ true
  pub stored : f.msg_data_to_read ≢ 0 → f.result ≡ discard

module _ (p : AgentProtocol) where
  process_data-IsDiscarding :
      (f : Filter) (c : List ℕ)
      → IsDiscarding f
      → IsDiscarding (process_data p f c).0
        × (((process_data p f c).1 ≡ discard) ⊎ ((process_data p f c).1 ≡ proto_error))
  unfolding process_data start_message take_data classify
  process_data-IsDiscarding f c v = ground arith

  verdicts-AllStopped :
      (f : Filter) (es : List Event) → IsDiscarding f → AllStopped (verdicts p f es)
  unfolding verdicts config
  verdicts-AllStopped f [] v = tt
  verdicts-AllStopped f (chunk c ∷ es) v =
      let k = process_data-IsDiscarding f c v in
      (k.1, verdicts-AllStopped (process_data p f c).0 es k.0)
  verdicts-AllStopped f (configure a b c ∷ es) v =
      verdicts-AllStopped (config f a b c) es (record { discards = v.discards; stored = v.stored })

  -- After `init` with `discard_all`, every chunk of every history of chunks and configurations is
  -- discarded or refused as a protocol error.
  pub init-discards_all :
      (a b c : Bool) (es : List Event) → AllStopped (verdicts p (init a b c true) es)
  unfolding init
  init-discards_all a b c es = verdicts-AllStopped (init a b c true) es (ground arith)

-- ===== src/ChannelClient/Tests.antt =====
-- Runs of a channel client, and instances of the theorems on it.
use spice.Prelude.{ℕ, ◌≡◌, refl, true, false, some, none, List, [], ◌∷◌, ◌++◌, get_or, arith}
use spice.ChannelClient.Incoming.{
  bytes, interrupted, Methods, Reader, handle_incoming, round, fault,
}
use spice.ChannelClient.Framing.{Accepts, IsPartial}
use spice.ChannelClient.Unparsable.{unparsable_faults}
use spice.ChannelClient.Splitting.{receive_all, Cuts, receive_all-Cuts}

-- A header of a type and a size; a state that lists the messages.
abbrev listing : Methods (List (List ℕ))
listing = record {
  header_size = 2;
  get_msg_size = λ h. get_or h 1 0;
  get_msg_type = λ h. get_or h 0 0;
  has_watch = λ s. true;
  block_read = λ s. false;
  has_connectivity_timer = λ s. true;
  alloc = λ s t n. true;
  parse = λ t m. some m;
  handle_message = λ s t m. (s ++ ((t ∷ m) ∷ []), true);
  disconnect = λ s. s;
}

listing-Accepts : Accepts listing
listing-Accepts = record {
  header_pos = omega arith;
  watched = λ s. refl;
  allocates = λ s t n. refl;
  parsed = λ t m. m;
  parses = λ t m. refl;
  handles = λ s t m. refl;
}

abbrev new_reader : Reader (List (List ℕ))
new_reader = record {
  has_stream = true;
  header = [];
  has_buffer = false;
  msg = [];
  received_bytes = false;
  state = [];
}

new_reader-IsPartial : IsPartial listing listing-Accepts new_reader
new_reader-IsPartial = record {
  stream = refl;
  fits = omega arith;
  before = λ h. refl;
  inside = λ h. cc;
}

-- Two messages, of two bytes and of none, in three calls.
receive_all-Cuts_example :
    (r' : Reader (List (List ℕ))) × (receive_all listing listing-Accepts new_reader (
        (bytes (7 ∷ []) ∷ [])
        ∷ (bytes (2 ∷ 5 ∷ []) ∷ interrupted ∷ [])
        ∷ (bytes (6 ∷ 8 ∷ 0 ∷ []) ∷ [])
        ∷ [])
      ≡ some r')
    × Cuts listing listing-Accepts [] (7 ∷ 2 ∷ 5 ∷ 6 ∷ 8 ∷ 0 ∷ []) r'
receive_all-Cuts_example =
    receive_all-Cuts listing listing-Accepts new_reader
      ((bytes (7 ∷ []) ∷ [])
        ∷ (bytes (2 ∷ 5 ∷ []) ∷ interrupted ∷ [])
        ∷ (bytes (6 ∷ 8 ∷ 0 ∷ []) ∷ [])
        ∷ [])
      new_reader-IsPartial (omega arith, (omega arith, (omega arith, tt)))

-- A channel that parses nothing, and a message of three bytes of which one has come.
abbrev refusing : Methods (List (List ℕ))
refusing = record listing { parse = λ t m. none }

abbrev one_byte : Reader (List (List ℕ))
one_byte = record {
  has_stream = true;
  header = 7 ∷ 3 ∷ [];
  has_buffer = true;
  msg = 4 ∷ [];
  received_bytes = false;
  state = [];
}

unparsable_faults_example :
    (r' : Reader (List (List ℕ))) × (handle_incoming refusing 1 one_byte (bytes (5 ∷ 6 ∷ []) ∷ [])
      ≡ some r')
    × (r'.state ≡ [])
    × (r'.has_stream ≡ true)
    × (round refusing r' [] ≡ fault)
unparsable_faults_example =
    unparsable_faults refusing one_byte refl refl 0 (5 ∷ 6 ∷ []) [] refl refl (omega arith) refl
      refl

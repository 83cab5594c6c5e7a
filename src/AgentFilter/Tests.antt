-- ===== src/AgentFilter/Tests.antt =====
-- Runs of the filter, and instances of its theorems, with a small stand-in for the protocol header.
use spice.Prelude.{◌≡◌, refl, true, false, [], ◌∷◌, ◌↔◌, arith, get_or}
use spice.AgentFilter.{
  Filter, ok, discard, proto_error, AgentProtocol, init, process_data, classify,
}
use spice.AgentFilter.Stream.{run, message_verdict}
use spice.AgentFilter.Errors.{proto_error_iff, empty_message_excess, IsRefused}
use spice.AgentFilter.Discard.{chunk, configure, verdicts, AllStopped, init-discards_all}

-- One byte for each of protocol, type and size.
abbrev small : AgentProtocol
small = record {
  max_data_size = 6;
  header_size = 3;
  read_header = λ c. record { protocol = get_or c 0 0; kind = get_or c 1 0; size = get_or c 2 0 };
  protocol = 1;
  clipboard = 4;
  clipboard_grab = 7;
  clipboard_request = 8;
  clipboard_release = 9;
  file_xfer_start = 10;
  file_xfer_status = 11;
  file_xfer_data = 12;
  monitors_config = 2;
}

-- Copy and paste is off, file transfer on.
abbrev no_paste : Filter
no_paste = record {
  msg_data_to_read = 0;
  result = ok;
  copy_paste_enabled = false;
  file_xfer_enabled = true;
  use_client_monitors_config = false;
  discard_all = false;
}

init_run : init false true false false ≡ no_paste
unfolding init
init_run = refl

-- A clipboard message of five bytes, then a file transfer of one.
two_messages :
    (run small no_paste
      ((1 ∷ 4 ∷ 5 ∷ 9 ∷ []) ∷ (9 ∷ 9 ∷ 9 ∷ 9 ∷ []) ∷ (1 ∷ 10 ∷ 1 ∷ 5 ∷ []) ∷ [])).1
    ≡ discard ∷ discard ∷ ok ∷ []
unfolding run process_data classify
two_messages = refl

message_verdict_example :
    run small no_paste ((1 ∷ 4 ∷ 5 ∷ 9 ∷ []) ∷ (9 ∷ 9 ∷ 9 ∷ 9 ∷ []) ∷ [])
    ≡ (record no_paste { result = discard }, discard ∷ discard ∷ [])
unfolding classify
message_verdict_example =
    message_verdict small no_paste (1 ∷ 4 ∷ 5 ∷ 9 ∷ []) ((9 ∷ 9 ∷ 9 ∷ 9 ∷ []) ∷ []) (omega arith)
      refl (omega arith) refl (omega arith) refl

proto_error_iff_example :
    ((process_data small no_paste (2 ∷ 4 ∷ 1 ∷ 9 ∷ [])).1 ≡ proto_error)
    ↔ IsRefused small no_paste (2 ∷ 4 ∷ 1 ∷ 9 ∷ [])
proto_error_iff_example = proto_error_iff small no_paste (2 ∷ 4 ∷ 1 ∷ 9 ∷ []) (λ e. cc)

-- Behind the header of an empty message stands a clipboard message, which is off.
empty_message_excess_example :
    process_data small no_paste (1 ∷ 3 ∷ 0 ∷ 1 ∷ 4 ∷ 9 ∷ [])
    ≡ process_data small no_paste (1 ∷ 3 ∷ 0 ∷ [])
empty_message_excess_example =
    empty_message_excess small no_paste (1 ∷ 3 ∷ 0 ∷ 1 ∷ 4 ∷ 9 ∷ []) (1 ∷ 3 ∷ 0 ∷ []) (omega arith)
      refl (omega arith) refl refl refl

init-discards_all_example : AllStopped (
    verdicts small
      (init true true true true)
      (chunk (1 ∷ 2 ∷ 4 ∷ []) ∷ configure true true true ∷ chunk (7 ∷ 7 ∷ []) ∷ []))
init-discards_all_example =
    init-discards_all small true true true
      (chunk (1 ∷ 2 ∷ 4 ∷ []) ∷ configure true true true ∷ chunk (7 ∷ 7 ∷ []) ∷ [])

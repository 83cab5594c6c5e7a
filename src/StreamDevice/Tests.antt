-- ===== src/StreamDevice/Tests.antt =====
-- Runs of a stream device, and instances of the theorems on it, with a small stand-in for the
-- protocol: a header is one byte each for type and size.
use spice.Prelude.{List, ◌≡◌, refl, true, some, [], ◌∷◌, get_or, drop, length-drop, arith}
use spice.StreamDevice.State.{
  Answer, StreamProtocol, IsStreamProtocol, StreamDevice, bytes, failure,
}
use spice.StreamDevice.Port.{stream_device_connect, port_opened, other_event, port_event}
use spice.StreamDevice.Framing.{IsSound}
use spice.StreamDevice.Safety.{read_one_msg-runs}
use spice.StreamDevice.History.{readable, port, queue_stat, timer, step, run, run-runs}
use spice.StreamDevice.Frames.{feed, Sent, frame-Sent}
use spice.StreamDevice.Faults.{Silent, run-Silent}
use spice.StreamDevice.Reader.{partial_read, read_one_msg_from_device}

abbrev small : StreamProtocol
small = record {
  header_size = 2;
  read_header = λ h. record { kind = get_or h 0 0; size = get_or h 1 0 };
  type_format = 2;
  type_device_display_info = 7;
  type_data = 3;
  type_cursor_set = 4;
  type_cursor_move = 5;
  type_capabilities = 1;
  messages_size = 8;
  format_size = 3;
  read_format = λ m. (get_or m 0 0, get_or m 1 0);
  device_display_info_size = 3;
  read_device_display_info = λ m. record {
    stream_id = get_or m 0 0;
    device_display_id = get_or m 1 0;
    device_address_len = get_or m 2 0;
    address = drop 3 m;
  };
  capabilities_max_bytes = 8;
  max_guest_capabilities_bytes = 1;
  cursor_set_size = 5;
  read_cursor_set = λ m. record {
    width = get_or m 0 0;
    height = get_or m 1 0;
    hot_spot_x = get_or m 2 0;
    hot_spot_y = get_or m 3 0;
    kind = get_or m 4 0;
    pixels = drop 5 m;
  };
  cursor_set_max_width = 4;
  cursor_set_max_height = 4;
  cursor_alpha = 0;
  cursor_color24 = 5;
  cursor_color32 = 6;
  cursor_move_size = 2;
  read_cursor_move = λ m. (get_or m 0 0, get_or m 1 0);
}

small-IsStreamProtocol : IsStreamProtocol small
small-IsStreamProtocol = record {
  header_pos = omega arith;
  format_fits = omega arith;
  capabilities_fits = omega arith;
  cursor_move_fits = omega arith;
  cursor_tail = λ m. length-drop 5 m;
  address_tail = λ m. length-drop 3 m;
}

abbrev opened : StreamDevice
unfolding port_event
opened = port_event small port_opened (stream_device_connect small)

abbrev broken : StreamDevice
broken = record opened { has_error = true }

run-runs_example :
    (d' : StreamDevice) × (run small (stream_device_connect small) (
        port port_opened
        ∷ readable (λ t. t) (bytes (3 ∷ 2 ∷ 9 ∷ []) ∷ failure ∷ [])
        ∷ queue_stat 1
        ∷ timer
        ∷ [])
      ≡ some d')
    × IsSound small d'
run-runs_example = run-runs small small-IsStreamProtocol (
    port port_opened
    ∷ readable (λ t. t) (bytes (3 ∷ 2 ∷ 9 ∷ []) ∷ failure ∷ [])
    ∷ queue_stat 1
    ∷ timer
    ∷ [])

opened-IsSound : IsSound small opened
unfolding opened
opened-IsSound = record { hdr_fits = omega arith; room = omega arith; inside = λ e f. cc }

read_one_msg-runs_example :
    (o : StreamDevice × List Answer) × (read_one_msg_from_device small
        (λ t. t)
        6
        opened
        (bytes (3 ∷ 2 ∷ 9 ∷ []) ∷ [])
      ≡ some o)
    × IsSound small o.0
unfolding opened
read_one_msg-runs_example =
    read_one_msg-runs small small-IsStreamProtocol (λ t. t) 6 opened (bytes (3 ∷ 2 ∷ 9 ∷ []) ∷ [])
      opened-IsSound (omega arith)

frame-Sent_example :
    (d' : StreamDevice) × (feed small opened ((5, 3 ∷ 3 ∷ []) ∷ (6, 9 ∷ []) ∷ (7, 8 ∷ 7 ∷ []) ∷ [])
      ≡ some d')
    × Sent opened d' (9 ∷ 8 ∷ 7 ∷ []) 6
unfolding opened
frame-Sent_example =
    frame-Sent small (λ e. cc) (λ e. cc) 5 (3 ∷ 3 ∷ []) opened (6, 9 ∷ []) ((7, 8 ∷ 7 ∷ []) ∷ [])
      refl refl refl (omega arith) refl refl (omega arith) (omega arith, (omega arith, tt)) refl

broken_read :
    run small broken (readable (λ t. t) (bytes (3 ∷ 1 ∷ 9 ∷ []) ∷ []) ∷ port other_event ∷ [])
    ≡ some (record broken { close_timer = true })
unfolding run step read_one_msg_from_device opened partial_read
broken_read = refl

run-Silent_example : Silent broken (record broken { close_timer = true })
run-Silent_example =
    run-Silent small small-IsStreamProtocol broken (record broken { close_timer = true })
      (readable (λ t. t) (bytes (3 ∷ 1 ∷ 9 ∷ []) ∷ []) ∷ port other_event ∷ []) refl
      (tt, (refl, tt)) broken_read

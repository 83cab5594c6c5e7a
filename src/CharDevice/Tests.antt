-- ===== src/CharDevice/Tests.antt =====
-- Runs of a device with one client, and instances of the theorems on it.
use spice.Prelude.{
  ℕ, ◌>>=◌, ◌+◌, ◌≡◌, ◌≢◌, refl, true, false, none, some, List, [], ◌∷◌, ◌++◌, arith, length,
}
use mathlib.Core.Option
use spice.CharDevice.State.{
  from_client, from_server, WriteBuffer, DevClient, idle, CharDevice, replace, find, write_bytes,
  send_tokens_to_client, send_msg_to_client, on_free_self_token,
}
use spice.CharDevice.Writing.{
  Reply, write_to_device, write_loop, fetch, write_round, client_tokens_add, finish_writing,
  get_for_client, write_buffer_get_client, write_buffer_release, write_buffer_get,
}
use spice.CharDevice.Reading.{
  Reading, read_from_device, read_loop, max_of_tokens, send_msg_to_clients, send_msg_to_one,
}
use spice.CharDevice.Stream.{written, pending, write_to_device_fifo}
use spice.CharDevice.Tokens.{flow_of, window, HasOwners}
use spice.CharDevice.Writes.{Keeps, write_to_device-runs}
use spice.CharDevice.Grants.{Granted, write_buffer_get_client-Granted}
use spice.CharDevice.Session.{
  Session, writes, here, next, IsOwnedSession, total_tokens, Steps-Conserves,
}
use spice.CharDevice.Reads.{IsReady, Reads}
use spice.CharDevice.Manage.{client_free}
use spice.CharDevice.Migration.{
  add_current, add_buffer, add_queue, MigrateData, migrate_data_marshall, restore, u32,
}
use spice.CharDevice.Restoring.{restore-marshall}
use spice.CharDevice.Turnover.{client_free-gone, marshall-pending}

abbrev viewer : DevClient
viewer = record {
  client = 5;
  do_flow_control = true;
  num_client_tokens = 3;
  num_client_tokens_free = 0;
  num_send_tokens = 2;
  timer_armed = false;
  wait_for_tokens_started = false;
  send_queue = [];
  max_send_queue_size = 4;
}

abbrev paste : WriteBuffer
paste = record {
  client = 5;
  origin = from_client;
  token_price = 1;
  buf_size = 3;
  bytes = 7 ∷ 8 ∷ 9 ∷ [];
}

abbrev reply_of_server : WriteBuffer
reply_of_server = record {
  client = 0;
  origin = from_server;
  token_price = 1;
  buf_size = 1;
  bytes = 1 ∷ [];
}

-- A client's buffer is half written, the server's waits.
abbrev busy : CharDevice
busy = record {
  running = true;
  active = true;
  wait_for_migrate_data = false;
  write_queue = reply_of_server ∷ [];
  cur_write_buf = some paste;
  cur_write_buf_pos = 1;
  write_to_dev_timer = idle;
  num_self_tokens = 9;
  clients = viewer ∷ [];
  client_tokens_interval = 1;
  has_sin = true;
  during_read_from_device = 0;
  during_write_to_device = 0;
  calls = [];
}

-- The device takes one byte, then all that it is offered.
abbrev replies : List Reply
replies =
    record { ready = 1; reentered = 0 }
    ∷ record { ready = 9; reentered = 0 }
    ∷ record { ready = 9; reentered = 0 }
    ∷ []

abbrev readings : List Reading
readings =
    record { msg = some 11; reentered = 0 }
    ∷ record { msg = some 12; reentered = 0 }
    ∷ record { msg = some 13; reentered = 0 }
    ∷ []

abbrev drained : CharDevice
drained = record busy {
  write_queue = [];
  cur_write_buf = none;
  cur_write_buf_pos = 0;
  num_self_tokens = 10;
  clients = record viewer { num_client_tokens = 4 } ∷ [];
  calls =
      write_bytes (8 ∷ [])
      ∷ write_bytes (9 ∷ [])
      ∷ send_tokens_to_client 5 1
      ∷ write_bytes (1 ∷ [])
      ∷ on_free_self_token
      ∷ [];
}

drains : write_to_device replies busy ≡ some (drained, 3)
unfolding write_to_device write_loop fetch write_round write_buffer_release find client_tokens_add
    finish_writing replace
drains = refl

-- The client has two tokens, so the third message is not read.
reads_two :
    (Option.map (λ r. r.0.calls) (read_from_device readings busy))
    ≡ some (send_msg_to_client 11 5 ∷ send_msg_to_client 12 5 ∷ [])
unfolding read_from_device read_loop max_of_tokens send_msg_to_clients send_msg_to_one
reads_two = refl

busy-HasOwners : HasOwners busy
unfolding find
busy-HasOwners = record { current = λ h. (omega arith, λ z. cc); queue = (λ h. absurd (cc), tt) }

busy-IsReady : IsReady busy
unfolding find
busy-IsReady = record {
  fit = (record { bounded = omega arith; waits = λ h. absurd (h refl); small = omega arith }, tt);
  distinct = (refl, tt);
}

write_to_device_fifo_example :
    (written drained.calls ++ pending drained ≡ written busy.calls ++ pending busy)
    × (length (written drained.calls) ≡ length (written busy.calls) + 3)
write_to_device_fifo_example = write_to_device_fifo replies busy drained 3 (omega arith) drains

write_to_device-runs_example :
    (r : CharDevice × ℕ) × (write_to_device replies busy ≡ some r) × Keeps busy r.0
write_to_device-runs_example = write_to_device-runs replies busy busy-HasOwners

abbrev session : Session
session = record { device = busy; held = [] }

abbrev written_out : Session
written_out = record { device = drained; held = [] }

Steps-Conserves_example :
    IsOwnedSession written_out
    × (flow_of (find 5 drained.clients) ≡ some true)
    × (total_tokens 5 written_out ≡ total_tokens 5 session)
unfolding find
Steps-Conserves_example =
    Steps-Conserves 5 (record { device = busy-HasOwners; held = tt }) refl (omega arith)
      (next here (writes session replies (drained, 3) drains))

write_buffer_get_client-Granted_example :
    Granted busy
      (record busy { clients = record viewer { num_client_tokens = 2 } ∷ [] })
      5
      viewer
      (record { client = 5; origin = from_client; token_price = 1; buf_size = 8; bytes = [] })
unfolding find write_buffer_get_client write_buffer_get get_for_client replace
write_buffer_get_client-Granted_example =
    write_buffer_get_client-Granted busy
      (record busy { clients = record viewer { num_client_tokens = 2 } ∷ [] }) 5 8 viewer
      (record { client = 5; origin = from_client; token_price = 1; buf_size = 8; bytes = [] }) refl
      refl (omega arith) refl

client_free-gone_example :
    (find 5 (client_free busy viewer).clients ≡ none)
    × (window 5 (client_free busy viewer) ≡ 0)
    × ((n : ℕ)
        → n ≢ 5
        → (find n (client_free busy viewer).clients ≡ find n busy.clients)
          × (window n (client_free busy viewer) ≡ window n busy))
    × HasOwners (client_free busy viewer)
client_free-gone_example = client_free-gone busy viewer busy-IsReady.distinct busy-HasOwners

abbrev saved : MigrateData
saved = record {
  version = 1;
  connected = true;
  num_client_tokens = 3;
  num_send_tokens = 2;
  write_size = 3;
  write_num_client_tokens = 1;
  write_data = 8 ∷ 9 ∷ 1 ∷ [];
}

marshall-pending_example :
    (saved.write_data ≡ pending busy)
    × (saved.write_size ≡ u32 3)
    × (saved.write_num_client_tokens ≡ u32 1)
    × (saved.num_client_tokens ≡ u32 3)
    × (saved.num_send_tokens ≡ u32 2)
unfolding migrate_data_marshall add_current add_buffer add_queue
marshall-pending_example = marshall-pending busy viewer saved refl refl

-- A device of another server, before it gets the data.
abbrev waiting : CharDevice
waiting = record busy {
  wait_for_migrate_data = true;
  write_queue = [];
  cur_write_buf = none;
  cur_write_buf_pos = 0;
  clients = record viewer { num_client_tokens = 4 } ∷ [];
}

restore-marshall_example :
    (r : CharDevice × ℕ) × (restore
        (record { replies = replies; readings = readings })
        saved
        waiting
      ≡ (read_from_device readings r.0 >>= λ q. some (q.0, true)))
    × (written r.0.calls ++ pending r.0 ≡ written waiting.calls ++ pending busy)
    × (window 5 r.0 ≡ 4)
unfolding migrate_data_marshall add_current add_buffer add_queue find
restore-marshall_example =
    restore-marshall (record { replies = replies; readings = readings }) busy waiting viewer
      (record viewer { num_client_tokens = 4 }) saved refl (omega arith) (omega arith) refl refl
      refl refl refl (omega arith) (omega arith) refl (omega arith) refl

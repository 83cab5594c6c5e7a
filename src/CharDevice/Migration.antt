-- ===== src/CharDevice/Migration.antt =====
-- The migration data of a device: `migrate_data_marshall` and `restore`.
use spice.Prelude.{
  ℕ, ◌+◌, ◌-◌, ◌%◌, ◌^◌, Bool, true, false, ◌&&◌, ◌||◌, not, Option, none, some, List, [], ◌∷◌,
  ◌++◌, ltb, ◌==◌, if◌then◌else◌, length, ◌>>=◌, ◌>>◌, check,
}
use spice.CharDevice.State.{
  from_client, from_server, is_from_client, WriteBuffer, DevClient, CharDevice, set_client,
}
use spice.CharDevice.Writing.{write_to_device, write_buffer_get, rest_of}
use spice.CharDevice.Reading.{read_from_device}
use spice.CharDevice.Manage.{Answers}

abbrev pub u32 : ℕ → ℕ
u32 n = n % 2 ^ 32

-- `SpiceMigrateDataCharDevice`, with the bytes that `write_data_ptr` points at.
pub record MigrateData : Type 0 where
  pub version : ℕ
  pub connected : Bool
  pub num_client_tokens : ℕ
  pub num_send_tokens : ℕ
  pub write_size : ℕ
  pub write_num_client_tokens : ℕ
  pub write_data : List ℕ

-- SPICE_MIGRATE_DATA_CHAR_DEVICE_VERSION
abbrev pub migrate_version : ℕ
migrate_version = 1

-- What is written so far: the size, the tokens and the bytes.
pub record Writes : Type 0 where
  pub size : ℕ
  pub tokens : ℕ
  pub bytes : List ℕ

-- A buffer's part in it; a client's buffer must be the one client's.
unfoldable pub add_buffer : ℕ → WriteBuffer → List ℕ → Writes → Option Writes
add_buffer client b bytes w =
    check (not (is_from_client b.origin) || b.client == client)
    >> some (record {
      size = u32 (w.size + length bytes);
      tokens = if is_from_client b.origin then u32 (w.tokens + b.token_price) else w.tokens;
      bytes = w.bytes ++ bytes;
    })

unfoldable pub add_queue : ℕ → List WriteBuffer → Writes → Option Writes
add_queue client [] w = some w
add_queue client (b ∷ bs) w = add_buffer client b b.bytes w >>= add_queue client bs

unfoldable pub add_current : ℕ → Option WriteBuffer → CharDevice → Writes → Option Writes
add_current client none d w = some w
add_current client (some b) d w = add_buffer client b (rest_of b d) w

marshall_for : List DevClient → CharDevice → Option MigrateData
marshall_for (x ∷ []) d = do
  check (length x.send_queue == 0)
  w1 ← add_current x.client d.cur_write_buf d (record { size = 0; tokens = 0; bytes = [] })
  w2 ← add_queue x.client d.write_queue w1
  some (record {
    version = migrate_version;
    connected = true;
    num_client_tokens = u32 x.num_client_tokens;
    num_send_tokens = u32 x.num_send_tokens;
    write_size = w2.size;
    write_num_client_tokens = w2.tokens;
    write_data = w2.bytes;
  })
marshall_for _ d = none

-- `RedCharDevice::migrate_data_marshall`: there must be one client.
unfoldable pub migrate_data_marshall : CharDevice → Option MigrateData
unfolding marshall_for
migrate_data_marshall d = marshall_for d.clients d

-- `RedCharDevice::migrate_data_marshall_empty`
abbrev pub migrate_data_marshall_empty : MigrateData
migrate_data_marshall_empty = record {
  version = migrate_version;
  connected = false;
  num_client_tokens = 0;
  num_send_tokens = 0;
  write_size = 0;
  write_num_client_tokens = 0;
  write_data = [];
}

-- The client that `restore` leaves. The difference of `uint32_t` values wraps.
abbrev pub restore_client : MigrateData → DevClient → DevClient
restore_client m x = record x {
  num_client_tokens = m.num_client_tokens;
  num_client_tokens_free = u32 (
      u32 x.num_client_tokens
      + (2 ^ 32 - m.num_client_tokens)
      + (2 ^ 32 - m.write_num_client_tokens));
  num_send_tokens = m.num_send_tokens;
}

-- The first write buffer, with all the data that was saved. NULL would be written to: `none`.
unfoldable pub restore_buffer : MigrateData → CharDevice → ℕ → Option CharDevice
restore_buffer m d client =
    let got =
      if m.write_num_client_tokens == 0
      then write_buffer_get d 0 m.write_size from_server 0
      else write_buffer_get d client m.write_size from_client m.write_num_client_tokens in
    if m.write_size == 0
    then some d
    else (got >>= λ g. g.1 >>= λ b. some (record (g.0) {
      cur_write_buf = some (record b { bytes = m.write_data });
      cur_write_buf_pos = 0;
    }))

restore_for : List DevClient → Answers → MigrateData → CharDevice → Option (CharDevice × Bool)
restore_for (x ∷ []) a m d = do
  check d.wait_for_migrate_data
  check (not (ltb migrate_version m.version))
  check (elim d.cur_write_buf [ none ↦ true | some b ↦ false ] && length d.write_queue == 0)
  check m.connected
  d1 ← restore_buffer m (set_client d (restore_client m x)) x.client
  w ← write_to_device a.replies (record d1 { wait_for_migrate_data = false })
  r ← read_from_device a.readings w.0
  some (r.0, true)
restore_for _ a m d = none

-- `RedCharDevice::restore`
unfoldable pub restore : Answers → MigrateData → CharDevice → Option (CharDevice × Bool)
unfolding restore_for
restore a m d = restore_for d.clients a m d

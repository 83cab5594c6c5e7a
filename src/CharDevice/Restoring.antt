-- ===== src/CharDevice/Restoring.antt =====
-- A device that is restored from the data of another goes on where that one stopped.
use spice.Prelude.{
  ℕ, ◌+◌, ◌^◌, ◌<◌, ◌≤◌, ◌≡◌, ◌≢◌, ap, ◌∙◌, true, false, Bool, none, some, Option, [], ◌∷◌, ◌++◌,
  inl, inr, Option-cases, arith, ◌==◌, length, ◌>>=◌, if◌then◌else◌, append-nil,
}
use spice.CharDevice.State.{
  from_client, from_server, WriteBuffer, DevClient, CharDevice, dec64, find, replace,
}
use spice.CharDevice.Writing.{write_to_device, write_buffer_get, get_for_client}
use spice.CharDevice.Reading.{read_from_device}
use spice.CharDevice.Stream.{pending, queued, written, write_to_device_fifo}
use spice.CharDevice.Writes.{write_to_device-runs}
use spice.CharDevice.Tokens.{window, HasOwners}
use spice.CharDevice.Manage.{Answers}
use spice.CharDevice.Migration.{
  MigrateData, migrate_version, migrate_data_marshall, restore, restore_buffer, restore_client,
  add_current, add_queue, Writes,
}
use spice.CharDevice.Turnover.{marshall-pending}

-- Marshalled data are of this version, and connected.
marshall-valid :
    (d : CharDevice) (x : DevClient) (m : MigrateData)
    → d.clients ≡ x ∷ []
    → migrate_data_marshall d ≡ some m
    → (m.version ≡ migrate_version) × (m.connected ≡ true)
unfolding migrate_data_marshall
marshall-valid d x m one e =
    let w : Writes = record { size = 0; tokens = 0; bytes = [] } in
    elim (Option-cases (add_current x.client d.cur_write_buf d w)) [
      | inl stuck ↦ ground arith
      | inr (w1, first) ↦ elim (Option-cases (add_queue x.client d.write_queue w1)) [
        | inl stuck ↦ ground arith
        | inr (w2, second) ↦ ground arith
      ]
    ]

-- The buffer that `restore` makes, and the device with it.
abbrev restored_buffer : MigrateData → DevClient → WriteBuffer
restored_buffer m x = record {
  client = if m.write_num_client_tokens == 0 then 0 else x.client;
  origin = if m.write_num_client_tokens == 0 then from_server else from_client;
  token_price = if m.write_num_client_tokens == 0 then 1 else m.write_num_client_tokens;
  buf_size = m.write_size;
  bytes = m.write_data;
}

abbrev restored : MigrateData → CharDevice → DevClient → CharDevice
restored m d x = record d {
  clients = restore_client m x ∷ [];
  cur_write_buf = some (restored_buffer m x);
  cur_write_buf_pos = 0;
  num_self_tokens =
      if m.write_num_client_tokens == 0 then dec64 d.num_self_tokens else d.num_self_tokens;
}

restore_buffer-restored :
    (m : MigrateData) (d : CharDevice) (x : DevClient)
    → x.client ≢ 0
    → d.num_self_tokens ≢ 0
    → m.write_size ≢ 0
    → restore_buffer m (record d { clients = restore_client m x ∷ [] }) x.client
      ≡ some (restored m d x)
unfolding restore_buffer write_buffer_get get_for_client find
restore_buffer-restored m d x nz self size = ground arith

-- What `restore` does after its assertions.
abbrev resume : Answers → CharDevice → Option (CharDevice × Bool)
resume a d =
    write_to_device a.replies d >>= λ w. read_from_device a.readings w.0 >>= λ r. some (r.0, true)

restore-step :
    (a : Answers) (m : MigrateData) (d : CharDevice) (x : DevClient)
    → d.clients ≡ x ∷ []
    → d.wait_for_migrate_data ≡ true
    → d.cur_write_buf ≡ none
    → d.write_queue ≡ []
    → m.version ≡ migrate_version
    → m.connected ≡ true
    → restore a m d ≡ (
        restore_buffer m (record d { clients = replace (restore_client m x) d.clients }) x.client
        >>= λ d1. resume a (record d1 { wait_for_migrate_data = false }))
unfolding restore
restore-step a m d x one waits cur queue v on = ground arith

-- What the device with the restored buffer holds.
restored-pending :
    (m : MigrateData) (d : CharDevice) (x : DevClient)
    → d.write_queue ≡ []
    → pending (restored m d x) ≡ m.write_data
restored-pending m d x queue = ap (λ z. m.write_data ++ queued z) queue ∙ append-nil m.write_data

restored-window :
    (m : MigrateData) (d : CharDevice) (x : DevClient)
    → d.write_queue ≡ []
    → x.num_client_tokens < 2 ^ 32
    → m.num_client_tokens + m.write_num_client_tokens ≤ x.num_client_tokens
    → window x.client (restored m d x) ≡ x.num_client_tokens
unfolding find
restored-window m d x queue small fits = ground (arith, queue)

restored-HasOwners :
    (m : MigrateData) (d : CharDevice) (x : DevClient)
    → x.client ≢ 0
    → d.write_queue ≡ []
    → HasOwners (restored m d x)
unfolding find
restored-HasOwners m d x nz queue = record {
  current = λ h. ground (arith, h, nz);
  queue = rw queue tt;
}

-- Let a device with one client be marshalled while some bytes are pending on it, fewer than 2 ^ 31,
-- and restored into a device that waits for the data, has one client with flow control, has tokens
-- of its own and holds no buffers. If the new client's window is below 2 ^ 32, and the old client's
-- tokens, those that waited and the prices of its buffers made up as much, then no assertion fails
-- before the new device reads again; what it has written then, after what it had written before,
-- and what is still pending on it are the bytes that were pending; and the new client's tokens,
-- those that wait and the prices of its buffers make up the window again.
pub restore-marshall :
    (a : Answers) (s d : CharDevice) (y x : DevClient) (m : MigrateData)
    → s.clients ≡ y ∷ []
    → 0 < length (pending s)
    → length (pending s) < 2 ^ 31
    → migrate_data_marshall s ≡ some m
    → d.clients ≡ x ∷ []
    → d.wait_for_migrate_data ≡ true
    → d.cur_write_buf ≡ none
    → d.write_queue ≡ []
    → d.num_self_tokens ≢ 0
    → x.client ≢ 0
    → x.do_flow_control ≡ true
    → x.num_client_tokens < 2 ^ 32
    → window y.client s ≡ x.num_client_tokens
    → (r : CharDevice × ℕ) × (restore a m d
        ≡ (read_from_device a.readings r.0 >>= λ q. some (q.0, true)))
      × (written r.0.calls ++ pending r.0 ≡ written d.calls ++ pending s)
      × (window x.client r.0 ≡ x.num_client_tokens)
unfolding find replace
restore-marshall a s d y x m one some_bytes few saved one' waits cur queue self nz flow small same =
    let (same_bytes, size, tokens, had, _) = marshall-pending s y m one saved in
    let (version, on) = marshall-valid s y m one saved in
    let here : find y.client s.clients ≡ some y = ground (arith, one) in
    let fits : m.num_client_tokens + m.write_num_client_tokens ≤ x.num_client_tokens =
      ground (arith, here, same, had, tokens) in
    let replaced : replace (restore_client m x) d.clients ≡ restore_client m x ∷ [] =
      ground (arith, one') in
    let d1 : CharDevice = record (restored m d x) { wait_for_migrate_data = false } in
    let owners : HasOwners (restored m d x) = restored-HasOwners m d x nz queue in
    let (r, ran, k) =
      write_to_device-runs a.replies d1
        (record { current = owners.current; queue = owners.queue }) in
    let held : pending d1 ≡ pending s = restored-pending m d x queue ∙ same_bytes in
    let window' : window x.client d1 ≡ x.num_client_tokens =
      restored-window m d x queue small fits in
    let made = restore_buffer-restored m d x nz self (λ z. let n = size in omega (arith, n, z)) in
    let few' : length (pending d1) < 2 ^ 31 = rw held few in
    let fifo = (write_to_device_fifo a.replies d1 r.0 r.1 few' ran).0 in
    (
      r,
      restore-step a m d x one' waits cur queue version on
          ∙ ap
              (λ z. restore_buffer m (record d { clients = z }) x.client >>= λ d2.
                resume a (record d2 { wait_for_migrate_data = false }))
              replaced
          ∙ ap (λ o. o >>= λ d2. resume a (record d2 { wait_for_migrate_data = false })) made
          ∙ ap (λ o. o >>= λ w. read_from_device a.readings w.0 >>= λ q. some (q.0, true)) ran,
      fifo ∙ ap (λ z. written d.calls ++ z) held,
      k.window x.client (ground (arith, flow)) (omega (arith, window', small)) ∙ window',
    )

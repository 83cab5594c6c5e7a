-- ===== src/CharDevice/Manage.antt =====
-- Clients that come and go, the device's start, stop and reset, and migration.
use spice.Prelude.{
  ℕ, ◌+◌, ◌-◌, ◌^◌, Bool, true, false, ◌&&◌, ◌||◌, not, Option, none, some, List, [], ◌∷◌, ◌==◌,
  if◌then◌else◌, length, map, ◌>>=◌, ◌>>◌, check,
}
use spice.CharDevice.State.{
  unset, is_from_client, WriteBuffer, DevClient, absent, idle, cancel_timer, CharDevice, u64, find,
  remove, set_client,
}
use spice.CharDevice.Writing.{Reply, write_to_device, write_buffer_release, handle_client_overflow}
use spice.CharDevice.Reading.{Reading, read_from_device}

-- Whether a buffer came from this client.
abbrev pub belongs_to : ℕ → WriteBuffer → Bool
belongs_to c b = is_from_client b.origin && b.client == c

-- The queue without the buffers of a client.
unfoldable pub drop_buffers : ℕ → List WriteBuffer → List WriteBuffer
drop_buffers c [] = []
drop_buffers c (b ∷ bs) = let rest = drop_buffers c bs in if belongs_to c b then rest else b ∷ rest

-- The buffer that is being written stays, but belongs to nobody.
abbrev pub disown : ℕ → WriteBuffer → WriteBuffer
disown c b = if belongs_to c b then record b { origin = unset; client = 0 } else b

abbrev pub disown_current : ℕ → Option WriteBuffer → Option WriteBuffer
disown_current c none = none
disown_current c (some b) = some (disown c b)

-- `red_char_device_client_free`
unfoldable pub client_free : CharDevice → DevClient → CharDevice
client_free d x = record d {
  write_queue = drop_buffers x.client d.write_queue;
  cur_write_buf = disown_current x.client d.cur_write_buf;
  clients = remove x.client d.clients;
}

-- `device_client_wait_for_tokens_timeout`: the timer has fired.
unfoldable pub wait_for_tokens_timeout : CharDevice → DevClient → CharDevice
wait_for_tokens_timeout d x =
    handle_client_overflow (set_client d (record x { timer_armed = false })) x

-- The constructor of `RedCharDeviceClient`.
abbrev pub new_client : ℕ → Bool → ℕ → ℕ → ℕ → DevClient
new_client client do_flow_control max_send_queue_size num_client_tokens num_send_tokens = record {
  client = client;
  do_flow_control = do_flow_control;
  num_client_tokens = if do_flow_control then num_client_tokens else 2 ^ 64 - 1;
  num_client_tokens_free = 0;
  num_send_tokens = if do_flow_control then num_send_tokens else 2 ^ 64 - 1;
  timer_armed = false;
  wait_for_tokens_started = false;
  send_queue = [];
  max_send_queue_size = max_send_queue_size;
}

-- What the device answers during a call: to writes, then to reads.
pub record Answers : Type 0 where
  pub replies : List Reply
  pub readings : List Reading

-- `RedCharDevice::wakeup`
unfoldable pub wakeup : Answers → CharDevice → Option CharDevice
wakeup a d = do w ← write_to_device a.replies d; r ← read_from_device a.readings w.0; some r.0

-- `RedCharDevice::client_add`
unfoldable pub client_add : Answers → CharDevice → DevClient → Bool → Option (CharDevice × Bool)
client_add a d x wait_for_migrate_data =
    if x.client == 0
    then none
    else if wait_for_migrate_data && (not (length d.clients == 0) || d.active)
    then some (d, false)
    else (wakeup a
          (record d { wait_for_migrate_data = wait_for_migrate_data; clients = x ∷ d.clients })
        >>= λ d'. some (d', true))

remove_found : Option DevClient → Answers → CharDevice → Option CharDevice
remove_found none a d = none
remove_found (some x) a d =
    let d' = client_free d x in
    if d.wait_for_migrate_data
    then (check (length d'.clients == 0)
        >> read_from_device a.readings (record d' { wait_for_migrate_data = false })
        >>= λ r. some r.0)
    else some d'

-- `RedCharDevice::client_remove`: an unknown client is a `spice_error`.
unfoldable pub client_remove : Answers → CharDevice → ℕ → Option CharDevice
unfolding remove_found
client_remove a d client = remove_found (find client d.clients) a d

-- `RedCharDevice::client_exists`
abbrev pub client_exists : CharDevice → ℕ → Bool
client_exists d client = elim (find client d.clients) [ none ↦ false | some x ↦ true ]

-- The loop of `RedCharDevice::start`, one item of the list for each round; when they have run out
-- the device neither takes nor gives anything.
unfoldable pub start_loop : List Answers → CharDevice → Option CharDevice
start_loop [] d = some d
start_loop (a ∷ later) d = write_to_device a.replies d >>= λ w.
    let onwards = start_loop later w.0 in
    let reading = read_from_device a.readings w.0 >>= λ r.
    (let more = start_loop later r.0 in if r.1 then more else some r.0) in
    if not (w.1 == 0) then onwards else reading

-- `RedCharDevice::start`
unfoldable pub start : List Answers → CharDevice → Option CharDevice
start rounds d = start_loop rounds (record d { running = true })

-- `RedCharDevice::stop`
unfoldable pub stop : CharDevice → CharDevice
stop d = record d {
  running = false;
  active = false;
  write_to_dev_timer = cancel_timer d.write_to_dev_timer;
}

-- The loop of `reset` over the write queue.
unfoldable pub release_all : List WriteBuffer → CharDevice → Option CharDevice
release_all [] d = some d
release_all (b ∷ bs) d = write_buffer_release (record d { write_queue = bs }) b >>= release_all bs

unfoldable pub release_current : Option WriteBuffer → CharDevice → Option CharDevice
release_current none d = some d
release_current (some b) d = write_buffer_release (record d { cur_write_buf = none }) b

-- What `reset` does to a client.
abbrev pub reset_client : DevClient → DevClient
reset_client x = record x {
  num_send_tokens = u64 (x.num_send_tokens + length x.send_queue);
  send_queue = [];
  num_client_tokens = u64 (x.num_client_tokens + x.num_client_tokens_free);
  num_client_tokens_free = 0;
}

-- `RedCharDevice::reset`
unfoldable pub reset : CharDevice → Option CharDevice
reset d = do
  d1 ← release_all d.write_queue (record d { wait_for_migrate_data = false })
  d2 ← release_current d1.cur_write_buf d1
  some (record d2 { clients = map reset_client d2.clients })

-- `RedCharDevice::reset_dev_instance` and `init_device_instance`, on a device with a server: an
-- instance that does not notify of itself when it is writable gets a timer.
unfoldable pub reset_dev_instance : CharDevice → Bool → Bool → CharDevice
reset_dev_instance d has_sin notifies = record d {
  has_sin = has_sin;
  write_to_dev_timer = if not has_sin || notifies then absent else idle;
}

-- The constructor of `RedCharDevice`.
unfoldable pub new_device : Bool → Bool → ℕ → ℕ → CharDevice
unfolding reset_dev_instance
new_device has_sin notifies client_tokens_interval num_self_tokens =
    reset_dev_instance
      (record {
        running = false;
        active = false;
        wait_for_migrate_data = false;
        write_queue = [];
        cur_write_buf = none;
        cur_write_buf_pos = 0;
        write_to_dev_timer = absent;
        num_self_tokens = num_self_tokens;
        clients = [];
        client_tokens_interval = client_tokens_interval;
        has_sin = false;
        during_read_from_device = 0;
        during_write_to_device = 0;
        calls = [];
      })
      has_sin notifies

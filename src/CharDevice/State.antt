-- ===== src/CharDevice/State.antt =====
-- The state of server/char-device.cpp. A `RedCharDeviceClientOpaque *` is a number, zero for NULL,
-- and so is a message. `uint64_t` counters are numbers below 2 ^ 64. Memory and reference counts
-- are left out: a buffer lives as long as the queue or a caller holds it.
use spice.Prelude.{
  ℕ, ◌+◌, ◌-◌, ◌%◌, ◌^◌, Bool, true, false, Option, none, some, List, [], ◌∷◌, ◌++◌, ◌==◌,
  if◌then◌else◌,
}

-- `WriteBufferOrigin`
pub data Origin : Type 0 where
  unset from_client from_server from_server_no_token : Origin

abbrev pub is_from_client : Origin → Bool
is_from_client from_client = true
is_from_client _ = false

-- `RedCharDeviceWriteBuffer` with its private part; `bytes` is `buf` up to `buf_used`.
pub record WriteBuffer : Type 0 where
  pub client : ℕ
  pub origin : Origin
  pub token_price : ℕ
  pub buf_size : ℕ
  pub bytes : List ℕ

-- `RedCharDeviceClient`. `send_queue` stands oldest first: `push_front` adds at the end here, and
-- `back` is the head. `timer_armed` is the state of the timer, which fires once.
pub record DevClient : Type 0 where
  pub client : ℕ
  pub do_flow_control : Bool
  pub num_client_tokens : ℕ
  pub num_client_tokens_free : ℕ
  pub num_send_tokens : ℕ
  pub timer_armed : Bool
  pub wait_for_tokens_started : Bool
  pub send_queue : List ℕ
  pub max_send_queue_size : ℕ

-- The write timer: there is none while the device notifies of itself when it is writable.
pub data Timer : Type 0 where
  absent idle armed : Timer

abbrev pub start_timer : Timer → Timer
start_timer absent = absent
start_timer _ = armed

abbrev pub cancel_timer : Timer → Timer
cancel_timer absent = absent
cancel_timer _ = idle

-- What the device does to its surroundings: it calls the virtual methods, and hands bytes to
-- `sif->write`.
pub data Call : Type 0 where
  send_msg_to_client : ℕ → ℕ → Call
  send_tokens_to_client : ℕ → ℕ → Call
  remove_client : ℕ → Call
  on_free_self_token : Call
  write_bytes : List ℕ → Call

-- `RedCharDevicePrivate`. `write_queue` stands oldest first: `g_queue_push_head` adds at the end
-- here, and the tail of the GQueue is the head. `has_sin` says that `sin` is set, and
-- `cur_write_buf_pos` is an offset. `calls` collects what the device did, in order.
pub record CharDevice : Type 0 where
  pub running : Bool
  pub active : Bool
  pub wait_for_migrate_data : Bool
  pub write_queue : List WriteBuffer
  pub cur_write_buf : Option WriteBuffer
  pub cur_write_buf_pos : ℕ
  pub write_to_dev_timer : Timer
  pub num_self_tokens : ℕ
  pub clients : List DevClient
  pub client_tokens_interval : ℕ
  pub has_sin : Bool
  pub during_read_from_device : ℕ
  pub during_write_to_device : ℕ
  pub calls : List Call

abbrev pub u64 : ℕ → ℕ
u64 n = n % 2 ^ 64

-- `n--` on a `uint64_t`
abbrev pub dec64 : ℕ → ℕ
dec64 n = (n + (2 ^ 64 - 1)) % 2 ^ 64

abbrev pub log : CharDevice → Call → CharDevice
log d c = record d { calls = d.calls ++ (c ∷ []) }

-- `red_char_device_client_find`
unfoldable pub find : ℕ → List DevClient → Option DevClient
find c [] = none
find c (x ∷ xs) = if x.client == c then some x else find c xs

-- The list with the client that `find` returns changed: the code changes it in place.
unfoldable pub replace : DevClient → List DevClient → List DevClient
replace y [] = []
replace y (x ∷ xs) = if x.client == y.client then y ∷ xs else x ∷ replace y xs

-- `g_list_remove` of the client that `find` returns.
unfoldable pub remove : ℕ → List DevClient → List DevClient
remove c [] = []
remove c (x ∷ xs) = if x.client == c then xs else x ∷ remove c xs

abbrev pub set_client : CharDevice → DevClient → CharDevice
set_client d x = record d { clients = replace x d.clients }

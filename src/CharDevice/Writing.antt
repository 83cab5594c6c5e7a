-- ===== src/CharDevice/Writing.antt =====
-- From clients to the device: buffers, the tokens that pay for them, and the write loop.
use spice.Prelude.{
  ℕ, zero, suc, ◌+◌, ◌%◌, ◌^◌, min, Bool, true, false, ◌&&◌, ◌||◌, not, Option, none, some, List,
  [], ◌∷◌, ◌++◌, ltb, ◌==◌, if◌then◌else◌, length, take, drop, ◌>>=◌, ◌>>◌, check,
}
use spice.CharDevice.State.{
  Origin, from_client, from_server, from_server_no_token, is_from_client, WriteBuffer, DevClient,
  CharDevice, start_timer, cancel_timer, send_tokens_to_client, remove_client, on_free_self_token,
  write_bytes, u64, dec64, log, find, set_client,
}

-- `red_char_device_handle_client_overflow`, also the timeout of the wait for tokens.
abbrev pub handle_client_overflow : CharDevice → DevClient → CharDevice
handle_client_overflow d x = log d (remove_client x.client)

-- `red_char_device_client_tokens_add`
unfoldable pub client_tokens_add : CharDevice → DevClient → ℕ → CharDevice
client_tokens_add d x num_tokens =
    let free = u64 (x.num_client_tokens_free + num_tokens) in
    if not x.do_flow_control
    then d
    else if ltb free d.client_tokens_interval
    then set_client d (record x { num_client_tokens_free = free })
    else log
        (set_client d (record x {
          num_client_tokens = u64 (x.num_client_tokens + free);
          num_client_tokens_free = 0;
        }))
        (send_tokens_to_client x.client (free % 2 ^ 32))

release_from : Origin → CharDevice → WriteBuffer → Option CharDevice
release_from from_client d b = do
  check (not (b.client == 0))
  x ← find b.client d.clients
  some (client_tokens_add d x b.token_price)
release_from from_server d b =
    some (log (record d { num_self_tokens = u64 (d.num_self_tokens + 1) }) on_free_self_token)
release_from _ d b = some d

-- `RedCharDevice::write_buffer_release` of a buffer, on a device. A client's buffer needs its
-- client to be there still.
unfoldable pub write_buffer_release : CharDevice → WriteBuffer → Option CharDevice
unfolding release_from
write_buffer_release d b = release_from b.origin d b

-- What `sif->write` answers: how many bytes it is ready to take (none for a result of zero or
-- below), and how often `write_to_device` was entered again from inside the call. A device takes
-- no more than it is offered.
pub record Reply : Type 0 where
  pub ready : ℕ
  pub reentered : ℕ

-- The start of a round: the next buffer of the queue, if none is being written.
next_of : List WriteBuffer → CharDevice → CharDevice
next_of [] d = d
next_of (b ∷ bs) d = record d { write_queue = bs; cur_write_buf = some b; cur_write_buf_pos = 0 }

fetch_from : Option WriteBuffer → CharDevice → CharDevice
fetch_from (some b) d = d
fetch_from none d = next_of d.write_queue d

unfoldable pub fetch : CharDevice → CharDevice
unfolding next_of fetch_from
fetch d = fetch_from d.cur_write_buf d

-- What is left to write of the buffer that is being written.
abbrev pub rest_of : WriteBuffer → CharDevice → List ℕ
rest_of b d = drop d.cur_write_buf_pos b.bytes

-- The result of a round: go on, or leave the loop.
pub data Round : Type 0 where
  again : CharDevice → ℕ → Round
  leave : CharDevice → Round

-- One round of the loop of `write_to_device` with a buffer `b` at hand.
unfoldable pub write_round : Reply → WriteBuffer → CharDevice → Option Round
write_round r b d =
    let offered = length (rest_of b d) in
    let n = min r.ready offered in
    let entered = d.during_write_to_device + r.reentered in
    let d' : CharDevice = record d { during_write_to_device = entered } in
    let wrote = log d' (write_bytes (take n (rest_of b d))) in
    if n == 0
    then some
        (if ltb 1 entered then again (record d { during_write_to_device = 1 }) 0 else leave d')
    else if n == offered
    then (write_buffer_release (record wrote { cur_write_buf = none }) b >>= λ d''.
        some (again d'' n))
    else some (again (record wrote { cur_write_buf_pos = d.cur_write_buf_pos + n }) n)

-- The answer of the next call: when the given ones have run out, the device takes nothing.
abbrev pub next_reply : List Reply → Reply
next_reply [] = record { ready = 0; reentered = 0 }
next_reply (r ∷ rs) = r

abbrev pub later : List Reply → List Reply
later [] = []
later (r ∷ rs) = rs

-- The loop. The first number bounds its rounds: `none` means that they are used up, or that an
-- assertion has failed. The total is an `int`, kept as its 32 bits.
unfoldable pub write_loop : ℕ → List Reply → CharDevice → ℕ → Option (CharDevice × ℕ)
write_loop zero rs d total = none
write_loop (suc rounds) rs d total = elim (fetch d).cur_write_buf [
  | none ↦ some (fetch d, total)
  | some b ↦ elim (write_round (next_reply rs) b (fetch d)) [
    | none ↦ none
    | some (leave d') ↦ some (d', total)
    | some (again d' n) ↦ write_loop rounds (later rs) d' ((total + n) % 2 ^ 32)
  ]
]

-- What follows the loop. The device runs, since nothing stops it meanwhile.
finish_of : Option WriteBuffer → CharDevice → ℕ → Option CharDevice
finish_of (some b) d total = some (record d {
  write_to_dev_timer = start_timer d.write_to_dev_timer;
  active = d.active || not (total == 0);
  during_write_to_device = 0;
})
finish_of none d total = do
  check (length d.write_queue == 0)
  some (record d { active = d.active || not (total == 0); during_write_to_device = 0 })

unfoldable pub finish_writing : CharDevice → ℕ → Option CharDevice
unfolding finish_of
finish_writing d total = finish_of d.cur_write_buf d total

-- `RedCharDevice::write_to_device`
unfoldable pub write_to_device : List Reply → CharDevice → Option (CharDevice × ℕ)
write_to_device rs d =
    if not d.running || d.wait_for_migrate_data || not d.has_sin
    then some (d, 0)
    else if ltb 0 d.during_write_to_device
    then some (record d { during_write_to_device = d.during_write_to_device + 1 }, 0)
    else (write_loop (suc (suc (length rs))) rs
          (record d {
            during_write_to_device = 1;
            write_to_dev_timer = cancel_timer d.write_to_dev_timer;
          })
          0
        >>= λ r. finish_writing r.0 r.1 >>= λ d'. some (d', r.1))

-- `RedCharDevice::write_retry`
unfoldable pub write_retry : List Reply → CharDevice → Option (CharDevice × ℕ)
write_retry rs d =
    write_to_device rs (record d { write_to_dev_timer = cancel_timer d.write_to_dev_timer })

-- A new buffer with no bytes in it yet.
abbrev pub new_buffer : ℕ → ℕ → Origin → ℕ → WriteBuffer
new_buffer client size origin migrated_data_tokens = record {
  client = client;
  origin = origin;
  token_price = if migrated_data_tokens == 0 then 1 else migrated_data_tokens;
  buf_size = size;
  bytes = [];
}

-- `red_char_device_write_buffer_get` for a client that was found.
unfoldable pub get_for_client : CharDevice → DevClient → ℕ → ℕ → CharDevice × Option WriteBuffer
get_for_client d x size migrated_data_tokens =
    let paid = migrated_data_tokens == 0 && x.do_flow_control in
    let buffer = new_buffer x.client size from_client migrated_data_tokens in
    if paid && x.num_client_tokens == 0
    then (handle_client_overflow d x, none)
    else if paid
    then (set_client d (record x { num_client_tokens = dec64 x.num_client_tokens }), some buffer)
    else (d, some buffer)

get_from : Origin → CharDevice → ℕ → ℕ → ℕ → Option (CharDevice × Option WriteBuffer)
get_from from_client d client size migrated_data_tokens = do
  check (not (client == 0))
  elim (find client d.clients) [
    | none ↦ some (d, none)
    | some x ↦ some (get_for_client d x size migrated_data_tokens)
  ]
get_from from_server d client size migrated_data_tokens =
    if d.num_self_tokens == 0
    then some (d, none)
    else some (
      record d { num_self_tokens = dec64 d.num_self_tokens },
      some (new_buffer 0 size from_server migrated_data_tokens),
    )
get_from origin d client size migrated_data_tokens =
    some (d, some (new_buffer 0 size origin migrated_data_tokens))

-- `red_char_device_write_buffer_get`
unfoldable pub write_buffer_get :
    CharDevice → ℕ → ℕ → Origin → ℕ → Option (CharDevice × Option WriteBuffer)
unfolding get_from
write_buffer_get d client size origin migrated_data_tokens =
    get_from origin d client size migrated_data_tokens

-- `RedCharDevice::write_buffer_get_client`
unfoldable pub write_buffer_get_client :
    CharDevice → ℕ → ℕ → Option (CharDevice × Option WriteBuffer)
write_buffer_get_client d client size = write_buffer_get d client size from_client 0

-- `RedCharDevice::write_buffer_get_server`
unfoldable pub write_buffer_get_server :
    CharDevice → ℕ → Bool → Option (CharDevice × Option WriteBuffer)
write_buffer_get_server d size use_token =
    write_buffer_get d 0 size (if use_token then from_server else from_server_no_token) 0

-- Whether a client's buffer has lost its client.
abbrev pub is_orphan : CharDevice → WriteBuffer → Bool
is_orphan d b =
    is_from_client b.origin && elim (find b.client d.clients) [ none ↦ true | some x ↦ false ]

-- `RedCharDevice::write_buffer_add`
unfoldable pub write_buffer_add : List Reply → CharDevice → WriteBuffer → Option CharDevice
write_buffer_add rs d b =
    if is_orphan d b
    then some d
    else (write_to_device rs (record d { write_queue = d.write_queue ++ (b ∷ []) }) >>= λ r.
        some r.0)

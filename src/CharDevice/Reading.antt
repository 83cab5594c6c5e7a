-- ===== src/CharDevice/Reading.antt =====
-- From the device to clients: messages, the tokens that a client grants, and the read loop.
use spice.Prelude.{
  ℕ, ◌+◌, ◌-◌, ◌^◌, Bool, true, false, ◌&&◌, ◌||◌, not, Option, none, some, List, [], ◌∷◌, ◌++◌,
  ltb, leb, ◌==◌, if◌then◌else◌, length, ◌>>=◌, ◌>>◌, check,
}
use spice.CharDevice.State.{
  DevClient, CharDevice, Call, send_msg_to_client, remove_client, u64, dec64, find, set_client,
}

-- `red_char_device_can_send_to_client`
abbrev pub can_send_to_client : DevClient → Bool
can_send_to_client x = not x.do_flow_control || not (x.num_send_tokens == 0)

-- The loop of `red_char_device_max_send_tokens`; `~0` is the greatest `uint64_t`.
unfoldable pub max_of_tokens : ℕ → List DevClient → ℕ
max_of_tokens m [] = m
max_of_tokens m (x ∷ xs) =
    let rest = max_of_tokens (if ltb m x.num_send_tokens then x.num_send_tokens else m) xs in
    if not x.do_flow_control then 2 ^ 64 - 1 else rest

-- `red_char_device_max_send_tokens`
abbrev pub max_send_tokens : CharDevice → ℕ
max_send_tokens d = max_of_tokens 0 d.clients

-- `red_char_device_add_msg_to_client_queue`: the client, and what is done to the surroundings.
unfoldable pub add_msg_to_client_queue : DevClient → ℕ → DevClient × List Call
add_msg_to_client_queue x msg =
    if leb x.max_send_queue_size (length x.send_queue) then (x, remove_client x.client ∷ []) else (
      record x {
        timer_armed = x.timer_armed || not x.wait_for_tokens_started;
        wait_for_tokens_started = true;
        send_queue = x.send_queue ++ (msg ∷ []);
      },
      [],
    )

-- One round of the loop of `red_char_device_send_msg_to_clients`.
unfoldable pub send_msg_to_one : DevClient → ℕ → Option (DevClient × List Call)
send_msg_to_one x msg =
    if can_send_to_client x
    then (check (length x.send_queue == 0)
        >> some (
          record x { num_send_tokens = dec64 x.num_send_tokens },
          send_msg_to_client msg x.client ∷ [],
        ))
    else some (add_msg_to_client_queue x msg)

-- `red_char_device_send_msg_to_clients`, over the list of clients.
unfoldable pub send_msg_to_clients : List DevClient → ℕ → Option (List DevClient × List Call)
send_msg_to_clients [] msg = some ([], [])
send_msg_to_clients (x ∷ xs) msg = do
  one ← send_msg_to_one x msg
  others ← send_msg_to_clients xs msg
  some (one.0 ∷ others.0, one.1 ++ others.1)

-- What `read_one_msg_from_device` answers, and how often `read_from_device` was entered again from
-- inside the call.
pub record Reading : Type 0 where
  pub msg : Option ℕ
  pub reentered : ℕ

abbrev pub wants_reading : CharDevice → ℕ → Bool
wants_reading d max = (not (max == 0) || length d.clients == 0) && d.running

-- The loop of `red_char_device_read_from_device`, on the device's answers; when they have run out
-- there is no message. It returns whether a message was read.
unfoldable pub read_loop : List Reading → CharDevice → ℕ → Bool → Option (CharDevice × Bool)
read_loop [] d max did_read = some (d, did_read)
read_loop (r ∷ rs) d max did_read =
    let entered = d.during_read_from_device + r.reentered in
    let no_message =
      let more = read_loop rs (record d { during_read_from_device = 1 }) max did_read in
      if ltb 1 entered
      then more
      else some (record d { during_read_from_device = entered }, did_read) in
    let on_message = λ (m : ℕ). send_msg_to_clients d.clients m >>= λ s.
    read_loop rs
      (record d { during_read_from_device = entered; clients = s.0; calls = d.calls ++ s.1 })
      (dec64 max) true in
    if not (wants_reading d max)
    then some (d, did_read)
    else elim r.msg [ none ↦ no_message | some m ↦ on_message m ]

-- `red_char_device_read_from_device`
unfoldable pub read_from_device : List Reading → CharDevice → Option (CharDevice × Bool)
read_from_device rs d =
    if not d.running || d.wait_for_migrate_data || not d.has_sin
    then some (d, false)
    else if ltb 0 d.during_read_from_device
    then some (record d { during_read_from_device = d.during_read_from_device + 1 }, false)
    else (read_loop rs (record d { during_read_from_device = 1 }) (max_send_tokens d) false >>= λ r.
        some (record (r.0) { active = r.0.active || r.1; during_read_from_device = 0 }, r.1))

-- The loop of `red_char_device_client_send_queue_push` on the queue that is left.
unfoldable pub send_queue_push : List ℕ → DevClient → DevClient × List Call
send_queue_push [] x = (record x { send_queue = [] }, [])
send_queue_push (m ∷ ms) x =
    let rest = send_queue_push ms (record x { num_send_tokens = dec64 x.num_send_tokens }) in
    if can_send_to_client x
    then (rest.0, send_msg_to_client m x.client ∷ rest.1)
    else (record x { send_queue = m ∷ ms }, [])

-- The queue of a client that has got tokens: it must have had none before.
unfoldable pub flush_queue : DevClient → ℕ → Option (DevClient × List Call)
flush_queue x tokens =
    if length x.send_queue == 0
    then some (x, [])
    else (check (x.num_send_tokens == tokens) >> some (send_queue_push x.send_queue x))

-- `red_char_device_send_to_client_tokens_absorb` for a client that was found, up to the test of
-- whether it can be sent to.
unfoldable pub grant_tokens : DevClient → ℕ → Bool → Option (DevClient × List Call)
grant_tokens x tokens reset =
    flush_queue
      (record x { num_send_tokens = u64 ((if reset then 0 else x.num_send_tokens) + tokens) })
      tokens

-- The rest of it: the timer, and a read if the client can be sent to.
unfoldable pub after_grant : List Reading → CharDevice → DevClient → Option CharDevice
after_grant rs d x =
    if can_send_to_client x
    then (read_from_device rs
          (set_client d (record x { timer_armed = false; wait_for_tokens_started = false }))
        >>= λ r. some r.0)
    else if not (length x.send_queue == 0)
    then some (set_client d (record x { timer_armed = true; wait_for_tokens_started = true }))
    else some (set_client d x)

absorb_for : Option DevClient → List Reading → CharDevice → ℕ → Bool → Option CharDevice
absorb_for none rs d tokens reset = none
absorb_for (some x) rs d tokens reset = do
  g ← grant_tokens x tokens reset
  after_grant rs (record d { calls = d.calls ++ g.1 }) g.0

-- `red_char_device_send_to_client_tokens_absorb`: an unknown client is a `spice_error`.
unfoldable pub send_to_client_tokens_absorb :
    List Reading → CharDevice → ℕ → ℕ → Bool → Option CharDevice
unfolding absorb_for
send_to_client_tokens_absorb rs d client tokens reset =
    absorb_for (find client d.clients) rs d tokens reset

-- `RedCharDevice::send_to_client_tokens_add`
unfoldable pub send_to_client_tokens_add : List Reading → CharDevice → ℕ → ℕ → Option CharDevice
send_to_client_tokens_add rs d client tokens = send_to_client_tokens_absorb rs d client tokens false

-- `RedCharDevice::send_to_client_tokens_set`
unfoldable pub send_to_client_tokens_set : List Reading → CharDevice → ℕ → ℕ → Option CharDevice
send_to_client_tokens_set rs d client tokens = send_to_client_tokens_absorb rs d client tokens true

-- ===== src/CharDevice/Grants.antt =====
-- Buffers that a client is granted.
use spice.Prelude.{ℕ, ◌-◌, ◌^◌, ◌<◌, ◌≡◌, ◌≢◌, refl, ap, ◌∙◌, true, some, arith}
use spice.CharDevice.State.{from_client, WriteBuffer, DevClient, CharDevice, dec64, find}
use spice.CharDevice.Writing.{get_for_client, write_buffer_get, write_buffer_get_client}
use spice.CharDevice.Tokens.{SameClients, find-client, find-replace, replace-SameClients}

-- What a granted request does: the client had a token and pays it, nobody else is touched, the
-- buffers and the calls stay, and the new buffer is worth the token.
pub record Granted (d d' : CharDevice) (c : ℕ) (x : DevClient) (b : WriteBuffer) : Type 0 where
  pub had : 0 < x.num_client_tokens
  pub paid : find c d'.clients ≡ some (record x { num_client_tokens = x.num_client_tokens - 1 })
  pub others : (n : ℕ) → n ≢ c → find n d'.clients ≡ find n d.clients
  pub origin : b.origin ≡ from_client
  pub client : b.client ≡ c
  pub price : b.token_price ≡ 1
  pub queue : d'.write_queue ≡ d.write_queue
  pub current : d'.cur_write_buf ≡ d.cur_write_buf
  pub calls : d'.calls ≡ d.calls
  pub same : SameClients d.clients d'.clients

-- If `write_buffer_get_client` returns a buffer to a client with flow control, the client had a
-- token and has paid it, no other client, buffer or call has changed, and the new buffer gives one
-- token back to that client.
pub write_buffer_get_client-Granted :
    (d d' : CharDevice) (c size : ℕ) (x : DevClient) (b : WriteBuffer)
    → find c d.clients ≡ some x
    → x.do_flow_control ≡ true
    → x.num_client_tokens < 2 ^ 64
    → write_buffer_get_client d c size ≡ some (d', some b)
    → Granted d d' c x b
unfolding write_buffer_get_client write_buffer_get get_for_client
write_buffer_get_client-Granted d d' c size x b e fl small got =
    let named = find-client c d.clients x e in
    let y : DevClient = record x { num_client_tokens = dec64 x.num_client_tokens } in
    let at_name : find x.client d.clients ≡ some x = ap (λ t. find t d.clients) named ∙ e in
    let same = replace-SameClients x y d.clients at_name refl in
    record {
      had = ground arith;
      paid = ground (arith, find-replace c y d.clients);
      others = λ n ne. ground (arith, find-replace n y d.clients);
      origin = ground arith;
      client = ground arith;
      price = ground arith;
      queue = ground arith;
      current = ground arith;
      calls = ground arith;
      same = λ n. ground (arith, same n);
    }

-- ===== src/CharDevice/Tokens.antt =====
-- The tokens of a client are neither lost nor made up: what the client may still send, what waits
-- to be given back, and what its buffers will give back make up one sum.
use spice.Prelude.{
  ℕ, ◌+◌, ◌^◌, ◌<◌, ◌≡◌, ◌≢◌, refl, ap, subst, ◌∙◌, Bool, true, ◌&&◌, Option, none, some, List, [],
  ◌∷◌, inl, inr, Option-cases, Bool-cases, arith, ◌==◌, if◌then◌else◌,
}
use spice.CharDevice.State.{
  from_client, is_from_client, WriteBuffer, DevClient, CharDevice, u64, find, replace,
}
use spice.CharDevice.Writing.{client_tokens_add, write_buffer_release}

-- The tokens that the server counts for a client, on either side.
abbrev pub credit_of : Option DevClient → ℕ
credit_of none = 0
credit_of (some x) = x.num_client_tokens + x.num_client_tokens_free

abbrev pub flow_of : Option DevClient → Option Bool
flow_of none = none
flow_of (some x) = some x.do_flow_control

-- What a buffer gives back to the client `c`.
abbrev pub price_of : ℕ → WriteBuffer → ℕ
price_of c b = if is_from_client b.origin && b.client == c then b.token_price else 0

abbrev pub prices : ℕ → List WriteBuffer → ℕ
prices c [] = 0
prices c (b ∷ bs) = price_of c b + prices c bs

abbrev pub price_of_current : ℕ → Option WriteBuffer → ℕ
price_of_current c none = 0
price_of_current c (some b) = price_of c b

-- The sum for the client `c`.
abbrev pub window : ℕ → CharDevice → ℕ
window c d =
    credit_of (find c d.clients) + price_of_current c d.cur_write_buf + prices c d.write_queue

-- A client's buffer has a client, which is there.
abbrev pub IsOwned : List DevClient → WriteBuffer → Type 0
IsOwned xs b = is_from_client b.origin ≡ true → (b.client ≢ 0) × (find b.client xs ≢ none)

abbrev pub AllOwned : List DevClient → List WriteBuffer → Type 0
AllOwned xs [] = Unit {0}
AllOwned xs (b ∷ bs) = IsOwned xs b × AllOwned xs bs

abbrev pub CurrentIsOwned : List DevClient → Option WriteBuffer → Type 0
CurrentIsOwned xs none = Unit {0}
CurrentIsOwned xs (some b) = IsOwned xs b

pub record HasOwners (d : CharDevice) : Type 0 where
  pub current : CurrentIsOwned d.clients d.cur_write_buf
  pub queue : AllOwned d.clients d.write_queue

pub find-client : (c : ℕ) (xs : List DevClient) (x : DevClient) → find c xs ≡ some x → x.client ≡ c
unfolding find
find-client c [] x e = absurd (cc)
find-client c (y ∷ xs) x e = ground (arith, find-client c xs x)

-- What a look-up gives after a client was changed.
abbrev changed : DevClient → Option DevClient → Option DevClient
changed y none = none
changed y (some x) = some y

pub find-replace :
    (c : ℕ) (y : DevClient) (xs : List DevClient)
    → find c (replace y xs) ≡ (if y.client == c then changed y (find c xs) else find c xs)
unfolding find replace
find-replace c y [] = ground arith
find-replace c y (x ∷ xs) = ground (arith, find-replace c y xs)

-- A change of the clients that keeps who is there, and their flow control.
abbrev pub SameClients : List DevClient → List DevClient → Type 0
SameClients xs ys = (c : ℕ) → flow_of (find c ys) ≡ flow_of (find c xs)

pub replace-SameClients :
    (x y : DevClient) (xs : List DevClient)
    → find y.client xs ≡ some x
    → y.do_flow_control ≡ x.do_flow_control
    → SameClients xs (replace y xs)
replace-SameClients x y xs e f c = ground (arith, find-replace c y xs)

pub SameClients-IsOwned :
    (xs ys : List DevClient) (b : WriteBuffer) → SameClients xs ys → IsOwned xs b → IsOwned ys b
SameClients-IsOwned xs ys b s o h = ground (arith, s b.client, o h)

pub SameClients-AllOwned :
    (xs ys : List DevClient) (bs : List WriteBuffer)
    → SameClients xs ys
    → AllOwned xs bs
    → AllOwned ys bs
SameClients-AllOwned xs ys [] s o = tt
SameClients-AllOwned xs ys (b ∷ bs) s o =
    (SameClients-IsOwned xs ys b s o.0, SameClients-AllOwned xs ys bs s o.1)

pub SameClients-CurrentIsOwned :
    (xs ys : List DevClient) (o : Option WriteBuffer)
    → SameClients xs ys
    → CurrentIsOwned xs o
    → CurrentIsOwned ys o
SameClients-CurrentIsOwned xs ys none s o = tt
SameClients-CurrentIsOwned xs ys (some b) s o = SameClients-IsOwned xs ys b s o

-- A release keeps the queue and gives the price of the buffer back to its client.
pub record Releases (b : WriteBuffer) (d d' : CharDevice) : Type 0 where
  pub queue : d'.write_queue ≡ d.write_queue
  pub current : d'.cur_write_buf ≡ d.cur_write_buf
  pub position : d'.cur_write_buf_pos ≡ d.cur_write_buf_pos
  pub same : SameClients d.clients d'.clients
  pub credit :
      (c : ℕ)
      → flow_of (find c d.clients) ≡ some true
      → credit_of (find c d.clients) + price_of c b < 2 ^ 64
      → credit_of (find c d'.clients) ≡ credit_of (find c d.clients) + price_of c b

client_tokens_add-Releases :
    (d : CharDevice) (x : DevClient) (b : WriteBuffer)
    → find b.client d.clients ≡ some x
    → b.origin ≡ from_client
    → Releases b d (client_tokens_add d x b.token_price)
unfolding client_tokens_add
client_tokens_add-Releases d x b e o =
    let named = find-client b.client d.clients x e in
    let at_name : find x.client d.clients ≡ some x = ap (λ t. find t d.clients) named ∙ e in
    let free = u64 (x.num_client_tokens_free + b.token_price) in
    let y : DevClient = record x { num_client_tokens_free = free } in
    let z : DevClient = record x {
      num_client_tokens = u64 (x.num_client_tokens + free);
      num_client_tokens_free = 0;
    } in
    record {
      queue = ground arith;
      current = ground arith;
      position = ground arith;
      same = λ c. ground (
        arith,
        replace-SameClients x y d.clients at_name refl c,
        replace-SameClients x z d.clients at_name refl c,
      );
      credit = λ c fl h. ground (arith, find-replace c y d.clients, find-replace c z d.clients);
    }

pub write_buffer_release-Releases :
    (b : WriteBuffer) (d d' : CharDevice) → write_buffer_release d b ≡ some d' → Releases b d d'
unfolding write_buffer_release
write_buffer_release-Releases b d d' e = elim (Option-cases (find b.client d.clients)) [
  | inl missing ↦ record {
    queue = ground arith;
    current = ground arith;
    position = ground arith;
    same = λ c. ground arith;
    credit = λ c fl h. ground arith;
  }
  | inr (x, found) ↦ elim (Bool-cases (is_from_client b.origin)) [
    | inl client_buffer ↦
        let d'' = client_tokens_add d x b.token_price in
        let same : d'' ≡ d' = ground arith in
        subst (Releases b d) same (client_tokens_add-Releases d x b found (ground arith))
    | inr other_buffer ↦ record {
      queue = ground arith;
      current = ground arith;
      position = ground arith;
      same = λ c. ground arith;
      credit = λ c fl h. ground arith;
    }
  ]
]

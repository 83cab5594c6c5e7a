-- ===== src/CharDevice/Turnover.antt =====
-- What a removed client leaves behind, and what migration carries over.
use spice.Prelude.{
  ℕ, ◌+◌, ◌^◌, ◌<◌, ◌≡◌, ◌≢◌, refl, sym, ap, subst, ◌∙◌, Option, none, some, List, [], ◌∷◌, ◌++◌,
  inl, inr, Option-cases, Bool-cases, arith, >>=-eq-some, ◌==◌, if◌then◌else◌, length,
  length-append, append_assoc, append-nil,
}
use spice.CharDevice.State.{WriteBuffer, DevClient, CharDevice, find, remove}
use spice.CharDevice.Writing.{rest_of}
use spice.CharDevice.Stream.{pending, queued, current}
use spice.CharDevice.Tokens.{
  price_of, prices, price_of_current, window, HasOwners, AllOwned, CurrentIsOwned,
}
use spice.CharDevice.Delivery.{Distinct}
use spice.CharDevice.Manage.{belongs_to, drop_buffers, disown_current, client_free}
use spice.CharDevice.Migration.{
  u32, MigrateData, Writes, add_buffer, add_queue, add_current, migrate_data_marshall,
}

find-remove_self : (c : ℕ) (xs : List DevClient) → Distinct xs → find c (remove c xs) ≡ none
unfolding find remove
find-remove_self c [] u = refl
find-remove_self c (x ∷ xs) u = elim (Bool-cases (x.client == c)) [
  | inl hit ↦
      let same : x.client ≡ c = ground arith in rw hit (ap (λ k. find k xs) (sym same) ∙ u.0)
  | inr miss ↦ ground (arith, find-remove_self c xs u.1)
]

find-remove_ne : (c n : ℕ) (xs : List DevClient) → n ≢ c → find n (remove c xs) ≡ find n xs
unfolding find remove
find-remove_ne c n [] h = refl
find-remove_ne c n (x ∷ xs) h = ground (arith, find-remove_ne c n xs h)

drop_buffers-AllOwned :
    (c : ℕ) (xs : List DevClient) (bs : List WriteBuffer)
    → AllOwned xs bs
    → AllOwned (remove c xs) (drop_buffers c bs)
unfolding drop_buffers
drop_buffers-AllOwned c xs [] o = tt
drop_buffers-AllOwned c xs (b ∷ bs) o = elim (Bool-cases (belongs_to c b)) [
  | inl own ↦ rw own (drop_buffers-AllOwned c xs bs o.1)
  | inr other ↦ rw other (
    λ h.
        let p = o.0 h in
        let differs : b.client ≢ c = ground arith in
        (p.0, λ z. p.1 (sym (find-remove_ne c b.client xs differs) ∙ z)),
    drop_buffers-AllOwned c xs bs o.1,
  )
]

disown_current-CurrentIsOwned :
    (c : ℕ) (xs : List DevClient) (o : Option WriteBuffer)
    → CurrentIsOwned xs o
    → CurrentIsOwned (remove c xs) (disown_current c o)
disown_current-CurrentIsOwned c xs none o = tt
disown_current-CurrentIsOwned c xs (some b) o = elim (Bool-cases (belongs_to c b)) [
  | inl own ↦ rw own (λ h. ground arith)
  | inr other ↦ rw other (λ h.
      let p = o h in
      let differs : b.client ≢ c = ground arith in
      (p.0, λ z. p.1 (sym (find-remove_ne c b.client xs differs) ∙ z)))
]

prices-drop_buffers :
    (c n : ℕ) (bs : List WriteBuffer)
    → prices n (drop_buffers c bs) ≡ (if n == c then 0 else prices n bs)
unfolding drop_buffers
prices-drop_buffers c n [] = ground arith
prices-drop_buffers c n (b ∷ bs) = ground (arith, prices-drop_buffers c n bs)

price_of_current-disown_current :
    (c n : ℕ) (o : Option WriteBuffer)
    → price_of_current n (disown_current c o) ≡ (if n == c then 0 else price_of_current n o)
price_of_current-disown_current c n none = ground arith
price_of_current-disown_current c n (some b) = ground arith

-- Once a client of a list with no client twice is freed, it is not found any more, no buffer on the
-- device gives tokens back to it, every other client is found as before with the same sum of
-- tokens, and every client's buffer on the device still has its client.
pub client_free-gone :
    (d : CharDevice) (x : DevClient)
    → Distinct d.clients
    → HasOwners d
    → (find x.client (client_free d x).clients ≡ none)
      × (window x.client (client_free d x) ≡ 0)
      × ((n : ℕ)
          → n ≢ x.client
          → (find n (client_free d x).clients ≡ find n d.clients)
            × (window n (client_free d x) ≡ window n d))
      × HasOwners (client_free d x)
unfolding client_free
client_free-gone d x u o =
    let c = x.client in
    let gone = find-remove_self c d.clients u in
    (
      gone,
      ground (
        arith,
        gone,
        price_of_current-disown_current c c d.cur_write_buf,
        prices-drop_buffers c c d.write_queue,
      ),
      λ n ne. (
        find-remove_ne c n d.clients ne,
        ground (
          arith,
          find-remove_ne c n d.clients ne,
          price_of_current-disown_current c n d.cur_write_buf,
          prices-drop_buffers c n d.write_queue,
        ),
      ),
      record {
        current = disown_current-CurrentIsOwned c d.clients d.cur_write_buf o.current;
        queue = drop_buffers-AllOwned c d.clients d.write_queue o.queue;
      },
    )

-- All that the migration data gather from the current buffer and the queue.
record Gathers (c : ℕ) (bytes : List ℕ) (tokens : ℕ) (w w' : Writes) : Type 0 where
  all_bytes : w'.bytes ≡ w.bytes ++ bytes
  all_sizes : w.size < 2 ^ 32 → w'.size ≡ u32 (w.size + length bytes)
  all_tokens : w.tokens < 2 ^ 32 → w'.tokens ≡ u32 (w.tokens + tokens)
  small : (w.size < 2 ^ 32 → w'.size < 2 ^ 32) × (w.tokens < 2 ^ 32 → w'.tokens < 2 ^ 32)

add_buffer-Gathers :
    (c : ℕ) (b : WriteBuffer) (bytes : List ℕ) (w w' : Writes)
    → add_buffer c b bytes w ≡ some w'
    → Gathers c bytes (price_of c b) w w'
unfolding add_buffer
add_buffer-Gathers c b bytes w w' e = record {
  all_bytes = ground arith;
  all_sizes = λ h. ground arith;
  all_tokens = λ h. ground arith;
  small = (λ h. ground arith, λ h. ground arith);
}

Gathers-trans :
    (c : ℕ) (xs ys : List ℕ) (s t : ℕ) (a b d : Writes)
    → Gathers c xs s a b
    → Gathers c ys t b d
    → Gathers c (xs ++ ys) (s + t) a d
Gathers-trans c xs ys s t a b d g k = record {
  all_bytes = k.all_bytes ∙ ap (λ z. z ++ ys) g.all_bytes ∙ append_assoc a.bytes xs ys;
  all_sizes = λ h. omega (arith, g.all_sizes h, k.all_sizes (g.small.0 h), length-append xs ys);
  all_tokens = λ h. omega (arith, g.all_tokens h, k.all_tokens (g.small.1 h));
  small = (λ h. k.small.0 (g.small.0 h), λ h. k.small.1 (g.small.1 h));
}

Gathers-refl : (c : ℕ) (w : Writes) → Gathers c [] 0 w w
Gathers-refl c w = record {
  all_bytes = sym (append-nil w.bytes);
  all_sizes = λ h. omega arith;
  all_tokens = λ h. omega arith;
  small = (λ h. h, λ h. h);
}

add_queue-Gathers :
    (c : ℕ) (bs : List WriteBuffer) (w w' : Writes)
    → add_queue c bs w ≡ some w'
    → Gathers c (queued bs) (prices c bs) w w'
unfolding add_queue
add_queue-Gathers c [] w w' e =
    let same : w ≡ w' = ground arith in subst (Gathers c [] 0 w) same (Gathers-refl c w)
add_queue-Gathers c (b ∷ bs) w w' e =
    let (w1, first, rest) = >>=-eq-some (add_buffer c b b.bytes w) (add_queue c bs) e in
    Gathers-trans c b.bytes (queued bs) (price_of c b) (prices c bs) w w1 w'
      (add_buffer-Gathers c b b.bytes w w1 first) (add_queue-Gathers c bs w1 w' rest)

add_current-Gathers :
    (c : ℕ) (o : Option WriteBuffer) (d : CharDevice) (w w' : Writes)
    → add_current c o d w ≡ some w'
    → Gathers c (current o d.cur_write_buf_pos) (price_of_current c o) w w'
unfolding add_current
add_current-Gathers c none d w w' e =
    let same : w ≡ w' = ground arith in subst (Gathers c [] 0 w) same (Gathers-refl c w)
add_current-Gathers c (some b) d w w' e = add_buffer-Gathers c b (rest_of b d) w w' e

-- When the one client's device is marshalled, the migration data hold exactly the bytes that are
-- pending, in order, with their number modulo 2 ^ 32, the tokens that the buffers on the device will
-- give back to the client, modulo 2 ^ 32, and the client's two counters modulo 2 ^ 32.
pub marshall-pending :
    (d : CharDevice) (x : DevClient) (m : MigrateData)
    → d.clients ≡ x ∷ []
    → migrate_data_marshall d ≡ some m
    → (m.write_data ≡ pending d)
      × (m.write_size ≡ u32 (length (pending d)))
      × (m.write_num_client_tokens
          ≡ u32 (price_of_current x.client d.cur_write_buf + prices x.client d.write_queue))
      × (m.num_client_tokens ≡ u32 x.num_client_tokens)
      × (m.num_send_tokens ≡ u32 x.num_send_tokens)
unfolding migrate_data_marshall
marshall-pending d x m one e =
    let w : Writes = record { size = 0; tokens = 0; bytes = [] } in
    elim (Option-cases (add_current x.client d.cur_write_buf d w)) [
      | inl stuck ↦ ground arith
      | inr (w1, first) ↦ elim (Option-cases (add_queue x.client d.write_queue w1)) [
        | inl stuck ↦ ground arith
        | inr (w2, second) ↦
            let g =
              Gathers-trans x.client _ _ _ _ w w1 w2
                (add_current-Gathers x.client d.cur_write_buf d w w1 first)
                (add_queue-Gathers x.client d.write_queue w1 w2 second) in
            let b = g.all_bytes in
            let n = g.all_sizes (omega arith) in
            let t = g.all_tokens (omega arith) in ground (arith, b, n, t)
      ]
    ]

-- ===== src/CharDevice/Stream.antt =====
-- The bytes of the write queue go to the device in order, each once.
use spice.Prelude.{
  ℕ, zero, suc, ◌+◌, ◌^◌, ◌%◌, ◌≤◌, ◌<◌, ◌≡◌, refl, sym, ap, ◌∙◌, min, Option, none, some, List, [],
  ◌∷◌, ◌++◌, append-nil, append_assoc, length, length-append, take, drop, take-append-drop,
  length-take, inl, inr, ◌⊎◌, Option-cases, arith,
}
use spice.CharDevice.State.{
  WriteBuffer, DevClient, CharDevice, Call, write_bytes, send_msg_to_client, send_tokens_to_client,
  remove_client, on_free_self_token, cancel_timer, find, u64,
}
use spice.CharDevice.Writing.{
  client_tokens_add, write_buffer_release, Reply, fetch, rest_of, Round, again, leave, write_round,
  write_loop, next_reply, later, finish_writing, write_to_device,
}

-- The bytes that the device took.
abbrev pub written : List Call → List ℕ
written [] = []
written (write_bytes bs ∷ cs) = bs ++ written cs
written (send_msg_to_client a b ∷ cs) = written cs
written (send_tokens_to_client a b ∷ cs) = written cs
written (remove_client a ∷ cs) = written cs
written (on_free_self_token ∷ cs) = written cs

-- The bytes of a list of buffers.
abbrev pub queued : List WriteBuffer → List ℕ
queued [] = []
queued (b ∷ bs) = b.bytes ++ queued bs

abbrev pub current : Option WriteBuffer → ℕ → List ℕ
current none p = []
current (some b) p = drop p b.bytes

-- The bytes that are still to be written: the rest of the current buffer, then the queue.
abbrev pub pending : CharDevice → List ℕ
pending d = current d.cur_write_buf d.cur_write_buf_pos ++ queued d.write_queue

pub written-append : (xs ys : List Call) → written (xs ++ ys) ≡ written xs ++ written ys
written-append [] ys = refl
written-append (write_bytes bs ∷ xs) ys =
    ap (◌++◌ bs) (written-append xs ys) ∙ sym (append_assoc bs (written xs) (written ys))
written-append (send_msg_to_client a b ∷ xs) ys = written-append xs ys
written-append (send_tokens_to_client a b ∷ xs) ys = written-append xs ys
written-append (remove_client a ∷ xs) ys = written-append xs ys
written-append (on_free_self_token ∷ xs) ys = written-append xs ys

-- What a release leaves alone.
pub record SameStream (d d' : CharDevice) : Type 0 where
  pub queue : d'.write_queue ≡ d.write_queue
  pub current : d'.cur_write_buf ≡ d.cur_write_buf
  pub position : d'.cur_write_buf_pos ≡ d.cur_write_buf_pos
  pub bytes : written d'.calls ≡ written d.calls

pub client_tokens_add-SameStream :
    (d : CharDevice) (x : DevClient) (n : ℕ) → SameStream d (client_tokens_add d x n)
unfolding client_tokens_add
client_tokens_add-SameStream d x n = ground (
  arith,
  written-append d.calls
      (send_tokens_to_client x.client (u64 (x.num_client_tokens_free + n) % 2 ^ 32) ∷ []),
  append-nil (written d.calls),
)

pub write_buffer_release-SameStream :
    (d d' : CharDevice) (b : WriteBuffer) → write_buffer_release d b ≡ some d' → SameStream d d'
unfolding write_buffer_release
write_buffer_release-SameStream d d' b e = elim (Option-cases (find b.client d.clients)) [
  | inl none_found ↦
      ground (arith, written-append d.calls (on_free_self_token ∷ []), append-nil (written d.calls))
  | inr (x, found) ↦ ground (
    arith,
    client_tokens_add-SameStream d x b.token_price,
    written-append d.calls (on_free_self_token ∷ []),
    append-nil (written d.calls),
  )
]

drop-nil : (n : ℕ) → drop {A = ℕ} n [] ≡ []
drop-nil zero = refl
drop-nil (suc n) = refl

drop-drop : (m n : ℕ) (xs : List ℕ) → drop n (drop m xs) ≡ drop (m + n) xs
drop-drop zero n xs = let e : 0 + n ≡ n = omega arith in rw e
drop-drop (suc m) n [] = drop-nil n ∙ sym (drop-nil (suc m + n))
drop-drop (suc m) n (x ∷ xs) =
    let e : suc m + n ≡ suc (m + n) = omega arith in rw e (drop-drop m n xs)

take-all : (n : ℕ) (xs : List ℕ) → length xs ≤ n → take n xs ≡ xs
take-all zero [] h = refl
take-all zero (x ∷ xs) h = absurd (omega arith)
take-all (suc n) [] h = refl
take-all (suc n) (x ∷ xs) h = ap (◌∷◌ x) (take-all n xs (omega arith))

pending-fetch : (d : CharDevice) → (pending (fetch d) ≡ pending d) × ((fetch d).calls ≡ d.calls)
unfolding fetch
pending-fetch d = ground arith

abbrev pub after : Round → CharDevice
after (again d n) = d
after (leave d) = d

abbrev pub count : Round → ℕ
count (again d n) = n
count (leave d) = 0

-- What has been written and what is pending make up the same bytes, and `n` more are written.
record Moves (d d' : CharDevice) (n : ℕ) : Type 0 where
  stream : written d'.calls ++ pending d' ≡ written d.calls ++ pending d
  counted : length (written d'.calls) ≡ length (written d.calls) + n

regroup : (a x y z : List ℕ) (t : List ℕ) → x ++ y ≡ t → (a ++ x) ++ (y ++ z) ≡ a ++ (t ++ z)
regroup a x y z t e =
    append_assoc a x (y ++ z) ∙ ap (◌++◌ a) (sym (append_assoc x y z) ∙ ap (λ u. u ++ z) e)

-- The log with some bytes written.
written-log :
    (cs : List Call) (bs : List ℕ) → written (cs ++ (write_bytes bs ∷ [])) ≡ written cs ++ bs
written-log cs bs = written-append cs (write_bytes bs ∷ []) ∙ ap (◌++◌ (written cs)) (append-nil bs)

-- Writing `ws` where `ws` and `ys` make up what was left of a buffer.
written_part :
    (cs : List Call) (ws ys xs zs : List ℕ)
    → ws ++ ys ≡ xs
    → written (cs ++ (write_bytes ws ∷ [])) ++ (ys ++ zs) ≡ written cs ++ (xs ++ zs)
written_part cs ws ys xs zs e = rw (written-log cs ws) (regroup (written cs) ws ys zs xs e)

length-written :
    (cs : List Call) (n : ℕ) (xs : List ℕ)
    → n ≤ length xs
    → length (written (cs ++ (write_bytes (take n xs) ∷ []))) ≡ length (written cs) + n
length-written cs n xs h =
    rw (written-log cs (take n xs), length-append (written cs) (take n xs), length-take n xs)
      (omega arith)

write_round-Moves :
    (r : Reply) (b : WriteBuffer) (d : CharDevice) (k : Round)
    → d.cur_write_buf ≡ some b
    → write_round r b d ≡ some k
    → Moves d (after k) (count k)
unfolding write_round
write_round-Moves r b d k cur e =
    let xs = rest_of b d in
    let n = min r.ready (length xs) in
    let wrote : CharDevice = record d {
      during_write_to_device = d.during_write_to_device + r.reentered;
      calls = d.calls ++ (write_bytes (take n xs) ∷ []);
      cur_write_buf = none;
    } in
    elim (Option-cases (write_buffer_release wrote b)) [
      | inl stuck ↦ ground (
        arith,
        length-written d.calls n xs,
        written_part d.calls (take n xs) (drop (d.cur_write_buf_pos + n) b.bytes) xs
            (queued d.write_queue),
        drop-drop d.cur_write_buf_pos n b.bytes,
        take-append-drop n xs,
      )
      | inr (d', went) ↦ ground (
        arith,
        write_buffer_release-SameStream wrote d' b went,
        length-written d.calls n xs,
        written_part d.calls (take n xs) (drop (d.cur_write_buf_pos + n) b.bytes) xs
            (queued d.write_queue),
        written_part d.calls (take n xs) [] xs (queued d.write_queue),
        drop-drop d.cur_write_buf_pos n b.bytes,
        take-append-drop n xs,
        take-all n xs,
        append-nil xs,
      )
    ]

fetch-Moves : (d : CharDevice) → Moves d (fetch d) 0
fetch-Moves d = let f = pending-fetch d in ground (arith, f)

Moves-trans : (a b c : CharDevice) (m n : ℕ) → Moves a b m → Moves b c n → Moves a c (m + n)
Moves-trans a b c m n x y = record {
  stream = y.stream ∙ x.stream;
  counted = omega (arith, x.counted, y.counted);
}

-- What the loop has done when it stops, having counted `total` bytes before.
record Loops (d d' : CharDevice) (total result : ℕ) : Type 0 where
  more : ℕ
  sum : result ≡ (total + more) % 2 ^ 32
  moves : Moves d d' more

pub Round-cases :
    (k : Round)
    → ((d : CharDevice) × (n : ℕ) × (k ≡ again d n)) ⊎ ((d : CharDevice) × (k ≡ leave d))
Round-cases (again d n) = inl (d, n, refl)
Round-cases (leave d) = inr (d, refl)

write_loop-Loops :
    (rounds : ℕ) (rs : List Reply) (d d' : CharDevice) (total result : ℕ)
    → total < 2 ^ 32
    → write_loop rounds rs d total ≡ some (d', result)
    → Loops d d' total result
unfolding write_loop
write_loop-Loops zero rs d d' total result h e = absurd (ground arith)
write_loop-Loops (suc rounds) rs d d' total result h e =
    elim (Option-cases (fetch d).cur_write_buf) [
      | inl empty ↦ record {
        more = 0;
        sum = ground arith;
        moves = let same : fetch d ≡ d' = ground arith in rw (← same) (fetch-Moves d);
      }
      | inr (b, at_hand) ↦ elim (Option-cases (write_round (next_reply rs) b (fetch d))) [
        | inl stuck ↦ absurd (ground arith)
        | inr (k, went) ↦
            let m =
              Moves-trans d (fetch d) (after k) 0 (count k) (fetch-Moves d)
                (write_round-Moves (next_reply rs) b (fetch d) k at_hand went) in
            elim (Round-cases k) [
              | inl (d1, n, again_k) ↦
                  let rest =
                    write_loop-Loops rounds (later rs) d1 d' ((total + n) % 2 ^ 32) result
                      (omega arith) (ground arith) in
                  record {
                    more = n + rest.more;
                    sum = omega (arith, rest.sum);
                    moves =
                        Moves-trans d d1 d' n rest.more
                          (let m' : Moves d d1 n = ground (arith, m) in m') rest.moves;
                  }
              | inr (d1, leave_k) ↦ record {
                more = 0;
                sum = ground arith;
                moves = ground (arith, m);
              }
            ]
      ]
    ]

-- No more bytes are taken than were pending.
Moves-pending : (d d' : CharDevice) (n : ℕ) → Moves d d' n → n ≤ length (pending d)
Moves-pending d d' n m = omega (
  arith,
  ap length m.stream,
  length-append (written d'.calls) (pending d'),
  length-append (written d.calls) (pending d),
  m.counted,
)

-- In every run of `write_to_device` that ends, the bytes that the device has taken so far,
-- followed by the bytes that are pending, stay the same sequence, and the returned total is the
-- number of bytes that the device took in it, if fewer than 2 ^ 31 bytes are pending at the start.
pub write_to_device_fifo :
    (rs : List Reply) (d d' : CharDevice) (total : ℕ)
    → length (pending d) < 2 ^ 31
    → write_to_device rs d ≡ some (d', total)
    → (written d'.calls ++ pending d' ≡ written d.calls ++ pending d)
      × (length (written d'.calls) ≡ length (written d.calls) + total)
unfolding write_to_device finish_writing
write_to_device_fifo rs d d' total few e =
    let start : CharDevice = record d {
      during_write_to_device = 1;
      write_to_dev_timer = cancel_timer d.write_to_dev_timer;
    } in
    elim (Option-cases (write_loop (suc (suc (length rs))) rs start 0)) [
      | inl stuck ↦ ground arith
      | inr (r, went) ↦
          let l = write_loop-Loops (suc (suc (length rs))) rs start r.0 0 r.1 (omega arith) went in
          let m = l.moves in
          let exact : r.1 ≡ l.more = omega (arith, l.sum, Moves-pending start r.0 l.more m) in
          ground (arith, m, exact)
    ]

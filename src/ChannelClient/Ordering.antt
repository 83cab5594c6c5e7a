-- ===== src/ChannelClient/Ordering.antt =====
-- What the socket has got of the messages that a channel client began.
use spice.Prelude.{
  ℕ, subst, zero, suc, ◌+◌, ◌<◌, ◌≡◌, refl, sym, ap, ◌∙◌, true, false, List, [], ◌∷◌, ◌++◌, ◌==◌,
  length, take, drop, length-take, length-drop, append-nil, append_assoc, arith, ◌⊎◌, inl, inr,
  Bool-cases,
}
use spice.ChannelClient.State.{Sender, is_empty}
use spice.ChannelClient.Timing.{IsTimed}
use spice.ChannelClient.Sending.{
  Reply, wrote, again, interrupted, broken, Written, finished, stopped, spins, rest_of, data_sent,
  write_loop, stream_writev, after_writev,
}

abbrev pub joined : List (List ℕ) → List ℕ
joined [] = []
joined (m ∷ ms) = m ++ joined ms

pub joined-append : (ms : List (List ℕ)) (m : List ℕ) → joined (ms ++ (m ∷ [])) ≡ joined ms ++ m
joined-append [] m = append-nil m
joined-append (n ∷ ms) m =
    ap (λ z. n ++ z) (joined-append ms m) ∙ sym (append_assoc n (joined ms) m)

pub nil_of_length : (xs : List ℕ) → length xs ≡ 0 → xs ≡ []
nil_of_length [] h = refl
nil_of_length (x ∷ xs) h = absurd (omega (arith, h))

drop-nil : (i : ℕ) → drop {A = ℕ} i [] ≡ []
drop-nil zero = refl
drop-nil (suc i) = refl

suc_add : (i j : ℕ) → suc i + j ≡ suc (i + j)
suc_add i j = omega arith

drop-add : (i j : ℕ) (xs : List ℕ) → drop (i + j) xs ≡ drop j (drop i xs)
drop-add zero j xs = ap (λ z. drop z xs) (omega arith)
drop-add (suc i) j [] = drop-nil (suc i + j) ∙ sym (drop-nil j)
drop-add (suc i) j (x ∷ xs) = ap (λ z. drop z (x ∷ xs)) (suc_add i j) ∙ drop-add i j xs

drop_all : (i : ℕ) (xs : List ℕ) → i ≡ length xs → drop i xs ≡ []
drop_all i xs h = nil_of_length (drop i xs) (omega (arith, h, length-drop i xs))

is_empty-drop : (i : ℕ) (xs : List ℕ) → i < length xs → is_empty (drop i xs) ≡ false
is_empty-drop i [] h = absurd (omega (arith, h))
is_empty-drop zero (x ∷ xs) h = refl
is_empty-drop (suc i) (x ∷ xs) h = is_empty-drop i xs (omega (arith, h))

taken_first : (n : ℕ) (xs : List ℕ) → take n xs ++ drop (length (take n xs)) xs ≡ xs
taken_first zero xs = refl
taken_first (suc n) [] = refl
taken_first (suc n) (x ∷ xs) = ap (λ z. x ∷ z) (taken_first n xs)

-- No message is being sent, and all is written.
pub record IsIdle (c : Sender) : Type 0 where
  pub connected' : c.is_connected ≡ true
  pub current : c.current ≡ []
  pub unblocked : c.is_blocked ≡ false
  pub pos : c.out_pos ≡ 0
  pub size : c.out_size ≡ 0
  pub wrote' : c.written ≡ joined c.begun

-- A message is written in part.
pub record IsWriting (c : Sender) : Type 0 where
  pub connected' : c.is_connected ≡ true
  pub size : c.out_size ≡ length c.current
  pub pos : c.out_pos < length c.current
  pub wrote' : c.written ++ rest_of c ≡ joined c.begun

-- The client is disconnected; some bytes were never written.
pub record IsDead (c : Sender) : Type 0 where
  pub disconnected' : c.is_connected ≡ false
  pub current : c.current ≡ []
  pub unblocked : c.is_blocked ≡ false
  pub pipe : c.pipe ≡ []
  pub lost : List ℕ
  pub wrote' : c.written ++ lost ≡ joined c.begun

pub data Phase (c : Sender) : Type 0 where
  is_idle : IsIdle c → Phase c
  is_writing : IsWriting c → c.is_blocked ≡ true → Phase c
  is_dead : IsDead c → Phase c

-- What sending leaves as it was, and the state of the ping timer.
pub record Kept (c c' : Sender) : Type 0 where
  pub pipe : (c'.pipe ≡ c.pipe) ⊎ (c'.pipe ≡ [])
  pub during : c'.during_send ≡ c.during_send
  pub watch : c'.watches_write ≡ c.watches_write
  pub timed : IsTimed c'.latency

-- A message is written, and its buffer is not yet cleared.
pub record IsWritten (c : Sender) : Type 0 where
  pub connected' : c.is_connected ≡ true
  pub pos : c.out_pos ≡ 0
  pub size : c.out_size ≡ 0
  pub wrote' : c.written ≡ joined c.begun

unfoldable pub WentWell : Sender → Written → Type 0
WentWell c0 (finished c rs) = IsWritten c × Kept c0 c
WentWell c0 (stopped c rs) = Phase c × Kept c0 c
WentWell c0 spins = ⊥

-- A step of the loop: what a write took is no longer in the rest.
data_sent-rest :
    (n : ℕ) (c : Sender)
    → (data_sent n c).written ++ rest_of (data_sent n c) ≡ c.written ++ rest_of c
data_sent-rest n c =
    let t = take n (rest_of c) in
    append_assoc c.written t (drop (c.out_pos + length t) c.current)
    ∙ ap (λ z. c.written ++ (t ++ z)) (drop-add c.out_pos (length t) c.current)
    ∙ ap (λ z. c.written ++ z) (taken_first n (rest_of c))

-- A write of some bytes asks the socket.
stream_writev-asks :
    (c : Sender) (r : Reply) (rs : List Reply)
    → IsWriting c
    → (stream_writev (rest_of c) (r ∷ rs) ≡ (r, rs)) × (stream_writev (rest_of c) [] ≡ (again, []))
unfolding stream_writev
stream_writev-asks c r rs w =
    let some_rest = is_empty-drop c.out_pos c.current w.pos in ground (arith, some_rest)

blocked-WentWell :
    (c0 c : Sender) (rs : List Reply)
    → IsWriting c
    → Kept c0 c
    → WentWell c0 (stopped (record c { is_blocked = true }) rs)
unfolding WentWell
blocked-WentWell c0 c rs w k = (
  is_writing (record { connected' = w.connected'; size = w.size; pos = w.pos; wrote' = w.wrote' })
      refl,
  record { pipe = k.pipe; during = k.during; watch = k.watch; timed = k.timed },
)

-- What follows an answer of the socket, given that the next round goes well.
after_writev-WentWell :
    (go_on : Sender → List Reply → Written) (c0 c : Sender) (r : Reply) (rs : List Reply)
    → IsWriting c
    → Kept c0 c
    → ((c1 : Sender) → IsWriting c1 → Kept c0 c1 → WentWell c0 (go_on c1 rs))
    → WentWell c0 (after_writev go_on c (r, rs))
unfolding after_writev WentWell
after_writev-WentWell go_on c0 c again rs w k next = blocked-WentWell c0 c rs w k
after_writev-WentWell go_on c0 c interrupted rs w k next = next c w k
after_writev-WentWell go_on c0 c broken rs w k next = rw w.connected' (
  is_dead (record {
    disconnected' = refl;
    current = refl;
    unblocked = refl;
    pipe = refl;
    lost = rest_of c;
    wrote' = w.wrote';
  }),
  record { pipe = inr refl; during = k.during; watch = k.watch; timed = refl },
)
after_writev-WentWell go_on c0 c (wrote n) rs w k next =
    let len = length-take n (rest_of c) in
    let len' = length-drop c.out_pos c.current in
    elim (Bool-cases ((data_sent n c).out_pos == c.out_size)) [
      | inl e ↦
          let at : (data_sent n c).out_pos ≡ length c.current = ground (arith, w.size, e) in
          let all : rest_of (data_sent n c) ≡ [] = drop_all (data_sent n c).out_pos c.current at in
          rw e (
            record {
              connected' = w.connected';
              pos = refl;
              size = refl;
              wrote' =
                  sym (append-nil (data_sent n c).written)
                  ∙ ap (λ z. (data_sent n c).written ++ z) (sym all)
                  ∙ data_sent-rest n c
                  ∙ w.wrote';
            },
            record { pipe = k.pipe; during = k.during; watch = k.watch; timed = k.timed },
          )
      | inr e ↦ rw e (
          next (data_sent n c)
            (record {
              connected' = w.connected';
              size = w.size;
              pos = ground (arith, len, len', w.pos, w.size, e);
              wrote' = data_sent-rest n c ∙ w.wrote';
            })
            (record { pipe = k.pipe; during = k.during; watch = k.watch; timed = k.timed }))
    ]

-- While there is something to write, a round for each answer and one more are enough.
pub write_loop-WentWell :
    (rounds : ℕ) (c0 c : Sender) (rs : List Reply)
    → length rs < rounds
    → IsWriting c
    → Kept c0 c
    → WentWell c0 (write_loop rounds c rs)
unfolding write_loop after_writev
write_loop-WentWell zero c0 c rs h w k = absurd (omega (arith, h))
write_loop-WentWell (suc rounds) c0 c [] h w k =
    subst (λ z. WentWell c0 (after_writev (write_loop rounds) c z))
      (sym (stream_writev-asks c again [] w).1) (blocked-WentWell c0 c [] w k)
write_loop-WentWell (suc rounds) c0 c (r ∷ rs) h w k =
    subst (λ z. WentWell c0 (after_writev (write_loop rounds) c z))
      (sym (stream_writev-asks c r rs w).0)
      (after_writev-WentWell (write_loop rounds) c0 c r rs w k
        (λ c1 w1 k1. write_loop-WentWell rounds c0 c1 rs (omega (arith, h)) w1 k1))

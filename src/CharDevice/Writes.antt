-- ===== src/CharDevice/Writes.antt =====
-- `write_to_device` as a whole: no assertion of it fails, and it keeps the sums of tokens.
use spice.Prelude.{
  ℕ, ◌+◌, ◌^◌, ◌<◌, ◌≤◌, ◌%◌, suc, ◌≡◌, ◌≢◌, refl, ap, subst, ◌∙◌, min, Bool-cases, true, not, ◌||◌,
  ltb, ◌==◌, none, some, List, [], ◌∷◌, ◌++◌, inl, inr, Option-cases, some_of_ne_none, arith,
  length, take,
}
use spice.CharDevice.State.{WriteBuffer, CharDevice, write_bytes, cancel_timer, start_timer, find}
use spice.CharDevice.Writing.{
  write_buffer_release, Reply, next_reply, later, fetch, rest_of, Round, again, leave, write_round,
  write_loop, finish_writing, write_to_device,
}
use spice.CharDevice.Stream.{Round-cases, after}
use spice.CharDevice.Tokens.{
  flow_of, window, HasOwners, IsOwned, CurrentIsOwned, SameClients, write_buffer_release-Releases,
  SameClients-AllOwned,
}

pub record Keeps (d d' : CharDevice) : Type 0 where
  pub same : SameClients d.clients d'.clients
  pub owners : HasOwners d → HasOwners d'
  pub window :
      (c : ℕ)
      → flow_of (find c d.clients) ≡ some true
      → window c d < 2 ^ 64
      → window c d' ≡ window c d

Keeps-refl : (d : CharDevice) → Keeps d d
Keeps-refl d = record { same = λ c. refl; owners = λ o. o; window = λ c f h. refl }

Keeps-trans : (a b c : CharDevice) → Keeps a b → Keeps b c → Keeps a c
Keeps-trans a b c x y = record {
  same = λ n. y.same n ∙ x.same n;
  owners = λ o. y.owners (x.owners o);
  window = λ n f h. y.window n (x.same n ∙ f) (omega (arith, x.window n f h)) ∙ x.window n f h;
}

fetch-Keeps : (d : CharDevice) → Keeps d (fetch d)
unfolding fetch
fetch-Keeps d = record {
  same = λ c. ground arith;
  owners = λ o. ground arith;
  window = λ c f h. ground arith;
}

-- After a look for the next buffer there is one, or the queue is empty.
fetch-drained : (d : CharDevice) → (fetch d).cur_write_buf ≡ none → (fetch d).write_queue ≡ []
unfolding fetch
fetch-drained d e = ground arith

pub write_buffer_release-ne-none :
    (b : WriteBuffer) (d : CharDevice) → IsOwned d.clients b → write_buffer_release d b ≢ none
unfolding write_buffer_release
write_buffer_release-ne-none b d o = elim (Option-cases (find b.client d.clients)) [
  | inl missing ↦ ground (arith, o)
  | inr (x, found) ↦ ground (arith, o)
]

write_round-Keeps :
    (r : Reply) (b : WriteBuffer) (d : CharDevice) (k : Round)
    → d.cur_write_buf ≡ some b
    → write_round r b d ≡ some k
    → Keeps d (after k)
unfolding write_round
write_round-Keeps r b d k cur e =
    let xs = rest_of b d in
    let n = min r.ready (length xs) in
    let wrote : CharDevice = record d {
      during_write_to_device = d.during_write_to_device + r.reentered;
      calls = d.calls ++ (write_bytes (take n xs) ∷ []);
      cur_write_buf = none;
    } in
    elim (Option-cases (write_buffer_release wrote b)) [
      | inl stuck ↦ record {
        same = λ c. ground arith;
        owners = λ o. ground arith;
        window = λ c f h. ground arith;
      }
      | inr (d', went) ↦
          let l = write_buffer_release-Releases b wrote d' went in
          record {
            same = λ c. ground (arith, l.same c);
            owners = λ o. ground (
              arith,
              l.queue,
              l.current,
              SameClients-AllOwned d.clients d'.clients d.write_queue l.same o.queue,
            );
            window = λ c f h. ground (arith, l.queue, l.current, l.credit c f);
          }
    ]

write_round-ne-none :
    (r : Reply) (b : WriteBuffer) (d : CharDevice) → IsOwned d.clients b → write_round r b d ≢ none
unfolding write_round
write_round-ne-none r b d o =
    let xs = rest_of b d in
    let n = min r.ready (length xs) in
    let wrote : CharDevice = record d {
      during_write_to_device = d.during_write_to_device + r.reentered;
      calls = d.calls ++ (write_bytes (take n xs) ∷ []);
      cur_write_buf = none;
    } in
    ground (arith, write_buffer_release-ne-none b wrote o)

-- The loop leaves a round only with its buffer still at hand.
write_round-leaves :
    (r : Reply) (b : WriteBuffer) (d d' : CharDevice)
    → d.cur_write_buf ≡ some b
    → write_round r b d ≡ some (leave d')
    → d'.cur_write_buf ≡ some b
unfolding write_round
write_round-leaves r b d d' cur e =
    let xs = rest_of b d in
    let n = min r.ready (length xs) in
    let wrote : CharDevice = record d {
      during_write_to_device = d.during_write_to_device + r.reentered;
      calls = d.calls ++ (write_bytes (take n xs) ∷ []);
      cur_write_buf = none;
    } in
    elim (Option-cases (write_buffer_release wrote b)) [
      | inl stuck ↦ ground arith
      | inr (d'', went) ↦ ground arith
    ]

-- A run of the loop: it keeps the sums, and ends with a buffer at hand or an empty queue.
record Ran (d d' : CharDevice) : Type 0 where
  keeps : Keeps d d'
  drained : d'.cur_write_buf ≡ none → d'.write_queue ≡ []

-- A device that takes nothing ends the loop, once nothing has entered it again.
write_round-last :
    (b : WriteBuffer) (d d' : CharDevice) (n : ℕ)
    → d.during_write_to_device ≤ 1
    → write_round (next_reply []) b (fetch d) ≢ some (again d' n)
unfolding write_round fetch
write_round-last b d d' n h = ground arith

-- If something has, there is one more round, with the mark reset.
write_round-reset :
    (b : WriteBuffer) (d d' : CharDevice) (n : ℕ)
    → write_round (next_reply []) b (fetch d) ≡ some (again d' n)
    → d'.during_write_to_device ≡ 1
unfolding write_round
write_round-reset b d d' n e = ground arith

-- The loop has a result, whose run keeps the sums.
abbrev Ends : ℕ → List Reply → CharDevice → ℕ → Type 0
Ends rounds rs d total = (r : CharDevice × ℕ) × (write_loop rounds rs d total ≡ some r) × Ran d r.0

-- A round, given that what follows it ends.
write_loop-round :
    (rounds : ℕ) (rs : List Reply) (d : CharDevice) (total : ℕ)
    → HasOwners d
    → ((b : WriteBuffer) (d1 : CharDevice) (n : ℕ)
        → write_round (next_reply rs) b (fetch d) ≡ some (again d1 n)
        → HasOwners d1
        → Ends rounds (later rs) d1 ((total + n) % 2 ^ 32))
    → Ends (suc rounds) rs d total
unfolding write_loop
write_loop-round rounds rs d total o go_on = elim (Option-cases (fetch d).cur_write_buf) [
  | inl empty ↦
      ((fetch d, total), ground arith, record { keeps = fetch-Keeps d; drained = fetch-drained d })
  | inr (b, at_hand) ↦
      let r = next_reply rs in
      let owned : IsOwned (fetch d).clients b =
        subst (CurrentIsOwned (fetch d).clients) at_hand ((fetch-Keeps d).owners o).current in
      let (k, went) =
        some_of_ne_none (write_round r b (fetch d)) (write_round-ne-none r b (fetch d) owned) in
      let keeps =
        Keeps-trans d (fetch d) (after k) (fetch-Keeps d)
          (write_round-Keeps r b (fetch d) k at_hand went) in
      elim (Round-cases k) [
        | inl (d1, n, e) ↦
            let same : after k ≡ d1 = ap after e in
            let keeps' : Keeps d d1 = subst (Keeps d) same keeps in
            let (res, ran, rest) = go_on b d1 n (went ∙ ap some e) (keeps'.owners o) in
            (
              res,
              ground arith,
              record { keeps = Keeps-trans d d1 res.0 keeps' rest.keeps; drained = rest.drained },
            )
        | inr (d1, e) ↦
            let same : after k ≡ d1 = ap after e in
            let left = write_round-leaves r b (fetch d) d1 at_hand (went ∙ ap some e) in
            (
              (d1, total),
              ground arith,
              record { keeps = subst (Keeps d) same keeps; drained = λ h. absurd (cc) },
            )
      ]
]

-- Two rounds more than the device's answers are enough: once these have run out, a round may find
-- that the loop was entered again, and the next one leaves.
write_loop-Ends :
    (rs : List Reply) (d : CharDevice) (total : ℕ)
    → HasOwners d
    → Ends (suc (suc (length rs))) rs d total
write_loop-Ends [] d total o = write_loop-round 1 [] d total o (λ b d1 n e o1.
    write_loop-round 0 [] d1 ((total + n) % 2 ^ 32) o1 (λ b' d2 m e' o2.
      let reset = write_round-reset b d d1 n e in
      absurd (write_round-last b' d1 d2 m (omega (arith, reset)) e')))
write_loop-Ends (r ∷ rs) d total o =
    write_loop-round (suc (suc (length rs))) (r ∷ rs) d total o
      (λ b d1 n e o1. write_loop-Ends rs d1 ((total + n) % 2 ^ 32) o1)

-- Two states with the same clients and buffers.
same_buffers-Keeps :
    (d d' : CharDevice)
    → d'.clients ≡ d.clients
    → d'.cur_write_buf ≡ d.cur_write_buf
    → d'.write_queue ≡ d.write_queue
    → Keeps d d'
same_buffers-Keeps d d' x y z = record {
  same = λ c. ap (λ t. flow_of (find c t)) x;
  owners = λ o. record { current = rw (x, y) o.current; queue = rw (x, z) o.queue };
  window = λ c f h. rw (x, y, z) refl;
}

finish_writing-runs :
    (d : CharDevice) (total : ℕ)
    → (d.cur_write_buf ≡ none → d.write_queue ≡ [])
    → (d' : CharDevice) × (finish_writing d total ≡ some d') × Keeps d d'
unfolding finish_writing
finish_writing-runs d total drained = elim (Option-cases d.cur_write_buf) [
  | inl empty ↦
      let e = drained empty in
      let d' : CharDevice = record d {
        active = d.active || not (total == 0);
        during_write_to_device = 0;
      } in
      (d', ground arith, same_buffers-Keeps d d' refl refl refl)
  | inr (b, at_hand) ↦
      let d' : CharDevice = record d {
        write_to_dev_timer = start_timer d.write_to_dev_timer;
        active = d.active || not (total == 0);
        during_write_to_device = 0;
      } in
      (d', ground arith, same_buffers-Keeps d d' refl refl refl)
]

-- While every client's buffer on the device has its client there, `write_to_device` ends with no
-- assertion failed, for any finite list of answers of the device before it takes nothing more, in
-- at most two rounds more than there are answers. It keeps that fact, the set of clients and their
-- flow control, and, for each client with flow control, the sum of the tokens that the client may
-- still use, those that wait to be given back and the prices of its buffers on the device, as long
-- as that sum is below 2 ^ 64.
pub write_to_device-runs :
    (rs : List Reply) (d : CharDevice)
    → HasOwners d
    → (r : CharDevice × ℕ) × (write_to_device rs d ≡ some r) × Keeps d r.0
unfolding write_to_device
write_to_device-runs rs d o =
    let start : CharDevice = record d {
      during_write_to_device = 1;
      write_to_dev_timer = cancel_timer d.write_to_dev_timer;
    } in
    let (r, ran, e) =
      write_loop-Ends rs start 0 (record { current = o.current; queue = o.queue }) in
    let (d', done, f) = finish_writing-runs r.0 r.1 e.drained in
    let keeps : Keeps d d' =
      Keeps-trans d start d' (same_buffers-Keeps d start refl refl refl)
        (Keeps-trans start r.0 d' e.keeps f) in
    elim (Bool-cases (not d.running || d.wait_for_migrate_data || not d.has_sin)) [
      | inl off ↦ ((d, 0), rw off, Keeps-refl d)
      | inr on ↦ elim (Bool-cases (ltb 0 d.during_write_to_device)) [
        | inl nested ↦
            let d1 : CharDevice = record d {
              during_write_to_device = d.during_write_to_device + 1;
            } in
            ((d1, 0), rw (on, nested), same_buffers-Keeps d d1 refl refl refl)
        | inr outer ↦ ((d', r.1), rw (on, outer, ran, done), keeps)
      ]
    ]

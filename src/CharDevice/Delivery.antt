-- ===== src/CharDevice/Delivery.antt =====
-- From the device to clients: each client sees the messages in order, pays a token for each, and
-- no assertion on the way fails.
use spice.Prelude.{
  ℕ, ◌+◌, ◌^◌, ◌≤◌, ◌<◌, ◌≡◌, ◌≢◌, refl, sym, ap, subst, ◌∙◌, true, none, some, List, [], ◌∷◌, ◌++◌,
  inl, inr, Bool-cases, some_of_ne_none, arith, ◌==◌, if◌then◌else◌, length, length-append,
  append_assoc, append-nil,
}
use spice.CharDevice.State.{
  DevClient, Call, send_msg_to_client, send_tokens_to_client, remove_client, on_free_self_token,
  write_bytes, find,
}
use spice.CharDevice.Reading.{add_msg_to_client_queue, send_msg_to_one, send_msg_to_clients}

-- A client's queue holds no more than its limit; while it holds something the client has flow
-- control, no tokens, and a wait for tokens has begun.
pub record IsFit (x : DevClient) : Type 0 where
  pub bounded : length x.send_queue ≤ x.max_send_queue_size
  pub waits :
      x.send_queue ≢ []
      → (x.do_flow_control ≡ true) × (x.num_send_tokens ≡ 0) × (x.wait_for_tokens_started ≡ true)
  pub small : x.num_send_tokens < 2 ^ 64

abbrev pub AllFit : List DevClient → Type 0
AllFit [] = Unit {0}
AllFit (x ∷ xs) = IsFit x × AllFit xs

-- The messages that a client has got.
abbrev pub delivered : ℕ → List Call → List ℕ
delivered c [] = []
delivered c (send_msg_to_client m n ∷ cs) =
    let rest = delivered c cs in if n == c then m ∷ rest else rest
delivered c (send_tokens_to_client a b ∷ cs) = delivered c cs
delivered c (remove_client a ∷ cs) = delivered c cs
delivered c (on_free_self_token ∷ cs) = delivered c cs
delivered c (write_bytes bs ∷ cs) = delivered c cs

-- How often the removal of a client was asked for.
abbrev pub removals : ℕ → List Call → ℕ
removals c [] = 0
removals c (remove_client n ∷ cs) = (if n == c then 1 else 0) + removals c cs
removals c (send_msg_to_client m n ∷ cs) = removals c cs
removals c (send_tokens_to_client a b ∷ cs) = removals c cs
removals c (on_free_self_token ∷ cs) = removals c cs
removals c (write_bytes bs ∷ cs) = removals c cs

-- One message, for one client.
send_msg_to_one-ne-none : (x : DevClient) (m : ℕ) → IsFit x → send_msg_to_one x m ≢ none
unfolding send_msg_to_one
send_msg_to_one-ne-none x m v = ground arith

-- It reaches the client or its queue, unless the queue is full; then the client is to be removed.
record Takes (x y : DevClient) (m : ℕ) (cs : List Call) : Type 0 where
  client : y.client ≡ x.client
  flow : y.do_flow_control ≡ x.do_flow_control
  fit : IsFit y
  seen : removals x.client cs ≡ 0 → delivered x.client cs ++ y.send_queue ≡ x.send_queue ++ (m ∷ [])
  paid :
      x.do_flow_control ≡ true
      → y.num_send_tokens + length (delivered x.client cs) ≡ x.num_send_tokens
  others : (c : ℕ) → c ≢ x.client → (delivered c cs ≡ []) × (removals c cs ≡ 0)

send_msg_to_one-Takes :
    (x y : DevClient) (m : ℕ) (cs : List Call)
    → IsFit x
    → send_msg_to_one x m ≡ some (y, cs)
    → Takes x y m cs
unfolding send_msg_to_one add_msg_to_client_queue
send_msg_to_one-Takes x y m cs v e = record {
  client = ground arith;
  flow = ground arith;
  fit = ground (arith, length-append x.send_queue (m ∷ []));
  seen = ground (arith, append-nil x.send_queue);
  paid = ground arith;
  others = λ c ne. (ground arith, ground arith);
}

pub delivered-append :
    (c : ℕ) (xs ys : List Call) → delivered c (xs ++ ys) ≡ delivered c xs ++ delivered c ys
delivered-append c [] ys = refl
delivered-append c (send_msg_to_client m n ∷ xs) ys = ground (arith, delivered-append c xs ys)
delivered-append c (send_tokens_to_client a b ∷ xs) ys = delivered-append c xs ys
delivered-append c (remove_client a ∷ xs) ys = delivered-append c xs ys
delivered-append c (on_free_self_token ∷ xs) ys = delivered-append c xs ys
delivered-append c (write_bytes bs ∷ xs) ys = delivered-append c xs ys

pub removals-append :
    (c : ℕ) (xs ys : List Call) → removals c (xs ++ ys) ≡ removals c xs + removals c ys
removals-append c [] ys = omega arith
removals-append c (remove_client n ∷ xs) ys = omega (arith, removals-append c xs ys)
removals-append c (send_msg_to_client m n ∷ xs) ys = removals-append c xs ys
removals-append c (send_tokens_to_client a b ∷ xs) ys = removals-append c xs ys
removals-append c (on_free_self_token ∷ xs) ys = removals-append c xs ys
removals-append c (write_bytes bs ∷ xs) ys = removals-append c xs ys

-- What the client `c` has seen of the messages `ms`, by the calls `cs` that took it from `x` to `y`.
pub record Saw (c : ℕ) (x y : DevClient) (cs : List Call) (ms : List ℕ) : Type 0 where
  pub flow : y.do_flow_control ≡ x.do_flow_control
  pub seen : removals c cs ≡ 0 → delivered c cs ++ y.send_queue ≡ x.send_queue ++ ms
  pub paid :
      x.do_flow_control ≡ true → y.num_send_tokens + length (delivered c cs) ≡ x.num_send_tokens

pub Saw-refl : (c : ℕ) (x : DevClient) → Saw c x x [] []
Saw-refl c x = record {
  flow = refl;
  seen = λ h. sym (append-nil x.send_queue);
  paid = λ h. omega arith;
}

pub Saw-trans :
    (c : ℕ) (x y z : DevClient) (cs ds : List Call) (ms ns : List ℕ)
    → Saw c x y cs ms
    → Saw c y z ds ns
    → Saw c x z (cs ++ ds) (ms ++ ns)
Saw-trans c x y z cs ds ms ns s t = record {
  flow = t.flow ∙ s.flow;
  seen = λ h.
      let first = s.seen (omega (arith, removals-append c cs ds)) in
      let second = t.seen (omega (arith, removals-append c cs ds)) in
      rw
        (
          delivered-append c cs ds,
          append_assoc,
          second,
          ← append_assoc (delivered c cs) y.send_queue ns,
          first,
        )
        (append_assoc x.send_queue ms ns);
  paid = λ h. rw (delivered-append c cs ds) (
      omega
        (arith, length-append (delivered c cs) (delivered c ds), s.paid h, t.paid (s.flow ∙ h)));
}

-- No two clients of a list are the same.
abbrev pub Distinct : List DevClient → Type 0
Distinct [] = Unit {0}
Distinct (x ∷ xs) = (find x.client xs ≡ none) × Distinct xs

-- What one message does to a list of clients.
pub record Spread (xs ys : List DevClient) (cs : List Call) (m : ℕ) : Type 0 where
  pub fit : AllFit ys
  pub distinct : Distinct ys
  pub gone : (c : ℕ) → find c xs ≡ none → find c ys ≡ none
  pub absent : (c : ℕ) → find c xs ≡ none → (delivered c cs ≡ []) × (removals c cs ≡ 0)
  pub present :
      (c : ℕ) (x : DevClient)
      → find c xs ≡ some x
      → (y : DevClient) × (find c ys ≡ some y) × Saw c x y cs (m ∷ [])

pub send_msg_to_clients-ne-none :
    (xs : List DevClient) (m : ℕ) → AllFit xs → send_msg_to_clients xs m ≢ none
unfolding send_msg_to_clients
send_msg_to_clients-ne-none [] m v = ground arith
send_msg_to_clients-ne-none (x ∷ xs) m v =
    ground (arith, send_msg_to_one-ne-none x m v.0, send_msg_to_clients-ne-none xs m v.1)

-- The calls for one client beside calls that do not concern it.
Saw-other_left :
    (c : ℕ) (x y : DevClient) (cs ds : List Call) (ms : List ℕ)
    → delivered c cs ≡ []
    → removals c cs ≡ 0
    → Saw c x y ds ms
    → Saw c x y (cs ++ ds) ms
Saw-other_left c x y cs ds ms d r s = record {
  flow = s.flow;
  seen = λ h. rw (delivered-append c cs ds, d) (s.seen (omega (arith, removals-append c cs ds)));
  paid = λ h. rw (delivered-append c cs ds, d) (s.paid h);
}

Saw-other_right :
    (c : ℕ) (x y : DevClient) (cs ds : List Call) (ms : List ℕ)
    → delivered c ds ≡ []
    → removals c ds ≡ 0
    → Saw c x y cs ms
    → Saw c x y (cs ++ ds) ms
Saw-other_right c x y cs ds ms d r s = record {
  flow = s.flow;
  seen = λ h.
      rw (delivered-append c cs ds, d, append-nil)
        (s.seen (omega (arith, removals-append c cs ds)));
  paid = λ h. rw (delivered-append c cs ds, d, append-nil) (s.paid h);
}

Takes-Saw :
    (x y : DevClient) (m : ℕ) (cs : List Call) → Takes x y m cs → Saw x.client x y cs (m ∷ [])
Takes-Saw x y m cs t = record { flow = t.flow; seen = t.seen; paid = t.paid }

Spread-cons :
    (x y : DevClient) (xs ys : List DevClient) (cs ds : List Call) (m : ℕ)
    → find x.client xs ≡ none
    → Takes x y m cs
    → Spread xs ys ds m
    → Spread (x ∷ xs) (y ∷ ys) (cs ++ ds) m
unfolding find
Spread-cons x y xs ys cs ds m u t s = record {
  fit = (t.fit, s.fit);
  distinct = (subst (λ k. find k ys ≡ none) (sym t.client) (s.gone x.client u), s.distinct);
  gone = λ c h. ground (arith, s.gone c, t.client);
  absent = λ c h. (
    ground (arith, delivered-append c cs ds, t.others c, s.absent c),
    ground (arith, removals-append c cs ds, t.others c, s.absent c),
  );
  present = λ c z e. elim (Bool-cases (x.client == c)) [
    | inl hit ↦
        let same : x.client ≡ c = ground arith in
        let who : z ≡ x = ground arith in
        let away : find c xs ≡ none = ap (λ k. find k xs) (sym same) ∙ u in
        let others = s.absent c away in
        (
          y,
          ground (arith, t.client),
          subst (λ w. Saw c w y (cs ++ ds) (m ∷ [])) (sym who)
              (Saw-other_right c x y cs ds (m ∷ []) others.0 others.1
                (subst (λ k. Saw k x y cs (m ∷ [])) same (Takes-Saw x y m cs t))),
        )
    | inr miss ↦
        let differs : c ≢ x.client = ground arith in
        let p = s.present c z (ground arith) in
        let o = t.others c differs in
        (p.0, ground (arith, t.client, p.1), Saw-other_left c z p.0 cs ds (m ∷ []) o.0 o.1 p.2)
  ];
}

pub send_msg_to_clients-Spread :
    (xs ys : List DevClient) (m : ℕ) (cs : List Call)
    → AllFit xs
    → Distinct xs
    → send_msg_to_clients xs m ≡ some (ys, cs)
    → Spread xs ys cs m
unfolding send_msg_to_clients find
send_msg_to_clients-Spread [] ys m cs v u e =
    let ys_empty : [] ≡ ys = ground arith in
    let cs_empty : [] ≡ cs = ground arith in
    subst (λ t. Spread [] t cs m) ys_empty
      (subst (λ t. Spread [] [] t m) cs_empty
        (record {
          fit = tt;
          distinct = tt;
          gone = λ c h. h;
          absent = λ c h. (refl, refl);
          present = λ c x h. ground arith;
        }))
send_msg_to_clients-Spread (x ∷ xs) ys m cs v u e =
    let (one, went) = some_of_ne_none (send_msg_to_one x m) (send_msg_to_one-ne-none x m v.0) in
    let (others, ran) =
      some_of_ne_none (send_msg_to_clients xs m) (send_msg_to_clients-ne-none xs m v.1) in
    let t = send_msg_to_one-Takes x one.0 m one.1 v.0 went in
    let s = send_msg_to_clients-Spread xs others.0 m others.1 v.1 u.1 ran in
    let both = Spread-cons x one.0 xs others.0 one.1 others.1 m u.0 t s in
    let first : one.0 ∷ others.0 ≡ ys = ground arith in
    let second : one.1 ++ others.1 ≡ cs = ground arith in
    subst (λ q. Spread (x ∷ xs) q cs m) first
      (subst (λ q. Spread (x ∷ xs) (one.0 ∷ others.0) q m) second both)

-- ===== src/CharDevice/Session.antt =====
-- A client's buffers from the moment that it pays for them: any sequence of requests, additions,
-- releases and writes.
use spice.Prelude.{
  ℕ, ◌+◌, ◌^◌, ◌<◌, ◌≡◌, ◌≢◌, refl, ap, subst, ◌∙◌, true, false, some, List, [], ◌∷◌, ◌++◌, inl,
  inr, Option-cases, arith, Bool, Option, none,
}
use spice.CharDevice.State.{WriteBuffer, DevClient, CharDevice, find, dec64}
use spice.CharDevice.Writing.{
  write_buffer_release, Reply, write_to_device, write_buffer_get_client, write_buffer_get_server,
  write_buffer_get, get_for_client, is_orphan, write_buffer_add,
}
use spice.CharDevice.Tokens.{
  flow_of, credit_of, price_of, prices, window, HasOwners, IsOwned, AllOwned, SameClients,
  write_buffer_release-Releases, SameClients-AllOwned, SameClients-CurrentIsOwned, price_of_current,
  CurrentIsOwned, credit_of, find-client, find-replace, replace-SameClients,
}
use spice.CharDevice.Writes.{Keeps, write_to_device-runs}

-- The device, and the buffers that its users hold.
pub record Session : Type 0 where
  pub device : CharDevice
  pub held : List WriteBuffer

-- What a request adds to them: nothing if it is refused, else the buffer, filled with some bytes.
abbrev pub hold : Option WriteBuffer → List ℕ → List WriteBuffer → List WriteBuffer
hold none bytes bs = bs
hold (some b) bytes bs = record b { bytes = bytes } ∷ bs

-- What a session may do. The holder of a buffer fills it as it likes.
pub data Step : Session → Session → Type 0 where
  gets :
      (s : Session) (c size : ℕ) (d' : CharDevice) (o : Option WriteBuffer) (bytes : List ℕ)
      → write_buffer_get_client s.device c size ≡ some (d', o)
      → Step s (record { device = d'; held = hold o bytes s.held })
  gets_for_server :
      (s : Session) (size : ℕ) (use_token : Bool) (d' : CharDevice) (o : Option WriteBuffer)
      (bytes : List ℕ)
      → write_buffer_get_server s.device size use_token ≡ some (d', o)
      → Step s (record { device = d'; held = hold o bytes s.held })
  adds :
      (s : Session) (rs : List Reply) (b : WriteBuffer) (bs cs : List WriteBuffer) (d' : CharDevice)
      → s.held ≡ bs ++ (b ∷ cs)
      → write_buffer_add rs s.device b ≡ some d'
      → Step s (record { device = d'; held = bs ++ cs })
  releases :
      (s : Session) (b : WriteBuffer) (bs cs : List WriteBuffer) (d' : CharDevice)
      → s.held ≡ bs ++ (b ∷ cs)
      → write_buffer_release s.device b ≡ some d'
      → Step s (record { device = d'; held = bs ++ cs })
  writes :
      (s : Session) (rs : List Reply) (r : CharDevice × ℕ)
      → write_to_device rs s.device ≡ some r
      → Step s (record { device = r.0; held = s.held })

pub data Steps (s : Session) : Session → Type 0 where
  here : Steps s s
  next : {t u : Session} → Steps s t → Step t u → Steps s u

-- All that a client's tokens have become.
abbrev pub total_tokens : ℕ → Session → ℕ
total_tokens c s = window c s.device + prices c s.held

pub record IsOwnedSession (s : Session) : Type 0 where
  pub device : HasOwners s.device
  pub held : AllOwned s.device.clients s.held

prices-middle :
    (c : ℕ) (bs cs : List WriteBuffer) (b : WriteBuffer)
    → prices c (bs ++ (b ∷ cs)) ≡ price_of c b + prices c (bs ++ cs)
prices-middle c [] cs b = refl
prices-middle c (x ∷ bs) cs b = omega (arith, prices-middle c bs cs b)

AllOwned-middle :
    (xs : List DevClient) (bs cs : List WriteBuffer) (b : WriteBuffer)
    → AllOwned xs (bs ++ (b ∷ cs))
    → IsOwned xs b × AllOwned xs (bs ++ cs)
AllOwned-middle xs [] cs b o = o
AllOwned-middle xs (x ∷ bs) cs b o = let r = AllOwned-middle xs bs cs b o.1 in (r.0, (o.0, r.1))

AllOwned-insert :
    (xs : List DevClient) (bs cs : List WriteBuffer) (b : WriteBuffer)
    → IsOwned xs b
    → AllOwned xs (bs ++ cs)
    → AllOwned xs (bs ++ (b ∷ cs))
AllOwned-insert xs [] cs b h o = (h, o)
AllOwned-insert xs (x ∷ bs) cs b h o = (o.0, AllOwned-insert xs bs cs b h o.1)

-- What every step keeps.
record Conserves (s t : Session) : Type 0 where
  owned : IsOwnedSession s → IsOwnedSession t
  same : SameClients s.device.clients t.device.clients
  total :
      (c : ℕ)
      → IsOwnedSession s
      → flow_of (find c s.device.clients) ≡ some true
      → total_tokens c s < 2 ^ 64
      → total_tokens c t ≡ total_tokens c s

is_orphan_of_owned :
    (d : CharDevice) (b : WriteBuffer) → IsOwned d.clients b → is_orphan d b ≡ false
is_orphan_of_owned d b o = elim (Option-cases (find b.client d.clients)) [
  | inl missing ↦ ground (arith, o)
  | inr (x, found) ↦ ground arith
]

writes-Conserves :
    (s : Session) (rs : List Reply) (r : CharDevice × ℕ)
    → write_to_device rs s.device ≡ some r
    → Keeps s.device r.0
    → Conserves s (record { device = r.0; held = s.held })
writes-Conserves s rs r went k = record {
  owned = λ o. record {
    device = k.owners o.device;
    held = SameClients-AllOwned s.device.clients r.0.clients s.held k.same o.held;
  };
  same = k.same;
  total = λ c o f h. omega (arith, k.window c f (omega arith));
}

releases-Conserves :
    (s : Session) (b : WriteBuffer) (bs cs : List WriteBuffer) (d' : CharDevice)
    → s.held ≡ bs ++ (b ∷ cs)
    → write_buffer_release s.device b ≡ some d'
    → Conserves s (record { device = d'; held = bs ++ cs })
releases-Conserves s b bs cs d' split went =
    let l = write_buffer_release-Releases b s.device d' went in
    record {
      owned = λ o.
          let rest =
            AllOwned-middle s.device.clients bs cs b
              (subst (AllOwned s.device.clients) split o.held) in
          record {
            device = record {
              current = rw l.current (
                  SameClients-CurrentIsOwned s.device.clients d'.clients s.device.cur_write_buf
                    l.same o.device.current);
              queue = rw l.queue (
                  SameClients-AllOwned s.device.clients d'.clients s.device.write_queue l.same
                    o.device.queue);
            };
            held = SameClients-AllOwned s.device.clients d'.clients (bs ++ cs) l.same rest.1;
          };
      same = l.same;
      total = λ c o f h.
          let held = ap (prices c) split ∙ prices-middle c bs cs b in
          omega (
            arith,
            held,
            ap (price_of_current c) l.current,
            ap (prices c) l.queue,
            l.credit c f (omega (arith, held)),
          );
    }

prices-append : (c : ℕ) (bs cs : List WriteBuffer) → prices c (bs ++ cs) ≡ prices c bs + prices c cs
prices-append c [] cs = omega arith
prices-append c (b ∷ bs) cs = omega (arith, prices-append c bs cs)

AllOwned-append :
    (xs : List DevClient) (bs cs : List WriteBuffer)
    → AllOwned xs bs
    → AllOwned xs cs
    → AllOwned xs (bs ++ cs)
AllOwned-append xs [] cs o p = p
AllOwned-append xs (b ∷ bs) cs o p = (o.0, AllOwned-append xs bs cs o.1 p)

-- The addition of an owned buffer to the queue.
write_buffer_add-runs :
    (rs : List Reply) (d : CharDevice) (b : WriteBuffer)
    → HasOwners d
    → IsOwned d.clients b
    → (d' : CharDevice) × (write_buffer_add rs d b ≡ some d')
      × Keeps (record d { write_queue = d.write_queue ++ (b ∷ []) }) d'
      × HasOwners (record d { write_queue = d.write_queue ++ (b ∷ []) })
unfolding write_buffer_add
write_buffer_add-runs rs d b o h =
    let d1 : CharDevice = record d { write_queue = d.write_queue ++ (b ∷ []) } in
    let o1 : HasOwners d1 = record {
      current = o.current;
      queue = AllOwned-append d.clients d.write_queue (b ∷ []) o.queue (h, tt);
    } in
    let (r, went, k) = write_to_device-runs rs d1 o1 in
    (r.0, rw (is_orphan_of_owned d b h, went), k, o1)

adds-Conserves :
    (s : Session) (rs : List Reply) (b : WriteBuffer) (bs cs : List WriteBuffer) (d' : CharDevice)
    → IsOwnedSession s
    → s.held ≡ bs ++ (b ∷ cs)
    → write_buffer_add rs s.device b ≡ some d'
    → Conserves s (record { device = d'; held = bs ++ cs })
adds-Conserves s rs b bs cs d' o split went =
    let d = s.device in
    let rest = AllOwned-middle d.clients bs cs b (subst (AllOwned d.clients) split o.held) in
    let (d2, ran, k, o1) = write_buffer_add-runs rs d b o.device rest.0 in
    let same : d2 ≡ d' = cc in
    let k' : Keeps (record d { write_queue = d.write_queue ++ (b ∷ []) }) d' =
      subst (Keeps (record d { write_queue = d.write_queue ++ (b ∷ []) })) same k in
    record {
      owned = λ o. record {
        device = k'.owners o1;
        held = SameClients-AllOwned d.clients d'.clients (bs ++ cs) k'.same rest.1;
      };
      same = k'.same;
      total = λ c o f h.
          let held = ap (prices c) split ∙ prices-middle c bs cs b in
          let added = prices-append c d.write_queue (b ∷ []) in
          omega (arith, held, added, k'.window c f (omega (arith, held, added)));
    }

-- What a request does, granted or not: the buffers on the device stay, a buffer that is returned
-- has its client, and the client has paid what it will give back.
record Asks (d d' : CharDevice) (o : Option WriteBuffer) : Type 0 where
  queue : d'.write_queue ≡ d.write_queue
  current : d'.cur_write_buf ≡ d.cur_write_buf
  same : SameClients d.clients d'.clients
  owned : CurrentIsOwned d'.clients o
  credit :
      (n : ℕ)
      → flow_of (find n d.clients) ≡ some true
      → credit_of (find n d.clients) < 2 ^ 64
      → credit_of (find n d'.clients) + price_of_current n o ≡ credit_of (find n d.clients)

get_for_client-Asks :
    (d : CharDevice) (c size : ℕ) (x : DevClient)
    → c ≢ 0
    → find c d.clients ≡ some x
    → Asks d (get_for_client d x size 0).0 (get_for_client d x size 0).1
unfolding get_for_client
get_for_client-Asks d c size x nz e =
    let named = find-client c d.clients x e in
    let at_name : find x.client d.clients ≡ some x = ap (λ t. find t d.clients) named ∙ e in
    let y : DevClient = record x { num_client_tokens = dec64 x.num_client_tokens } in
    let same = replace-SameClients x y d.clients at_name refl in
    record {
      queue = ground arith;
      current = ground arith;
      same = λ n. ground (arith, same n);
      owned = ground (arith, find-replace x.client y d.clients);
      credit = λ n f h. ground (arith, find-replace n y d.clients);
    }

write_buffer_get_client-Asks :
    (d d' : CharDevice) (c size : ℕ) (o : Option WriteBuffer)
    → write_buffer_get_client d c size ≡ some (d', o)
    → Asks d d' o
unfolding write_buffer_get_client write_buffer_get
write_buffer_get_client-Asks d d' c size o got = elim (Option-cases (find c d.clients)) [
  | inl missing ↦ record {
    queue = ground arith;
    current = ground arith;
    same = λ n. ground arith;
    owned = ground arith;
    credit = λ n f h. ground arith;
  }
  | inr (x, found) ↦
      let r = get_for_client d x size 0 in
      let went : r ≡ (d', o) = ground arith in
      subst (λ q. Asks d q.0 q.1) went (get_for_client-Asks d c size x (ground arith) found)
]

write_buffer_get_server-Asks :
    (d d' : CharDevice) (size : ℕ) (use_token : Bool) (o : Option WriteBuffer)
    → write_buffer_get_server d size use_token ≡ some (d', o)
    → Asks d d' o
unfolding write_buffer_get_server write_buffer_get
write_buffer_get_server-Asks d d' size use_token o got = record {
  queue = ground arith;
  current = ground arith;
  same = λ n. ground arith;
  owned = ground arith;
  credit = λ n f h. ground arith;
}

hold-AllOwned :
    (xs : List DevClient) (o : Option WriteBuffer) (bytes : List ℕ) (bs : List WriteBuffer)
    → CurrentIsOwned xs o
    → AllOwned xs bs
    → AllOwned xs (hold o bytes bs)
hold-AllOwned xs none bytes bs h hs = hs
hold-AllOwned xs (some b) bytes bs h hs = (h, hs)

prices-hold :
    (n : ℕ) (o : Option WriteBuffer) (bytes : List ℕ) (bs : List WriteBuffer)
    → prices n (hold o bytes bs) ≡ price_of_current n o + prices n bs
prices-hold n none bytes bs = omega arith
prices-hold n (some b) bytes bs = refl

gets-Conserves :
    (s : Session) (d' : CharDevice) (o : Option WriteBuffer) (bytes : List ℕ)
    → Asks s.device d' o
    → Conserves s (record { device = d'; held = hold o bytes s.held })
gets-Conserves s d' o bytes g = record {
  owned = λ w. record {
    device = record {
      current = rw g.current (
          SameClients-CurrentIsOwned s.device.clients d'.clients s.device.cur_write_buf g.same
            w.device.current);
      queue = rw g.queue (
          SameClients-AllOwned s.device.clients d'.clients s.device.write_queue g.same
            w.device.queue);
    };
    held =
        hold-AllOwned d'.clients o bytes s.held g.owned
          (SameClients-AllOwned s.device.clients d'.clients s.held g.same w.held);
  };
  same = g.same;
  total = λ n w f h. omega (
    arith,
    g.credit n f (omega arith),
    prices-hold n o bytes s.held,
    ap (price_of_current n) g.current,
    ap (prices n) g.queue,
  );
}

Step-Conserves : {s t : Session} → IsOwnedSession s → Step s t → Conserves s t
Step-Conserves w (gets s c size d' o bytes got) =
    gets-Conserves s d' o bytes (write_buffer_get_client-Asks s.device d' c size o got)
Step-Conserves w (gets_for_server s size use_token d' o bytes got) =
    gets-Conserves s d' o bytes (write_buffer_get_server-Asks s.device d' size use_token o got)
Step-Conserves o (adds s rs b bs cs d' split went) = adds-Conserves s rs b bs cs d' o split went
Step-Conserves o (releases s b bs cs d' split went) = releases-Conserves s b bs cs d' split went
Step-Conserves o (writes s rs r went) =
    let (r', ran, k) = write_to_device-runs rs s.device o.device in
    let same : r' ≡ r = cc in writes-Conserves s rs r went (subst (λ q. Keeps s.device q.0) same k)

-- Over any sequence of requests of clients and of the server, granted or refused, additions,
-- releases and writes from a session whose buffers all have their clients: that remains so, each client with flow control is still there, and the tokens
-- that it may still use, those that wait to be given back, and the prices of its buffers on the
-- device and in the users' hands make up the same sum as at the start, if that is below 2 ^ 64.
pub Steps-Conserves :
    {s t : Session} (c : ℕ)
    → IsOwnedSession s
    → flow_of (find c s.device.clients) ≡ some true
    → total_tokens c s < 2 ^ 64
    → Steps s t
    → IsOwnedSession t
      × (flow_of (find c t.device.clients) ≡ some true)
      × (total_tokens c t ≡ total_tokens c s)
Steps-Conserves c o f h here = (o, f, refl)
Steps-Conserves c o f h (next path st) =
    let (o1, f1, e) = Steps-Conserves c o f h path in
    let k = Step-Conserves o1 st in (k.owned o1, k.same c ∙ f1, k.total c o1 f1 (omega arith) ∙ e)

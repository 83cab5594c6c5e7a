-- ===== src/Dispatcher/Acks.antt =====
-- A sender that asked for an ack goes on when its message has been handled.
use spice.Prelude.{
  ℕ, ◌+◌, ◌-◌, ◌<◌, ◌≡◌, refl, sym, ap, subst, ◌∙◌, Bool, true, false, List, [], ◌∷◌, ◌++◌, length,
  append-nil, append_assoc, if◌then◌else◌, arith,
}
use spice.Dispatcher.{
  Message, Packet, Layout, Sender, unlocked, writing, awaiting, Receiver, at_header, at_payload,
  acking, Dispatch, new_dispatch, written, after_write, frame, after_header, after_payload, Step,
  locks, writes, returns, reads_header, reads_payload, handles, writes_ack, Steps, here, next,
}
use spice.Dispatcher.Ordering.{
  IsLayout, AllSized, held, rest, IsOrdered, locks-IsOrdered, writes-IsOrdered,
  reads_header-IsOrdered, reads_payload-IsOrdered, handles-IsOrdered,
}

head_of : {u v : Packet} {us vs : List Packet} → u ∷ us ≡ v ∷ vs → u ≡ v
head_of e = cc

tail_of : {u v : Packet} {us vs : List Packet} → u ∷ us ≡ v ∷ vs → us ≡ vs
tail_of e = cc

short : (us : List Packet) (u : Packet) → [] ≡ us ++ (u ∷ []) → ⊥
short [] u e = cc
short (v ∷ us) u e = cc

-- Equal lists end alike.
last_eq : (us vs : List Packet) (u v : Packet) → us ++ (u ∷ []) ≡ vs ++ (v ∷ []) → u ≡ v
last_eq [] [] u v e = head_of e
last_eq [] (y ∷ vs) u v e = absurd (short vs v (tail_of e))
last_eq (x ∷ us) [] u v e = absurd (short us u (sym (tail_of e)))
last_eq (x ∷ us) (y ∷ vs) u v e = last_eq us vs u v (tail_of e)

-- A list that is not empty has a last element.
init_last :
    (p : Packet) (ps : List Packet)
    → (init : List Packet) × (z : Packet) × (p ∷ ps ≡ init ++ (z ∷ []))
init_last p [] = ([], p, refl)
init_last p (q ∷ ps) = let (init, z, e) = init_last q ps in (p ∷ init, z, ap (λ r. p ∷ r) e)

module _ (w : Layout) (a : IsLayout w) where
  -- The acks that are still to come: of messages that fly, of one that is written, and on the way.
  abbrev asked : List Packet → ℕ
  asked [] = 0
  asked (p ∷ ps) = if p.message.ack then 1 + asked ps else asked ps

  abbrev pending : Receiver → ℕ
  pending acking = 1
  pending _ = 0

  abbrev waited : Sender → ℕ
  waited unlocked = 0
  waited (writing p bs) = if p.message.ack then 1 else 0
  waited (awaiting p) = 1

  asked-snoc : (ps : List Packet) (p : Packet) → asked (ps ++ (p ∷ [])) ≡ asked ps + asked (p ∷ [])
  asked-snoc [] p = omega arith
  asked-snoc (q ∷ ps) p = ground (arith, asked-snoc ps p)

  -- The thread that sends is about the last message sent.
  IsLast : Sender → List Packet → Type 0
  IsLast unlocked sent = Unit {0}
  IsLast (writing p bs) sent = (front : List Packet) × (sent ≡ front ++ (p ∷ []))
  IsLast (awaiting p) sent =
      (front : List Packet) × (sent ≡ front ++ (p ∷ [])) × (p.message.ack ≡ true)

  record IsServed (s : Dispatch) : Type 0 where
    flying : List Packet
    ordered : IsOrdered w s flying
    owed : asked flying + pending s.receiver + s.acks ≡ waited s.sender
    last : IsLast s.sender s.sent

  waited-written : (p : Packet) → waited (written p) ≡ (if p.message.ack then 1 else 0)
  waited-written p = ground arith

  waited-after :
      (p : Packet) (bs : List ℕ) → waited (after_write p bs) ≡ (if p.message.ack then 1 else 0)
  waited-after p [] = waited-written p
  waited-after p (b ∷ bs) = refl

  IsLast-written :
      (b : Bool) (p : Packet) (sent front : List Packet)
      → sent ≡ front ++ (p ∷ [])
      → p.message.ack ≡ b
      → IsLast (if b then awaiting p else unlocked) sent
  unfolding IsLast
  IsLast-written true p sent front e h = (front, e, h)
  IsLast-written false p sent front e h = tt

  IsLast-after :
      (p : Packet) (bs : List ℕ) (sent front : List Packet)
      → sent ≡ front ++ (p ∷ [])
      → IsLast (after_write p bs) sent
  unfolding IsLast
  IsLast-after p [] sent front e = IsLast-written p.message.ack p sent front e refl
  IsLast-after p (b ∷ bs) sent front e = (front, e)

  pending-header : (bs : List ℕ) → pending (after_header w bs) ≡ 0
  pending-header bs = ground arith

  pending-payload : (m : Message) → pending (after_payload w m) ≡ (if m.ack then 1 else 0)
  pending-payload m = ground arith

  IsLast-writing :
      (s : Sender) (sent : List Packet) (p : Packet) (bs : List ℕ)
      → s ≡ writing p bs
      → IsLast s sent
      → (front : List Packet) × (sent ≡ front ++ (p ∷ []))
  unfolding IsLast
  IsLast-writing s sent p bs e l = subst (λ z. IsLast z sent) e l

  locks-IsServed :
      (s : Dispatch) (p : Packet)
      → s.sender ≡ unlocked
      → length p.payload ≡ p.message.size
      → IsServed s
      → IsServed (record s { sender = writing p (frame w p); sent = s.sent ++ (p ∷ []) })
  unfolding IsLast
  locks-IsServed s p e h q =
      let n = q.owed ∙ ap waited e in
      record {
        flying = q.flying ++ (p ∷ []);
        ordered = locks-IsOrdered w s p q.flying e h q.ordered;
        owed = ground (arith, asked-snoc q.flying p, n);
        last = (s.sent, refl);
      }

  writes-IsServed :
      (s : Dispatch) (p : Packet) (bs cs : List ℕ)
      → s.sender ≡ writing p (bs ++ cs)
      → IsServed s
      → IsServed (record s { sender = after_write p cs; wire = s.wire ++ bs })
  writes-IsServed s p bs cs e q =
      let (front, f) = IsLast-writing s.sender s.sent p (bs ++ cs) e q.last in
      record {
        flying = q.flying;
        ordered = writes-IsOrdered w s p bs cs q.flying e q.ordered;
        owed = q.owed ∙ ap waited e ∙ sym (waited-after p cs);
        last = IsLast-after p cs s.sent front f;
      }

  returns-IsServed :
      (s : Dispatch) (p : Packet)
      → s.sender ≡ awaiting p
      → 0 < s.acks
      → IsServed s
      → IsServed (record s { sender = unlocked; acks = s.acks - 1 })
  unfolding IsLast
  returns-IsServed s p e h q =
      let n = q.owed ∙ ap waited e in
      record {
        flying = q.flying;
        ordered = record {
          order = q.ordered.order;
          sized = q.ordered.sized;
          bytes = ap (λ z. held w s.receiver ++ (s.wire ++ rest w z)) (sym e) ∙ q.ordered.bytes;
        };
        owed = omega (arith, n, h);
        last = tt;
      }

  reads_header-IsServed :
      (s : Dispatch) (got bs cs : List ℕ)
      → s.receiver ≡ at_header got
      → s.wire ≡ bs ++ cs
      → IsServed s
      → IsServed (record s { receiver = after_header w (got ++ bs); wire = cs })
  reads_header-IsServed s got bs cs e f q = record {
    flying = q.flying;
    ordered = reads_header-IsOrdered w a s got bs cs q.flying e f q.ordered;
    owed =
        ap (λ z. asked q.flying + z + s.acks) (pending-header (got ++ bs) ∙ ap pending (sym e))
        ∙ q.owed;
    last = q.last;
  }

  reads_payload-IsServed :
      (s : Dispatch) (m : Message) (got bs cs : List ℕ)
      → s.receiver ≡ at_payload m got
      → s.wire ≡ bs ++ cs
      → IsServed s
      → IsServed (record s { receiver = at_payload m (got ++ bs); wire = cs })
  reads_payload-IsServed s m got bs cs e f q = record {
    flying = q.flying;
    ordered = reads_payload-IsOrdered w a s m got bs cs q.flying e f q.ordered;
    owed = ap (λ z. asked q.flying + z + s.acks) (ap pending (sym e)) ∙ q.owed;
    last = q.last;
  }

  handles-IsServed :
      (s : Dispatch) (m : Message) (got : List ℕ)
      → s.receiver ≡ at_payload m got
      → length got ≡ m.size
      → IsServed s
      → IsServed (record s {
        receiver = after_payload w m;
        handled = s.handled ++ (record { message = m; payload = got } ∷ []);
      })
  handles-IsServed s m got e h q =
      let (qs, first, o) = handles-IsOrdered w a s m got q.flying e h q.ordered in
      let n = ap (λ z. asked q.flying + z + s.acks) (ap pending (sym e)) ∙ q.owed in
      let k = ap asked first in
      record { flying = qs; ordered = o; owed = ground (arith, n, k); last = q.last }

  writes_ack-IsServed :
      (s : Dispatch)
      → s.receiver ≡ acking
      → IsServed s
      → IsServed (record s { receiver = at_header []; acks = s.acks + 1 })
  writes_ack-IsServed s e q =
      let n = ap (λ z. asked q.flying + z + s.acks) (ap pending (sym e)) ∙ q.owed in
      record {
        flying = q.flying;
        ordered = record {
          order = q.ordered.order;
          sized = q.ordered.sized;
          bytes = ap (λ z. held w z ++ (s.wire ++ rest w s.sender)) (sym e) ∙ q.ordered.bytes;
        };
        owed = omega (arith, n);
        last = q.last;
      }

  Step-IsServed : (s t : Dispatch) → Step w s t → IsServed s → IsServed t
  Step-IsServed s t (locks _ p e h) q = locks-IsServed s p e h q
  Step-IsServed s t (writes _ p bs cs e) q = writes-IsServed s p bs cs e q
  Step-IsServed s t (returns _ p e h) q = returns-IsServed s p e h q
  Step-IsServed s t (reads_header _ got bs cs e f h) q = reads_header-IsServed s got bs cs e f q
  Step-IsServed s t (reads_payload _ m got bs cs e f h) q =
      reads_payload-IsServed s m got bs cs e f q
  Step-IsServed s t (handles _ m got e h) q = handles-IsServed s m got e h q
  Step-IsServed s t (writes_ack _ e) q = writes_ack-IsServed s e q

  Steps-IsServed : (s t : Dispatch) → Steps w s t → IsServed s → IsServed t
  Steps-IsServed s t (here _) q = q
  Steps-IsServed s t (next _ u _ us x) q = Step-IsServed u t x (Steps-IsServed s u us q)

  new-IsServed : IsServed new_dispatch
  unfolding AllSized IsLast
  new-IsServed = record {
    flying = [];
    ordered = record { order = refl; sized = tt; bytes = refl };
    owed = omega arith;
    last = tt;
  }

  -- With headers of one size that are read back as written, however the senders and the receiver
  -- are interleaved and their writes and reads split the bytes, the messages that were given to
  -- their handlers are the first of those sent, in the order of sending, with the payloads that
  -- were sent.
  pub Steps-ordered :
      (s : Dispatch)
      → Steps w new_dispatch s
      → (flying : List Packet) × (s.sent ≡ s.handled ++ flying)
  Steps-ordered s us =
      let q = Steps-IsServed new_dispatch s us new-IsServed in (q.flying, q.ordered.order)

  ack_last :
      (handled flying front : List Packet) (p : Packet)
      → handled ++ flying ≡ front ++ (p ∷ [])
      → p.message.ack ≡ true
      → asked flying ≡ 0
      → flying ≡ []
  ack_last handled [] front p e h n = refl
  ack_last handled (x ∷ xs) front p e h n =
      let (init, z, k) = init_last x xs in
      let same : z ≡ p =
        last_eq (handled ++ init) front z p
          (append_assoc handled init (z ∷ []) ∙ ap (λ r. handled ++ r) (sym k) ∙ e) in
      let m = ap asked k ∙ asked-snoc init z in
      let c : z.message.ack ≡ true = ap (λ r. r.message.ack) same ∙ h in
      absurd (ground (arith, m, n, c))

  IsLast-awaiting :
      (s : Sender) (sent : List Packet) (p : Packet)
      → s ≡ awaiting p
      → IsLast s sent
      → (front : List Packet) × (sent ≡ front ++ (p ∷ [])) × (p.message.ack ≡ true)
  unfolding IsLast
  IsLast-awaiting s sent p e l = subst (λ z. IsLast z sent) e l

  -- With headers of one size that are read back as written, when the ack has come that a sender
  -- waits for, every message that was sent, its own with them, has been given to its handler.
  pub ack-handled :
      (s : Dispatch) (p : Packet)
      → Steps w new_dispatch s
      → s.sender ≡ awaiting p
      → 0 < s.acks
      → s.handled ≡ s.sent
  ack-handled s p us e h =
      let q = Steps-IsServed new_dispatch s us new-IsServed in
      let (front, l, c) = IsLast-awaiting s.sender s.sent p e q.last in
      let n = q.owed ∙ ap waited e in
      let gone =
        ack_last s.handled q.flying front p (sym q.ordered.order ∙ l) c (omega (arith, n, h)) in
      sym (q.ordered.order ∙ ap (λ z. s.handled ++ z) gone ∙ append-nil s.handled)

-- ===== src/Dispatcher.antt =====
-- server/dispatcher.cpp: messages from any thread to the one that serves a dispatcher. The senders take
-- turns under a lock; a sender and the receiver run side by side, so what they do is a step
-- relation, in which a write or a read moves some bytes of those that are asked for.
use spice.Prelude.{
  ℕ, ◌+◌, ◌-◌, ◌<◌, ◌≡◌, Bool, true, false, List, [], ◌∷◌, ◌++◌, length, take, drop, ◌==◌,
  if◌then◌else◌,
}
pub mod Ordering
pub mod Acks
mod Tests

-- `DispatcherMessage`, with a number for its handler.
pub record Message : Type 0 where
  pub handler : ℕ
  pub size : ℕ
  pub message_type : ℕ
  pub ack : Bool

-- A message and its payload.
pub record Packet : Type 0 where
  pub message : Message
  pub payload : List ℕ

-- How the compiler lays out a `DispatcherMessage`.
pub record Layout : Type 0 where
  pub header_size : ℕ
  pub encode : Message → List ℕ
  pub decode : List ℕ → Message

-- The thread that holds the lock: none, one that has bytes to write, or one that waits for its ack.
pub data Sender : Type 0 where
  unlocked : Sender
  writing : Packet → List ℕ → Sender
  awaiting : Packet → Sender

-- The thread that reads: in a header, in a payload, or with an ack to write.
pub data Receiver : Type 0 where
  at_header : List ℕ → Receiver
  at_payload : Message → List ℕ → Receiver
  acking : Receiver

-- `wire` are the bytes from `send_fd` to `recv_fd`, and `acks` counts the acks on the way back. `sent`
-- collects the messages whose sending began, and `handled` those given to their handlers.
pub record Dispatch : Type 0 where
  pub sender : Sender
  pub receiver : Receiver
  pub wire : List ℕ
  pub acks : ℕ
  pub sent : List Packet
  pub handled : List Packet

abbrev pub new_dispatch : Dispatch
new_dispatch = record {
  sender = unlocked;
  receiver = at_header [];
  wire = [];
  acks = 0;
  sent = [];
  handled = [];
}

-- The end of `write_safe` for the payload: the ack is awaited, or the lock is given back.
abbrev pub written : Packet → Sender
written p = if p.message.ack then awaiting p else unlocked

abbrev pub after_write : Packet → List ℕ → Sender
after_write p [] = written p
after_write p (b ∷ bs) = writing p (b ∷ bs)

module _ (w : Layout) where
  -- What `send_message` writes for a message.
  abbrev pub frame : Packet → List ℕ
  frame p = w.encode p.message ++ p.payload

  -- The end of `read_safe` for the header.
  abbrev pub after_header : List ℕ → Receiver
  after_header bs = if length bs == w.header_size then at_payload (w.decode bs) [] else at_header bs

  -- The end of `handle_single_read`: after the handler, the ack if one is asked for.
  abbrev pub after_payload : Message → Receiver
  after_payload m = if m.ack then acking else at_header []

  -- `DispatcherPrivate::send_message`, `write_safe`, `read_safe` and `handle_single_read`, step by step,
  -- as long as neither socket fails.
  pub data Step : Dispatch → Dispatch → Type 0 where
    locks :
        (s : Dispatch) (p : Packet)
        → s.sender ≡ unlocked
        → length p.payload ≡ p.message.size
        → Step s (record s { sender = writing p (frame p); sent = s.sent ++ (p ∷ []) })
    writes :
        (s : Dispatch) (p : Packet) (bs cs : List ℕ)
        → s.sender ≡ writing p (bs ++ cs)
        → Step s (record s { sender = after_write p cs; wire = s.wire ++ bs })
    returns :
        (s : Dispatch) (p : Packet)
        → s.sender ≡ awaiting p
        → 0 < s.acks
        → Step s (record s { sender = unlocked; acks = s.acks - 1 })
    reads_header :
        (s : Dispatch) (got bs cs : List ℕ)
        → s.receiver ≡ at_header got
        → s.wire ≡ bs ++ cs
        → length got + length bs < w.header_size + 1
        → Step s (record s { receiver = after_header (got ++ bs); wire = cs })
    reads_payload :
        (s : Dispatch) (m : Message) (got bs cs : List ℕ)
        → s.receiver ≡ at_payload m got
        → s.wire ≡ bs ++ cs
        → length got + length bs < m.size + 1
        → Step s (record s { receiver = at_payload m (got ++ bs); wire = cs })
    handles :
        (s : Dispatch) (m : Message) (got : List ℕ)
        → s.receiver ≡ at_payload m got
        → length got ≡ m.size
        → Step s (record s {
          receiver = after_payload m;
          handled = s.handled ++ (record { message = m; payload = got } ∷ []);
        })
    writes_ack :
        (s : Dispatch)
        → s.receiver ≡ acking
        → Step s (record s { receiver = at_header []; acks = s.acks + 1 })

  pub data Steps : Dispatch → Dispatch → Type 0 where
    here : (s : Dispatch) → Steps s s
    next : (s t u : Dispatch) → Steps s t → Step t u → Steps s u

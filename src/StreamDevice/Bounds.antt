-- ===== src/StreamDevice/Bounds.antt =====
-- A read into the message buffer stays inside it, and what a handler has to show of the buffers.
use spice.Prelude.{
  ℕ, ◌+◌, ◌-◌, ◌≤◌, ◌≡◌, ◌⊎◌, refl, ap, ◌∙◌, inl, inr, true, Option, some, List, [], ◌∷◌, ◌++◌,
  length, length-append, length-take, length-drop, arith,
}
use spice.StreamDevice.State.{
  StreamProtocol, StreamDevice, Answer, bytes, failure, read, brought, receive,
}
use spice.StreamDevice.Messages.{Outcome}

-- The bytes that the device at the other end has ready.
abbrev pub pending : List Answer → ℕ
pending [] = 0
pending (bytes c ∷ ans) = length c + pending ans
pending (failure ∷ ans) = pending ans

-- A read of at most `len` bytes brings no more, and takes from the answers what it brings.
pub read_bounds :
    (len : ℕ) (ans : List Answer)
    → (length (brought (read len ans).0) ≤ len)
      × (pending (read len ans).1 + length (brought (read len ans).0) ≡ pending ans)
unfolding read
read_bounds len [] = ground arith
read_bounds len (failure ∷ ans) = ground arith
read_bounds len (bytes c ∷ ans) = ground (arith, length-take len c, length-drop len c)

-- What a handler leaves: an error, or a message that has not outgrown its size and its buffer.
pub record Handled (p : StreamProtocol) (size : ℕ) (d : StreamDevice) (ans : List Answer)
    (o : Outcome) : Type 0 where
  pub room : p.messages_size ≤ o.0.msg_len
  pub hdr : o.0.hdr ≡ d.hdr
  pub inside : (o.0.has_error ≡ true) ⊎ ((length o.0.msg ≤ size) × (size ≤ o.0.msg_len))
  pub input : pending o.1 ≤ pending ans

-- A read into the message, where there is room for it.
pub record Received (least size : ℕ) (hdr : List ℕ) (before : ℕ) (d : StreamDevice)
    (ans : List Answer) : Type 0 where
  pub room : least ≤ d.msg_len
  pub hdr_same : d.hdr ≡ hdr
  pub short : length d.msg ≤ size
  pub fits : size ≤ d.msg_len
  pub input : pending ans ≤ before

pub receive-runs :
    (least size : ℕ) (d : StreamDevice) (ans : List Answer)
    → least ≤ d.msg_len
    → length d.msg ≤ size
    → size ≤ d.msg_len
    → (r : Option (List ℕ) × StreamDevice × List Answer) × (receive size d ans ≡ some r)
      × Received least size d.hdr (pending ans) r.1 r.2
unfolding receive
receive-runs least size d ans room h k =
    let (short, input) = read_bounds (size - length d.msg) ans in
    let n = (read (size - length d.msg) ans).0 in
    let grown = length-append d.msg (brought n) in
    (
      (n, record d { msg = d.msg ++ brought n }, (read (size - length d.msg) ans).1),
      ground arith,
      record {
        room = room;
        hdr_same = refl;
        short = omega (arith, short, grown);
        fits = k;
        input = omega (arith, input);
      },
    )

-- What a handler does behind the read keeps the buffer.
abbrev pub SameBuffer : StreamDevice → StreamDevice → Type 0
SameBuffer d d' = (d'.msg_len ≡ d.msg_len) × (d'.msg ≡ d.msg) × (d'.hdr ≡ d.hdr)

module _ (p : StreamProtocol) (size : ℕ) (d : StreamDevice) (ans : List Answer)
    (room : p.messages_size ≤ d.msg_len) where
  -- An error found before the read.
  pub refused-Handled :
      (o : Outcome)
      → o.0.has_error ≡ true
      → o.0.msg_len ≡ d.msg_len
      → o.0.hdr ≡ d.hdr
      → o.1 ≡ ans
      → Handled p size d ans o
  refused-Handled o error len hdr rest = record {
    room = omega (arith, len, room);
    hdr = hdr;
    inside = inl error;
    input = omega (arith, ap pending rest);
  }

  pub read-Handled :
      (d1 : StreamDevice) (rest : List Answer) (o : Outcome)
      → Received p.messages_size size d.hdr (pending ans) d1 rest
      → SameBuffer d1 o.0
      → o.1 ≡ rest
      → Handled p size d ans o
  read-Handled d1 rest o t same left = record {
    room = omega (arith, same.0, t.room);
    hdr = same.2 ∙ t.hdr_same;
    inside = inr (omega (arith, ap length same.1, t.short), omega (arith, same.0, t.fits));
    input = omega (arith, ap pending left, t.input);
  }

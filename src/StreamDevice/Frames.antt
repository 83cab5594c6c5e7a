-- ===== src/StreamDevice/Frames.antt =====
-- A video frame that arrives in pieces reaches the stream channel whole, once, and with its time.
use spice.Prelude.{
  ℕ, ◌+◌, ◌*◌, ◌≤◌, ◌<◌, ◌≡◌, ◌≢◌, refl, ap, ◌∙◌, true, false, Option, some, List, [], ◌∷◌, ◌++◌,
  not, ◌||◌, length, length-append, append-nil, append_assoc, arith, ◌==◌, ◌>>=◌, if◌then◌else◌,
}
use spice.StreamDevice.State.{
  Header, StreamProtocol, StreamDevice, Answer, bytes, send_data, read, receive, log,
}
use spice.StreamDevice.Messages.{Outcome, begin_frame, handle_msg_data}
use spice.StreamDevice.Reader.{
  read_header_loop, read_message, handle, finish, finish_message, partial_read,
}
use spice.StreamDevice.Safety.{partial_read-reads, read_message-whole}

-- One call of `partial_read` for each piece, with the time of the call.
unfoldable pub feed : StreamProtocol → StreamDevice → List (ℕ × List ℕ) → Option StreamDevice
feed p d [] = some d
feed p d (c ∷ cs) = partial_read p c.0 d (bytes c.1 ∷ []) >>= λ o. feed p o.0 cs

-- The pieces put together.
abbrev pub joined : List (ℕ × List ℕ) → List ℕ
joined [] = []
joined (c ∷ cs) = c.1 ++ joined cs

-- No piece is empty.
abbrev pub AllFilled : List (ℕ × List ℕ) → Type 0
AllFilled [] = Unit {0}
AllFilled (c ∷ cs) = (0 < length c.1) × AllFilled cs

-- The time of the frame: of the call that brings the first bytes.
abbrev pub frame_time : StreamDevice → List (ℕ × List ℕ) → ℕ
frame_time d [] = d.frame_mmtime
frame_time d (c ∷ cs) = if length d.msg == 0 then c.0 else d.frame_mmtime

-- The device is inside a data message of this size, and reads.
pub record InFrame (p : StreamProtocol) (size : ℕ) (d : StreamDevice) : Type 0 where
  pub fine : d.has_error ≡ false
  pub runs : d.flow_stopped || not d.has_channels ≡ false
  pub whole : length d.hdr ≡ p.header_size
  pub kind : (p.read_header d.hdr).kind ≡ p.type_data
  pub size_read : (p.read_header d.hdr).size ≡ size
  pub small : size ≤ 32 * 1024 * 1024
  pub fits : 0 < length d.msg → size ≤ d.msg_len

-- What a sent frame leaves: the frame is the one new call, and the device waits for a header.
pub record Sent (d d' : StreamDevice) (frame : List ℕ) (time : ℕ) : Type 0 where
  pub events : d'.events ≡ d.events ++ (send_data frame time ∷ [])
  pub hdr : d'.hdr ≡ []
  pub fine : d'.has_error ≡ false

module _ (p : StreamProtocol) (not_format : p.type_data ≢ p.type_format)
    (not_info : p.type_data ≢ p.type_device_display_info) where
  handle-data :
      (now : ℕ) (h : Header) (d : StreamDevice) (ans : List Answer)
      → h.kind ≡ p.type_data
      → h.size ≤ 32 * 1024 * 1024
      → handle p now h d ans ≡ handle_msg_data p now h.size d ans
  unfolding handle
  handle-data now h d ans k s = ground arith

  read_header_loop_complete :
      (d : StreamDevice) (ans : List Answer)
      → length d.hdr ≡ p.header_size
      → read_header_loop p d ans ≡ (d, ans, true)
  unfolding read_header_loop
  read_header_loop_complete d [] h = ground arith
  read_header_loop_complete d (a ∷ ans) h = ground arith

  -- A turn inside a frame is the handler of data.
  partial_read-data :
      (now size : ℕ) (d : StreamDevice) (ans : List Answer) (o : Outcome)
      → InFrame p size d
      → handle_msg_data p now size d ans ≡ some o
      → partial_read p now d ans ≡ some (finish p o)
  partial_read-data now size d ans o f ends =
      partial_read-reads p now d ans f.fine f.runs
      ∙ ap (read_message p now) (read_header_loop_complete d ans f.whole)
      ∙ read_message-whole p now (d, ans, true) o refl
          (handle-data now (p.read_header d.hdr) d ans f.kind (omega (arith, f.size_read, f.small))
            ∙ ap (λ k. handle_msg_data p now k d ans) f.size_read
            ∙ ends)

  -- A piece that does not complete the frame, and one that does.
  handle_msg_data-piece :
      (now size : ℕ) (d : StreamDevice) (c : List ℕ)
      → 0 < length c
      → length d.msg + length c < size
      → (0 < length d.msg → size ≤ d.msg_len)
      → handle_msg_data p now size d (bytes c ∷ [])
        ≡ some (record (begin_frame p now size d) { msg = d.msg ++ c }, [], false)
  unfolding handle_msg_data receive read
  handle_msg_data-piece now size d [] pos more fits = absurd (omega (arith, pos))
  handle_msg_data-piece now size d (x ∷ c) pos more fits =
      ground (arith, length-append d.msg (x ∷ c))

  handle_msg_data-last :
      (now size : ℕ) (d : StreamDevice) (c : List ℕ)
      → 0 < length c
      → length d.msg + length c ≡ size
      → (0 < length d.msg → size ≤ d.msg_len)
      → let d' : StreamDevice = record (begin_frame p now size d) { msg = d.msg ++ c } in
        handle_msg_data p now size d (bytes c ∷ [])
        ≡ some (log d' (send_data d'.msg d'.frame_mmtime), [], true)
  unfolding handle_msg_data receive read
  handle_msg_data-last now size d [] pos all fits = absurd (omega (arith, pos))
  handle_msg_data-last now size d (x ∷ c) pos all fits = ground (arith, length-append d.msg (x ∷ c))

  hdr_kept : (now size : ℕ) (d : StreamDevice) → (begin_frame p now size d).hdr ≡ d.hdr
  hdr_kept now size d = ground arith

  Sent-shift :
      (d d1 d' : StreamDevice) (m m' : List ℕ) (t t' : ℕ)
      → d1.events ≡ d.events
      → m ≡ m'
      → t ≡ t'
      → Sent d1 d' m t
      → Sent d d' m' t'
  Sent-shift d d1 d' m m' t t' e f g s = record {
    events = cc (e, f, g, s.events);
    hdr = s.hdr;
    fine = s.fine;
  }

  pieces-Sent :
      (size : ℕ) (d : StreamDevice) (c : ℕ × List ℕ) (cs : List (ℕ × List ℕ))
      → InFrame p size d
      → AllFilled (c ∷ cs)
      → length d.msg + length (joined (c ∷ cs)) ≡ size
      → (d' : StreamDevice) × (feed p d (c ∷ cs) ≡ some d')
        × Sent d d' (d.msg ++ joined (c ∷ cs)) (frame_time d (c ∷ cs))
  unfolding feed
  pieces-Sent size d c [] f pos all =
      let d1 : StreamDevice = record (begin_frame p c.0 size d) { msg = d.msg ++ c.1 } in
      let sent : StreamDevice = log d1 (send_data d1.msg d1.frame_mmtime) in
      let whole = append-nil c.1 in
      let turn =
        partial_read-data c.0 size d (bytes c.1 ∷ []) (sent, [], true) f
          (handle_msg_data-last c.0 size d c.1 pos.0 (omega (arith, all, ap length whole))
            f.fits) in
      (
        finish_message p sent,
        rw turn refl,
        record { events = rw whole (ground arith); hdr = refl; fine = ground (arith, f.fine) },
      )
  pieces-Sent size d c (c' ∷ cs) f pos all =
      let d1 : StreamDevice = record (begin_frame p c.0 size d) { msg = d.msg ++ c.1 } in
      let tail = joined (c' ∷ cs) in
      let split = length-append c.1 tail in
      let grown = length-append d.msg c.1 in
      let next : 0 < length tail = omega (arith, pos.1.0, length-append c'.1 (joined cs)) in
      let turn =
        partial_read-data c.0 size d (bytes c.1 ∷ []) (d1, [], false) f
          (handle_msg_data-piece c.0 size d c.1 pos.0 (omega (arith, all, split, next)) f.fits) in
      let f1 : InFrame p size d1 = record {
        fine = ground (arith, f.fine);
        runs = ground (arith, f.runs);
        whole = ground (arith, f.whole);
        kind = ap (λ h. (p.read_header h).kind) (hdr_kept c.0 size d) ∙ f.kind;
        size_read = ap (λ h. (p.read_header h).size) (hdr_kept c.0 size d) ∙ f.size_read;
        small = f.small;
        fits = λ k. ground (arith, f.fits);
      } in
      let (d', ran, sent) = pieces-Sent size d1 c' cs f1 pos.1 (omega (arith, all, split, grown)) in
      (
        d',
        rw turn ran,
        Sent-shift d d1 d' _ _ _ _ (ground arith) (append_assoc d.msg c.1 tail)
            (ground (arith, grown, pos.0)) sent,
      )

  read_header_loop-one :
      (d : StreamDevice) (h : List ℕ)
      → d.hdr ≡ []
      → 0 < length h
      → length h ≡ p.header_size
      → read_header_loop p d (bytes h ∷ []) ≡ (record d { hdr = h; msg = [] }, [], true)
  unfolding read_header_loop read
  read_header_loop-one d [] idle pos len = absurd (omega (arith, pos))
  read_header_loop-one d (x ∷ h) idle pos len = ground (arith, idle, len)

  handle_msg_data-nothing :
      (now size : ℕ) (d : StreamDevice)
      → d.msg ≡ []
      → 0 < size
      → handle_msg_data p now size d [] ≡ some (begin_frame p now size d, [], false)
  unfolding handle_msg_data receive read
  handle_msg_data-nothing now size d empty pos = ground (arith, empty)

  -- A data message of at most 32 MiB, whose header is read in one piece while the device waits for
  -- one and is neither stopped nor in error, and whose payload then comes in any pieces that are not
  -- empty, over as many calls: the channel gets the payload as one frame, exactly once, with the
  -- time of the call that brought its first bytes, and the device waits for the next header. The
  -- type of data differs from the two types that are tested before it.
  pub frame-Sent :
      (now : ℕ) (h : List ℕ) (d : StreamDevice) (c : ℕ × List ℕ) (cs : List (ℕ × List ℕ))
      → d.hdr ≡ []
      → d.has_error ≡ false
      → d.flow_stopped || not d.has_channels ≡ false
      → 0 < length h
      → length h ≡ p.header_size
      → (p.read_header h).kind ≡ p.type_data
      → (p.read_header h).size ≤ 32 * 1024 * 1024
      → AllFilled (c ∷ cs)
      → length (joined (c ∷ cs)) ≡ (p.read_header h).size
      → (d' : StreamDevice) × (feed p d ((now, h) ∷ c ∷ cs) ≡ some d')
        × Sent d d' (joined (c ∷ cs)) c.0
  unfolding feed
  frame-Sent now h d c cs idle fine runs pos len kind small filled all =
      let size = (p.read_header h).size in
      let d1 : StreamDevice = record d { hdr = h; msg = [] } in
      let d2 = begin_frame p now size d1 in
      let first = length-append c.1 (joined cs) in
      let turn : partial_read p now d (bytes h ∷ []) ≡ some (finish p (d2, [], false)) =
        partial_read-reads p now d (bytes h ∷ []) fine runs
        ∙ ap (read_message p now) (read_header_loop-one d h idle pos len)
        ∙ read_message-whole p now (d1, [], true) (d2, [], false) refl
            (handle-data now (p.read_header h) d1 [] kind small
              ∙ handle_msg_data-nothing now size d1 refl (omega (arith, all, first, filled.0))) in
      let hdr = hdr_kept now size d1 in
      let inside : InFrame p size d2 = record {
        fine = ground (arith, fine);
        runs = ground (arith, runs);
        whole = ap length hdr ∙ len;
        kind = ap (λ k. (p.read_header k).kind) hdr ∙ kind;
        size_read = ap (λ k. (p.read_header k).size) hdr;
        small = small;
        fits = λ k. ground arith;
      } in
      let empty : d2.msg ≡ [] = ground arith in
      let (d', ran, sent) =
        pieces-Sent size d2 c cs inside filled (omega (arith, ap length empty, all)) in
      (
        d',
        rw turn ran,
        Sent-shift d d2 d' _ _ _ _ (ground arith) (ap (λ m. m ++ joined (c ∷ cs)) empty)
            (ground (arith, empty)) sent,
      )

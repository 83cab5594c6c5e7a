-- ===== src/StreamDevice/History.antt =====
-- Histories of a stream device.
use spice.Prelude.{
  ℕ, ◌+◌, ◌≤◌, ◌≡◌, refl, sym, ap, ◌∙◌, Option, some, List, [], ◌∷◌, ◌>>=◌, length, arith,
}
use spice.StreamDevice.State.{StreamProtocol, IsStreamProtocol, StreamDevice, Answer}
use spice.StreamDevice.Reader.{read_one_msg_from_device}
use spice.StreamDevice.Port.{
  PortEvent, port_opened, port_closed, other_event, port_event, stream_queue_stat,
  stream_device_connect, close_timer_func, stream_start,
}
use spice.StreamDevice.Bounds.{pending}
use spice.StreamDevice.Framing.{IsSound}
use spice.StreamDevice.Safety.{read_one_msg-runs}

-- What happens to a device: it becomes readable, with the device's answers, its port is opened or
-- closed, the stream channel reports its queue, the timer runs out, or a stream starts.
pub data Input : Type 0 where
  readable : (ℕ → ℕ) → List Answer → Input
  port : PortEvent → Input
  queue_stat : ℕ → Input
  timer : Input
  start : List ℕ → Input

-- The handler of each.
unfoldable pub step : StreamProtocol → StreamDevice → Input → Option StreamDevice
step p d (readable clock ans) =
    read_one_msg_from_device p clock (pending ans + length d.hdr + 2) d ans >>= λ o. some o.0
step p d (port e) = some (port_event p e d)
step p d (queue_stat n) = some (stream_queue_stat n d)
step p d timer = some (close_timer_func d)
step p d (start codecs) = some (stream_start codecs d)

unfoldable pub run : StreamProtocol → StreamDevice → List Input → Option StreamDevice
run p d [] = some d
run p d (i ∷ is) = step p d i >>= λ d'. run p d' is

module _ (p : StreamProtocol) (v : IsStreamProtocol p) where
  -- The buffers matter, and the error.
  IsSound-same :
      {d d' : StreamDevice}
      → IsSound p d
      → d'.hdr ≡ d.hdr
      → d'.msg ≡ d.msg
      → d'.msg_len ≡ d.msg_len
      → d'.has_error ≡ d.has_error
      → IsSound p d'
  IsSound-same {d} {d'} s h m l e = record {
    hdr_fits = omega (arith, ap length h, s.hdr_fits);
    room = omega (arith, l, s.room);
    inside = λ f g.
        let (short, fits) = s.inside (sym e ∙ f) (ap length (sym h) ∙ g) in
        let size = ap (λ k. (p.read_header k).size) h in
        (
          omega (arith, size, ap length m, l, short),
          λ k. omega (arith, size, l, fits (omega (arith, ap length m, k))),
        );
  }

  -- A device that waits for a header.
  IsSound-idle : {d : StreamDevice} → d.hdr ≡ [] → p.messages_size ≤ d.msg_len → IsSound p d
  IsSound-idle {d} h room = record {
    hdr_fits = omega (arith, ap length h);
    room = room;
    inside = λ e f. absurd (omega (arith, ap length h, f, v.header_pos));
  }

  step-runs :
      (d : StreamDevice) (i : Input)
      → IsSound p d
      → (d' : StreamDevice) × (step p d i ≡ some d') × IsSound p d'
  unfolding step port_event stream_queue_stat close_timer_func stream_start
  step-runs d (readable clock ans) s =
      let (o, ran, t) =
        read_one_msg-runs p v clock (pending ans + length d.hdr + 2) d ans s (omega arith) in
      (o.0, rw ran refl, t)
  step-runs d (port port_opened) s = (_, refl, IsSound-idle (ground arith) (ground (arith, s.room)))
  step-runs d (port port_closed) s = (_, refl, IsSound-idle (ground arith) (ground (arith, s.room)))
  step-runs d (port other_event) s = (d, refl, s)
  step-runs d (queue_stat n) s =
      (_, refl, IsSound-same s (ground arith) (ground arith) (ground arith) (ground arith))
  step-runs d timer s =
      (_, refl, IsSound-same s (ground arith) (ground arith) (ground arith) (ground arith))
  step-runs d (start codecs) s =
      (_, refl, IsSound-same s (ground arith) (ground arith) (ground arith) (ground arith))

  steps-run :
      (d : StreamDevice) (is : List Input)
      → IsSound p d
      → (d' : StreamDevice) × (run p d is ≡ some d') × IsSound p d'
  unfolding run
  steps-run d [] s = (d, refl, s)
  steps-run d (i ∷ is) s =
      let (d1, stepped, t) = step-runs d i s in
      let (d', ran, u) = steps-run d1 is t in (d', rw stepped ran, u)

  -- Over any history of a device, from its connection on, no access is outside of a buffer, every
  -- reading loop ends, and the buffers stay sound.
  pub run-runs :
      (is : List Input)
      → (d' : StreamDevice) × (run p (stream_device_connect p) is ≡ some d') × IsSound p d'
  run-runs is = steps-run (stream_device_connect p) is (IsSound-idle refl (omega arith))

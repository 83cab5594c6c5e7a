-- ===== src/StreamDevice/Faults.antt =====
-- After a message that is not valid, nothing that the guest sends has an effect until its port is
-- opened or closed.
use spice.Prelude.{
  ◌+◌, ◌≡◌, refl, ◌∙◌, Bool, true, false, some, List, [], ◌∷◌, ◌++◌, length, arith, >>=-eq-some,
  if◌then◌else◌,
}
use spice.StreamDevice.State.{
  StreamProtocol, StreamDevice, Event, change_format, send_data, process_cmd,
  send_device_display_info, wakeup, set_state, start_stop, IsStreamProtocol,
}
use spice.StreamDevice.Port.{
  port_opened, port_closed, other_event, stream_queue_stat, close_timer_func, stream_start,
  port_event,
}
use spice.StreamDevice.Bounds.{pending}
use spice.StreamDevice.Safety.{error-ends}
use spice.StreamDevice.History.{Input, readable, port, queue_stat, timer, start, step, run}

-- The calls that the messages of the guest lead to.
abbrev pub is_from_guest : Event → Bool
is_from_guest (change_format f) = true
is_from_guest (send_data m t) = true
is_from_guest (process_cmd c) = true
is_from_guest (send_device_display_info i) = true
is_from_guest _ = false

abbrev pub from_guest : List Event → List Event
from_guest [] = []
from_guest (e ∷ es) = if is_from_guest e then e ∷ from_guest es else from_guest es

-- The port is neither opened nor closed.
abbrev pub IsQuiet : Input → Type 0
IsQuiet (port e) = e ≡ other_event
IsQuiet _ = Unit {0}

abbrev pub AllQuiet : List Input → Type 0
AllQuiet [] = Unit {0}
AllQuiet (i ∷ is) = IsQuiet i × AllQuiet is

from_guest-append :
    (es : List Event) (e : Event)
    → is_from_guest e ≡ false
    → from_guest (es ++ (e ∷ [])) ≡ from_guest es
from_guest-append [] e h = rw h refl
from_guest-append (x ∷ es) e h = ground (arith, from_guest-append es e h)

-- The error stays, and nothing of the guest's gets through.
pub record Silent (d d' : StreamDevice) : Type 0 where
  pub error : d'.has_error ≡ true
  pub events : from_guest d'.events ≡ from_guest d.events

step-Silent :
    (p : StreamProtocol) (v : IsStreamProtocol p) (d d' : StreamDevice) (i : Input)
    → d.has_error ≡ true
    → IsQuiet i
    → step p d i ≡ some d'
    → Silent d d'
unfolding step stream_queue_stat close_timer_func stream_start port_event
step-Silent p v d d' (readable clock ans) error q e =
    let ends = error-ends p v clock (pending ans + length d.hdr + 2) d ans error (omega arith) in
    record { error = ground (arith, ends); events = ground (arith, ends) }
step-Silent p v d d' (port other_event) error q e = record {
  error = ground arith;
  events = ground arith;
}
step-Silent p v d d' (port port_opened) error q e = cc
step-Silent p v d d' (port port_closed) error q e = cc
step-Silent p v d d' (queue_stat n) error q e =
    let kept = from_guest-append d.events wakeup refl in
    record { error = ground arith; events = ground (arith, kept) }
step-Silent p v d d' timer error q e =
    let kept = from_guest-append d.events (set_state 0) refl in
    record { error = ground arith; events = ground (arith, kept) }
step-Silent p v d d' (start codecs) error q e =
    let kept = from_guest-append d.events (start_stop codecs) refl in
    record { error = ground arith; events = ground (arith, kept) }

-- Once a message has been found invalid, whatever the device sends and whatever else happens, as
-- long as its port is neither opened nor closed: no call is made that a message of the guest leads
-- to, and the error stays.
pub run-Silent :
    (p : StreamProtocol) (v : IsStreamProtocol p) (d d' : StreamDevice) (is : List Input)
    → d.has_error ≡ true
    → AllQuiet is
    → run p d is ≡ some d'
    → Silent d d'
unfolding run
run-Silent p v d d' [] error q e = record { error = ground arith; events = ground arith }
run-Silent p v d d' (i ∷ is) error q e =
    let (d1, stepped, rest) = >>=-eq-some (step p d i) (λ x. run p x is) e in
    let first = step-Silent p v d d1 i error q.0 stepped in
    let t = run-Silent p v d1 d' is first.error q.1 rest in
    record { error = t.error; events = t.events ∙ first.events }

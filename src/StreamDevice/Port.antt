-- ===== src/StreamDevice/Port.antt =====
-- The events of the port, and what the stream channel reports back to the device.
use spice.Prelude.{ℕ, true, false, not, ◌&&◌, List, [], ◌==◌, if◌then◌else◌, replicate}
use spice.StreamDevice.State.{
  StreamProtocol, StreamDevice, log, create_channels, reset_channels, send_capabilities, start_stop,
  set_state, reset_device, wakeup,
}
use spice.StreamDevice.Messages.{max_device_address_len}

-- A new device. Its memory is zero but for the buffer of messages.
abbrev pub new_device : StreamProtocol → StreamDevice
new_device p = record {
  hdr = [];
  msg = [];
  msg_len = p.messages_size;
  has_error = false;
  opened = false;
  flow_stopped = false;
  guest_capabilities = replicate p.max_guest_capabilities_bytes 0;
  has_channels = false;
  close_timer = false;
  frame_mmtime = 0;
  device_display_info = record {
    stream_id = 0;
    device_address = replicate max_device_address_len 0;
    device_display_id = 0;
  };
  events = [];
}

-- `stream_device_connect`, for a device whose interface has `state`.
abbrev pub stream_device_connect : StreamProtocol → StreamDevice
stream_device_connect p = log (new_device p) (set_state 1)

-- `StreamDevice::close_timer_func`, with the timer that has run out.
unfoldable pub close_timer_func : StreamDevice → StreamDevice
close_timer_func d =
    let d' : StreamDevice = record d { close_timer = false } in
    if d.opened && d.has_error then log d' (set_state 0) else d'

-- `StreamDevice::create_channel`, where a free channel id is found.
abbrev pub create_channel : StreamDevice → StreamDevice
create_channel d =
    if d.has_channels then d else log (record d { has_channels = true }) create_channels

-- `StreamDevice::reset_channels`
abbrev pub close_channels : StreamDevice → StreamDevice
close_channels d = if d.has_channels then log d reset_channels else d

-- `SPICE_PORT_EVENT_OPENED`, `SPICE_PORT_EVENT_CLOSED` and all other events.
pub data PortEvent : Type 0 where
  port_opened port_closed other_event : PortEvent

-- From `hdr_pos = 0` on.
abbrev pub restart : StreamDevice → StreamDevice
restart d =
    log
      (close_channels (
        log (record d { hdr = []; msg = []; has_error = false; flow_stopped = false })
          reset_device))
      (set_state 1)

-- `StreamDevice::port_event`
unfoldable pub port_event : StreamProtocol → PortEvent → StreamDevice → StreamDevice
port_event p port_opened d = restart (
    log (create_channel (record d { opened = true }))
      (send_capabilities p.max_guest_capabilities_bytes))
port_event p port_closed d = restart (record d { opened = false })
port_event p other_event d = d

-- `StreamDevice::stream_queue_stat`
unfoldable pub stream_queue_stat : ℕ → StreamDevice → StreamDevice
stream_queue_stat num_items d =
    if not d.opened
    then d
    else if not (num_items == 0)
    then record d { flow_stopped = true }
    else if d.flow_stopped
    then log (record d { flow_stopped = false }) wakeup
    else d

-- `StreamDevice::stream_start`, with the codecs that are sent to the guest.
unfoldable pub stream_start : List ℕ → StreamDevice → StreamDevice
stream_start codecs d = if not d.opened then d else log d (start_stop codecs)

-- ===== src/ChannelClient/Alive.antt =====
-- What the monitor of connectivity finds out.
use spice.Prelude.{Option, some, none, Bool, if◌then◌else◌}
use mathlib.Core.Option
use spice.ChannelClient.State.{Channel, Sender, ConnectivityState, blocked, wait_pong, connected}
use spice.ChannelClient.Monitor.{is_stuck, awaits_pong}

-- The state that a tick leaves.
abbrev found : Channel → Sender → ConnectivityState
found ch c =
    if is_stuck ch c then blocked else if awaits_pong c.latency.state then wait_pong else connected

-- What a tick leaves: whether the client is connected, or nothing, for a mismatch.
abbrev outcome : Bool → Bool → Option Bool
outcome mismatched alive = if mismatched then none else some alive

-- Whether what a tick found of `c` still holds of `c'`.
abbrev pub still : Channel → Sender → Sender → Bool
still ch c c' = if is_stuck ch c then is_stuck ch c' else awaits_pong c'.latency.state

-- ===== src/Lib.antt =====
-- Verification of parts of the SPICE server library (directory server/).
--
-- The server links a virtual machine to remote clients. It gets the data of guest devices over
-- three kinds of interface: shared memory, whose guest addresses the memory slots translate;
-- character devices, whose traffic the tokens of a flow control meter; and, on top of such devices,
-- the agent in the guest, whose messages a filter lets through or stops, and the streaming agent,
-- whose frames the stream device passes on. A remote client has a channel for each of its parts, and
-- may be migrated with them to another server.
--
-- AgentFilter: server/agent-msg-filter.c, the whole file. `process_data` is
--   `agent_msg_filter_process_data`. The layout of the message header and the constants of
--   spice-protocol are the parameter `AgentProtocol`.
-- MemSlot: server/memslot.c and server/memslot.h. `get_virt` is `memslot_get_virt`, and so on by
--   name. Addresses are 64-bit patterns and their sums wrap as in the source.
-- CharDevice: server/char-device.cpp, and the data of server/migration-protocol.h.
--   CharDevice.State is the state, CharDevice.Writing the way from clients to the device (buffers,
--   tokens, `RedCharDevice::write_to_device`), CharDevice.Reading the way from the device to
--   clients (`red_char_device_read_from_device` and the send queues), CharDevice.Manage clients,
--   start, stop and reset, CharDevice.Migration the migration data. The loop of `write_to_device`
--   runs on fuel: two rounds more than there are answers of the device are enough, since behind the
--   last answer one round may reset the mark of a nested entry, and the next leaves. The other
--   children hold theorems.
-- StreamDevice: server/red-stream-device.cpp and its header. StreamDevice.Messages holds a handler
--   for each message, StreamDevice.Reader `StreamDevice::partial_read` and the loop around it,
--   StreamDevice.Port the events of the port and of the stream channel. The layout of messages is
--   the parameter `StreamProtocol`, with what is relied on in `IsStreamProtocol`. The loop runs on
--   fuel; a turn for each byte that the device has ready or the header holds, and two more, are
--   enough, since each turn that is followed by another takes a header or finds an error.
-- RedClient: server/red-client.cpp and its header, with the few functions of
--   server/red-channel-client.cpp that keep `wait_migrate_data`.
-- ChannelClient: server/red-channel-client.cpp. ChannelClient.Incoming is the reading of messages
--   (`handle_incoming`, `red_peer_receive`), with the layout of headers and the channel's methods in
--   the parameter `Methods`; its loop runs on fuel, and a round for each byte that is held or ready,
--   and one more, is enough, since each round that is followed by another takes a header.
--   ChannelClient.State, Monitor, Sending and Handling are the pipe, `push`, `handle_outgoing`, the
--   acknowledgements, and the monitors of latency and connectivity; ChannelClient.Start is the
--   state at the start and the calls that a client may get. The loop of `push` runs on fuel, an
--   item of the pipe for each turn, and that of `handle_outgoing` too: while there are bytes to
--   write, a round for each answer of the socket and one more are enough. `stream_writev` is
--   `red_stream_writev` of server/red-stream.cpp. The other children hold theorems.
-- Cache: server/cache-item.tmpl.cpp, the cache of cursors and of palettes, and the request that
--   server/dcc.cpp and server/cursor-channel.cpp make of it. An address tells items apart; the
--   allocator is a counter. `available` is kept as the 64 bits of a `long`. The loop that makes room runs
--   on fuel, an item of the ring for each turn. Cache.Recency is what the cache promises.
-- Dispatcher: server/dispatcher.cpp, messages between threads, as a step relation: a sender under
--   the lock and the receiver move some bytes at each step, in any order. The layout of a header is
--   the parameter `Layout`, with what is relied on in `IsLayout`. An ack is one token.
-- WebSocket: the headers of frames in server/websocket.c, `fill_header` and
--   `websocket_get_frame_header`.
-- Prelude: shared names and lemmas on lists, bits and fallible steps.
--
-- How the code is read. Stateful functions take a state and return it. A failed assertion is
-- `none`, so a theorem that a function gives `some` shows that no assertion fails. Counters of
-- fixed width wrap as written. GLib's queues are lists, oldest first, and std::list is a list from
-- its front. A virtual method, a call-back or a message to a client is recorded in the state's list
-- of calls, and what the device or the socket at the other end answers is an argument: a list of
-- replies, one for each turn of a loop. When the list has run out the other end has no more data,
-- or takes no more, which is how the loops of the source end. What a subclass does to the same
-- object inside a virtual method is left out, but for the entries counted by the guards of the
-- read and write loops of character devices. Memory, reference counts and printing are left out; a
-- warning or a `spice_critical` is a print, since the code goes on after it. A `spice_error` aborts,
-- and is `none` like a failed assertion; where a function has no such result, as in RedClient, the
-- state stays as it is.
--
-- Not modelled: the channels, the waits of channel clients and their places in the middle of the
-- pipe, the display pipeline, encoders, the pixmap cache, sound, sockets and the set-up of the
-- server, which lean on pixman, codecs, TLS and the event loop. What the stream device reads of a
-- message that is too short for its fixed part is whatever the parameter `StreamProtocol` gives for
-- it.
pub mod Prelude
pub mod AgentFilter
pub mod MemSlot
pub mod CharDevice
pub mod StreamDevice
pub mod RedClient
pub mod ChannelClient
pub mod Cache
pub mod Dispatcher
pub mod WebSocket

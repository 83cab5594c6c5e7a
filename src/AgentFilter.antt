-- ===== src/AgentFilter.antt =====
-- server/agent-msg-filter.c and its header: the filter of agent messages, which decides for each
-- chunk of the stream what becomes of it. `msg_data_to_read` is an `int` that the code only
-- compares with, and takes from, unsigned 32-bit numbers, so it is that bit pattern here.
pub mod Stream
pub mod Errors
pub mod Discard
mod Tests
use spice.Prelude.{
  ℕ, ◌-◌, ◌≤◌, ◌<◌, Bool, true, false, not, ◌||◌, List, [], ◌∷◌, ltb, ◌==◌, if◌then◌else◌, length,
}

pub data FilterResult : Type 0 where
  ok discard proto_error monitors_config : FilterResult

pub record Filter : Type 0 where
  pub msg_data_to_read : ℕ
  pub result : FilterResult
  pub copy_paste_enabled : Bool
  pub file_xfer_enabled : Bool
  pub use_client_monitors_config : Bool
  pub discard_all : Bool

-- `VDAgentMessage`, as far as the filter reads it.
pub record Header : Type 0 where
  pub protocol : ℕ
  pub kind : ℕ
  pub size : ℕ

-- What spice/vd_agent.h of spice-protocol defines: the message header's layout, and constants.
pub record AgentProtocol : Type 0 where
  pub max_data_size : ℕ
  pub header_size : ℕ
  pub read_header : List ℕ → Header
  pub protocol : ℕ
  pub clipboard : ℕ
  pub clipboard_grab : ℕ
  pub clipboard_request : ℕ
  pub clipboard_release : ℕ
  pub file_xfer_start : ℕ
  pub file_xfer_status : ℕ
  pub file_xfer_data : ℕ
  pub monitors_config : ℕ

-- `agent_msg_filter_config`
pub config : Filter → Bool → Bool → Bool → Filter
config f copy_paste file_xfer use_monitors = record f {
  copy_paste_enabled = copy_paste;
  file_xfer_enabled = file_xfer;
  use_client_monitors_config = use_monitors;
}

-- `agent_msg_filter_init`: all fields are zero first, and the result numbered zero is `ok`.
unfoldable pub init : Bool → Bool → Bool → Bool → Filter
unfolding config
init copy_paste file_xfer use_monitors discard_all =
    record (config zeroed copy_paste file_xfer use_monitors) { discard_all = discard_all }
  where
    zeroed : Filter
    zeroed = record {
      msg_data_to_read = 0;
      result = ok;
      copy_paste_enabled = false;
      file_xfer_enabled = false;
      use_client_monitors_config = false;
      discard_all = false;
    }

-- From the label `data_to_read` on.
pub take_data : Filter → ℕ → Filter × FilterResult
take_data f len =
    if ltb f.msg_data_to_read len
    then (f, proto_error)
    else (record f { msg_data_to_read = f.msg_data_to_read - len }, f.result)

module _ (p : AgentProtocol) where
  abbrev pub is_clipboard : ℕ → Bool
  is_clipboard t =
      t == p.clipboard
      || t == p.clipboard_grab
      || t == p.clipboard_request
      || t == p.clipboard_release

  abbrev pub is_file_xfer : ℕ → Bool
  is_file_xfer t = t == p.file_xfer_start || t == p.file_xfer_status || t == p.file_xfer_data

  -- The value given to `filter->result` for a new message of this type.
  unfoldable pub classify : Filter → ℕ → FilterResult
  classify f t =
      if f.discard_all
      then discard
      else if is_clipboard t
      then (if f.copy_paste_enabled then ok else discard)
      else if is_file_xfer t
      then (if f.file_xfer_enabled then ok else discard)
      else if t == p.monitors_config
      then (if f.use_client_monitors_config then monitors_config else ok)
      else ok

  -- The start of a message: the header has been read, and `len` bytes follow it in the chunk.
  pub start_message : Filter → Header → ℕ → Filter × FilterResult
  unfolding classify take_data
  start_message f h len =
      let r = classify f h.kind in
      let f' : Filter = record f { result = r; msg_data_to_read = h.size } in
      if h.size == 0 then (f', r) else take_data f' len

  -- `agent_msg_filter_process_data`
  unfoldable pub process_data : Filter → List ℕ → Filter × FilterResult
  unfolding start_message
  process_data f chunk =
      let len = length chunk in
      if ltb p.max_data_size len
      then (f, proto_error)
      else if not (f.msg_data_to_read == 0)
      then take_data f len
      else if ltb len p.header_size
      then (f, proto_error)
      else if not ((p.read_header chunk).protocol == p.protocol)
      then (f, proto_error)
      else start_message f (p.read_header chunk) (len - p.header_size)

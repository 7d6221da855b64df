-- ===== src/Terminal.antt =====
-- terminal/terminal.go: the terminal that a repeater hands its packets to. Here: its state, what it
-- hands on, and the start and end of calls. The times of calls and packets, the software delay and the
-- log are not modelled, but for the messages that the log shows.
pub mod Action
pub mod DataCall
pub mod VoiceCall
pub mod Dispatch
pub mod Invariant
pub mod Safety
pub mod Message
pub mod Calls
pub mod Tests
pub mod MessageTests
use go_dmr.Base.{
  ℕ, ◌==◌, ◌||◌, not, Bool, true, false, if◌then◌else◌, Option, none, some, List, [], ◌∷◌, ◌++◌,
}
use go_dmr.Dmr.DataBlock.{DataBlock}
use go_dmr.Dmr.DataHeader.{DataHeader}
use go_dmr.Vbptc.{Vbptc, new}

abbrev pub idle : ℕ
idle = 0

abbrev pub data_call_active : ℕ
data_call_active = 1

abbrev pub voice_call_active : ℕ
voice_call_active = 2

-- `none` is a nil header or block; a nil slice of blocks is the empty one.
pub record Slot : Type 0 where
  pub dst_id : ℕ
  pub src_id : ℕ
  pub data_type : ℕ
  pub packet_header_valid : Bool
  pub blocks : List (Option DataBlock)
  pub blocks_expected : ℕ
  pub blocks_received : ℕ
  pub header : Option DataHeader
  pub stream_id : ℕ
  pub selective_ack_requests_sent : ℕ
  pub rx_sequence : ℕ
  pub full_message_blocks : ℕ
  pub embedded_signalling : Vbptc

-- What the terminal hands on: the bits of a voice frame, to the function that
-- `SetVoiceFrameFunc` set, and the text of a message, to the log.
pub data Event : Type 0 where
  voice_frame message : List ℕ → Event

-- `events` is what was handed on so far, the newest first.
pub record Terminal : Type 0 where
  pub id : ℕ
  pub accept : List ℕ
  pub slots : List Slot
  pub state : ℕ
  pub has_voice_func : Bool
  pub events : List Event

unfoldable pub new_slot : Slot
new_slot = record {
  dst_id = 0;
  src_id = 0;
  data_type = 0;
  packet_header_valid = false;
  blocks = [];
  blocks_expected = 0;
  blocks_received = 0;
  header = none;
  stream_id = 0;
  selective_ack_requests_sent = 0;
  rx_sequence = 0;
  full_message_blocks = 0;
  embedded_signalling = new 8;
}

unfoldable pub new_terminal : ℕ → Terminal
new_terminal id = record {
  id = id;
  accept = id ∷ [];
  slots = new_slot ∷ new_slot ∷ new_slot ∷ [];
  state = idle;
  has_voice_func = false;
  events = [];
}

-- A nil slice of groups is the empty one.
unfoldable pub set_talk_groups : List ℕ → Terminal → Terminal
set_talk_groups groups t = record t { accept = t.id ∷ groups }

unfoldable pub set_voice_frame_func : Terminal → Terminal
set_voice_frame_func t = record t { has_voice_func = true }

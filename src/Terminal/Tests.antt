-- ===== src/Terminal/Tests.antt =====
-- Witnesses of the terminal.
use go_dmr.Base.{
  ℕ, ◌≡◌, bytes_eq, copy, ◌⊎◌, inr, refl, true, false, none, some, List, [], ◌∷◌, ◌++◌, zeros, All,
  take, drop, arith,
}
use go_dmr.Base.Outcome.{ok, panic}
use go_dmr.Dmr.Bits.{IsByte, bytes_to_bits, bits_to_bytes, bits_to_bytes_from, set_bit}
use go_dmr.Dmr.Packet.{Packet, info_bits, sync_bits}
use go_dmr.Dmr.Sync.{bs_sourced_voice, sync_pattern}
use go_dmr.Dmr.Voice.{parse_emb, parse_emb_bits_from_sync}
use go_dmr.Dmr.DataHeader.{DataHeader, short_data_defined_data}
use go_dmr.Dmr.MessageData.{Codec}
use go_dmr.Checks.QuadRes.{check, valid_data_parity, data_value}
use go_dmr.Trellis
use go_dmr.Vbptc
use go_dmr.Trellis.Encode.{encode}
use go_dmr.Trellis.RoundTrip.{decode-encode}
use go_dmr.Terminal.{
  Slot, Terminal, new_slot, new_terminal, voice_call_active, data_call_active, idle,
}
use go_dmr.Terminal.Action.{
  next, when, current, call, slot_of, put_slot, set_state, need, voice_call_start, voice_call_end,
}
use go_dmr.Terminal.VoiceCall.{handle_voice, handle_frame, handle_emb, hand_on}
use go_dmr.Terminal.Dispatch.{handle_packet, handle_all}
use go_dmr.Terminal.Invariant.{Inv, IsFrame, new_terminal-Inv}
use go_dmr.Terminal.Invariant.Voice.{HighColor}
use go_dmr.Terminal.Safety.{Overrun, handle_all-Inv, handle_packet_panics, handle_packet-Overrun}
use go_dmr.Terminal.Calls.{handle_packet_ends_calls}

-- Texts as they are.
abbrev plain : ℕ → Codec
plain format = record { encode = λ msg. some msg; decode = λ bytes. some bytes }

abbrev frame_of : ℕ → ℕ → List ℕ → Packet
frame_of data_type stream_id bits = record {
  timeslot = 0;
  sequence = 0;
  src_id = 2041;
  dst_id = 9;
  repeater_id = 1;
  stream_id = stream_id;
  data_type = data_type;
  call_type = 0;
  ber = 0;
  rssi = 0;
  payload = [];
  bits = bits;
}

-- A voice frame with a sync pattern, of stream 7 and of stream 8.
abbrev voice_bits_sync : List ℕ
voice_bits_sync = zeros 108 ++ (bytes_to_bits bs_sourced_voice ++ zeros 108)

abbrev first_voice : Packet
first_voice = frame_of 10 7 voice_bits_sync

abbrev other_voice : Packet
other_voice = frame_of 10 8 voice_bits_sync

abbrev in_voice_call : Terminal
in_voice_call = record (new_terminal 1) {
  slots = record new_slot { stream_id = 7 } ∷ new_slot ∷ new_slot ∷ [];
  state = voice_call_active;
}

synced-IsFrame : (data_type stream_id : ℕ) → IsFrame (frame_of data_type stream_id voice_bits_sync)
unfolding bytes_to_bits
synced-IsFrame data_type stream_id = record { timeslot-lt = ground arith; size = ground arith }

in_voice_call-run :
    handle_all plain (first_voice ∷ other_voice ∷ []) (new_terminal 1) ≡ some in_voice_call
unfolding handle_all handle_packet handle_voice handle_frame handle_emb hand_on voice_call_start
    voice_call_end slot_of put_slot set_state need next when current call new_terminal new_slot
    Vbptc.new sync_bits sync_pattern bytes_to_bits bits_to_bytes bits_to_bytes_from set_bit bytes_eq
in_voice_call-run = refl

in_voice_call-Inv : Inv in_voice_call
in_voice_call-Inv =
    handle_all-Inv plain (first_voice ∷ other_voice ∷ []) (new_terminal 1) in_voice_call
      (synced-IsFrame 10 7, (synced-IsFrame 10 8, tt)) (new_terminal-Inv 1) in_voice_call-run

handle_all-Inv_example : Inv in_voice_call
handle_all-Inv_example =
    handle_all-Inv plain (first_voice ∷ other_voice ∷ []) (new_terminal 1) in_voice_call
      (synced-IsFrame 10 7, (synced-IsFrame 10 8, tt)) (new_terminal-Inv 1) in_voice_call-run

handle_packet_ends_calls_example :
    (handle_packet plain (frame_of 2 7 voice_bits_sync) in_voice_call).1.state ≡ idle
handle_packet_ends_calls_example =
    handle_packet_ends_calls plain (frame_of 2 7 voice_bits_sync) in_voice_call (synced-IsFrame 2 7)
      in_voice_call-Inv (inr refl)

-- A voice frame without a sync pattern, whose first EMB bit is 1.
abbrev high_color : Packet
high_color = frame_of 11 7 (zeros 108 ++ (1 ∷ zeros 155))

high_color-panics : (handle_packet plain high_color in_voice_call).0 ≡ panic
unfolding handle_packet handle_voice handle_frame handle_emb slot_of need next when current call
    sync_bits sync_pattern bits_to_bytes bits_to_bytes_from set_bit bytes_eq parse_emb
    parse_emb_bits_from_sync check valid_data_parity data_value copy
high_color-panics = refl

handle_packet_panics_example : Overrun high_color in_voice_call ⊎ HighColor high_color
handle_packet_panics_example =
    handle_packet_panics plain high_color in_voice_call
      (record { timeslot-lt = ground arith; size = ground arith }) in_voice_call-Inv
      high_color-panics

-- A block of rate 3/4 for a slot whose unconfirmed header announced one block, which was there.
abbrev packet_bytes : List ℕ
packet_bytes = 1 ∷ 2 ∷ 3 ∷ zeros 15

packet_bytes-IsByte : All IsByte packet_bytes
packet_bytes-IsByte = ground arith

abbrev block_frame : Packet
block_frame =
    frame_of 8 7 (take 98 (encode packet_bytes) ++ (zeros 68 ++ drop 98 (encode packet_bytes)))

abbrev unconfirmed_header : DataHeader
unconfirmed_header = record {
  packet_format = 13;
  dst_is_group = false;
  response_requested = false;
  header_compression = false;
  service_access_point = 10;
  dst_id = 9;
  src_id = 2041;
  crc = 0;
  body = some (short_data_defined_data 1 19 false true 0);
}

abbrev full_slot : Slot
full_slot = record new_slot {
  blocks = none ∷ [];
  full_message_blocks = 1;
  blocks_expected = 1;
  blocks_received = 1;
  header = some unconfirmed_header;
}

abbrev in_data_call : Terminal
in_data_call = record (new_terminal 1) {
  slots = full_slot ∷ new_slot ∷ new_slot ∷ [];
  state = data_call_active;
}

block_frame-size : IsFrame block_frame
unfolding encode bytes_to_bits
block_frame-size = record { timeslot-lt = ground arith; size = ground arith }

block_frame-decode : Trellis.decode (info_bits block_frame) (zeros 18) ≡ ok packet_bytes
unfolding info_bits copy encode bytes_to_bits
block_frame-decode = decode-encode packet_bytes (zeros 18) refl packet_bytes-IsByte refl

handle_packet-Overrun_example : handle_packet plain block_frame in_data_call ≡ (panic, in_data_call)
handle_packet-Overrun_example =
    handle_packet-Overrun plain block_frame in_data_call packet_bytes block_frame-size refl
      block_frame-decode
      (record {
        is_block = refl;
        slot = full_slot;
        header = unconfirmed_header;
        found = refl;
        stored = refl;
        unconfirmed = refl;
        full = ground arith;
      })

-- ===== src/Terminal/MessageTests.antt =====
-- A witness of the delivery of messages: two blocks, the second of which arrives first.
use go_dmr.Base.{
  ℕ, zero, suc, ◌<◌, ◌≡◌, refl, true, false, none, some, List, [], ◌∷◌, ◌++◌, zeros, take, drop,
  replicate, copy, arith,
}
use go_dmr.Base.Outcome.{ok}
use go_dmr.Dmr.Bits.{bytes_to_bits}
use go_dmr.Dmr.Crc
use go_dmr.Dmr.Packet.{Packet, info_bits}
use go_dmr.Dmr.DataHeader.{DataHeader, short_data_defined_data}
use go_dmr.Dmr.DataBlock.{
  DataBlock, DataFragment, part, parse_data_block, calculate_crc9, crc9_bytes, crc9_mask,
  data_block_length, append_block, last_crc, combine_from, combined_crc, combine_data_blocks,
}
use go_dmr.Dmr.MessageData.{Codec, is_supported, up_to_null, parse_message_data}
use go_dmr.Trellis.Encode.{encode}
use go_dmr.Trellis.RoundTrip.{decode-encode}
use go_dmr.Terminal.{Slot, Terminal, new_slot, new_terminal, data_call_active, message}
use go_dmr.Terminal.DataCall.{is_response, format_of}
use go_dmr.Terminal.Dispatch.{handle_all}
use go_dmr.Terminal.Message.{Carries}
use go_dmr.Terminal.Message.Places.{arrives}
use go_dmr.Terminal.Message.Delivery.{Ready, Reads, message_delivered}

abbrev plain : ℕ → Codec
plain format = record { encode = λ msg. some msg; decode = λ bytes. some bytes }

abbrev first_block : DataBlock
first_block = record { serial = 0; crc = 169; is_ok = true; bytes_ = replicate 16 65; size = 16 }

abbrev second_block : DataBlock
second_block = record {
  serial = 1;
  crc = 394;
  is_ok = true;
  bytes_ = replicate 5 65 ++ (zeros 7 ++ (100 ∷ 222 ∷ 140 ∷ 164 ∷ []));
  size = 16;
}

abbrev first_bytes : List ℕ
first_bytes = 0 ∷ 169 ∷ replicate 16 65

abbrev second_bytes : List ℕ
second_bytes = 3 ∷ 138 ∷ (replicate 5 65 ++ (zeros 7 ++ (100 ∷ 222 ∷ 140 ∷ 164 ∷ [])))

abbrev frame_with : List ℕ → Packet
frame_with bytes = record {
  timeslot = 1;
  sequence = 0;
  src_id = 2041;
  dst_id = 9;
  repeater_id = 1;
  stream_id = 7;
  data_type = 8;
  call_type = 0;
  ber = 0;
  rssi = 0;
  payload = [];
  bits = take 98 (encode bytes) ++ (zeros 68 ++ drop 98 (encode bytes));
}

abbrev header : DataHeader
header = record {
  packet_format = 13;
  dst_is_group = false;
  response_requested = true;
  header_compression = false;
  service_access_point = 10;
  dst_id = 9;
  src_id = 2041;
  crc = 0;
  body = some (short_data_defined_data 2 19 false true 0);
}

abbrev slot : Slot
slot = record new_slot {
  blocks = none ∷ none ∷ [];
  full_message_blocks = 2;
  blocks_expected = 2;
  header = some header;
}

abbrev in_data_call : Terminal
in_data_call = record (new_terminal 1) {
  slots = new_slot ∷ slot ∷ new_slot ∷ [];
  state = data_call_active;
}

first-Carries : Carries 1 (frame_with first_bytes) first_block
unfolding info_bits copy encode bytes_to_bits parse_data_block part calculate_crc9 crc9_bytes
    crc9_mask data_block_length Crc.crc9end Crc.crc9
first-Carries = record {
  in_slot = refl;
  is_block = refl;
  size = ground arith;
  bytes_ = first_bytes;
  decoded = decode-encode first_bytes (zeros 18) refl (ground arith) refl;
  parsed = refl;
}

second-Carries : Carries 1 (frame_with second_bytes) second_block
unfolding info_bits copy encode bytes_to_bits parse_data_block part calculate_crc9 crc9_bytes
    crc9_mask data_block_length Crc.crc9end Crc.crc9
second-Carries = record {
  in_slot = refl;
  is_block = refl;
  size = ground arith;
  bytes_ = second_bytes;
  decoded = decode-encode second_bytes (zeros 18) refl (ground arith) refl;
  parsed = refl;
}

slot-Ready : Ready 1 2 header in_data_call slot
unfolding is_response new_slot
slot-Ready = record {
  collecting = record { active = refl; found = refl; headed = refl; confirmed = refl };
  room = refl;
  full = refl;
  expected = refl;
  none_received = refl;
  short_data = refl;
  no_response = refl;
}

abbrev fragment : DataFragment
fragment =
    combine_from (first_block ∷ second_block ∷ [])
      (record { bytes_ = zeros 1500; stored = 0; needed = 0; crc = 0 })

fragment-combined : combine_data_blocks (first_block ∷ second_block ∷ []) ≡ ok fragment
unfolding combine_data_blocks combine_from append_block last_crc combined_crc copy Crc.crc32end
    Crc.crc32
fragment-combined = refl

fragment-Reads : Reads plain header fragment (replicate 19 65)
unfolding combine_from append_block copy parse_message_data is_supported up_to_null format_of
fragment-Reads = record { long = ground arith; size = ground arith; text = refl }

both_arrive : (k : ℕ) → k < 2 → arrives k (second_block ∷ first_block ∷ []) ≡ true
both_arrive zero h = refl
both_arrive (suc zero) h = refl
both_arrive (suc (suc k)) h = absurd (ground (arith, h))

message_delivered_example :
    (t' : Terminal) × (handle_all plain
        (frame_with second_bytes ∷ frame_with first_bytes ∷ [])
        in_data_call
      ≡ some t')
    × (t'.events ≡ message (replicate 19 65) ∷ [])
unfolding new_terminal
message_delivered_example =
    message_delivered plain 1 header in_data_call slot (first_block ∷ second_block ∷ [])
      (second_block ∷ first_block ∷ []) (frame_with second_bytes ∷ frame_with first_bytes ∷ [])
      fragment (replicate 19 65) slot-Ready (second-Carries, (first-Carries, tt)) refl
      (refl, (refl, tt)) both_arrive (refl, (refl, tt)) fragment-combined fragment-Reads

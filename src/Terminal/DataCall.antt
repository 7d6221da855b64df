-- ===== src/Terminal/DataCall.antt =====
-- terminal/terminal.go: data headers and data blocks, and the messages that they carry. The encodings of
-- texts are a parameter.
use go_dmr.Base.{
  ℕ, zero, suc, ◌+◌, ◌-◌, ltb, ◌==◌, ◌||◌, not, Bool, true, false, if◌then◌else◌, Option, none,
  some, List, [], ◌∷◌, set, length, replicate, take, drop, zeros,
}
use go_dmr.Base.Outcome.{or_panic}
use go_dmr.Dmr.Packet.{Packet}
use go_dmr.Dmr.DataHeader.{
  DataHeader, DataHeaderData, response_data, short_data_defined_data, parse_data_header,
}
use go_dmr.Dmr.DataBlock.{
  DataBlock, DataFragment, rate34_data, parse_data_block, combine_data_blocks,
}
use go_dmr.Dmr.MessageData.{Codec, format_utf16, parse_message_data}
use go_dmr.Bptc
use go_dmr.Trellis
use go_dmr.Terminal.{Slot, data_call_active, message}
use go_dmr.Terminal.Action.{
  header_nil, of_bptc, of_trellis, of_data_header, of_data_block, of_message, Action, ◌>>=◌, ◌>>◌,
  done, when, fail, crash, current, call, slot_of, put_slot, emit, read_info_bits, data_call_end,
  voice_call_end, data_call_start,
}

abbrev pub service_access_point_short_data : ℕ
service_access_point_short_data = 0b1010

-- `ok` of a block.
unfoldable pub is_good : Option DataBlock → Bool
is_good none = false
is_good (some b) = b.is_ok

-- The loop of `dataBlockAssemble` over the first `n` blocks: whether it finds errors; no result is an
-- index out of range.
unfoldable pub errors_found : ℕ → List (Option DataBlock) → Option Bool
unfolding is_good
errors_found zero blocks = some false
errors_found (suc n) [] = none
errors_found (suc n) (b ∷ blocks) = elim (errors_found n blocks) [
  | none ↦ none
  | some rest ↦ some (not (is_good b) || rest)
]

-- The blocks, if none of them is nil; `CombineDataBlocks` would panic on a nil one.
unfoldable pub all_present : List (Option DataBlock) → Option (List DataBlock)
all_present [] = some []
all_present (none ∷ blocks) = none
all_present (some b ∷ blocks) = elim (all_present blocks) [
  | none ↦ none
  | some rest ↦ some (b ∷ rest)
]

unfoldable pub combine : List (Option DataBlock) → Action DataFragment
combine blocks = do
  present ← call of_data_block (or_panic (all_present blocks))
  call of_data_block (combine_data_blocks present)

unfoldable pub is_response : Option DataHeaderData → Bool
is_response (some (response_data _ _ _)) = true
is_response _ = false

-- The format of the text.
unfoldable pub format_of : Option DataHeaderData → ℕ
format_of (some (short_data_defined_data _ format _ _ _)) = format
format_of _ = format_utf16

-- `slot.data.header` where the code reads a field of it.
unfoldable pub header_of : Slot → Action DataHeader
header_of slot t = (or_panic slot.header, t)

-- The test of a header for nil.
unfoldable pub with_header :
    Option DataHeader → Action (Unit {0}) → (DataHeader → Action (Unit {0})) → Action (Unit {0})
with_header none missing f = missing
with_header (some header) missing f = f header

module _ (codecs : ℕ → Codec) where
  -- What `dataBlockComplete` does with short data. Slicing to a negative size panics; a fragment never
  -- stores more bytes than it has.
  unfoldable pub show_text : DataFragment → DataHeader → Action (Unit {0})
  show_text f header =
      let text = take (f.stored - 6) (drop 2 f.bytes_) in
      if ltb (length f.bytes_) 2
      then crash
      else if f.stored == 6
      then done tt
      else if ltb f.stored 6
      then crash
      else (call of_message (parse_message_data codecs text (format_of header.body) true) >>= λ str.
          emit (message str))

  unfoldable pub data_block_complete : Packet → DataFragment → Action (Unit {0})
  data_block_complete p f = do
    slot ← slot_of p
    header ← header_of slot
    when (header.service_access_point == service_access_point_short_data) (show_text f header)

  -- The end of `dataBlockAssemble`, with a fragment that stores something. A response with blocks is left
  -- alone.
  unfoldable pub deliver : Packet → DataFragment → Action (Unit {0})
  deliver p fragment = do
    slot ← slot_of p
    header ← header_of slot
    when (not (is_response header.body))
        (do data_block_complete p fragment; when (not header.response_requested) (data_call_end p))

  unfoldable pub combine_and_deliver : Packet → Slot → Action (Unit {0})
  combine_and_deliver p slot = do
    fragment ← combine slot.blocks
    when (ltb 0 fragment.stored) (deliver p fragment)

  -- All three ways to give up on erroneous blocks return nil, and read the header before.
  unfoldable pub data_block_assemble : Packet → Action (Unit {0})
  data_block_assemble p = do
    slot ← slot_of p
    wrong ← call of_data_block (or_panic (errors_found slot.full_message_blocks slot.blocks))
    if wrong then (header_of slot >>= λ header. done tt) else combine_and_deliver p slot

  -- A block at its place, and what `dataBlock` does then.
  unfoldable pub store_block : Packet → Slot → ℕ → DataBlock → Action (Unit {0})
  store_block p slot i db = do
    put_slot p (record slot {
      blocks = set slot.blocks i (some db);
      blocks_received = slot.blocks_received + 1;
    })
    when (slot.blocks_received + 1 == slot.blocks_expected) (data_block_assemble p)

  -- Only confirmed blocks have a serial number.
  unfoldable pub place_block : Packet → Slot → DataHeader → DataBlock → Action (Unit {0})
  place_block p slot header db =
      if header.response_requested
      then when (ltb db.serial (length slot.blocks)) (store_block p slot db.serial db)
      else if ltb slot.blocks_received (length slot.blocks)
      then store_block p slot slot.blocks_received db
      else crash

  unfoldable pub data_block : Packet → DataBlock → Action (Unit {0})
  data_block p db = do
    slot ← slot_of p
    with_header slot.header (fail header_nil) (λ header. place_block p slot header db)

  -- The block in a packet, for a data call with a header.
  unfoldable pub receive_block : Packet → DataHeader → Action (Unit {0})
  receive_block p header = do
    bits ← read_info_bits p
    bytes ← call of_trellis (Trellis.decode bits (zeros 18))
    db ← call of_data_block (parse_data_block bytes rate34_data header.response_requested)
    data_block p db

  unfoldable pub handle_rate34_data : Packet → Action (Unit {0})
  handle_rate34_data p = do
    slot ← slot_of p
    t ← current
    when (t.state == data_call_active) (with_header slot.header (done tt) (receive_block p))

-- The slot of a data header that was accepted, and the counts that it starts.
unfoldable pub reset_data : Slot → Slot
reset_data slot = record slot {
  packet_header_valid = false;
  blocks_received = 0;
  selective_ack_requests_sent = 0;
  rx_sequence = 0;
}

unfoldable pub expect_blocks : Slot → ℕ → Bool → Slot
expect_blocks slot appended full_message =
    let sized =
      if full_message
      then record slot { full_message_blocks = appended; blocks = replicate appended none }
      else slot in
    record sized { blocks_expected = appended }

-- What `handleData` does with a header; those of another type than short data end there.
unfoldable pub start_data : Packet → DataHeader → Option DataHeaderData → Action (Unit {0})
start_data p h (some (short_data_defined_data appended _ _ full_message _)) = do
  slot ← slot_of p
  put_slot p (expect_blocks slot appended full_message)
  data_call_start p
  started ← slot_of p
  put_slot p (record started { header = some h; packet_header_valid = true })
start_data p h _ = done tt

unfoldable pub handle_data : Packet → Action (Unit {0})
handle_data p = do
  first ← slot_of p
  voice_call_end p
  bits ← read_info_bits p
  bytes ← call of_bptc (Bptc.decode bits (zeros 12))
  h ← call of_data_header (parse_data_header bytes false)
  slot ← slot_of p
  put_slot p (reset_data slot)
  start_data p h h.body

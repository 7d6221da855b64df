-- ===== src/Dmr/ControlBlock.antt =====
-- controlblock.go: control signalling blocks of twelve bytes, sealed by an inverted CRC-16.
-- The `String` methods are not modelled.
pub mod RoundTrip
pub mod Check
use go_dmr.Base.{
  ℕ, zero, suc, ◌+◌, ◌-◌, ◌*◌, ◌/◌, ◌%◌, ◌^◌, bit_and, bit_or, bit_xor, ltb, ◌==◌, if◌then◌else◌,
  Bool, true, false, not, Option, none, some, List, [], ◌∷◌, length, get_or, set, take, zeros, u8,
  not16, has_bits, be16, be24, ◌≢◌, arith,
}
use go_dmr.Base.Outcome.{Outcome, ok, err, panic, ◌>>=◌, ◌>>◌, require}
use go_dmr.Dmr.Crc.{crc16, crc16end, crc16_bytes}

pub data Error : Type 0 where
  info_size protect_flag feature_set crc_mismatch unknown_opcode : Error

-- The implementations of the interface `ControlBlockData`.
pub data ControlBlockData : Type 0 where
  outbound_activation : ControlBlockData
  unit_to_unit_voice_service_request : ℕ → ControlBlockData
  unit_to_unit_voice_service_answer_response : ℕ → ℕ → ControlBlockData
  negative_acknowledge_response : Bool → ℕ → ℕ → ControlBlockData
  preamble : Bool → Bool → ℕ → ControlBlockData

-- `none` is a nil `Data`.
pub record ControlBlock : Type 0 where
  pub crc : ℕ
  pub last : Bool
  pub opcode : ℕ
  pub src_id : ℕ
  pub dst_id : ℕ
  pub body : Option ControlBlockData

abbrev pub outbound_activation_opcode : ℕ
outbound_activation_opcode = 0b00111000

abbrev pub unit_to_unit_voice_service_request_opcode : ℕ
unit_to_unit_voice_service_request_opcode = 0b00000100

abbrev pub unit_to_unit_voice_service_answer_response_opcode : ℕ
unit_to_unit_voice_service_answer_response_opcode = 0b00000101

abbrev pub negative_acknowledge_response_opcode : ℕ
negative_acknowledge_response_opcode = 0b00100100

abbrev pub preamble_opcode : ℕ
preamble_opcode = 0b00111101

-- `data[i] |= v`
abbrev pub or_at : List ℕ → ℕ → ℕ → List ℕ
or_at bytes i v = set bytes i (bit_or (get_or bytes i 0) v)

-- What each `Write` does to a slice of twelve bytes.
write_fields : ControlBlockData → List ℕ → List ℕ
write_fields outbound_activation bytes = or_at bytes 0 outbound_activation_opcode
write_fields (unit_to_unit_voice_service_request options) bytes =
    set (or_at bytes 0 unit_to_unit_voice_service_request_opcode) 2 options
write_fields (unit_to_unit_voice_service_answer_response options response) bytes =
    set (set (or_at bytes 0 unit_to_unit_voice_service_answer_response_opcode) 2 options) 3 response
write_fields (negative_acknowledge_response source_type service_type reason) bytes =
    let b = set (or_at bytes 0 negative_acknowledge_response_opcode) 2 service_type in
    set (if source_type then or_at b 2 0b01000000 else b) 3 reason
write_fields (preamble data_follows dst_is_group blocks) bytes =
    let b = or_at bytes 0 preamble_opcode in
    let b' = if data_follows then or_at b 2 0b10000000 else b in
    set (if dst_is_group then or_at b' 2 0b01000000 else b') 3 blocks

pub write : ControlBlockData → List ℕ → Outcome Error (List ℕ)
unfolding write_fields
write d bytes = do require (length bytes == 12) info_size; ok (write_fields d bytes)

-- The register over the first ten bytes, inverted, under the mask of control blocks.
unfoldable pub seal : ℕ → List ℕ → ℕ
seal crc bytes = bit_xor (not16 (crc16end (crc16_bytes crc bytes))) 0xa5a5

-- The addresses into bytes 4 to 9.
pub write_ids : ControlBlock → List ℕ → List ℕ
write_ids cb b =
    let b =
      set (set (set b 4 (u8 (cb.dst_id / 2 ^ 16))) 5 (u8 (cb.dst_id / 2 ^ 8))) 6 (u8 cb.dst_id) in
    set (set (set b 7 (u8 (cb.src_id / 2 ^ 16))) 8 (u8 (cb.src_id / 2 ^ 8))) 9 (u8 cb.src_id)

-- `Bytes`, with the block that it changes: the register starts from the block's own `CRC`.
-- A nil `Data` is dereferenced.
unfoldable pub bytes : ControlBlock → Outcome Error (List ℕ × ControlBlock)
unfolding write write_ids
bytes cb = elim cb.body [
  | none ↦ panic
  | some d ↦ do
    b ← write d (zeros 12)
    let b1 = if cb.last then or_at b 0 0b10000000 else b
    let b2 = write_ids cb b1
    let crc = seal cb.crc (take 10 b2)
    ok (set (set b2 10 (u8 (crc / 2 ^ 8))) 11 (u8 crc), record cb { crc = crc })
]

-- The `Data` that an opcode names, after its `Parse`.
pub parse_body : ℕ → List ℕ → Option ControlBlockData
parse_body opcode b =
    if opcode == outbound_activation_opcode
    then some outbound_activation
    else if opcode == unit_to_unit_voice_service_request_opcode
    then some (unit_to_unit_voice_service_request (get_or b 2 0))
    else if opcode == unit_to_unit_voice_service_answer_response_opcode
    then some (unit_to_unit_voice_service_answer_response (get_or b 2 0) (get_or b 3 0))
    else if opcode == negative_acknowledge_response_opcode
    then some (
        negative_acknowledge_response (has_bits (get_or b 2 0) 0b01000000)
          (bit_and (get_or b 2 0) 0b00011111) (get_or b 3 0))
    else if opcode == preamble_opcode
    then some (
        preamble (has_bits (get_or b 2 0) 0b10000000) (has_bits (get_or b 2 0) 0b01000000)
          (get_or b 3 0))
    else none

or_unknown : Option ControlBlockData → Outcome Error ControlBlockData
or_unknown none = err unknown_opcode
or_unknown (some d) = ok d

-- `ParseControlBlock`. The second length check, in `Parse`, is the same as the first.
unfoldable pub parse_control_block : List ℕ → Outcome Error ControlBlock
unfolding parse_body or_unknown
parse_control_block b = do
  require (length b == 12) info_size
  let crc = seal 0 (take 10 b)
  require (not (has_bits (get_or b 0 0) 0b01000000)) protect_flag
  require (get_or b 1 0 == 0) feature_set
  let stated = be16 (get_or b 10 0) (get_or b 11 0)
  let opcode = bit_and (get_or b 0 0) 0b00111111
  require (crc == stated) crc_mismatch
  d ← or_unknown (parse_body opcode b)
  ok (record {
    crc = stated;
    last = has_bits (get_or b 0 0) 0b10000000;
    opcode = opcode;
    src_id = be24 (get_or b 7 0) (get_or b 8 0) (get_or b 9 0);
    dst_id = be24 (get_or b 4 0) (get_or b 5 0) (get_or b 6 0);
    body = some d;
  })

-- `ParseControlBlock` never panics.
pub parse_control_block-ne-panic : (b : List ℕ) → parse_control_block b ≢ panic
unfolding parse_control_block parse_body or_unknown
parse_control_block-ne-panic b e = ground arith

-- ===== src/Dmr/ControlBlock/RoundTrip.antt =====
-- What `Bytes` writes, `ParseControlBlock` reads.
use go_dmr.Base.{
  ℕ, ◌/◌, ◌^◌, ◌<◌, ◌≡◌, refl, sym, ap, ◌∙◌, bit_and, bit_or, ltb, ◌==◌, Bool, true, false, Option,
  some, List, [], ◌∷◌, ◌&&◌, take, u8, be16-split, be24-split, has_bits, arith, all_below,
  all_below_sound, if◌then◌else◌,
}
use go_dmr.Base.Outcome.{ok}
use go_dmr.Dmr.ControlBlock.{
  ControlBlock, ControlBlockData, outbound_activation, unit_to_unit_voice_service_request,
  unit_to_unit_voice_service_answer_response, negative_acknowledge_response, preamble, bytes,
  parse_control_block, seal,
}
use go_dmr.Base.Bits.Xor.{xor-lt}

-- The opcode that belongs to a block's data.
abbrev pub opcode_of : ControlBlockData → ℕ
opcode_of outbound_activation = 0b00111000
opcode_of (unit_to_unit_voice_service_request options) = 0b00000100
opcode_of (unit_to_unit_voice_service_answer_response options response) = 0b00000101
opcode_of (negative_acknowledge_response source_type service_type reason) = 0b00100100
opcode_of (preamble data_follows dst_is_group blocks) = 0b00111101

-- The one field that shares its byte with a flag fits its five bits.
abbrev pub Fits : ControlBlockData → Type 0
Fits (negative_acknowledge_response source_type service_type reason) = service_type < 32
Fits _ = Unit

-- The bytes of a block whose data took bytes 0, 2 and 3.
abbrev pub image : ControlBlock → ℕ → ℕ → ℕ → ℕ → List ℕ
image cb first second third crc =
    first
    ∷ 0
    ∷ second
    ∷ third
    ∷ u8 (cb.dst_id / 2 ^ 16)
    ∷ u8 (cb.dst_id / 2 ^ 8)
    ∷ u8 cb.dst_id
    ∷ u8 (cb.src_id / 2 ^ 16)
    ∷ u8 (cb.src_id / 2 ^ 8)
    ∷ u8 cb.src_id
    ∷ u8 (crc / 2 ^ 8)
    ∷ u8 crc
    ∷ []

abbrev pub first_byte : Bool → ControlBlockData → ℕ
first_byte last d = if last then bit_or (opcode_of d) 0b10000000 else opcode_of d

abbrev pub second_byte : ControlBlockData → ℕ
second_byte outbound_activation = 0
second_byte (unit_to_unit_voice_service_request options) = options
second_byte (unit_to_unit_voice_service_answer_response options response) = options
second_byte (negative_acknowledge_response source_type service_type reason) =
    if source_type then bit_or service_type 0b01000000 else service_type
second_byte (preamble data_follows dst_is_group blocks) =
    let b = if data_follows then 0b10000000 else 0 in
    if dst_is_group then bit_or b 0b01000000 else b

abbrev pub third_byte : ControlBlockData → ℕ
third_byte outbound_activation = 0
third_byte (unit_to_unit_voice_service_request options) = 0
third_byte (unit_to_unit_voice_service_answer_response options response) = response
third_byte (negative_acknowledge_response source_type service_type reason) = reason
third_byte (preamble data_follows dst_is_group blocks) = blocks

abbrev pub sealed : ControlBlock → ControlBlockData → ℕ
sealed cb d =
    seal cb.crc (take 10 (image cb (first_byte cb.last d) (second_byte d) (third_byte d) 0))

pub bytes-image :
    (cb : ControlBlock) (d : ControlBlockData)
    → bytes (record cb { body = some d })
      ≡ ok (
        image cb (first_byte cb.last d) (second_byte d) (third_byte d) (sealed cb d),
        record cb { body = some d; crc = sealed cb d },
      )
unfolding bytes
bytes-image cb outbound_activation = ground arith
bytes-image cb (unit_to_unit_voice_service_request options) = ground arith
bytes-image cb (unit_to_unit_voice_service_answer_response options response) = ground arith
bytes-image cb (negative_acknowledge_response source_type service_type reason) = ground arith
bytes-image cb (preamble data_follows dst_is_group blocks) = ground arith

service_table :
    all_below 32 (λ s.
      (bit_and s 0b00011111 == s)
      && (bit_and (bit_or s 0b01000000) 0b00011111 == s)
      && (bit_and s 0b01000000 == 0)
      && ltb 0 (bit_and (bit_or s 0b01000000) 0b01000000))
    ≡ true
unfolding all_below
service_table = refl

service_bits :
    (s : ℕ) (flag : Bool)
    → s < 32
    → let b = if flag then bit_or s 0b01000000 else s in
      (bit_and b 0b00011111 ≡ s) × (has_bits b 0b01000000 ≡ flag)
service_bits s true h = ground (arith, all_below_sound 32 _ service_table s h)
service_bits s false h = ground (arith, all_below_sound 32 _ service_table s h)

pub parse-image :
    (cb : ControlBlock) (d : ControlBlockData) (crc : ℕ)
    → cb.src_id < 2 ^ 24
    → cb.dst_id < 2 ^ 24
    → Fits d
    → crc < 2 ^ 16
    → seal 0 (take 10 (image cb (first_byte cb.last d) (second_byte d) (third_byte d) 0)) ≡ crc
    → parse_control_block (image cb (first_byte cb.last d) (second_byte d) (third_byte d) crc)
      ≡ ok (record cb { crc = crc; opcode = opcode_of d; body = some d })
unfolding parse_control_block
parse-image cb outbound_activation crc hs ht f hc e =
    ground (arith, be16-split crc, be24-split cb.src_id, be24-split cb.dst_id)
parse-image cb (unit_to_unit_voice_service_request options) crc hs ht f hc e =
    ground (arith, be16-split crc, be24-split cb.src_id, be24-split cb.dst_id)
parse-image cb (unit_to_unit_voice_service_answer_response options response) crc hs ht f hc e =
    ground (arith, be16-split crc, be24-split cb.src_id, be24-split cb.dst_id)
parse-image cb (negative_acknowledge_response source_type service_type reason) crc hs ht f hc e =
    ground (
      arith,
      be16-split crc,
      be24-split cb.src_id,
      be24-split cb.dst_id,
      service_bits service_type source_type f,
    )
parse-image cb (preamble data_follows dst_is_group blocks) crc hs ht f hc e =
    ground (arith, be16-split crc, be24-split cb.src_id, be24-split cb.dst_id)

pub seal-lt : (x : ℕ) (message : List ℕ) → x < 2 ^ 16 → seal x message < 2 ^ 16
unfolding seal
seal-lt x message h = xor-lt 16 _ _ (omega arith) (omega arith)

-- A block whose `Data` is `d`, whose `CRC` is still 0, whose addresses fit 24 bits and whose service
-- type fits five bits is written as bytes that parse, without an error, to the same block with the
-- checksum filled in and the opcode of `d`. `Bytes` changes nothing of the block but its `CRC`.
pub parse-bytes :
    (cb : ControlBlock) (d : ControlBlockData)
    → cb.body ≡ some d
    → cb.crc ≡ 0
    → cb.src_id < 2 ^ 24
    → cb.dst_id < 2 ^ 24
    → Fits d
    → (b : List ℕ) × (crc : ℕ) × (bytes cb ≡ ok (b, record cb { crc = crc }))
      × (parse_control_block b ≡ ok (record cb { crc = crc; opcode = opcode_of d }))
parse-bytes cb d e z hs ht f =
    let crc = sealed cb d in
    let fits : crc < 2 ^ 16 = seal-lt cb.crc _ (omega arith) in
    (
      image cb (first_byte cb.last d) (second_byte d) (third_byte d) crc,
      crc,
      ap (λ (o : Option ControlBlockData). bytes (record cb { body = o })) e
          ∙ bytes-image cb d
          ∙ ap
              (λ (o : Option ControlBlockData). ok (
                image cb (first_byte cb.last d) (second_byte d) (third_byte d) crc,
                record cb { body = o; crc = crc },
              ))
              (sym e),
      parse-image cb d crc hs ht f fits (
            ap
              (λ (c : ℕ).
                seal c (take 10 (image cb (first_byte cb.last d) (second_byte d) (third_byte d) 0)))
              (sym z))
          ∙ ap
              (λ (o : Option ControlBlockData).
                ok (record cb { crc = crc; opcode = opcode_of d; body = o }))
              (sym e),
    )

-- The first byte never has the protect flag.
pub first_bits :
    (last : Bool) (d : ControlBlockData) → has_bits (first_byte last d) 0b01000000 ≡ false
first_bits true outbound_activation = refl
first_bits true (unit_to_unit_voice_service_request options) = refl
first_bits true (unit_to_unit_voice_service_answer_response options response) = refl
first_bits true (negative_acknowledge_response source_type service_type reason) = refl
first_bits true (preamble data_follows dst_is_group blocks) = refl
first_bits false outbound_activation = refl
first_bits false (unit_to_unit_voice_service_request options) = refl
first_bits false (unit_to_unit_voice_service_answer_response options response) = refl
first_bits false (negative_acknowledge_response source_type service_type reason) = refl
first_bits false (preamble data_follows dst_is_group blocks) = refl

-- ===== src/Dmr/DataBlock/RoundTrip.antt =====
-- A confirmed data block that is written is read back.
use go_dmr.Base.{
  ℕ, ◌+◌, ◌-◌, ◌*◌, ◌/◌, ◌^◌, ◌<◌, ◌≡◌, refl, sym, ap, ap₂, ◌∙◌, bit_and, bit_or, true, List, ◌∷◌,
  length, take, take_all, copy, copy_whole, zeros, length-zeros, u8, not16, arith,
}
use go_dmr.Base.Bits.Fields.{bit_and_ones, bit_or_disjoint}
use go_dmr.Base.Bits.Xor.{xor-lt}
use go_dmr.Base.Outcome.{ok}
use go_dmr.Dmr.DataBlock.{
  DataBlock, crc9_mask, calculate_crc9, data_block_length, part, parse_data_block, block_bytes,
}

crc9_mask-lt : (t : ℕ) → crc9_mask t < 2 ^ 9
unfolding crc9_mask
crc9_mask-lt t = ground arith

calculate_crc9-lt : (serial : ℕ) (bytes : List ℕ) (t : ℕ) → calculate_crc9 serial bytes t < 2 ^ 9
unfolding calculate_crc9
calculate_crc9-lt serial bytes t =
    xor-lt 9 _ (crc9_mask t) (omega (arith, bit_and_ones 9 (not16 _))) (crc9_mask-lt t)

-- The two bytes in front, and the number and the checksum that are read from them.
front :
    (serial crc : ℕ)
    → serial < 128
    → crc < 2 ^ 9
    → (bit_or (u8 (serial * 2 ^ 1)) (bit_and (u8 (crc / 2 ^ 8)) 0x01) / 2 ^ 1 ≡ serial)
      × (bit_or
            (bit_and (bit_or (u8 (serial * 2 ^ 1)) (bit_and (u8 (crc / 2 ^ 8)) 0x01)) 0b00000001
              * 2 ^ 8)
            (u8 crc)
          ≡ crc)
front serial crc hs hc =
    let high = bit_and_ones 1 (u8 (crc / 2 ^ 8)) in
    let b0 = bit_or (u8 (serial * 2 ^ 1)) (bit_and (u8 (crc / 2 ^ 8)) 0x01) in
    let joined : b0 ≡ serial * 2 + crc / 2 ^ 8 =
      ap₂ bit_or (let e : u8 (serial * 2 ^ 1) ≡ serial * 2 ^ 1 = omega arith in e)
        (let e : bit_and (u8 (crc / 2 ^ 8)) 0x01 ≡ crc / 2 ^ 8 = omega (arith, high) in e)
      ∙ bit_or_disjoint 1 serial (crc / 2 ^ 8) (omega arith)
      ∙ omega arith in
    let low = bit_and_ones 1 b0 in
    let low_bit : bit_and b0 0b00000001 ≡ crc / 2 ^ 8 = omega (arith, low, joined) in
    (
      omega (arith, joined),
      ap (λ (t : ℕ). bit_or (t * 2 ^ 8) (u8 crc)) low_bit
          ∙ bit_or_disjoint 8 (crc / 2 ^ 8) (u8 crc) (omega arith)
          ∙ omega arith,
    )

part-ok :
    (b0 b1 size : ℕ) (bytes : List ℕ)
    → length bytes ≡ size
    → part 2 (2 + size) (b0 ∷ b1 ∷ bytes) ≡ ok bytes
unfolding part
part-ok b0 b1 size bytes h =
    let cut : take (2 + size - 2) bytes ≡ bytes =
      take_all (2 + size - 2) bytes (omega (arith, h)) in
    ground (arith, cut, h)

-- Two bytes in front and the data of a block.
parse_pieces :
    (b0 b1 data_type serial crc : ℕ) (bytes : List ℕ)
    → length bytes ≡ data_block_length data_type true
    → b0 / 2 ^ 1 ≡ serial
    → bit_or (bit_and b0 0b00000001 * 2 ^ 8) b1 ≡ crc
    → calculate_crc9 serial bytes data_type ≡ crc
    → parse_data_block (b0 ∷ b1 ∷ bytes) data_type true
      ≡ ok (record {
        serial = serial;
        crc = crc;
        is_ok = true;
        bytes_ = bytes;
        size = data_block_length data_type true;
      })
unfolding parse_data_block
parse_pieces b0 b1 data_type serial crc bytes hl es ec e =
    let size = data_block_length data_type true in
    let whole : copy (zeros size) bytes ≡ bytes =
      copy_whole (zeros size) bytes (hl ∙ sym (length-zeros size)) in
    ground (arith, part-ok b0 b1 size bytes hl, whole, es, ec, e)

-- A block of the length of its data type, with a serial number below 128: `ParseDataBlock` reads back from the
-- confirmed `Bytes` the serial number, the data, and the checksum that `Bytes` has stored in the block.
pub parse_data_block-block_bytes :
    (db : DataBlock) (data_type : ℕ)
    → db.serial < 128
    → length db.bytes_ ≡ data_block_length data_type true
    → db.size ≡ data_block_length data_type true
    → parse_data_block (block_bytes db data_type true).1 data_type true
      ≡ ok (record ((block_bytes db data_type true).0) { is_ok = true })
unfolding block_bytes
parse_data_block-block_bytes db data_type hs hl hz =
    let size = data_block_length data_type true in
    let crc = calculate_crc9 db.serial db.bytes_ data_type in
    let (serial, seal) = front db.serial crc hs (calculate_crc9-lt db.serial db.bytes_ data_type) in
    let whole : copy (zeros size) db.bytes_ ≡ db.bytes_ =
      copy_whole (zeros size) db.bytes_ (hl ∙ sym (length-zeros size)) in
    rw (whole, hz) (parse_pieces _ _ data_type db.serial crc db.bytes_ hl serial seal refl)

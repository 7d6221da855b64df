-- ===== src/Dmr/DataHeader/RoundTrip.antt =====
-- What `Bytes` writes, `ParseDataHeader` reads.
use go_dmr.Base.{
  ℕ, ◌/◌, ◌^◌, ◌<◌, ◌≡◌, refl, ap, ◌∙◌, true, false, Option, some, List, take, arith, be16-split,
  be24-split,
}
use go_dmr.Base.Outcome.{ok}
use go_dmr.Base.Bits.Xor.{xor-lt}
use go_dmr.Dmr.DataHeader.{
  DataHeader, DataHeaderData, udt_data, unconfirmed_data, confirmed_data, response_data,
  proprietary_data, short_data_raw_data, short_data_defined_data, header_seal, bytes,
  parse_data_header,
}
use go_dmr.Dmr.DataHeader.Fields.{
  pad_head, blocks_head, plain_head, second_byte, sap_byte, split_blocks, split_pad, low_nibble,
}
use go_dmr.Dmr.DataHeader.Tail
use go_dmr.Dmr.DataHeader.Image.{
  format_of, Fits, image, byte0, byte1, byte8, byte9, sealed, bytes-image,
}

-- The four first bytes' fields are kept.
module _ (h : DataHeader) (crc : ℕ) (hs : h.service_access_point < 16) (hd : h.dst_id < 2 ^ 24)
    (hr : h.src_id < 2 ^ 24) (hc : crc < 2 ^ 16) where
  parse-image :
      (d : DataHeaderData)
      → h.packet_format ≡ format_of d
      → Fits h.header_compression d
      → header_seal (take 10 (image h (byte0 h d) (byte1 h d) (byte8 d) (byte9 d) 0)) ≡ crc
      → parse_data_header (image h (byte0 h d) (byte1 h d) (byte8 d) (byte9 d) crc) false
        ≡ ok (record h { crc = crc; body = some d })
  unfolding parse_data_header
  parse-image (udt_data format pad blocks s opcode) pf f e = ground (
    arith,
    e,
    be16-split crc,
    be24-split h.src_id,
    be24-split h.dst_id,
    pf,
    plain_head h.packet_format h.dst_is_group h.response_requested h.header_compression
        (omega (arith, pf)),
    second_byte h.service_access_point format hs (omega (arith, f.0)),
    low_nibble format f.0,
    Tail.udt_blocks_fields pad blocks f.1 f.2,
    Tail.udt_opcode_fields opcode s f.3,
  )
  parse-image (response_data blocks class_type status) pf f e = ground (
    arith,
    e,
    be16-split crc,
    be24-split h.src_id,
    be24-split h.dst_id,
    pf,
    plain_head h.packet_format h.dst_is_group h.response_requested h.header_compression
        (omega (arith, pf)),
    sap_byte h.service_access_point hs,
    Tail.block_count_fields blocks false f.0,
    Tail.response_status_fields class_type status f.1 f.2,
  )
  parse-image (unconfirmed_data pad full blocks fragment) pf f e = ground (
    arith,
    e,
    be16-split crc,
    be24-split h.src_id,
    be24-split h.dst_id,
    pf,
    pad_head h.packet_format pad h.dst_is_group h.response_requested h.header_compression
        (omega (arith, pf)) f.0,
    second_byte h.service_access_point pad hs (omega (arith, f.0)),
    split_pad pad f.0,
    Tail.block_count_fields blocks full f.1,
    low_nibble fragment f.2,
  )
  parse-image (confirmed_data pad full blocks resync send_number fragment) pf f e = ground (
    arith,
    e,
    be16-split crc,
    be24-split h.src_id,
    be24-split h.dst_id,
    pf,
    pad_head h.packet_format pad h.dst_is_group h.response_requested h.header_compression
        (omega (arith, pf)) f.0,
    second_byte h.service_access_point pad hs (omega (arith, f.0)),
    split_pad pad f.0,
    Tail.block_count_fields blocks full f.1,
    Tail.sequence_numbers_fields send_number fragment resync f.2 f.3,
  )
  parse-image (short_data_defined_data blocks dd_format resync full padding) pf f e = ground (
    arith,
    e,
    be16-split crc,
    be24-split h.src_id,
    be24-split h.dst_id,
    pf,
    blocks_head h.packet_format blocks h.dst_is_group h.response_requested h.header_compression
        (omega (arith, pf)) f.0 f.1,
    second_byte h.service_access_point blocks hs f.0,
    split_blocks blocks f.0,
    Tail.defined_format_fields dd_format resync full f.2,
  )
  parse-image (short_data_raw_data blocks src_port dst_port resync full padding) pf f e = ground (
    arith,
    e,
    be16-split crc,
    be24-split h.src_id,
    be24-split h.dst_id,
    pf,
    blocks_head h.packet_format blocks h.dst_is_group h.response_requested h.header_compression
        (omega (arith, pf)) f.0 f.1,
    second_byte h.service_access_point blocks hs f.0,
    split_blocks blocks f.0,
    Tail.ports_fields src_port dst_port resync full f.2 f.3,
  )
  parse-image (proprietary_data manufacturer) pf f e = absurd f

header_seal-lt : (message : List ℕ) → header_seal message < 2 ^ 16
unfolding header_seal
header_seal-lt message = xor-lt 16 _ _ (omega arith) (omega arith)

-- The header with its data known, written.
written :
    (h : DataHeader) (d : DataHeaderData)
    → h.body ≡ some d
    → bytes h ≡ (
      image h (byte0 h d) (byte1 h d) (byte8 d) (byte9 d) (sealed h d),
      record h { body = some d; crc = sealed h d },
    )
written h d e =
    ap (λ (o : Option DataHeaderData). bytes (record h { body = o })) e ∙ bytes-image h d

-- A header that has data `d` of another kind than proprietary, the packet format that belongs to `d`,
-- every field in the bits that the format has for it, and, for short data, the header compression flag
-- equal to the upper bit of the block count with which it shares its place, is written as bytes
-- that parse, without an error, to the same header with the checksum filled in. What `CRC` it
-- had before makes no difference.
pub parse_data_header-bytes :
    (h : DataHeader) (d : DataHeaderData)
    → h.body ≡ some d
    → h.packet_format ≡ format_of d
    → Fits h.header_compression d
    → h.service_access_point < 16
    → h.dst_id < 2 ^ 24
    → h.src_id < 2 ^ 24
    → parse_data_header (bytes h).0 false ≡ ok (bytes h).1
parse_data_header-bytes h d e pf f hs hd hr =
    rw (written h d e) (parse-image h (sealed h d) hs hd hr (header_seal-lt _) d pf f refl)

-- A header with proprietary data, whose manufacturer's ID fits seven bits, whose packet format
-- fits four and whose addresses fit 24, parsed as proprietary after it is written, keeps
-- everything but its service access point: what is read for that is the upper part of the
-- manufacturer's ID, whatever was written.
pub parse_data_header-bytes_proprietary :
    (h : DataHeader) (m : ℕ)
    → h.body ≡ some (proprietary_data m)
    → m < 128
    → h.packet_format < 16
    → h.dst_id < 2 ^ 24
    → h.src_id < 2 ^ 24
    → parse_data_header (bytes h).0 true
      ≡ ok (record ((bytes h).1) { service_access_point = m / 16 })
unfolding parse_data_header
parse_data_header-bytes_proprietary h m e hm pf hd hr = rw (written h (proprietary_data m) e) (
    ground (
      arith,
      be16-split (sealed h (proprietary_data m)),
      header_seal-lt
          (take 10 (image h (byte0 h (proprietary_data m)) (byte1 h (proprietary_data m)) 0 0 0)),
      be24-split h.src_id,
      be24-split h.dst_id,
      plain_head h.packet_format h.dst_is_group h.response_requested h.header_compression pf,
      Tail.manufacturer_fields m hm,
    ))

-- ===== src/Dmr/DataHeader.antt =====
-- dataheader.go: the headers of data transmissions, twelve bytes sealed by an inverted CRC-16.
-- The `String` methods and the tables of names are not modelled.
pub mod Fields
pub mod Image
pub mod RoundTrip
pub mod Tail
use go_dmr.Base.{
  ℕ, ◌+◌, ◌*◌, ◌/◌, ◌%◌, ◌^◌, bit_and, bit_or, bit_xor, ltb, ◌==◌, if◌then◌else◌, Bool, true, false,
  Option, none, some, List, [], ◌∷◌, length, get_or, set, take, zeros, u8, not16, has_bits, be16,
  be24, ◌≢◌, arith,
}
use go_dmr.Base.Outcome.{Outcome, ok, err, panic, ◌>>=◌, ◌>>◌, require}
use go_dmr.Dmr.Crc.{crc16end, crc16_bytes}
use go_dmr.Dmr.ControlBlock.{or_at}

pub data Error : Type 0 where
  data_size crc_mismatch unknown_packet_format : Error

abbrev pub packet_format_udt : ℕ
packet_format_udt = 0

abbrev pub packet_format_response : ℕ
packet_format_response = 1

abbrev pub packet_format_unconfirmed_data : ℕ
packet_format_unconfirmed_data = 2

abbrev pub packet_format_confirmed_data : ℕ
packet_format_confirmed_data = 3

abbrev pub packet_format_short_data_defined : ℕ
packet_format_short_data_defined = 13

abbrev pub packet_format_short_data_raw : ℕ
packet_format_short_data_raw = 14

-- The implementations of the interface `DataHeaderData`, their fields in the order of the structs.
pub data DataHeaderData : Type 0 where
  udt_data : ℕ → ℕ → ℕ → Bool → ℕ → DataHeaderData
  unconfirmed_data : ℕ → Bool → ℕ → ℕ → DataHeaderData
  confirmed_data : ℕ → Bool → ℕ → Bool → ℕ → ℕ → DataHeaderData
  response_data : ℕ → ℕ → ℕ → DataHeaderData
  proprietary_data : ℕ → DataHeaderData
  short_data_raw_data : ℕ → ℕ → ℕ → Bool → Bool → ℕ → DataHeaderData
  short_data_defined_data : ℕ → ℕ → Bool → Bool → ℕ → DataHeaderData

-- `none` is a nil `Data`.
pub record DataHeader : Type 0 where
  pub packet_format : ℕ
  pub dst_is_group : Bool
  pub response_requested : Bool
  pub header_compression : Bool
  pub service_access_point : ℕ
  pub dst_id : ℕ
  pub src_id : ℕ
  pub crc : ℕ
  pub body : Option DataHeaderData

-- What each `Write` does to the twelve bytes.
write_fields : DataHeaderData → List ℕ → List ℕ
write_fields (udt_data format pad_nibble appended_blocks supplementary opcode) b =
    let b1 = or_at b 1 (bit_and format 0b00001111) in
    let b2 = set b1 8 (bit_or (bit_and appended_blocks 0b00000011) (u8 (pad_nibble * 2 ^ 3))) in
    let b3 = set b2 9 (bit_and opcode 0b00111111) in
    if supplementary then or_at b3 9 0b10000000 else b3
write_fields (unconfirmed_data pad_octets full blocks fragment) b =
    let b1 = or_at b 0 (bit_and pad_octets 0b00010000) in
    let b2 = or_at b1 1 (bit_and pad_octets 0b00001111) in
    let b3 = set b2 8 (bit_and blocks 0b01111111) in
    set (if full then or_at b3 8 0b10000000 else b3) 9 (bit_and fragment 0b00001111)
write_fields (confirmed_data pad_octets full blocks resync send_number fragment) b =
    let b1 = or_at b 0 (bit_and pad_octets 0b00010000) in
    let b2 = or_at b1 1 (bit_and pad_octets 0b00001111) in
    let b3 = set b2 8 (bit_and blocks 0b01111111) in
    let b4 = if full then or_at b3 8 0b10000000 else b3 in
    let b5 = set b4 9 (
      bit_or (bit_and fragment 0b00000111 * 2 ^ 0) (u8 (bit_and send_number 0b00000111 * 2 ^ 4))) in
    if resync then or_at b5 9 0b10000000 else b5
write_fields (response_data blocks class_type status) b =
    set (set b 8 (bit_and blocks 0b01111111)) 9 (bit_or status (u8 (class_type * 2 ^ 3)))
write_fields (proprietary_data manufacturer) b = set b 1 (bit_and manufacturer 0b01111111)
write_fields (short_data_raw_data blocks src_port dst_port resync full padding) b =
    let b1 = or_at b 0 (bit_and blocks 0b00110000) in
    let b2 = or_at b1 1 (bit_and blocks 0b00001111) in
    let b3 = set b2 8 (
      bit_or (u8 (bit_and src_port 0b00000111 * 2 ^ 5))
        (u8 (bit_and dst_port 0b00000111 * 2 ^ 2))) in
    let b4 = if resync then or_at b3 8 0b00000010 else b3 in
    set (if full then or_at b4 8 0b00000001 else b4) 9 padding
write_fields (short_data_defined_data blocks dd_format resync full padding) b =
    let b1 = or_at b 0 (bit_and blocks 0b00110000) in
    let b2 = or_at b1 1 (bit_and blocks 0b00001111) in
    let b3 = set b2 8 (u8 (bit_and dd_format 0b00111111 * 2 ^ 2)) in
    let b4 = if resync then or_at b3 8 0b00000010 else b3 in
    set (if full then or_at b4 8 0b00000001 else b4) 9 padding

-- A nil `Data` writes nothing.
write_body : Option DataHeaderData → List ℕ → List ℕ
write_body none b = b
write_body (some d) b = write_fields d b

-- The register over the first ten bytes, inverted, under the mask of data headers.
unfoldable pub header_seal : List ℕ → ℕ
header_seal b = bit_xor (not16 (crc16end (crc16_bytes 0 b))) 0xcccc

-- The first byte before the data is written.
unfoldable pub first_flags : ℕ → Bool → Bool → Bool → ℕ
first_flags format group response compression =
    let b = bit_and format 0b00001111 in
    let b1 = if group then bit_or b 0b10000000 else b in
    let b2 = if response then bit_or b1 0b01000000 else b1 in
    if compression then bit_or b2 0b00100000 else b2

-- `Bytes`, with the header that it changes. No `Write` of a header returns an error.
unfoldable pub bytes : DataHeader → List ℕ × DataHeader
unfolding write_fields write_body
bytes h =
    let b =
      first_flags h.packet_format h.dst_is_group h.response_requested h.header_compression
      ∷ bit_and (u8 (h.service_access_point * 2 ^ 4)) 0b11110000
      ∷ u8 (h.dst_id / 2 ^ 16)
      ∷ u8 (h.dst_id / 2 ^ 8)
      ∷ u8 h.dst_id
      ∷ u8 (h.src_id / 2 ^ 16)
      ∷ u8 (h.src_id / 2 ^ 8)
      ∷ u8 h.src_id
      ∷ zeros 4 in
    let b1 = write_body h.body b in
    let crc = header_seal (take 10 b1) in
    (set (set b1 10 (u8 (crc / 2 ^ 8))) 11 (u8 crc), record h { crc = crc })

-- `dataHeaderCRC`
data_header_crc : List ℕ → ℕ
data_header_crc b = if ltb (length b) 10 then 0 else header_seal (take 10 b)

-- The `Data` that the packet format names.
parse_fields : ℕ → List ℕ → Option DataHeaderData
parse_fields format b =
    let b0 = get_or b 0 0 in
    let b1 = get_or b 1 0 in
    let b8 = get_or b 8 0 in
    let b9 = get_or b 9 0 in
    if format == packet_format_udt
    then some (
        udt_data (bit_and b1 0b00001111) (bit_and b8 0b11111000 / 2 ^ 3) (bit_and b8 0b00000011)
          (has_bits b9 0b10000000) (bit_and b9 0b00111111))
    else if format == packet_format_response
    then some (
        response_data (bit_and b8 0b01111111) (bit_and b9 0b11111000 / 2 ^ 3)
          (bit_and b9 0b00000111))
    else if format == packet_format_unconfirmed_data
    then some (
        unconfirmed_data (bit_or (bit_and b0 0b00010000) (bit_and b1 0b00001111))
          (has_bits b8 0b10000000) (bit_and b8 0b01111111) (bit_and b9 0b00001111))
    else if format == packet_format_confirmed_data
    then some (
        confirmed_data (bit_or (bit_and b0 0b00010000) (bit_and b1 0b00001111))
          (has_bits b8 0b10000000) (bit_and b8 0b01111111) (has_bits b9 0b10000000)
          (bit_and b9 0b01110000 / 2 ^ 4) (bit_and b9 0b00001111))
    else if format == packet_format_short_data_raw
    then some (
        short_data_raw_data (bit_or (bit_and b0 0b00110000) (bit_and b1 0b00001111))
          (bit_and b8 0b11100000 / 2 ^ 5) (bit_and b8 0b00011100 / 2 ^ 2) (has_bits b8 0b00000010)
          (has_bits b8 0b00000001) b9)
    else if format == packet_format_short_data_defined
    then some (
        short_data_defined_data (bit_or (bit_and b0 0b00110000) (bit_and b1 0b00001111))
          (bit_and b8 0b11111100 / 2 ^ 2) (has_bits b8 0b00000010) (has_bits b8 0b00000001) b9)
    else none

or_unknown : Option DataHeaderData → Outcome Error DataHeaderData
or_unknown none = err unknown_packet_format
or_unknown (some d) = ok d

-- `ParseDataHeader`
unfoldable pub parse_data_header : List ℕ → Bool → Outcome Error DataHeader
unfolding data_header_crc parse_fields or_unknown
parse_data_header b proprietary = do
  require (length b == 12) data_size
  let stated = be16 (get_or b 10 0) (get_or b 11 0)
  require (stated == data_header_crc b) crc_mismatch
  let b0 = get_or b 0 0
  let b1 = get_or b 1 0
  let format = bit_and b0 0b00001111
  d ←
      if proprietary
      then ok (proprietary_data (bit_and b1 0b01111111))
      else or_unknown (parse_fields format b)
  ok (record {
    packet_format = format;
    dst_is_group = has_bits b0 0b10000000;
    response_requested = has_bits b0 0b01000000;
    header_compression = has_bits b0 0b00100000;
    service_access_point = bit_and b1 0b11110000 / 2 ^ 4;
    dst_id = be24 (get_or b 2 0) (get_or b 3 0) (get_or b 4 0);
    src_id = be24 (get_or b 5 0) (get_or b 6 0) (get_or b 7 0);
    crc = stated;
    body = some d;
  })

-- `ParseDataHeader` never panics.
pub parse_data_header-ne-panic :
    (b : List ℕ) (proprietary : Bool) → parse_data_header b proprietary ≢ panic
unfolding parse_data_header parse_fields or_unknown
parse_data_header-ne-panic b proprietary e = ground arith

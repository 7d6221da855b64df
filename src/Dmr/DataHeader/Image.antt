-- ===== src/Dmr/DataHeader/Image.antt =====
-- The twelve bytes that `Bytes` makes, byte by byte.
use go_dmr.Base.{
  ℕ, ◌*◌, ◌/◌, ◌^◌, ◌<◌, ◌≡◌, bit_and, bit_or, Bool, false, some, List, [], ◌∷◌, take, u8, has_bits,
  arith,
}
use go_dmr.Dmr.DataHeader.{
  DataHeader, DataHeaderData, udt_data, unconfirmed_data, confirmed_data, response_data,
  proprietary_data, short_data_raw_data, short_data_defined_data, first_flags, header_seal, bytes,
}
use go_dmr.Dmr.DataHeader.Fields.{head}
use go_dmr.Dmr.DataHeader.Tail

-- The packet format that belongs to a header's data. Proprietary data has none of its own.
abbrev pub format_of : DataHeaderData → ℕ
format_of (udt_data format pad_nibble blocks supplementary opcode) = 0
format_of (response_data blocks class_type status) = 1
format_of (unconfirmed_data pad_octets full blocks fragment) = 2
format_of (confirmed_data pad_octets full blocks resync send_number fragment) = 3
format_of (short_data_defined_data blocks dd_format resync full padding) = 13
format_of (short_data_raw_data blocks src_port dst_port resync full padding) = 14
format_of (proprietary_data manufacturer) = 15

-- Each field in the bits that the format has for it. The upper bit of a short data's block count is
-- the bit of the header compression.
abbrev pub Fits : Bool → DataHeaderData → Type 0
Fits c (udt_data format pad_nibble blocks supplementary opcode) =
    (format < 16) × (pad_nibble < 32) × (blocks < 4) × (opcode < 64)
Fits c (response_data blocks class_type status) = (blocks < 128) × (class_type < 32) × (status < 8)
Fits c (unconfirmed_data pad_octets full blocks fragment) =
    (pad_octets < 32) × (blocks < 128) × (fragment < 16)
Fits c (confirmed_data pad_octets full blocks resync send_number fragment) =
    (pad_octets < 32) × (blocks < 128) × (send_number < 8) × (fragment < 8)
Fits c (short_data_defined_data blocks dd_format resync full padding) =
    (blocks < 64) × (has_bits blocks 0b00100000 ≡ c) × (dd_format < 64)
Fits c (short_data_raw_data blocks src_port dst_port resync full padding) =
    (blocks < 64) × (has_bits blocks 0b00100000 ≡ c) × (src_port < 8) × (dst_port < 8)
Fits c (proprietary_data manufacturer) = ⊥

abbrev pub image : DataHeader → ℕ → ℕ → ℕ → ℕ → ℕ → List ℕ
image h b0 b1 b8 b9 crc =
    b0
    ∷ b1
    ∷ u8 (h.dst_id / 2 ^ 16)
    ∷ u8 (h.dst_id / 2 ^ 8)
    ∷ u8 h.dst_id
    ∷ u8 (h.src_id / 2 ^ 16)
    ∷ u8 (h.src_id / 2 ^ 8)
    ∷ u8 h.src_id
    ∷ b8
    ∷ b9
    ∷ u8 (crc / 2 ^ 8)
    ∷ u8 crc
    ∷ []

abbrev pub byte0 : DataHeader → DataHeaderData → ℕ
byte0 h (udt_data format pad_nibble blocks supplementary opcode) =
    first_flags h.packet_format h.dst_is_group h.response_requested h.header_compression
byte0 h (response_data blocks class_type status) =
    first_flags h.packet_format h.dst_is_group h.response_requested h.header_compression
byte0 h (unconfirmed_data pad_octets full blocks fragment) =
    head 0b00010000 h.packet_format pad_octets h.dst_is_group h.response_requested
      h.header_compression
byte0 h (confirmed_data pad_octets full blocks resync send_number fragment) =
    head 0b00010000 h.packet_format pad_octets h.dst_is_group h.response_requested
      h.header_compression
byte0 h (short_data_defined_data blocks dd_format resync full padding) =
    head 0b00110000 h.packet_format blocks h.dst_is_group h.response_requested h.header_compression
byte0 h (short_data_raw_data blocks src_port dst_port resync full padding) =
    head 0b00110000 h.packet_format blocks h.dst_is_group h.response_requested h.header_compression
byte0 h (proprietary_data manufacturer) =
    first_flags h.packet_format h.dst_is_group h.response_requested h.header_compression

abbrev pub sap : DataHeader → ℕ
sap h = bit_and (u8 (h.service_access_point * 2 ^ 4)) 0b11110000

abbrev pub byte1 : DataHeader → DataHeaderData → ℕ
byte1 h (udt_data format pad_nibble blocks supplementary opcode) =
    bit_or (sap h) (bit_and format 0b00001111)
byte1 h (response_data blocks class_type status) = sap h
byte1 h (unconfirmed_data pad_octets full blocks fragment) =
    bit_or (sap h) (bit_and pad_octets 0b00001111)
byte1 h (confirmed_data pad_octets full blocks resync send_number fragment) =
    bit_or (sap h) (bit_and pad_octets 0b00001111)
byte1 h (short_data_defined_data blocks dd_format resync full padding) =
    bit_or (sap h) (bit_and blocks 0b00001111)
byte1 h (short_data_raw_data blocks src_port dst_port resync full padding) =
    bit_or (sap h) (bit_and blocks 0b00001111)
byte1 h (proprietary_data manufacturer) = bit_and manufacturer 0b01111111

abbrev pub byte8 : DataHeaderData → ℕ
byte8 (udt_data format pad_nibble blocks supplementary opcode) = Tail.udt_blocks pad_nibble blocks
byte8 (response_data blocks class_type status) = Tail.block_count blocks false
byte8 (unconfirmed_data pad_octets full blocks fragment) = Tail.block_count blocks full
byte8 (confirmed_data pad_octets full blocks resync send_number fragment) =
    Tail.block_count blocks full
byte8 (short_data_defined_data blocks dd_format resync full padding) =
    Tail.defined_format dd_format resync full
byte8 (short_data_raw_data blocks src_port dst_port resync full padding) =
    Tail.ports src_port dst_port resync full
byte8 (proprietary_data manufacturer) = 0

abbrev pub byte9 : DataHeaderData → ℕ
byte9 (udt_data format pad_nibble blocks supplementary opcode) =
    Tail.udt_opcode opcode supplementary
byte9 (response_data blocks class_type status) = Tail.response_status class_type status
byte9 (unconfirmed_data pad_octets full blocks fragment) = bit_and fragment 0b00001111
byte9 (confirmed_data pad_octets full blocks resync send_number fragment) =
    Tail.sequence_numbers send_number fragment resync
byte9 (short_data_defined_data blocks dd_format resync full padding) = padding
byte9 (short_data_raw_data blocks src_port dst_port resync full padding) = padding
byte9 (proprietary_data manufacturer) = 0

abbrev pub sealed : DataHeader → DataHeaderData → ℕ
sealed h d = header_seal (take 10 (image h (byte0 h d) (byte1 h d) (byte8 d) (byte9 d) 0))

pub bytes-image :
    (h : DataHeader) (d : DataHeaderData)
    → bytes (record h { body = some d }) ≡ (
      image h (byte0 h d) (byte1 h d) (byte8 d) (byte9 d) (sealed h d),
      record h { body = some d; crc = sealed h d },
    )
unfolding bytes
bytes-image h (udt_data format pad_nibble blocks supplementary opcode) = ground arith
bytes-image h (response_data blocks class_type status) = ground arith
bytes-image h (unconfirmed_data pad_octets full blocks fragment) = ground arith
bytes-image h (confirmed_data pad_octets full blocks resync send_number fragment) = ground arith
bytes-image h (short_data_defined_data blocks dd_format resync full padding) = ground arith
bytes-image h (short_data_raw_data blocks src_port dst_port resync full padding) = ground arith
bytes-image h (proprietary_data manufacturer) = ground arith

-- ===== src/Dmr/Tests.antt =====
-- Runs of the codecs at concrete inputs.
use go_dmr.Base.{ℕ, ◌≡◌, ◌≢◌, refl, some, true, false, List, [], ◌∷◌, ◌++◌, zeros, arith}
use go_dmr.Base.Outcome.{ok}
use go_dmr.Dmr.Bits.{bytes_to_bits, bits_to_bytes}
use go_dmr.Dmr.Bits.RoundTrip.{bits_to_bytes-bytes_to_bits}
use go_dmr.Dmr.Crc.{crc16end, crc16_bytes}
use go_dmr.Dmr.Crc.Detect.{crc16_detects_burst}
use go_dmr.Dmr.ControlBlock.{ControlBlock, preamble, preamble_opcode, bytes, parse_control_block}
use go_dmr.Dmr.ControlBlock.{seal}
use go_dmr.Dmr.Crc.{crc16, crc16end, crc16_bytes}
use go_dmr.Base.{be16, be24}
use go_dmr.Dmr.DataHeader
use go_dmr.Dmr.DataHeader.{DataHeader, short_data_defined_data, proprietary_data, parse_data_header}
use go_dmr.Dmr.DataHeader.RoundTrip.{parse_data_header-bytes}
use go_dmr.Base.{◌↔◌}
use go_dmr.Dmr.Sync.{ms_sourced_data, sync_pattern, sync_pattern_iff}
use go_dmr.Dmr.ControlBlock.RoundTrip.{parse-bytes}
use go_dmr.Dmr.ControlBlock.Check.{parse_control_block_detects_burst}

bits_to_bytes-bytes_to_bits_example :
    bits_to_bytes (bytes_to_bits (0xa5 ∷ 0x07 ∷ []) ++ zeros 3) ≡ 0xa5 ∷ 0x07 ∷ 0 ∷ []
bits_to_bytes-bytes_to_bits_example =
    bits_to_bytes-bytes_to_bits (0xa5 ∷ 0x07 ∷ []) 3 (omega arith, (omega arith, tt))

crc16_detects_burst_example :
    crc16end (crc16_bytes 0 (1 ∷ 2 ∷ 3 ∷ 4 ∷ []))
    ≢ crc16end (crc16_bytes 0 (1 ∷ 0x82 ∷ 0x43 ∷ 4 ∷ []))
crc16_detects_burst_example =
    crc16_detects_burst (1 ∷ []) (4 ∷ []) 2 3 0x82 0x43
      (omega arith, (omega arith, (omega arith, (omega arith, tt)))) (λ e. omega (arith, e.0))

abbrev block : ControlBlock
block = record {
  crc = 0;
  last = true;
  opcode = 0;
  src_id = 2042214;
  dst_id = 2043044;
  body = some (preamble true false 5);
}

parse-bytes_example :
    (b : List ℕ) × (crc : ℕ) × (bytes block ≡ ok (b, record block { crc = crc }))
    × (parse_control_block b ≡ ok (record block { crc = crc; opcode = 0b00111101 }))
parse-bytes_example =
    parse-bytes block (preamble true false 5) refl refl (omega arith) (omega arith) tt

parse_control_block_detects_burst_example :
    parse_control_block
      ((189 ∷ 0 ∷ 0x80 ∷ 5 ∷ 31 ∷ 44 ∷ 164 ∷ 31 ∷ 41 ∷ []) ++ (103 ∷ 60 ∷ 59 ∷ []))
    ≢ ok (record block { crc = 7 })
unfolding parse_control_block seal crc16end crc16_bytes crc16 be16 be24
parse_control_block_detects_burst_example =
    parse_control_block_detects_burst (189 ∷ 0 ∷ 0x80 ∷ 5 ∷ 31 ∷ 44 ∷ 164 ∷ 31 ∷ 41 ∷ []) (59 ∷ [])
      102 188 103 60 (record block { crc = 48187; opcode = preamble_opcode })
      (record block { crc = 7 })
      (omega arith, (omega arith, (omega arith, (omega arith, (omega arith, tt))))) refl
      (λ e. omega (arith, e.0)) refl

abbrev header : DataHeader
header = record {
  packet_format = 13;
  dst_is_group = true;
  response_requested = false;
  header_compression = true;
  service_access_point = 10;
  dst_id = 446;
  src_id = 2042214;
  crc = 77;
  body = some (short_data_defined_data 35 18 true false 8);
}

parse_data_header-bytes_example :
    parse_data_header (DataHeader.bytes header).0 false ≡ ok (DataHeader.bytes header).1
parse_data_header-bytes_example =
    parse_data_header-bytes header (short_data_defined_data 35 18 true false 8) refl refl
      (omega arith, refl, omega arith) (omega arith) (omega arith) (omega arith)

sync_pattern_iff_example :
    (sync_pattern (bytes_to_bits ms_sourced_data) ≡ 3)
    ↔ (bits_to_bytes (bytes_to_bits ms_sourced_data) ≡ ms_sourced_data)
sync_pattern_iff_example = sync_pattern_iff (bytes_to_bits ms_sourced_data) 3 (omega arith)

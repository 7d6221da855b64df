-- ===== src/Checks/Tests.antt =====
-- A run of the table checksum at a concrete input.
use go_dmr.Base.{◌≡◌, [], ◌∷◌, not16}
use go_dmr.Checks.Crc16.{ccitt, update, bit_by_bit, update-bit_by_bit}

update-bit_by_bit_example :
    update 0 ccitt (1 ∷ 2 ∷ 250 ∷ []) ≡ not16 (bit_by_bit ccitt (not16 0) (1 ∷ 2 ∷ 250 ∷ []))
update-bit_by_bit_example = update-bit_by_bit 0 ccitt (1 ∷ 2 ∷ 250 ∷ [])

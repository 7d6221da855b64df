-- ===== src/Dmr/Crc/Bounds.antt =====
-- The checksum of 32 bits has 32 bits.
use go_dmr.Base.{
  ℕ, zero, suc, ◌*◌, ◌%◌, ◌^◌, ◌<◌, bit_and, bit_xor, ltb, if_holds, if◌then◌else◌, arith,
}
use go_dmr.Base.Bits.Xor.{xor-lt}
use go_dmr.Dmr.Crc.{crc32_end_rounds, crc32end}

abbrev Fits : ℕ → Type 0
Fits x = x < 2 ^ 32

round-Fits :
    (crc : ℕ)
    → Fits (
        if ltb 0 (bit_and crc 0x80000000)
        then bit_xor (crc * 2 % 2 ^ 32) 0x04c11db7
        else crc * 2 % 2 ^ 32)
round-Fits crc =
    if_holds Fits (ltb 0 (bit_and crc 0x80000000)) (bit_xor (crc * 2 % 2 ^ 32) 0x04c11db7)
      (crc * 2 % 2 ^ 32) (xor-lt 32 (crc * 2 % 2 ^ 32) 0x04c11db7 (omega arith) (omega arith))
      (omega arith)

rounds-Fits : (n crc : ℕ) → Fits crc → Fits (crc32_end_rounds n crc)
unfolding crc32_end_rounds
rounds-Fits zero crc h = h
rounds-Fits (suc n) crc h = rounds-Fits n _ (round-Fits crc)

pub crc32end-lt : (crc : ℕ) → crc32end crc < 2 ^ 32
unfolding crc32end crc32_end_rounds
crc32end-lt crc = rounds-Fits 31 _ (round-Fits crc)

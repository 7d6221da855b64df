-- ===== src/Dmr/Crc.antt =====
-- crc.go: three cyclic redundancy checks, one bit of a byte at a time. The register is a uint16 or
-- a uint32, so a shift left drops what leaves 16 or 32 bits.
pub mod Register
pub mod Linear
pub mod Detect
pub mod Bounds
use go_dmr.Base.{
  ℕ, zero, suc, ◌+◌, ◌-◌, ◌*◌, ◌/◌, ◌%◌, ◌^◌, bit_and, bit_xor, ltb, if◌then◌else◌, List, [], ◌∷◌,
}

-- `for i := 0; i < 8-bits; i++ { v >>= 1 }`
shift_right : ℕ → ℕ → ℕ
shift_right zero v = v
shift_right (suc n) v = shift_right n (v / 2)

-- One round of `crc9`, at the mask `v`. The shift is within the nine bits of the register.
crc9_round : ℕ → ℕ → ℕ → ℕ
crc9_round crc b v =
    let xor = ltb 0 (bit_and crc 0x100) in
    let shifted = bit_and (crc * 2 % 2 ^ 16) 0x1ff in
    let fed = if ltb 0 (bit_and b v) then (shifted + 1) % 2 ^ 16 else shifted in
    if xor then bit_xor fed 0x59 else fed

crc9_rounds : ℕ → ℕ → ℕ → ℕ → ℕ
crc9_rounds zero crc b v = crc
crc9_rounds (suc n) crc b v = crc9_rounds n (crc9_round crc b v) b (v / 2)

unfoldable pub crc9 : ℕ → ℕ → ℕ → ℕ
unfolding crc9_round crc9_rounds shift_right
crc9 crc b bits = crc9_rounds 8 crc b (shift_right (8 - bits) 0x80)

unfoldable pub crc9end : ℕ → ℕ → ℕ
crc9end crc zero = crc
crc9end crc (suc bits) =
    let xor = ltb 0 (bit_and crc 0x100) in
    let shifted = bit_and (crc * 2 % 2 ^ 16) 0x1ff in
    crc9end (if xor then bit_xor shifted 0x59 else shifted) bits

-- One round of `crc16`, at the mask `v`.
crc16_round : ℕ → ℕ → ℕ → ℕ
crc16_round crc b v =
    let xor = ltb 0 (bit_and crc 0x8000) in
    let shifted = crc * 2 % 2 ^ 16 in
    let fed = if ltb 0 (bit_and b v) then (shifted + 1) % 2 ^ 16 else shifted in
    if xor then bit_xor fed 0x1021 else fed

crc16_rounds : ℕ → ℕ → ℕ → ℕ → ℕ
crc16_rounds zero crc b v = crc
crc16_rounds (suc n) crc b v = crc16_rounds n (crc16_round crc b v) b (v / 2)

unfoldable pub crc16 : ℕ → ℕ → ℕ
unfolding crc16_round crc16_rounds
crc16 crc b = crc16_rounds 8 crc b 0x80

pub crc16_end_rounds : ℕ → ℕ → ℕ
crc16_end_rounds zero crc = crc
crc16_end_rounds (suc n) crc =
    let xor = ltb 0 (bit_and crc 0x8000) in
    let shifted = crc * 2 % 2 ^ 16 in
    crc16_end_rounds n (if xor then bit_xor shifted 0x1021 else shifted)

unfoldable pub crc16end : ℕ → ℕ
unfolding crc16_end_rounds
crc16end crc = crc16_end_rounds 16 crc

-- One round of `crc32`, at the mask `v`.
crc32_round : ℕ → ℕ → ℕ → ℕ
crc32_round crc b v =
    let xor = ltb 0 (bit_and crc 0x80000000) in
    let shifted = crc * 2 % 2 ^ 32 in
    let fed = if ltb 0 (bit_and b v) then (shifted + 1) % 2 ^ 32 else shifted in
    if xor then bit_xor fed 0x04c11db7 else fed

crc32_rounds : ℕ → ℕ → ℕ → ℕ → ℕ
crc32_rounds zero crc b v = crc
crc32_rounds (suc n) crc b v = crc32_rounds n (crc32_round crc b v) b (v / 2)

unfoldable pub crc32 : ℕ → ℕ → ℕ
unfolding crc32_round crc32_rounds
crc32 crc b = crc32_rounds 8 crc b 0x80

pub crc32_end_rounds : ℕ → ℕ → ℕ
crc32_end_rounds zero crc = crc
crc32_end_rounds (suc n) crc =
    let xor = ltb 0 (bit_and crc 0x80000000) in
    let shifted = crc * 2 % 2 ^ 32 in
    crc32_end_rounds n (if xor then bit_xor shifted 0x04c11db7 else shifted)

unfoldable pub crc32end : ℕ → ℕ
unfolding crc32_end_rounds
crc32end crc = crc32_end_rounds 32 crc

-- The callers' loops: every byte in turn, then the end rounds.
unfoldable pub crc16_bytes : ℕ → List ℕ → ℕ
crc16_bytes crc [] = crc
crc16_bytes crc (b ∷ bytes) = crc16_bytes (crc16 crc b) bytes

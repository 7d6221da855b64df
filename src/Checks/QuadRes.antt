-- ===== src/Checks/QuadRes.antt =====
-- crc/quadres_16_7/quadres_16_7.go: the quadratic residue code (16,7,6) of embedded signalling.
use go_dmr.Base.{
  ℕ, zero, suc, ◌+◌, ◌-◌, bit_or, bit_xor, ltb, ◌==◌, Bool, false, if◌then◌else◌, Option, none,
  some, List, [], ◌∷◌, length, get_or, take, drop, bytes_eq, ◌^◌,
}
use go_dmr.Dmr.Bits.{to_bits}

-- `ParityBits`, for at least seven bits.
unfoldable pub parity_bits : List ℕ → List ℕ
parity_bits bits =
    let b : ℕ → ℕ = λ i. get_or bits i 0 in
    bit_xor (bit_xor (bit_xor (b 1) (b 2)) (b 3)) (b 4)
    ∷ bit_xor (bit_xor (bit_xor (b 2) (b 3)) (b 4)) (b 5)
    ∷ bit_xor (bit_xor (bit_xor (bit_xor (b 0) (b 3)) (b 4)) (b 5)) (b 6)
    ∷ bit_xor (bit_xor (bit_xor (b 2) (b 3)) (b 5)) (b 6)
    ∷ bit_xor (bit_xor (b 1) (b 2)) (b 6)
    ∷ bit_xor (bit_xor (b 0) (b 1)) (b 4)
    ∷ bit_xor (bit_xor (bit_xor (b 0) (b 1)) (b 2)) (b 5)
    ∷ bit_xor (bit_xor (bit_xor (bit_xor (b 0) (b 1)) (b 2)) (b 3)) (b 6)
    ∷ bit_xor (bit_xor (bit_xor (bit_xor (b 0) (b 2)) (b 4)) (b 5)) (b 6)
    ∷ []

-- The table that `init` fills for 0 to 127; beyond it there is nothing. `toBits` is that of bits.go.
unfoldable pub valid_data_parity : ℕ → Option (List ℕ)
valid_data_parity i = if ltb i 128 then some (parity_bits (to_bits i)) else none

-- The loop of `Check` over the columns, `n` rounds from `col` on.
unfoldable pub data_value : ℕ → ℕ → List ℕ → ℕ → ℕ
data_value zero col bits value = value
data_value (suc n) col bits value =
    data_value n (col + 1) bits
      (if get_or bits col 0 == 1 then bit_or value (2 ^ (7 - col)) else value)

-- `Check`; no result is an index out of range.
unfoldable pub check : List ℕ → Option Bool
check bits =
    if ltb (length bits) 16 then some false else elim (valid_data_parity (data_value 7 0 bits 0)) [
      | none ↦ none
      | some parity ↦ some (bytes_eq (take 9 (drop 7 bits)) parity)
    ]

-- ===== src/Fec/Golay.antt =====
-- fec/golay_20_8.go and fec/golay_23_12.go: the Golay codes, on bits and on numbers.
pub mod Matrix
pub mod Syndrome
pub mod Correct
pub mod Check
use go_dmr.Base.{
  ℕ, zero, suc, ◌+◌, ◌*◌, ◌/◌, ◌%◌, ◌^◌, bit_and, bit_or, bit_xor, ◌==◌, not, if◌then◌else◌, none,
  some, List, [], ◌∷◌, length, get_elem?, get_or, take,
}
use go_dmr.Base.Outcome.{Outcome, ok, err, panic, ◌>>=◌, ◌>>◌, require}
use go_dmr.Fec.Golay.Matrix.{golay_matrix}

-- The errors of `Golay_20_8_Check`, with the place of a wrong bit.
pub data Error : Type 0 where
  expected_20_bits : Error
  parity_error : ℕ → Error

-- `Golay_20_8_Parity`, for at least eight bits.
unfoldable pub golay_20_8_parity : List ℕ → List ℕ
golay_20_8_parity bits =
    let b : ℕ → ℕ = λ i. get_or bits i 0 in
    let x3 : ℕ → ℕ → ℕ → ℕ = λ i j k. bit_xor (bit_xor (b i) (b j)) (b k) in
    bit_xor (bit_xor (x3 1 4 5) (b 6)) (b 7)
    ∷ x3 1 2 4
    ∷ bit_xor (x3 0 2 3) (b 5)
    ∷ bit_xor (bit_xor (x3 0 1 3) (b 4)) (b 6)
    ∷ bit_xor (bit_xor (bit_xor (x3 0 1 2) (b 4)) (b 5)) (b 7)
    ∷ bit_xor (bit_xor (x3 0 2 3) (b 4)) (b 7)
    ∷ x3 3 6 7
    ∷ bit_xor (x3 0 1 5) (b 6)
    ∷ bit_xor (bit_xor (x3 0 1 2) (b 6)) (b 7)
    ∷ bit_xor (bit_xor (x3 2 3 4) (b 5)) (b 6)
    ∷ bit_xor (bit_xor (bit_xor (x3 0 3 4) (b 5)) (b 6)) (b 7)
    ∷ bit_xor (bit_xor (x3 1 2 3) (b 5)) (b 7)
    ∷ []

-- The loop of `Golay_20_8_Check`, `n` rounds from `i` on.
unfoldable pub compare_parity : ℕ → ℕ → List ℕ → List ℕ → Outcome Error (Unit {0})
compare_parity zero i parity bits = ok tt
compare_parity (suc n) i parity bits = elim (get_elem? parity i) [
  | none ↦ panic
  | some p ↦ elim (get_elem? bits (8 + i)) [
    | none ↦ panic
    | some b ↦
        let rest = compare_parity n (i + 1) parity bits in
        if p == b then rest else err (parity_error i)
  ]
]

unfoldable pub golay_20_8_check : List ℕ → Outcome Error (Unit {0})
golay_20_8_check bits = do
  require (length bits == 20) expected_20_bits
  compare_parity 20 0 (golay_20_8_parity (take 8 bits)) bits

abbrev pub golay_generator : List ℕ
golay_generator =
    0x063a ∷ 0x031d ∷ 0x07b4 ∷ 0x03da ∷ 0x01ed ∷ 0x06cc ∷ 0x0366 ∷ 0x01b3 ∷ 0x06e3 ∷ 0x054b ∷ 0x049f
    ∷ 0x0475 ∷ []

-- The loop of `Golay_23_12_Correct` over the generator.
unfoldable pub syndrome_from : List ℕ → ℕ → ℕ → ℕ → ℕ
syndrome_from [] mask curr syndrome = syndrome
syndrome_from (g ∷ gen) mask curr syndrome =
    syndrome_from gen (mask / 2) curr
      (if not (bit_and curr mask == 0) then bit_xor syndrome g else syndrome)

-- `Golay_23_12_Correct`, of a uint32; the syndrome has eleven bits.
unfoldable pub golay_correct : ℕ → ℕ
golay_correct block =
    let syndrome =
      bit_xor (syndrome_from golay_generator 0x400000 block 0) (bit_and block 0x07ff) in
    bit_xor (block / 2 ^ 11) (get_or golay_matrix syndrome 0)

-- The loop of `Golay_23_12_Encode`, which shifts only where it has subtracted.
unfoldable pub divide_rounds : ℕ → ℕ → ℕ
divide_rounds zero codeword = codeword
divide_rounds (suc n) codeword =
    divide_rounds n (if bit_and codeword 1 == 1 then bit_xor codeword 0xc75 / 2 else codeword)

unfoldable pub golay_encode : ℕ → ℕ
golay_encode codeword = bit_or (divide_rounds 12 codeword * 2 ^ 12 % 2 ^ 32) codeword

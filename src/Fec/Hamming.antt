-- ===== src/Fec/Hamming.antt =====
-- fec/hamming_15_13_3.go: the Hamming code (15,11,3) on numbers.
use go_dmr.Base.{
  ℕ, ◌/◌, ◌^◌, ◌<◌, ◌≡◌, refl, bit_and, bit_xor, ltb, ◌==◌, ==_iff, true, not, all_below,
  all_below_sound, if◌then◌else◌, List, [], ◌∷◌, get_or,
}

abbrev pub hamming_gen : List ℕ
hamming_gen =
    0x4009 ∷ 0x200d ∷ 0x100f ∷ 0x080e ∷ 0x0407 ∷ 0x020a ∷ 0x0105 ∷ 0x008b ∷ 0x004c ∷ 0x0026 ∷ 0x0013
    ∷ []

abbrev pub hamming_table : List ℕ
hamming_table =
    0x0000 ∷ 0x0001 ∷ 0x0002 ∷ 0x0013 ∷ 0x0004 ∷ 0x0105 ∷ 0x0026 ∷ 0x0407 ∷ 0x0008 ∷ 0x4009 ∷ 0x020a
    ∷ 0x008b ∷ 0x004c ∷ 0x200d ∷ 0x080e ∷ 0x100f ∷ []

-- The loop of `Hamming15_11_3_Correct` over the generator.
unfoldable pub check_bits : List ℕ → ℕ → ℕ → ℕ
check_bits [] codeword ecc = ecc
check_bits (g ∷ gen) codeword ecc =
    check_bits gen codeword (if ltb 0x0f (bit_and codeword g) then bit_xor ecc g else ecc)

unfoldable pub hamming_correct : ℕ → ℕ
hamming_correct block =
    let syndrome = bit_xor (check_bits hamming_gen block 0) block in
    let codeword =
      if not (syndrome == 0)
      then bit_xor block (get_or hamming_table (bit_and syndrome 0x0f) 0)
      else block in
    codeword / 2 ^ 4

-- The loop of `Hamming15_11_3_Encode` over the generator, with the mask.
unfoldable pub encode_bits : List ℕ → ℕ → ℕ → ℕ → ℕ
encode_bits [] mask input codeword = codeword
encode_bits (g ∷ gen) mask input codeword =
    encode_bits gen (mask / 2) input
      (if ltb 0 (bit_and input mask) then bit_xor codeword g else codeword)

unfoldable pub hamming_encode : ℕ → ℕ
hamming_encode input = encode_bits hamming_gen 1024 input 0

all_corrected :
    all_below 2048
      (λ x. all_below 15 (λ j. hamming_correct (bit_xor (hamming_encode x) (2 ^ j)) == x))
    ≡ true
unfolding all_below hamming_correct hamming_encode check_bits encode_bits
all_corrected = refl

-- Whatever eleven bits are encoded, and whichever one of the fifteen bits of the codeword is wrong:
-- `Hamming15_11_3_Correct` gives the eleven bits back.
pub hamming_correct-hamming_encode :
    (x j : ℕ) → x < 2048 → j < 15 → hamming_correct (bit_xor (hamming_encode x) (2 ^ j)) ≡ x
hamming_correct-hamming_encode x j hx hj = (==_iff _ x).0 (
    all_below_sound 15 (λ i. hamming_correct (bit_xor (hamming_encode x) (2 ^ i)) == x)
      (all_below_sound 2048
        (λ y. all_below 15 (λ i. hamming_correct (bit_xor (hamming_encode y) (2 ^ i)) == y))
        all_corrected x hx)
      j hj)

-- ===== src/Fec/Tests.antt =====
-- Runs of the error-correcting codes at concrete inputs.
use go_dmr.Base.Outcome.{panic}
use go_dmr.Fec.Golay.{golay_20_8_parity, golay_20_8_check, golay_correct}
use go_dmr.Fec.Golay.Check.{golay_20_8_check_valid}
use go_dmr.Fec.Golay.Correct.{golay_word, wrong_bits, golay_correct-golay_word}
use go_dmr.Fec.Hamming.{hamming_encode, hamming_correct, hamming_correct-hamming_encode}
use go_dmr.Base.{◌^◌, bit_xor, arith, ◌≡◌, ℕ, refl, List, [], ◌∷◌}

hamming_correct-hamming_encode_example :
    hamming_correct (bit_xor (hamming_encode 1234) (2 ^ 9)) ≡ 1234
hamming_correct-hamming_encode_example =
    hamming_correct-hamming_encode 1234 9 (omega arith) (omega arith)

golay_correct-golay_word_example :
    golay_correct (bit_xor (golay_word 0xabc) (wrong_bits 2 11 22)) ≡ 0xabc
golay_correct-golay_word_example =
    golay_correct-golay_word 0xabc 2 11 22 (omega arith) (omega arith) (omega arith) (omega arith)

abbrev golay_bits : List ℕ
golay_bits = 1 ∷ 0 ∷ 0 ∷ 0 ∷ 0 ∷ 0 ∷ 0 ∷ 0 ∷ 0 ∷ 0 ∷ 1 ∷ 1 ∷ 1 ∷ 1 ∷ 0 ∷ 1 ∷ 1 ∷ 0 ∷ 1 ∷ 0 ∷ []

golay_20_8_check_valid_example : golay_20_8_check golay_bits ≡ panic
unfolding golay_20_8_parity
golay_20_8_check_valid_example = golay_20_8_check_valid golay_bits refl refl

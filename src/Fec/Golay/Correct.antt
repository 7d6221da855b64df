-- ===== src/Fec/Golay/Correct.antt =====
-- fec/golay_23_12.go: up to three wrong bits of a codeword are corrected.
use go_dmr.Base.{
  ℕ, ◌+◌, ◌*◌, ◌/◌, ◌%◌, ◌^◌, ◌<◌, ◌≡◌, refl, sym, ap, ap₂, ◌∙◌, bit_and, bit_xor, ltb, ◌==◌,
  ==_iff, Bool, true, ◌&&◌, if◌then◌else◌, get_or, all_below, all_below_sound, arith,
}
use go_dmr.Base.Bits.Fields.{bit_and_ones}
use go_dmr.Base.Bits.Digits.{zero-bit_xor}
use go_dmr.Base.Bits.Xor.{xor_self, xor-zero, xor_assoc, xor_exchange, xor_fields, xor-lt}
use go_dmr.Fec.Golay.Matrix.{golay_matrix}
use go_dmr.Fec.Golay.{golay_generator, syndrome_from, golay_correct}
use go_dmr.Fec.Golay.Syndrome.{syndrome_from_xor, xor_shifted}

-- The parity of twelve bits of data, and the codeword of 23 bits.
abbrev pub parity_of : ℕ → ℕ
parity_of d = syndrome_from golay_generator 0x400000 (d * 2048) 0

abbrev pub golay_word : ℕ → ℕ
golay_word d = d * 2048 + parity_of d

-- The i-th bit, and nothing beyond the 23 bits.
abbrev pub wrong_bit : ℕ → ℕ
wrong_bit i = if ltb i 23 then 2 ^ i else 0

abbrev pub wrong_bits : ℕ → ℕ → ℕ → ℕ
wrong_bits i j k = bit_xor (bit_xor (wrong_bit i) (wrong_bit j)) (wrong_bit k)

abbrev syndrome : ℕ → ℕ
syndrome x = bit_xor (syndrome_from golay_generator 0x400000 x 0) (bit_and x 0x07ff)

low_xor : (x y : ℕ) → bit_xor x y % 2048 ≡ bit_xor (x % 2048) (y % 2048)
low_xor x y =
    let split : (z : ℕ) → z ≡ z / 2048 * 2 ^ 11 + z % 2048 = λ z. omega arith in
    let parts =
      xor_fields 11 (x / 2048) (x % 2048) (y / 2048) (y % 2048) (omega arith) (omega arith) in
    let small = xor-lt 11 (x % 2048) (y % 2048) (omega arith) (omega arith) in
    omega (arith, ap₂ bit_xor (split x) (split y), parts, small)

syndrome_xor : (x y : ℕ) → syndrome (bit_xor x y) ≡ bit_xor (syndrome x) (syndrome y)
syndrome_xor x y =
    ap₂ bit_xor (syndrome_from_xor golay_generator 22 x y 0 0 (omega arith)) (
      bit_and_ones 11 (bit_xor x y)
      ∙ low_xor x y
      ∙ sym (ap₂ bit_xor (bit_and_ones 11 x) (bit_and_ones 11 y)))
    ∙ xor_exchange (syndrome_from golay_generator 0x400000 x 0)
        (syndrome_from golay_generator 0x400000 y 0) (bit_and x 0x07ff) (bit_and y 0x07ff)

words_clean : all_below 4096 (λ d. ltb (parity_of d) 2048 && syndrome (golay_word d) == 0) ≡ true
unfolding all_below syndrome_from
words_clean = refl

every_pattern_fine :
    all_below 26 (λ k. all_below k (λ j.
      all_below j
        (λ i. get_or golay_matrix (syndrome (wrong_bits i j k)) 0 == wrong_bits i j k / 2048)))
    ≡ true
unfolding all_below syndrome_from
every_pattern_fine = refl

matrix_finds :
    (i j k : ℕ)
    → i < j
    → j < k
    → k < 26
    → get_or golay_matrix (syndrome (wrong_bits i j k)) 0 ≡ wrong_bits i j k / 2048
matrix_finds i j k hi hj hk =
    let fine : ℕ → ℕ → ℕ → Bool =
      λ a b c. get_or golay_matrix (syndrome (wrong_bits a b c)) 0 == wrong_bits a b c / 2048 in
    (==_iff _ _).0 (
      all_below_sound j (λ a. fine a j k)
        (all_below_sound k (λ b. all_below b (λ a. fine a b k))
          (all_below_sound 26 (λ c. all_below c (λ b. all_below b (λ a. fine a b c)))
            every_pattern_fine k hk)
          j hj)
        i hi)

-- For all twelve bits of data, and at most three wrong bits of the 23 of their codeword (a place of 23 or more
-- is no wrong bit): `Golay_23_12_Correct` gives the data.
pub golay_correct-golay_word :
    (d i j k : ℕ)
    → d < 4096
    → i < j
    → j < k
    → k < 26
    → golay_correct (bit_xor (golay_word d) (wrong_bits i j k)) ≡ d
unfolding golay_correct
golay_correct-golay_word d i j k hd hi hj hk =
    let e = wrong_bits i j k in
    let clean =
      all_below_sound 4096 (λ x. ltb (parity_of x) 2048 && syndrome (golay_word x) == 0) words_clean
        d hd in
    let zeroed : syndrome (golay_word d) ≡ 0 = ground (arith, clean) in
    let small : parity_of d < 2048 = ground (arith, clean) in
    let seen : syndrome (bit_xor (golay_word d) e) ≡ syndrome e =
      syndrome_xor (golay_word d) e
      ∙ ap (λ (t : ℕ). bit_xor t (syndrome e)) zeroed
      ∙ zero-bit_xor (syndrome e) in
    let upper : golay_word d / 2 ^ 11 ≡ d = omega (arith, small) in
    ap₂ bit_xor (xor_shifted 11 (golay_word d) e ∙ ap (λ (t : ℕ). bit_xor t (e / 2 ^ 11)) upper)
      (ap (λ (t : ℕ). get_or golay_matrix t 0) seen ∙ matrix_finds i j k hi hj hk)
    ∙ xor_assoc d (e / 2 ^ 11) (e / 2 ^ 11)
    ∙ ap (bit_xor d) (xor_self (e / 2 ^ 11))
    ∙ xor-zero d

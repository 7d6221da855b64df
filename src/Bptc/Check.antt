-- ===== src/Bptc/Check.antt =====
-- The Hamming checks of the block product turbo code, on what `Encode` made.
use go_dmr.Base.{
  ℕ, zero, suc, ◌+◌, ◌*◌, ◌≡◌, refl, ap, ◌∙◌, List, ◌∷◌, length, get_or, ==_refl, bit_xor, true,
  replicate, arith, ◌≤◌, leb,
}
use go_dmr.Base.Bits.Digits.{zero-bit_xor}
use go_dmr.Base.Bits.Xor.{xor_self}
use go_dmr.Base.Outcome.{ok, ◌>>=◌}
use go_dmr.Dmr.Bits.{bytes_to_bits}
use go_dmr.Bptc.Matrix.{deinterleave-interleave_block}
use go_dmr.Bptc.RoundTrip.{length-block_of}
use go_dmr.Bptc.{
  move, block_of, encode_rows, encode_cols, close_row, close_col, every, errs_13_9_3, errs_15_11_3,
  check_cols, encode, deinterleave, check_rows, hamming_check, hamming_13_9_3_parity,
  hamming_15_11_3_parity, errs_match,
}

seven : (x : ℕ) → bit_xor (bit_xor (bit_xor (bit_xor (bit_xor (bit_xor x x) x) x) x) x) x ≡ x
seven x = simp (xor_self, zero-bit_xor) refl

every_still : (n k : ℕ) (bits : List ℕ) → every n 0 k bits ≡ replicate n (get_or bits k 0)
unfolding every
every_still zero k bits = refl
every_still (suc n) k bits =
    ap (λ (t : List ℕ). get_or bits k 0 ∷ t)
      (ap (λ (i : ℕ). every n 0 i bits) (omega arith) ∙ every_still n k bits)

replicate_passes : (x : ℕ) → hamming_15_11_3_parity (replicate 15 x) ≡ true
unfolding hamming_15_11_3_parity errs_15_11_3 errs_match
replicate_passes x = rw seven (simp (==_refl))

check_rows_pass : (n r : ℕ) (bits : List ℕ) → check_rows n r bits ≡ ok tt
unfolding check_rows
check_rows_pass zero r bits = refl
check_rows_pass (suc n) r bits =
    rw (every_still 15 (r * 15 + 1) bits, replicate_passes (get_or bits (r * 15 + 1) 0))
      (check_rows_pass n (r + 1) bits)

-- The checks of the nine rows accept every block whatever: the loop that fills a row repeats one bit,
-- so the checks are those of the fifteen columns.
pub hamming_check-check_cols : (bits : List ℕ) → hamming_check bits ≡ check_cols 15 0 bits
unfolding hamming_check
hamming_check-check_cols bits = rw (check_rows_pass 9 0 bits) refl

cols_pass : (bits : List ℕ) → check_cols 15 0 (block_of bits) ≡ ok tt
unfolding block_of encode_rows encode_cols close_row close_col move every errs_13_9_3 errs_15_11_3
    check_cols hamming_13_9_3_parity errs_match
cols_pass bits = simp (==_refl) refl

pub hamming_check-block_of : (bits : List ℕ) → hamming_check (block_of bits) ≡ ok tt
hamming_check-block_of bits = hamming_check-check_cols (block_of bits) ∙ cols_pass bits

-- For any twelve bytes or more, and whatever the block of at least 196 bits held: the Hamming checks of
-- `Decode` accept what `Encode` leaves in the block.
pub hamming_check-encode :
    (bytes info : List ℕ)
    → 12 ≤ length bytes
    → 196 ≤ length info
    → encode bytes info >>= (λ block. hamming_check (deinterleave 196 1 block)) ≡ ok tt
unfolding encode
hamming_check-encode bytes info e big =
    let block = block_of (bytes_to_bits bytes) in
    let enough : leb 12 (length bytes) ≡ true = ground (arith, e) in
    let roomy : leb 196 (length info) ≡ true = ground (arith, big) in
    rw (enough, roomy)
      (ap hamming_check (
          deinterleave-interleave_block block info (length-block_of (bytes_to_bits bytes))
            (omega (arith, big)))
        ∙ hamming_check-block_of (bytes_to_bits bytes))

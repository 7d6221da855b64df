-- ===== src/Bptc/RoundTrip.antt =====
-- `Decode` on what `Encode` made, and the Hamming checks.
use go_dmr.Base.{
  ℕ, zero, suc, ◌+◌, ◌<◌, ◌≤◌, ◌≡◌, refl, sym, ap, ◌∙◌, List, zeros, length, get_or, ◌++◌, true,
  list_ext, All, arith, copy, leb,
}
use go_dmr.Base.Outcome.{ok, ◌>>=◌}
use go_dmr.Dmr.Bits.{bits_to_bytes, bytes_to_bits, IsByte}
use go_dmr.Dmr.Bits.RoundTrip.{bits_to_bytes-bytes_to_bits, length-bytes_to_bits}
use go_dmr.Bptc.{
  extract, extract_rows, move, block_of, encode_rows, encode_cols, close_row, close_col, every,
  errs_13_9_3, errs_15_11_3, encode, decode, interleave, deinterleave,
}
use go_dmr.Bptc.Matrix.{length-interleave, deinterleave-interleave_block}

pub length-block_of : (bits : List ℕ) → length (block_of bits) ≡ 196
unfolding block_of encode_rows encode_cols close_row close_col move every errs_13_9_3 errs_15_11_3
length-block_of bits = refl

-- The places that `Decode` reads are those that `Encode` writes its bits to, and no parity bit
-- overwrites one of them.
extract-block_of : (bits : List ℕ) → extract (block_of bits) ≡ every 96 1 0 bits ++ zeros 100
unfolding block_of encode_rows encode_cols close_row close_col move every errs_13_9_3 errs_15_11_3
    extract extract_rows
extract-block_of bits = refl

length-every : (n step k : ℕ) (bits : List ℕ) → length (every n step k bits) ≡ n
unfolding every
length-every zero step k bits = refl
length-every (suc n) step k bits = ap suc (length-every n step (k + step) bits)

get_or-every :
    (n k j : ℕ) (bits : List ℕ) → j < n → get_or (every n 1 k bits) j 0 ≡ get_or bits (k + j) 0
unfolding every
get_or-every zero k j bits h = absurd (omega arith)
get_or-every (suc n) k zero bits h = ap (λ (i : ℕ). get_or bits i 0) (omega arith)
get_or-every (suc n) k (suc j) bits h =
    get_or-every n (k + 1) j bits (omega arith) ∙ ap (λ (i : ℕ). get_or bits i 0) (omega arith)

every_all : (n : ℕ) (bits : List ℕ) → length bits ≡ n → every n 1 0 bits ≡ bits
every_all n bits e = list_ext _ bits (length-every n 1 0 bits ∙ sym e) (λ k lt.
    get_or-every n 0 k bits (omega (arith, lt, length-every n 1 0 bits))
    ∙ ap (λ (i : ℕ). get_or bits i 0) (omega arith))

-- For any twelve bytes, and whatever the block of at least 196 bits and the buffer of at least twelve
-- bytes held: `Encode` succeeds, and `Decode` gets the twelve bytes back out of the block, copied over
-- the buffer with the thirteen zero bytes behind them, as far as the buffer reaches.
pub decode-encode_block :
    (bytes info buf : List ℕ)
    → length bytes ≡ 12
    → All IsByte bytes
    → 196 ≤ length info
    → 12 ≤ length buf
    → encode bytes info >>= (λ block. decode block buf) ≡ ok (copy buf (bytes ++ zeros 13))
unfolding encode decode
decode-encode_block bytes info buf e h big room =
    let bits = bytes_to_bits bytes in
    let block = interleave 1 (block_of bits) info in
    let size = length-interleave (block_of bits) info 1 in
    let back : bits_to_bytes (extract (deinterleave 196 1 block)) ≡ bytes ++ zeros 13 =
      ap (λ (t : List ℕ). bits_to_bytes (extract t))
        (deinterleave-interleave_block (block_of bits) info (length-block_of bits)
          (omega (arith, big)))
      ∙ ap bits_to_bytes (extract-block_of bits)
      ∙ ap (λ (t : List ℕ). bits_to_bytes (t ++ zeros 100))
          (every_all 96 bits (length-bytes_to_bits bytes ∙ omega (arith, e)))
      ∙ bits_to_bytes-bytes_to_bits bytes 100 h in
    let wide : leb 196 (length block) ≡ true = ground (arith, size, big) in
    let enough : leb 12 (length bytes) ≡ true = ground (arith, e) in
    let roomy : leb 196 (length info) ≡ true = ground (arith, big) in
    let free : leb 12 (length buf) ≡ true = ground (arith, room) in
    rw (enough, roomy, wide, free) (ap (λ (t : List ℕ). ok (copy buf t)) back)

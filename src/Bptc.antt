-- ===== src/Bptc.antt =====
-- bptc/bptc.go: the block product turbo code (196,96).
pub mod Matrix
pub mod RoundTrip
pub mod Total
pub mod Check
pub mod Tests
use go_dmr.Base.{
  ℕ, zero, suc, ◌+◌, ◌*◌, ◌%◌, leb, ◌==◌, ◌&&◌, not, Bool, if◌then◌else◌, List, [], ◌∷◌, length,
  get_or, set, zeros, copy, bit_xor, drop,
}
use go_dmr.Base.Outcome.{Outcome, ok, err, ◌>>=◌, ◌>>◌, require}
use go_dmr.Dmr.Bits.{bits_to_bytes, bytes_to_bits}

-- An error carries the length, the row or the column that its message names.
pub data Error : Type 0 where
  info_size data_size row_failed col_failed : ℕ → Error

-- The deinterleave matrix.
unfoldable pub dm : ℕ → ℕ
dm i = (i * 181) % 196

-- The four parity bits that the functions leave in `errs`, and what they return.
unfoldable pub errs_13_9_3 : List ℕ → List ℕ
errs_13_9_3 bits =
    let at = λ (i : ℕ). get_or bits i 0 in
    bit_xor (bit_xor (bit_xor (bit_xor (at 0) (at 1)) (at 3)) (at 5)) (at 6)
    ∷ bit_xor (bit_xor (bit_xor (bit_xor (bit_xor (at 0) (at 1)) (at 2)) (at 4)) (at 6)) (at 7)
    ∷ bit_xor
        (bit_xor (bit_xor (bit_xor (bit_xor (bit_xor (at 0) (at 1)) (at 2)) (at 3)) (at 5)) (at 7))
        (at 8)
    ∷ bit_xor (bit_xor (bit_xor (bit_xor (at 0) (at 2)) (at 4)) (at 5)) (at 8)
    ∷ []

unfoldable pub errs_15_11_3 : List ℕ → List ℕ
errs_15_11_3 bits =
    let at = λ (i : ℕ). get_or bits i 0 in
    let sum = λ (a b c d e f g : ℕ).
      bit_xor
        (bit_xor (bit_xor (bit_xor (bit_xor (bit_xor (at a) (at b)) (at c)) (at d)) (at e)) (at f))
        (at g) in
    sum 0 1 2 3 5 7 8 ∷ sum 1 2 3 4 6 8 9 ∷ sum 2 3 4 5 7 9 10 ∷ sum 0 1 2 4 6 7 10 ∷ []

-- The four comparisons with the bits from `i` on.
unfoldable pub errs_match : List ℕ → List ℕ → ℕ → Bool
errs_match errs bits i =
    get_or errs 0 0 == get_or bits i 0
    && get_or errs 1 0 == get_or bits (i + 1) 0
    && get_or errs 2 0 == get_or bits (i + 2) 0
    && get_or errs 3 0 == get_or bits (i + 3) 0

unfoldable pub hamming_13_9_3_parity : List ℕ → Bool
hamming_13_9_3_parity bits = errs_match (errs_13_9_3 bits) bits 9

unfoldable pub hamming_15_11_3_parity : List ℕ → Bool
hamming_15_11_3_parity bits = errs_match (errs_15_11_3 bits) bits 11

-- `n` bits from `bits[k]` on, `step` apart.
unfoldable pub every : ℕ → ℕ → ℕ → List ℕ → List ℕ
every zero step k bits = []
every (suc n) step k bits = get_or bits k 0 ∷ every n step (k + step) bits

-- The loops of `hamming_check`, `n` rounds from row `r` or column `c` on. The loop that fills a row
-- does not advance `k`.
unfoldable pub check_rows : ℕ → ℕ → List ℕ → Outcome Error (Unit {0})
check_rows zero r bits = ok tt
check_rows (suc n) r bits = do
  require (hamming_15_11_3_parity (every 15 0 (r * 15 + 1) bits)) (row_failed r)
  check_rows n (r + 1) bits

unfoldable pub check_cols : ℕ → ℕ → List ℕ → Outcome Error (Unit {0})
check_cols zero c bits = ok tt
check_cols (suc n) c bits = do
  require (hamming_13_9_3_parity (every 13 15 (c + 1) bits)) (col_failed c)
  check_cols n (c + 1) bits

unfoldable pub hamming_check : List ℕ → Outcome Error (Unit {0})
hamming_check bits = do check_rows 9 0 bits; check_cols 15 0 bits

-- The loop that deinterleaves: `n` bits, the first at place `i` of the matrix.
unfoldable pub deinterleave : ℕ → ℕ → List ℕ → List ℕ
deinterleave zero i info = []
deinterleave (suc n) i info = get_or info (dm i) 0 ∷ deinterleave n (i + 1) info

-- The loop that interleaves.
unfoldable pub interleave : ℕ → List ℕ → List ℕ → List ℕ
interleave k [] info = info
interleave k (b ∷ temp) info = interleave (k + 1) temp (set info (dm k) b)

-- `n` writes: `to[c] = from[k]`, and on.
unfoldable pub move : ℕ → ℕ → ℕ → List ℕ → List ℕ → List ℕ
move zero c k from to = to
move (suc n) c k from to = move n (c + 1) (k + 1) from (set to c (get_or from k 0))

-- The rows from `j` on, `n` of them, moved to `temp` from `temp[k]` on.
unfoldable pub extract_rows : ℕ → ℕ → ℕ → List ℕ → List ℕ → List ℕ
extract_rows zero j k bits temp = temp
extract_rows (suc n) j k bits temp =
    extract_rows n (j + 1) (k + 11) bits (move 11 k (j * 15) bits temp)

unfoldable pub extract : List ℕ → List ℕ
extract bits = extract_rows 8 1 8 bits (move 8 0 3 bits (zeros 196))

-- `Decode`: what it leaves in `data`. It drops the error of the Hamming checks.
unfoldable pub decode : List ℕ → List ℕ → Outcome Error (List ℕ)
decode info buf = do
  require (leb 196 (length info)) (info_size (length info))
  require (leb 12 (length buf)) (data_size (length buf))
  ok (copy buf (bits_to_bytes (extract (deinterleave 196 1 info))))

-- The parity bits of a row, behind its eleven bits.
unfoldable pub close_row : ℕ → List ℕ → List ℕ
close_row r temp = move 4 (r * 15 + 11) 0 (errs_15_11_3 (drop (r * 15) temp)) temp

-- The rows from `r` on, `n` of them, with the bits from `bits[k]` on.
unfoldable pub encode_rows : ℕ → ℕ → ℕ → List ℕ → List ℕ → List ℕ
encode_rows zero r k bits temp = temp
encode_rows (suc n) r k bits temp =
    encode_rows n (r + 1) (k + 11) bits (close_row r (move 11 (r * 15) k bits temp))

-- `temp[c+135+1]` and on, fifteen apart.
unfoldable pub close_col : ℕ → List ℕ → List ℕ → List ℕ
close_col c errs temp =
    set
      (set (set (set temp (c + 135 + 1) (get_or errs 0 0)) (c + 135 + 15 + 1) (get_or errs 1 0))
        (c + 135 + 30 + 1) (get_or errs 2 0))
      (c + 135 + 45 + 1) (get_or errs 3 0)

unfoldable pub encode_cols : ℕ → ℕ → List ℕ → List ℕ
encode_cols zero c temp = temp
encode_cols (suc n) c temp =
    encode_cols n (c + 1) (close_col c (errs_13_9_3 (every 9 15 (c + 1) temp)) temp)

-- The block of `Encode`.
unfoldable pub block_of : List ℕ → List ℕ
block_of bits =
    encode_cols 15 0 (encode_rows 8 1 8 bits (close_row 0 (move 8 3 0 bits (zeros 196))))

-- `Encode`: what it leaves in `info`.
unfoldable pub encode : List ℕ → List ℕ → Outcome Error (List ℕ)
encode buf info = do
  require (leb 12 (length buf)) (data_size (length buf))
  require (leb 196 (length info)) (info_size (length info))
  ok (interleave 1 (block_of (bytes_to_bits buf)) info)

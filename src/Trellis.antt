-- ===== src/Trellis.antt =====
-- trellis/trellis.go: the rate 3/4 trellis code. A dibit is an int8, here as its byte: 255 is -1 and 253 is
-- -3.
pub mod Encode
pub mod Stages
pub mod RoundTrip
pub mod Total
pub mod Tests
use go_dmr.Base.{
  ℕ, zero, suc, ◌+◌, ◌-◌, ◌*◌, ltb, leb, ◌==◌, ◌&&◌, not, Bool, true, false, if◌then◌else◌, Option,
  none, some, List, [], ◌∷◌, ◌++◌, length, get_elem?, get_or, set, zeros, copy, has_bits,
}
use go_dmr.Base.Outcome.{Outcome, ok, err, panic, ◌>>=◌, ◌>>◌, require}
use go_dmr.Dmr.Bits.{bits_to_bytes}

abbrev pub interleave_matrix : List ℕ
interleave_matrix =
    0 ∷ 1 ∷ 8 ∷ 9 ∷ 16 ∷ 17 ∷ 24 ∷ 25 ∷ 32 ∷ 33 ∷ 40 ∷ 41 ∷ 48 ∷ 49 ∷ 56 ∷ 57 ∷ 64 ∷ 65 ∷ 72 ∷ 73
    ∷ 80 ∷ 81 ∷ 88 ∷ 89 ∷ 96 ∷ 97 ∷ 2 ∷ 3 ∷ 10 ∷ 11 ∷ 18 ∷ 19 ∷ 26 ∷ 27 ∷ 34 ∷ 35 ∷ 42 ∷ 43 ∷ 50
    ∷ 51 ∷ 58 ∷ 59 ∷ 66 ∷ 67 ∷ 74 ∷ 75 ∷ 82 ∷ 83 ∷ 90 ∷ 91 ∷ 4 ∷ 5 ∷ 12 ∷ 13 ∷ 20 ∷ 21 ∷ 28 ∷ 29
    ∷ 36 ∷ 37 ∷ 44 ∷ 45 ∷ 52 ∷ 53 ∷ 60 ∷ 61 ∷ 68 ∷ 69 ∷ 76 ∷ 77 ∷ 84 ∷ 85 ∷ 92 ∷ 93 ∷ 6 ∷ 7 ∷ 14
    ∷ 15 ∷ 22 ∷ 23 ∷ 30 ∷ 31 ∷ 38 ∷ 39 ∷ 46 ∷ 47 ∷ 54 ∷ 55 ∷ 62 ∷ 63 ∷ 70 ∷ 71 ∷ 78 ∷ 79 ∷ 86 ∷ 87
    ∷ 94 ∷ 95 ∷ []

abbrev pub encoder_state_transition : List ℕ
encoder_state_transition =
    0 ∷ 8 ∷ 4 ∷ 12 ∷ 2 ∷ 10 ∷ 6 ∷ 14 ∷ 4 ∷ 12 ∷ 2 ∷ 10 ∷ 6 ∷ 14 ∷ 0 ∷ 8 ∷ 1 ∷ 9 ∷ 5 ∷ 13 ∷ 3 ∷ 11
    ∷ 7 ∷ 15 ∷ 5 ∷ 13 ∷ 3 ∷ 11 ∷ 7 ∷ 15 ∷ 1 ∷ 9 ∷ 3 ∷ 11 ∷ 7 ∷ 15 ∷ 1 ∷ 9 ∷ 5 ∷ 13 ∷ 7 ∷ 15 ∷ 1 ∷ 9
    ∷ 5 ∷ 13 ∷ 3 ∷ 11 ∷ 2 ∷ 10 ∷ 6 ∷ 14 ∷ 0 ∷ 8 ∷ 4 ∷ 12 ∷ 6 ∷ 14 ∷ 0 ∷ 8 ∷ 4 ∷ 12 ∷ 2 ∷ 10 ∷ []

pub data Error : Type 0 where
  short_buffer bits_size dibits_size tribits_size : Error
  corrupted : ℕ → Error

abbrev pub minus_one : ℕ
minus_one = 255

abbrev pub minus_three : ℕ
minus_three = 253

unfoldable pub dibit : ℕ → ℕ → ℕ
dibit a b =
    if a == 0 && b == 1
    then 3
    else if a == 0 && b == 0
    then 1
    else if a == 1 && b == 0
    then minus_one
    else if a == 1 && b == 1
    then minus_three
    else 0

unfoldable pub dibits_of : List ℕ → List ℕ
dibits_of (a ∷ b ∷ bits) = dibit a b ∷ dibits_of bits
dibits_of _ = []

unfoldable pub extract_dibits : List ℕ → Outcome Error (List ℕ)
extract_dibits bits = do require (length bits == 196) bits_size; ok (dibits_of bits)

-- The loop of `Deinterleave` over the matrix and the dibits.
unfoldable pub place : List ℕ → List ℕ → List ℕ → List ℕ
place (m ∷ matrix) (d ∷ dibits) out = place matrix dibits (set out m d)
place _ _ out = out

-- A nil slice is the empty one: neither has 98 dibits.
unfoldable pub deinterleave : List ℕ → Outcome Error (List ℕ)
deinterleave dibits = do
  require (length dibits == 98) dibits_size
  ok (place interleave_matrix dibits (zeros 98))

unfoldable pub point : ℕ → ℕ → ℕ
point a b =
    if a == 1 && b == minus_one
    then 0
    else if a == minus_one && b == minus_one
    then 1
    else if a == 3 && b == minus_three
    then 2
    else if a == minus_three && b == minus_three
    then 3
    else if a == minus_three && b == minus_one
    then 4
    else if a == 3 && b == minus_one
    then 5
    else if a == minus_one && b == minus_three
    then 6
    else if a == 1 && b == minus_three
    then 7
    else if a == minus_three && b == 3
    then 8
    else if a == 3 && b == 3
    then 9
    else if a == minus_one && b == 1
    then 10
    else if a == 1 && b == 1
    then 11
    else if a == 1 && b == 3
    then 12
    else if a == minus_one && b == 3
    then 13
    else if a == 3 && b == 1
    then 14
    else if a == minus_three && b == 1
    then 15
    else 0

unfoldable pub points_of : List ℕ → List ℕ
points_of (a ∷ b ∷ dibits) = point a b ∷ points_of dibits
points_of _ = []

unfoldable pub constellation_points : List ℕ → Outcome Error (List ℕ)
constellation_points dibits = do require (length dibits == 98) dibits_size; ok (points_of dibits)

-- The inner loop of `ExtractTribits`, `n` rounds from `j` on: the last element of the row that is the point.
unfoldable pub match_row : ℕ → ℕ → ℕ → ℕ → Option ℕ → Option ℕ
match_row zero j start p found = found
match_row (suc n) j start p found =
    match_row n (j + 1) start p
      (if p == get_or encoder_state_transition j 0 then some (j - start) else found)

-- The outer loop, `n` rounds from `i` on, in the state `last`.
unfoldable pub tribits_from : ℕ → ℕ → ℕ → List ℕ → Outcome Error (List ℕ)
tribits_from zero i last points = ok []
tribits_from (suc n) i last points = elim (get_elem? points i) [
  | none ↦ panic
  | some p ↦ elim (match_row 8 (last * 8) (last * 8) p none) [
    | none ↦ err (corrupted i)
    | some t ↦ tribits_from n (i + 1) t points >>= (λ rest. ok (t ∷ rest))
  ]
]

unfoldable pub extract_tribits : List ℕ → Outcome Error (List ℕ)
extract_tribits points = tribits_from 48 0 0 points

-- The loop of `ExtractBinary`: the 52 bits behind it stay 0.
unfoldable pub binary_of : List ℕ → List ℕ
binary_of [] = zeros 52
binary_of (t ∷ tribits) =
    (if has_bits t 0b100 then 1 else 0)
    ∷ (if has_bits t 0b010 then 1 else 0)
    ∷ (if has_bits t 0b001 then 1 else 0)
    ∷ binary_of tribits

unfoldable pub extract_binary : List ℕ → Outcome Error (List ℕ)
extract_binary tribits = do require (length tribits == 48) tribits_size; ok (binary_of tribits)

-- `Decode`: the bytes that it leaves in the buffer. A nil buffer has less than 18 bytes.
unfoldable pub decode : List ℕ → List ℕ → Outcome Error (List ℕ)
decode bits bytes = do
  require (leb 18 (length bytes)) short_buffer
  dibits ← extract_dibits bits
  deinterleaved ← deinterleave dibits
  points ← constellation_points deinterleaved
  tribits ← extract_tribits points
  binary ← extract_binary tribits
  ok (copy bytes (bits_to_bytes binary))

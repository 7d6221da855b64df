-- ===== src/Vbptc.antt =====
-- vbptc/vbptc.go: the variable-length block product turbo code of embedded signalling. `New` makes the
-- matrix, so it is never nil and has sixteen bits in a row.
pub mod Burst
pub mod Row
pub mod Repair
pub mod Shape
pub mod Tests
use go_dmr.Base.{
  ℕ, zero, suc, ◌+◌, ◌-◌, ◌*◌, ◌%◌, bit_xor, ltb, leb, ◌==◌, ◌&&◌, not, Bool, true, false,
  if◌then◌else◌, Option, none, some, List, [], ◌∷◌, length, get_elem?, get_or, set, take, drop,
  zeros, u8,
}
use go_dmr.Base.Outcome.{Outcome, ok, err, panic, ◌>>=◌, ◌>>◌, require}

-- Rows of five; the last five rows find errors in the check bits themselves.
abbrev pub generator_matrix : List ℕ
generator_matrix =
    1 ∷ 0 ∷ 0 ∷ 1 ∷ 1 ∷ 1 ∷ 1 ∷ 0 ∷ 1 ∷ 0 ∷ 1 ∷ 1 ∷ 1 ∷ 1 ∷ 1 ∷ 1 ∷ 1 ∷ 1 ∷ 0 ∷ 0 ∷ 0 ∷ 1 ∷ 1 ∷ 1
    ∷ 0 ∷ 1 ∷ 0 ∷ 1 ∷ 0 ∷ 1 ∷ 0 ∷ 1 ∷ 0 ∷ 1 ∷ 1 ∷ 1 ∷ 0 ∷ 1 ∷ 1 ∷ 0 ∷ 1 ∷ 1 ∷ 0 ∷ 0 ∷ 1 ∷ 0 ∷ 1 ∷ 1
    ∷ 0 ∷ 1 ∷ 0 ∷ 0 ∷ 1 ∷ 1 ∷ 1 ∷ 1 ∷ 0 ∷ 0 ∷ 0 ∷ 0 ∷ 0 ∷ 1 ∷ 0 ∷ 0 ∷ 0 ∷ 0 ∷ 0 ∷ 1 ∷ 0 ∷ 0 ∷ 0 ∷ 0
    ∷ 0 ∷ 1 ∷ 0 ∷ 0 ∷ 0 ∷ 0 ∷ 0 ∷ 1 ∷ []

pub data Error : Type 0 where
  no_free_space no_data short_buffer : Error
  not_found not_repaired parity_wrong : ℕ → Error

pub record Vbptc : Type 0 where
  pub matrix : List ℕ
  pub row : ℕ
  pub col : ℕ
  pub expected_rows : ℕ

unfoldable pub new : ℕ → Vbptc
new rows = record { matrix = zeros (rows * 16); row = 0; col = 0; expected_rows = rows }

-- `Clear`
unfoldable pub clear : Vbptc → Vbptc
clear v = record v { row = 0; col = 0; matrix = zeros (v.expected_rows * 16) }

-- The bits used are never more than the matrix has.
unfoldable pub free_space : Vbptc → ℕ
free_space v = v.expected_rows * 16 - (v.expected_rows * v.col + v.row)

-- The cursor goes down a column, then to the next.
unfoldable pub advance : Vbptc → Vbptc
advance v =
    if u8 (v.row + 1) == v.expected_rows
    then record v { col = u8 (v.col + 1); row = 0 }
    else record v { row = u8 (v.row + 1) }

-- The loop of `AddBurst`; the index is a uint8.
unfoldable pub add_bits : List ℕ → Vbptc → Outcome Error Vbptc
add_bits [] v = ok v
add_bits (b ∷ bits) v =
    let index = u8 (v.col + v.row * 16) in
    elim (get_elem? v.matrix index) [
      | none ↦ panic
      | some old ↦ add_bits bits (advance (record v { matrix = set v.matrix index b }))
    ]

-- Bits beyond the free space are dropped.
unfoldable pub add_burst : List ℕ → Vbptc → Outcome Error Vbptc
add_burst bits v = do
  require (not (free_space v == 0)) no_free_space
  add_bits (take (free_space v) bits) v

-- `getParity`, of the bits of a row.
unfoldable pub get_parity : (ℕ → ℕ) → List ℕ
get_parity b =
    bit_xor (bit_xor (bit_xor (bit_xor (bit_xor (bit_xor (b 0) (b 1)) (b 2)) (b 3)) (b 5)) (b 7))
      (b 8)
    ∷ bit_xor (bit_xor (bit_xor (bit_xor (bit_xor (bit_xor (b 1) (b 2)) (b 3)) (b 4)) (b 6)) (b 8))
        (b 9)
    ∷ bit_xor (bit_xor (bit_xor (bit_xor (bit_xor (bit_xor (b 2) (b 3)) (b 4)) (b 5)) (b 7)) (b 9))
        (b 10)
    ∷ bit_xor (bit_xor (bit_xor (bit_xor (bit_xor (bit_xor (b 0) (b 1)) (b 2)) (b 4)) (b 6)) (b 7))
        (b 10)
    ∷ bit_xor (bit_xor (bit_xor (bit_xor (bit_xor (bit_xor (b 0) (b 2)) (b 5)) (b 6)) (b 8)) (b 9))
        (b 10)
    ∷ []

-- The bits of a row, read from the slice that starts there.
unfoldable pub bits_at : List ℕ → ℕ → ℕ → ℕ
bits_at matrix row i = get_or (drop (u8 (row * 16)) matrix) i 0

-- What `checkRow` leaves in `errs`.
unfoldable pub row_errors : (ℕ → ℕ) → List ℕ
row_errors b =
    let p = get_parity b in
    bit_xor (get_or p 0 0) (b 11)
    ∷ bit_xor (get_or p 1 0) (b 12)
    ∷ bit_xor (get_or p 2 0) (b 13)
    ∷ bit_xor (get_or p 3 0) (b 14)
    ∷ bit_xor (get_or p 4 0) (b 15)
    ∷ []

-- What `checkRow` returns.
unfoldable pub check_row : List ℕ → Bool
check_row errs =
    get_or errs 0 0 == 0
    && get_or errs 1 0 == 0
    && get_or errs 2 0 == 0
    && get_or errs 3 0 == 0
    && get_or errs 4 0 == 0

-- The loop of `findPosition`: `n` rounds from `row` on. It compares four of the five bits.
unfoldable pub find_from : ℕ → ℕ → List ℕ → Option ℕ
find_from zero row errs = none
find_from (suc n) row errs =
    let rest = find_from n (row + 1) errs in
    if get_or generator_matrix (row * 5) 0 == get_or errs 0 0
      && get_or generator_matrix (row * 5 + 1) 0 == get_or errs 1 0
      && get_or generator_matrix (row * 5 + 2) 0 == get_or errs 2 0
      && get_or generator_matrix (row * 5 + 3) 0 == get_or errs 3 0
    then some row
    else rest

unfoldable pub find_position : List ℕ → Option ℕ
find_position errs = find_from 16 0 errs

unfoldable pub flip : List ℕ → ℕ → List ℕ
flip matrix i = set matrix i (bit_xor (get_or matrix i 0) 1)

-- The loop of `CheckAndRepair` over the rows, `n` rounds from `row` on: the matrix that it leaves, and
-- its error.
unfoldable pub repair_rows : ℕ → ℕ → List ℕ → List ℕ × Option Error
repair_rows zero row matrix = (matrix, none)
repair_rows (suc n) row matrix =
    let errs = row_errors (bits_at matrix row) in
    elim (check_row errs) [
      | true ↦ repair_rows n (row + 1) matrix
      | false ↦ elim (find_position errs) [
        | none ↦ (matrix, some (not_found row))
        | some pos ↦
            let flipped = flip matrix (u8 (row * 16 + pos)) in
            elim (check_row (row_errors (bits_at flipped row))) [
              | true ↦ repair_rows n (row + 1) flipped
              | false ↦ (flipped, some (not_repaired row))
            ]
      ]
    ]

unfoldable pub column_parity : ℕ → ℕ → ℕ → List ℕ → ℕ → ℕ
column_parity zero row col matrix parity = parity
column_parity (suc n) row col matrix parity =
    column_parity n (row + 1) col matrix (u8 (parity + get_or matrix (u8 (row * 16 + col)) 0) % 2)

-- The loop over the columns, `n` rounds from `col` on, for `rows` rows above the last.
unfoldable pub check_columns : ℕ → ℕ → ℕ → List ℕ → Option Error
check_columns zero col rows matrix = none
check_columns (suc n) col rows matrix =
    let rest = check_columns n (col + 1) rows matrix in
    if column_parity rows 0 col matrix 0 == get_or matrix (u8 (rows * 16 + col)) 0
    then rest
    else some (parity_wrong col)

-- `CheckAndRepair`
unfoldable pub check_and_repair : Vbptc → Vbptc × Option Error
check_and_repair v =
    if ltb v.expected_rows 2
    then (v, some no_data)
    else let (matrix, failure) = repair_rows (v.expected_rows - 1) 0 v.matrix in
      (
        record v { matrix = matrix },
        elim failure [ some e ↦ some e | none ↦ check_columns 16 0 (v.expected_rows - 1) matrix ],
      )

-- The loop of `GetData` over the columns of a row, `n` rounds from `col` on; the indexes are uint8.
unfoldable pub copy_row : ℕ → ℕ → ℕ → List ℕ → List ℕ → Outcome Error (List ℕ)
copy_row zero col row matrix bits = ok bits
copy_row (suc n) col row matrix bits = elim (get_elem? bits (u8 (row * 11 + col))) [
  | none ↦ panic
  | some old ↦
      copy_row n (col + 1) row matrix
        (set bits (u8 (row * 11 + col)) (get_or matrix (u8 (row * 16 + col)) 0))
]

unfoldable pub copy_rows : ℕ → ℕ → List ℕ → List ℕ → Outcome Error (List ℕ)
copy_rows zero row matrix bits = ok bits
copy_rows (suc n) row matrix bits = copy_row 11 0 row matrix bits >>= copy_rows n (row + 1) matrix

-- `GetData`: the buffer that it fills. A nil buffer has less than 77 bits.
unfoldable pub get_data : Vbptc → List ℕ → Outcome Error (List ℕ)
get_data v bits = do
  require (not (v.expected_rows == 0)) no_data
  require (leb 77 (length bits)) short_buffer
  copy_rows (v.expected_rows - 1) 0 v.matrix bits

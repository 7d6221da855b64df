-- ===== src/Vbptc/Tests.antt =====
-- Runs of the variable-length code at concrete inputs.
use go_dmr.Base.{zero, suc, ◌-◌, ◌*◌, ◌≡◌, refl, false, none, [], ◌∷◌, ◌++◌, take, arith}
use go_dmr.Base.Outcome.{ok}
use go_dmr.Vbptc.{
  Vbptc, new, bits_at, get_parity, row_errors, check_row, find_from, find_position, flip,
  column_parity, check_columns, check_and_repair, add_burst,
}
use go_dmr.Vbptc.Row.{add_row, unit_row, two_wrong_bits}
use go_dmr.Vbptc.Repair.{RowsPass, IsValid, check_and_repair_one}
use go_dmr.Vbptc.Burst.{Holds, new-Holds, add_burst-Holds}

two_wrong_bits_example :
    (check_row (row_errors (add_row (add_row (λ i. 0) (unit_row 0)) (unit_row 1))) ≡ false)
    × (check_row (
          row_errors (add_row (add_row (add_row (λ i. 0) (unit_row 0)) (unit_row 1)) (unit_row 12)))
        ≡ false)
unfolding check_row row_errors get_parity find_position find_from
two_wrong_bits_example =
    two_wrong_bits (λ i. 0) 0 1 12 refl (omega arith) (omega arith) (λ e. omega arith) refl

-- Two rows that are the same, with their check bits.
abbrev small : Vbptc
small = record {
  matrix =
      1 ∷ 0 ∷ 0 ∷ 0 ∷ 0 ∷ 0 ∷ 0 ∷ 0 ∷ 0 ∷ 0 ∷ 0 ∷ 1 ∷ 0 ∷ 0 ∷ 1 ∷ 1 ∷ 1 ∷ 0 ∷ 0 ∷ 0 ∷ 0 ∷ 0 ∷ 0 ∷ 0
      ∷ 0 ∷ 0 ∷ 0 ∷ 1 ∷ 0 ∷ 0 ∷ 1 ∷ 1 ∷ [];
  row = 0;
  col = 16;
  expected_rows = 2;
}

small-RowsPass : RowsPass 1 0 small.matrix
unfolding check_row row_errors get_parity bits_at
small-RowsPass zero lo hi = refl
small-RowsPass (suc k) lo hi = absurd (omega arith)

small-IsValid : IsValid 2 small.matrix
unfolding check_columns column_parity
small-IsValid = (refl, small-RowsPass, refl)

check_and_repair_one_example :
    check_and_repair (record small { matrix = flip small.matrix 5 }) ≡ (small, none)
check_and_repair_one_example =
    check_and_repair_one small 0 5 (omega arith) (omega arith) small-IsValid (omega arith)
      (omega arith)

add_burst-Holds_example :
    (v' : Vbptc) × (add_burst (1 ∷ 0 ∷ 1 ∷ []) (new 8) ≡ ok v')
    × Holds ([] ++ take ((new 8).expected_rows * 16 - 0) (1 ∷ 0 ∷ 1 ∷ [])) v'
unfolding new
add_burst-Holds_example =
    add_burst-Holds [] (1 ∷ 0 ∷ 1 ∷ []) (new 8) (new-Holds 8 (omega arith) (omega arith))
      (omega arith)

-- ===== src/Vbptc/Repair.antt =====
-- `CheckAndRepair` on a matrix with a wrong bit.
use go_dmr.Base.{
  ℕ, zero, suc, ◌+◌, ◌-◌, ◌*◌, ◌≤◌, ◌<◌, ◌≡◌, ◌≢◌, refl, sym, ap, ap₂, ◌∙◌, bit_xor, ◌==◌, ==_iff,
  ==_refl, Bool-cases, inl, inr, Bool, true, none, List, [], ◌∷◌, length, get_or, get_or-set_self,
  get_or-set_ne, get_or-drop, set, u8, arith, if◌then◌else◌,
}
use mathlib.Core.Path.{subst}
use go_dmr.Base.Bits.Xor.{xor-zero, xor_assoc}
use go_dmr.Vbptc.{
  Vbptc, bits_at, row_errors, check_row, find_position, flip, repair_rows, check_columns,
  check_and_repair,
}
use go_dmr.Vbptc.Row.{add_row, unit_row, row_errors-cong, one_wrong_bit}

set-get_or : (xs : List ℕ) (i v w : ℕ) → get_or xs i 0 ≡ w → set (set xs i v) i w ≡ xs
set-get_or [] i v w h = refl
set-get_or (x ∷ xs) zero v w h = ap (λ (t : ℕ). t ∷ xs) (sym h)
set-get_or (x ∷ xs) (suc i) v w h = ap (λ (t : List ℕ). x ∷ t) (set-get_or xs i v w h)

flip-flip : (m : List ℕ) (k : ℕ) → k < length m → flip (flip m k) k ≡ m
unfolding flip
flip-flip m k h =
    ap (set (set m k (bit_xor (get_or m k 0) 1)) k) (
      ap (λ (t : ℕ). bit_xor t 1) (get_or-set_self m k _ 0 h)
      ∙ xor_assoc (get_or m k 0) 1 1
      ∙ xor-zero (get_or m k 0))
    ∙ set-get_or m k _ (get_or m k 0) refl

get_or-flip :
    (m : List ℕ) (k j : ℕ)
    → k < length m
    → get_or (flip m k) j 0 ≡ bit_xor (get_or m j 0) (if j == k then 1 else 0)
unfolding flip
get_or-flip m k j h = elim (Bool-cases (j == k)) [
  | inl same ↦ let e : j ≡ k = (==_iff j k).0 same in rw (e, ==_refl k) (get_or-set_self m k _ 0 h)
  | inr other ↦
      rw other
        (get_or-set_ne m k j _ 0 (λ e. ground (arith, other, e)) ∙ sym (xor-zero (get_or m j 0)))
]

-- A flipped bit of a row of at most sixteen rows, seen from its row and from the others.
bits_at-flip_here :
    (m : List ℕ) (row p i : ℕ)
    → row < 16
    → p < 16
    → i < 16
    → row * 16 + p < length m
    → bits_at (flip m (u8 (row * 16 + p))) row i ≡ add_row (bits_at m row) (unit_row p) i
unfolding bits_at
bits_at-flip_here m row p i hr hp hi h =
    let same_test : (u8 (row * 16) + i == u8 (row * 16 + p)) ≡ (i == p) = ground arith in
    get_or-drop (u8 (row * 16)) (flip m (u8 (row * 16 + p))) i 0
    ∙ get_or-flip m (u8 (row * 16 + p)) (u8 (row * 16) + i) (omega arith)
    ∙ ap₂ bit_xor (sym (get_or-drop (u8 (row * 16)) m i 0))
        (ap (λ (b : Bool). if b then 1 else 0) same_test)

bits_at-flip_there :
    (m : List ℕ) (row p k i : ℕ)
    → row < 16
    → k < 16
    → p < 16
    → i < 16
    → row ≢ k
    → bits_at (flip m (u8 (row * 16 + p))) k i ≡ bits_at m k i
unfolding bits_at flip
bits_at-flip_there m row p k i hr hk hp hi ne =
    get_or-drop (u8 (k * 16))
      (set m (u8 (row * 16 + p)) (bit_xor (get_or m (u8 (row * 16 + p)) 0) 1)) i 0
    ∙ get_or-set_ne m (u8 (row * 16 + p)) (u8 (k * 16) + i) _ 0 (λ same. ne (omega arith))
    ∙ sym (get_or-drop (u8 (k * 16)) m i 0)

-- Every row but the last passes, from `row` on for `n` rows.
abbrev pub RowsPass : ℕ → ℕ → List ℕ → Type 0
RowsPass n row m = (k : ℕ) → row ≤ k → k < row + n → check_row (row_errors (bits_at m k)) ≡ true

repair_rows_pass : (n row : ℕ) (m : List ℕ) → RowsPass n row m → repair_rows n row m ≡ (m, none)
unfolding repair_rows
repair_rows_pass zero row m h = refl
repair_rows_pass (suc n) row m h =
    rw (h row (omega arith) (omega arith), repair_rows)
      (repair_rows_pass n (row + 1) m (λ k lo hi. h k (omega arith) (omega arith)))

module _ (m : List ℕ) (row p : ℕ) (hr : row < 16) (hp : p < 16) (h : row * 16 + p < length m) where
  abbrev corrupt : List ℕ
  corrupt = flip m (u8 (row * 16 + p))

  -- The row of the wrong bit is repaired where it is met.
  repair_here : (n : ℕ) → RowsPass (suc n) row m → repair_rows (suc n) row corrupt ≡ (m, none)
  unfolding repair_rows
  repair_here n v =
      let seen =
        row_errors-cong (bits_at corrupt row) (add_row (bits_at m row) (unit_row p))
          (λ i hi. bits_at-flip_here m row p i hr hp hi h) in
      let passes = v row (omega arith) (omega arith) in
      let (wrong, found) = one_wrong_bit (bits_at m row) p passes hp in
      let back : flip corrupt (u8 (row * 16 + p)) ≡ m =
        flip-flip m (u8 (row * 16 + p)) (omega arith) in
      let rest = repair_rows_pass n (row + 1) m (λ k lo hi. v k (omega arith) (omega arith)) in
      ground (arith, ap check_row seen ∙ wrong, ap find_position seen ∙ found, back, passes, rest)

  -- The rows above it pass.
  repair_later :
      (n k : ℕ)
      → k ≤ row
      → row < k + n
      → k + n ≤ 16
      → RowsPass n k m
      → repair_rows n k corrupt ≡ (m, none)
  unfolding repair_rows
  repair_later zero k lo hi top v = absurd (omega arith)
  repair_later (suc n) k lo hi top v = elim (Bool-cases (k == row)) [
    | inl same ↦
        subst (λ (t : ℕ). RowsPass (suc n) t m → repair_rows (suc n) t corrupt ≡ (m, none))
          (sym ((==_iff k row).0 same)) (repair_here n) v
    | inr other ↦
        let seen = row_errors-cong (bits_at corrupt k) (bits_at m k) (λ i hi.
          bits_at-flip_there m row p k i hr (omega arith) hp hi (λ e. ground (arith, other, e))) in
        let rest =
          repair_later n (k + 1) (ground (arith, other)) (omega arith) (omega arith)
            (λ j lo' hi'. v j (omega arith) (omega arith)) in
        ground (arith, ap check_row seen ∙ v k (omega arith) (omega arith), rest)
  ]

-- A matrix of `rows` rows that passes all checks: the rows above the last, and the columns.
abbrev pub IsValid : ℕ → List ℕ → Type 0
IsValid rows m =
    (length m ≡ rows * 16) × RowsPass (rows - 1) 0 m × (check_columns 16 0 (rows - 1) m ≡ none)

-- A matrix of two to sixteen rows that passes all checks, with any one bit wrong above the last row:
-- `CheckAndRepair` repairs exactly that bit and reports no error.
pub check_and_repair_one :
    (v : Vbptc) (row p : ℕ)
    → 2 ≤ v.expected_rows
    → v.expected_rows ≤ 16
    → IsValid v.expected_rows v.matrix
    → row + 1 < v.expected_rows
    → p < 16
    → check_and_repair (record v { matrix = flip v.matrix (row * 16 + p) }) ≡ (v, none)
unfolding check_and_repair
check_and_repair_one v row p lo hi valid hr hp =
    let (size, passes, columns) = valid in
    let index : u8 (row * 16 + p) ≡ row * 16 + p = omega arith in
    let repaired =
      repair_later v.matrix row p (omega arith) hp (omega arith) (v.expected_rows - 1) 0
        (omega arith) (omega arith) (omega arith) passes in
    let here : repair_rows (v.expected_rows - 1) 0 (flip v.matrix (row * 16 + p))
        ≡ (v.matrix, none) =
      subst (λ (k : ℕ). repair_rows (v.expected_rows - 1) 0 (flip v.matrix k) ≡ (v.matrix, none))
        index repaired in
    ground (arith, here, columns)

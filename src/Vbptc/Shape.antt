-- ===== src/Vbptc/Shape.antt =====
-- A matrix of eight rows keeps its shape, whatever is done with it.
use go_dmr.Base.{
  ℕ, zero, suc, ◌+◌, ◌-◌, ◌*◌, ◌≤◌, ◌<◌, ◌≡◌, ◌≢◌, refl, ap, ◌∙◌, bit_xor, ltb, ◌==◌, Bool-cases,
  false, inl, inr, none, some, List, [], ◌∷◌, length, length-set, length-take_le, get_elem?-eq-some,
  get_or, set, take, zeros, u8, arith,
}
use mathlib.Core.Path.{subst}
use go_dmr.Base.Outcome.{ok, panic}
use go_dmr.Vbptc.{
  Vbptc, new, clear, free_space, advance, add_bits, add_burst, row_errors, bits_at, find_position,
  flip, repair_rows, check_and_repair, copy_row, copy_rows, get_data,
}

-- A matrix of eight rows with its cursor in it, or behind its last bit.
pub record Shape (v : Vbptc) : Type 0 where
  pub eight_rows : v.expected_rows ≡ 8
  pub size : length v.matrix ≡ 128
  pub row-lt : v.row < 8
  pub used : v.col * 8 + v.row ≤ 128

pub new-Shape : Shape (new 8)
unfolding new
new-Shape = record { eight_rows = refl; size = refl; row-lt = omega arith; used = omega arith }

pub clear-Shape : (v : Vbptc) → Shape v → Shape (clear v)
unfolding clear
clear-Shape v h = record {
  eight_rows = h.eight_rows;
  size = ap (λ (n : ℕ). length (zeros (n * 16))) h.eight_rows;
  row-lt = omega arith;
  used = omega arith;
}

written-Shape :
    (v : Vbptc) (i b : ℕ)
    → Shape v
    → v.col * 8 + v.row < 128
    → Shape (advance (record v { matrix = set v.matrix i b }))
unfolding advance
written-Shape v i b h room = elim (Bool-cases (u8 (v.row + 1) == v.expected_rows)) [
  | inl turn ↦ rw turn (record {
    eight_rows = h.eight_rows;
    size = length-set v.matrix i b ∙ h.size;
    row-lt = omega arith;
    used = ground (arith, turn, room, h.eight_rows, h.row-lt);
  })
  | inr on ↦ rw on (record {
    eight_rows = h.eight_rows;
    size = length-set v.matrix i b ∙ h.size;
    row-lt = ground (arith, on, h.eight_rows, h.row-lt);
    used = ground (arith, on, room, h.eight_rows, h.row-lt);
  })
]

advance-used :
    (v : Vbptc)
    → v.expected_rows ≡ 8
    → v.row < 8
    → v.col < 16
    → (advance v).col * 8 + (advance v).row ≡ v.col * 8 + v.row + 1
unfolding advance
advance-used v e hr hc = ground (arith, e, hr, hc)

add_bits-eq-ok :
    (bits : List ℕ) (v : Vbptc)
    → Shape v
    → length bits + (v.col * 8 + v.row) ≤ 128
    → (w : Vbptc) × (add_bits bits v ≡ ok w) × Shape w
unfolding add_bits
add_bits-eq-ok [] v h room = (v, refl, h)
add_bits-eq-ok (b ∷ bits) v h room =
    let i = u8 (v.col + v.row * 16) in
    let (old, got) = get_elem?-eq-some v.matrix i (omega (arith, h.row-lt, h.size)) in
    let v' = record v { matrix = set v.matrix i b } in
    let on = advance-used v' h.eight_rows h.row-lt (omega arith) in
    let (w, e, s) =
      add_bits-eq-ok bits (advance v') (written-Shape v i b h (omega arith)) (omega (arith, on)) in
    (w, rw (got, add_bits) e, s)

add_burst-added :
    (bits : List ℕ) (v : Vbptc)
    → Shape v
    → (w : Vbptc) × (add_bits (take (free_space v) bits) v ≡ ok w) × Shape w
unfolding free_space
add_burst-added bits v h =
    add_bits-eq-ok (take (free_space v) bits) v h
      (grind (arith, length-take_le (free_space v) bits, h.eight_rows, h.used))

-- `AddBurst` adds what there is room for, or reports that there is none.
pub add_burst-ne-panic : (bits : List ℕ) (v : Vbptc) → Shape v → add_burst bits v ≢ panic
unfolding add_burst
add_burst-ne-panic bits v h e =
    let (w, added, s) = add_burst-added bits v h in ground (arith, added)

pub add_burst-Shape : (bits : List ℕ) (v w : Vbptc) → Shape v → add_burst bits v ≡ ok w → Shape w
unfolding add_burst
add_burst-Shape bits v w h e =
    let (w', added, s) = add_burst-added bits v h in
    let same : w' ≡ w = ground (arith, added, e) in subst Shape same s

repair_rows-size :
    (n row : ℕ) (matrix : List ℕ) → length (repair_rows n row matrix).0 ≡ length matrix
unfolding repair_rows flip
repair_rows-size zero row matrix = refl
repair_rows-size (suc n) row matrix =
    let errs = row_errors (bits_at matrix row) in
    elim (find_position errs)
        as (λ r.
          find_position errs ≡ r → length (repair_rows (suc n) row matrix).0 ≡ length matrix) [
            | none ↦ λ e. ground (arith, e, repair_rows-size n (row + 1) matrix)
            | some pos ↦ λ e.
                let i = u8 (row * 16 + pos) in
                let flipped = set matrix i (bit_xor (get_or matrix i 0) 1) in
                let size = length-set matrix i (bit_xor (get_or matrix i 0) 1) in
                ground (
                  arith,
                  e,
                  size,
                  repair_rows-size n (row + 1) matrix,
                  repair_rows-size n (row + 1) flipped,
                )
          ]
      refl

-- `CheckAndRepair` keeps the shape, also when it fails.
pub check_and_repair-Shape : (v : Vbptc) → Shape v → Shape (check_and_repair v).0
unfolding check_and_repair
check_and_repair-Shape v h =
    let many : ltb v.expected_rows 2 ≡ false = ground (arith, h.eight_rows) in
    rw many (record {
      eight_rows = h.eight_rows;
      size = repair_rows-size (v.expected_rows - 1) 0 v.matrix ∙ h.size;
      row-lt = h.row-lt;
      used = h.used;
    })

copy_row-eq-ok :
    (n col row : ℕ) (matrix bits : List ℕ)
    → length bits ≡ 77
    → row < 7
    → n + col ≤ 11
    → (out : List ℕ) × (copy_row n col row matrix bits ≡ ok out) × (length out ≡ 77)
unfolding copy_row
copy_row-eq-ok zero col row matrix bits e hr hc = (bits, refl, e)
copy_row-eq-ok (suc n) col row matrix bits e hr hc =
    let i = u8 (row * 11 + col) in
    let v = get_or matrix (u8 (row * 16 + col)) 0 in
    let (old, got) = get_elem?-eq-some bits i (omega arith) in
    let (out, copied, size) =
      copy_row-eq-ok n (col + 1) row matrix (set bits i v) (length-set bits i v ∙ e) hr
        (omega arith) in
    (out, rw (got, copy_row) copied, size)

copy_rows-eq-ok :
    (n row : ℕ) (matrix bits : List ℕ)
    → length bits ≡ 77
    → n + row ≤ 7
    → (out : List ℕ) × (copy_rows n row matrix bits ≡ ok out) × (length out ≡ 77)
unfolding copy_rows
copy_rows-eq-ok zero row matrix bits e h = (bits, refl, e)
copy_rows-eq-ok (suc n) row matrix bits e h =
    let (mid, copied, size) = copy_row-eq-ok 11 0 row matrix bits e (omega arith) (omega arith) in
    let (out, rest, size') = copy_rows-eq-ok n (row + 1) matrix mid size (omega arith) in
    (out, rw copied rest, size')

-- `GetData` of seven rows fills 77 bits.
pub get_data-eq-ok :
    (v : Vbptc) → Shape v → (out : List ℕ) × (get_data v (zeros 77) ≡ ok out) × (length out ≡ 77)
unfolding get_data
get_data-eq-ok v h =
    let (out, e, size) =
      copy_rows-eq-ok (v.expected_rows - 1) 0 v.matrix (zeros 77) refl
        (omega (arith, h.eight_rows)) in
    let several : (v.expected_rows == 0) ≡ false = ground (arith, h.eight_rows) in
    (out, rw several e, size)

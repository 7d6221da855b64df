-- ===== src/Vbptc/Burst.antt =====
-- `AddBurst`: the matrix holds the bits that were added, column after column.
use go_dmr.Base.{
  ℕ, ◌+◌, ◌-◌, ◌*◌, ◌≤◌, ◌<◌, ◌≡◌, refl, sym, ap, ap₂, ◌∙◌, inl, inr, ◌==◌, ==_iff, Bool-cases,
  some, List, [], ◌∷◌, ◌++◌, length, length-append, length-set, length-take_le, length-zeros,
  get_elem?, get_elem?-eq-some, get_or, get_or-set_self, get_or-set_ne, get_or-append,
  get_or-append_left, set, take, u8, arith,
}
use mathlib.Core.Path.{subst}
use mathlib.Core.List.{append-nil, append_assoc}
use go_dmr.Base.Outcome.{ok, err}
use go_dmr.Vbptc.{Vbptc, no_free_space, new, free_space, advance, add_bits, add_burst}

-- A column further is at least a column's bits further.
next_column : (c d n : ℕ) → c < d → c * n + n ≤ d * n
next_column c d n h = grind arith

-- A matrix of one to sixteen rows that holds `sent`: the cursor stands behind the last bit, and every bit
-- in the column and row that its place in `sent` gives.
pub record Holds (sent : List ℕ) (v : Vbptc) : Type 0 where
  pub some_rows : 0 < v.expected_rows
  pub few_rows : v.expected_rows ≤ 16
  pub size : length v.matrix ≡ v.expected_rows * 16
  pub row-lt : v.row < v.expected_rows
  pub used : v.col * v.expected_rows + v.row ≡ length sent
  pub fits : length sent ≤ v.expected_rows * 16
  pub placed :
      (c r : ℕ)
      → r < v.expected_rows
      → c * v.expected_rows + r < length sent
      → get_or v.matrix (c + r * 16) 0 ≡ get_or sent (c * v.expected_rows + r) 0

col-lt : (c r n : ℕ) → c * n + r < n * 16 → c < 16
col-lt c r n h = grind (arith, next_column)

same_place : (c r d s n : ℕ) → r < n → s < n → c * n + r ≡ d * n + s → (c ≡ d) × (r ≡ s)
same_place c r d s n hr hs e = grind (arith, next_column)

pub new-Holds : (rows : ℕ) → 0 < rows → rows ≤ 16 → Holds [] (new rows)
unfolding new
new-Holds rows lo hi = record {
  some_rows = lo;
  few_rows = hi;
  size = length-zeros (rows * 16);
  row-lt = lo;
  used = omega arith;
  fits = omega arith;
  placed = λ c r hr h. absurd (omega arith);
}

module _ (sent : List ℕ) (v : Vbptc) (b : ℕ) (h : Holds sent v)
    (room : length sent < v.expected_rows * 16) where
  cursor_col : v.col < 16
  cursor_col = col-lt v.col v.row v.expected_rows (omega (arith, h.used))

  cursor-lt : v.col + v.row * 16 < length v.matrix
  cursor-lt = omega (arith, cursor_col, h.row-lt, h.size)

  cursor-u8 : u8 (v.col + v.row * 16) ≡ v.col + v.row * 16
  cursor-u8 = omega (arith, cursor_col, h.row-lt, h.few_rows)

  length_next : length (sent ++ b ∷ []) ≡ length sent + 1
  length_next = length-append sent (b ∷ [])

  placed_next :
      (c r : ℕ)
      → r < v.expected_rows
      → c * v.expected_rows + r < length (sent ++ b ∷ [])
      → get_or (set v.matrix (v.col + v.row * 16) b) (c + r * 16) 0
        ≡ get_or (sent ++ b ∷ []) (c * v.expected_rows + r) 0
  placed_next c r hr lt = elim (Bool-cases (c * v.expected_rows + r == length sent)) [
    | inl last ↦
        let at : c * v.expected_rows + r ≡ length sent = (==_iff _ _).0 last in
        let (same_col, same_row) =
          same_place c r v.col v.row v.expected_rows hr h.row-lt (at ∙ sym h.used) in
        ap (λ (k : ℕ). get_or (set v.matrix (v.col + v.row * 16) b) k 0)
          (omega (arith, same_col, same_row))
        ∙ get_or-set_self v.matrix (v.col + v.row * 16) b 0 cursor-lt
        ∙ sym (get_or-append sent (b ∷ []) 0 0)
        ∙ ap (λ (k : ℕ). get_or (sent ++ b ∷ []) k 0) (omega (arith, at))
    | inr later ↦
        let before : c * v.expected_rows + r < length sent =
          ground (arith, later, length_next, lt) in
        let c-lt = col-lt c r v.expected_rows (omega (arith, before, h.fits)) in
        get_or-set_ne v.matrix (v.col + v.row * 16) (c + r * 16) b 0 (λ e.
          let same_col : v.col ≡ c = omega (arith, cursor_col, c-lt, e) in
          let same_row : v.row ≡ r = omega (arith, cursor_col, c-lt, e) in
          let used = h.used in
          ground
            (arith, before, ap₂ (λ (x y : ℕ). x * v.expected_rows + y) same_col same_row, used))
        ∙ h.placed c r hr before
        ∙ sym (get_or-append_left sent (b ∷ []) (c * v.expected_rows + r) 0 before)
  ]

  -- A cursor that is one bit further.
  moved :
      (row col : ℕ)
      → row < v.expected_rows
      → col * v.expected_rows + row ≡ length sent + 1
      → Holds
          (sent ++ b ∷ [])
          (record v { matrix = set v.matrix (v.col + v.row * 16) b; row = row; col = col })
  moved row col lt e = record {
    some_rows = h.some_rows;
    few_rows = h.few_rows;
    size = length-set v.matrix (v.col + v.row * 16) b ∙ h.size;
    row-lt = lt;
    used = e ∙ sym length_next;
    fits = omega (arith, room, length_next);
    placed = placed_next;
  }

  -- One bit more.
  step-Holds :
      Holds (sent ++ b ∷ []) (advance (record v { matrix = set v.matrix (v.col + v.row * 16) b }))
  unfolding advance
  step-Holds = elim (Bool-cases (u8 (v.row + 1) == v.expected_rows)) [
    | inl turn ↦
        let full : v.row + 1 ≡ v.expected_rows = ground (arith, turn, h.row-lt, h.few_rows) in
        let col : u8 (v.col + 1) ≡ v.col + 1 = omega (arith, cursor_col) in
        rw turn (
          moved 0 (u8 (v.col + 1)) h.some_rows
            (omega (arith, ap (λ (c : ℕ). c * v.expected_rows) col, h.used, full)))
    | inr on ↦
        let row : u8 (v.row + 1) ≡ v.row + 1 = omega (arith, h.row-lt, h.few_rows) in
        rw on (
          moved (u8 (v.row + 1)) v.col (ground (arith, on, row, h.row-lt))
            (omega (arith, row, h.used)))
  ]

same_rows : (v : Vbptc) → (advance v).expected_rows ≡ v.expected_rows
unfolding advance
same_rows v = ground arith

add_bits_step :
    (b : ℕ) (bits sent : List ℕ) (v : Vbptc)
    → Holds sent v
    → length sent < v.expected_rows * 16
    → add_bits (b ∷ bits) v
      ≡ add_bits bits (advance (record v { matrix = set v.matrix (v.col + v.row * 16) b }))
unfolding add_bits
add_bits_step b bits sent v h room =
    let (old, read) = get_elem?-eq-some v.matrix (v.col + v.row * 16) (cursor-lt sent v b h room) in
    subst
      (λ (k : ℕ).
        get_elem? v.matrix k ≡ some old
        → add_bits (b ∷ bits) v ≡ add_bits bits (advance (record v { matrix = set v.matrix k b })))
      (cursor-u8 sent v b h room) (λ found. rw (found, add_bits) refl) read

add_bits-Holds :
    (bits sent : List ℕ) (v : Vbptc)
    → Holds sent v
    → length sent + length bits ≤ v.expected_rows * 16
    → (v' : Vbptc) × (add_bits bits v ≡ ok v') × Holds (sent ++ bits) v'
unfolding add_bits
add_bits-Holds [] sent v h room =
    (v, refl, subst (λ (t : List ℕ). Holds t v) (sym (append-nil sent)) h)
add_bits-Holds (b ∷ bits) sent v h room =
    let here : length sent < v.expected_rows * 16 = omega arith in
    let v1 = advance (record v { matrix = set v.matrix (v.col + v.row * 16) b }) in
    let rows : v1.expected_rows ≡ v.expected_rows =
      same_rows (record v { matrix = set v.matrix (v.col + v.row * 16) b }) in
    let (v2, ran, held) =
      add_bits-Holds bits (sent ++ b ∷ []) v1 (step-Holds sent v b h here)
        (omega (arith, rows, length-append sent (b ∷ []), room)) in
    (
      v2,
      add_bits_step b bits sent v h here ∙ ran,
      subst (λ (t : List ℕ). Holds t v2) (append_assoc sent (b ∷ []) bits) held,
    )

free_space-eq :
    (sent : List ℕ) (v : Vbptc) → Holds sent v → free_space v ≡ v.expected_rows * 16 - length sent
unfolding free_space
free_space-eq sent v h = grind (arith, h.used)

-- A matrix of one to sixteen rows that holds `sent` and is not full: `AddBurst` succeeds, and the matrix then
-- holds `sent` and, behind it, the bits that are added, without those that it has no room for.
pub add_burst-Holds :
    (sent bits : List ℕ) (v : Vbptc)
    → Holds sent v
    → length sent < v.expected_rows * 16
    → (v' : Vbptc) × (add_burst bits v ≡ ok v')
      × Holds (sent ++ take (v.expected_rows * 16 - length sent) bits) v'
unfolding add_burst
add_burst-Holds sent bits v h room =
    let free = free_space-eq sent v h in
    let (v1, ran, held) =
      add_bits-Holds (take (v.expected_rows * 16 - length sent) bits) sent v h
        (omega (arith, length-take_le (v.expected_rows * 16 - length sent) bits)) in
    (v1, ground (arith, free, ran), held)

-- A full matrix takes no burst.
pub add_burst-full :
    (sent bits : List ℕ) (v : Vbptc)
    → Holds sent v
    → length sent ≡ v.expected_rows * 16
    → add_burst bits v ≡ err no_free_space
unfolding add_burst
add_burst-full sent bits v h full = ground (arith, free_space-eq sent v h)

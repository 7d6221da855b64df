-- ===== src/Vbptc/Row.antt =====
-- The Hamming(16,11) code of a row: its checks are linear over exclusive or, one wrong bit is located,
-- and two are detected.
use go_dmr.Base.{
  ℕ, ◌<◌, ◌≡◌, ◌≢◌, refl, sym, ap, ◌∙◌, bit_xor, ◌==◌, ◌&&◌, ◌||◌, not, Bool, true, false,
  all_below, all_below_sound, none, some, Option-cases, inl, inr, List, [], ◌∷◌, arith,
  if◌then◌else◌,
}
use go_dmr.Base.Bits.Xor.{xor_exchange}
use go_dmr.Vbptc.{get_parity, row_errors, check_row, find_from, find_position}

-- A row with other bits added.
abbrev pub add_row : (ℕ → ℕ) → (ℕ → ℕ) → ℕ → ℕ
add_row b e i = bit_xor (b i) (e i)

-- The row with a 1 at `p` alone.
abbrev pub unit_row : ℕ → ℕ → ℕ
unit_row p i = if i == p then 1 else 0

abbrev pub add_errors : List ℕ → List ℕ → List ℕ
add_errors [] ys = []
add_errors (x ∷ xs) [] = []
add_errors (x ∷ xs) (y ∷ ys) = bit_xor x y ∷ add_errors xs ys

-- A sum of eight sums.
sum8 :
    (a0 a1 a2 a3 a4 a5 a6 a7 b0 b1 b2 b3 b4 b5 b6 b7 : ℕ)
    → bit_xor
        (bit_xor
          (bit_xor
            (bit_xor
              (bit_xor
                (bit_xor (bit_xor (bit_xor a0 b0) (bit_xor a1 b1)) (bit_xor a2 b2))
                (bit_xor a3 b3))
              (bit_xor a4 b4))
            (bit_xor a5 b5))
          (bit_xor a6 b6))
        (bit_xor a7 b7)
      ≡ bit_xor
          (bit_xor
            (bit_xor (bit_xor (bit_xor (bit_xor (bit_xor (bit_xor a0 a1) a2) a3) a4) a5) a6)
            a7)
          (bit_xor
            (bit_xor (bit_xor (bit_xor (bit_xor (bit_xor (bit_xor b0 b1) b2) b3) b4) b5) b6)
            b7)
sum8 a0 a1 a2 a3 a4 a5 a6 a7 b0 b1 b2 b3 b4 b5 b6 b7 =
    rw
      (
        xor_exchange a0 b0 a1 b1,
        xor_exchange (bit_xor a0 a1) (bit_xor b0 b1) a2 b2,
        xor_exchange (bit_xor (bit_xor a0 a1) a2) (bit_xor (bit_xor b0 b1) b2) a3 b3,
        xor_exchange (bit_xor (bit_xor (bit_xor a0 a1) a2) a3)
            (bit_xor (bit_xor (bit_xor b0 b1) b2) b3) a4 b4,
        xor_exchange (bit_xor (bit_xor (bit_xor (bit_xor a0 a1) a2) a3) a4)
            (bit_xor (bit_xor (bit_xor (bit_xor b0 b1) b2) b3) b4) a5 b5,
        xor_exchange (bit_xor (bit_xor (bit_xor (bit_xor (bit_xor a0 a1) a2) a3) a4) a5)
            (bit_xor (bit_xor (bit_xor (bit_xor (bit_xor b0 b1) b2) b3) b4) b5) a6 b6,
        xor_exchange
            (bit_xor (bit_xor (bit_xor (bit_xor (bit_xor (bit_xor a0 a1) a2) a3) a4) a5) a6)
            (bit_xor (bit_xor (bit_xor (bit_xor (bit_xor (bit_xor b0 b1) b2) b3) b4) b5) b6) a7 b7,
      )
      refl

-- The checks of a sum are the sums of the checks.
pub row_errors-add_row :
    (b e : ℕ → ℕ) → row_errors (add_row b e) ≡ add_errors (row_errors b) (row_errors e)
unfolding row_errors get_parity
row_errors-add_row b e = grind (arith, sum8)

-- The checks see the sixteen bits of the row alone.
pub row_errors-cong : (b c : ℕ → ℕ) → ((i : ℕ) → i < 16 → b i ≡ c i) → row_errors b ≡ row_errors c
unfolding row_errors get_parity
row_errors-cong b c h =
    let e0 = h 0 (omega arith) in
    let e1 = h 1 (omega arith) in
    let e2 = h 2 (omega arith) in
    let e3 = h 3 (omega arith) in
    let e4 = h 4 (omega arith) in
    let e5 = h 5 (omega arith) in
    let e6 = h 6 (omega arith) in
    let e7 = h 7 (omega arith) in
    let e8 = h 8 (omega arith) in
    let e9 = h 9 (omega arith) in
    let e10 = h 10 (omega arith) in
    let e11 = h 11 (omega arith) in
    let e12 = h 12 (omega arith) in
    let e13 = h 13 (omega arith) in
    let e14 = h 14 (omega arith) in let e15 = h 15 (omega arith) in cc

-- A row passes where its five checks are 0.
row_errors-zero :
    (b : ℕ → ℕ) → check_row (row_errors b) ≡ true → row_errors b ≡ 0 ∷ 0 ∷ 0 ∷ 0 ∷ 0 ∷ []
unfolding check_row row_errors
row_errors-zero b h = ground (arith, h)

-- What the checks are where `e` is added to a row that passes.
row_errors-wrong :
    (b e : ℕ → ℕ)
    → check_row (row_errors b) ≡ true
    → row_errors (add_row b e) ≡ add_errors (0 ∷ 0 ∷ 0 ∷ 0 ∷ 0 ∷ []) (row_errors e)
row_errors-wrong b e h =
    row_errors-add_row b e ∙ ap (λ (t : List ℕ). add_errors t (row_errors e)) (row_errors-zero b h)

-- The checks of a row that passes but for a wrong bit at `p`.
unfoldable errors_at : ℕ → List ℕ
errors_at p = add_errors (0 ∷ 0 ∷ 0 ∷ 0 ∷ 0 ∷ []) (row_errors (unit_row p))

unfoldable locates : List ℕ → ℕ → Bool
locates errs p =
    not (check_row errs) && elim (find_position errs) [ none ↦ false | some q ↦ q == p ]

locates_lem :
    (errs : List ℕ) (p : ℕ)
    → locates errs p ≡ true
    → (check_row errs ≡ false) × (find_position errs ≡ some p)
unfolding locates
locates_lem errs p h = elim (Option-cases (find_position errs)) [
  | inl none_found ↦ absurd (ground (arith, none_found))
  | inr (q, found) ↦ (ground arith, ground (arith, found))
]

all_located : all_below 16 (λ p. locates (errors_at p) p) ≡ true
unfolding all_below locates check_row find_position find_from errors_at row_errors get_parity
all_located = refl

-- A row that passes, with one of its sixteen bits wrong: it does not pass, and the wrong bit is found.
pub one_wrong_bit :
    (b : ℕ → ℕ) (p : ℕ)
    → check_row (row_errors b) ≡ true
    → p < 16
    → (check_row (row_errors (add_row b (unit_row p))) ≡ false)
      × (find_position (row_errors (add_row b (unit_row p))) ≡ some p)
unfolding errors_at
one_wrong_bit b p h lt = rw (row_errors-wrong b (unit_row p) h) (
    locates_lem (errors_at p) p
      (all_below_sound 16 (λ q. locates (errors_at q) q) all_located p lt))

-- Wherever the repair flips a third bit, the row with two wrong bits still does not pass.
unfoldable still_wrong : List ℕ → Bool
still_wrong errs = not (check_row errs) && elim (find_position errs) [
  | none ↦ true
  | some r ↦ not (check_row (add_errors errs (row_errors (unit_row r))))
]

still_wrong_lem :
    (errs : List ℕ) (r : ℕ)
    → still_wrong errs ≡ true
    → find_position errs ≡ some r
    → (check_row errs ≡ false) × (check_row (add_errors errs (row_errors (unit_row r))) ≡ false)
unfolding still_wrong
still_wrong_lem errs r h found = (ground arith, ground (arith, found))

all_still_wrong :
    all_below 16 (λ p.
      all_below 16
        (λ q. p == q || still_wrong (add_errors (errors_at p) (row_errors (unit_row q)))))
    ≡ true
unfolding all_below still_wrong check_row find_position find_from errors_at row_errors get_parity
all_still_wrong = refl

-- A row that passes, with two of its sixteen bits wrong: it does not pass, and whatever third bit the repair
-- flips, it does not pass then.
pub two_wrong_bits :
    (b : ℕ → ℕ) (p q r : ℕ)
    → check_row (row_errors b) ≡ true
    → p < 16
    → q < 16
    → p ≢ q
    → find_position (row_errors (add_row (add_row b (unit_row p)) (unit_row q))) ≡ some r
    → (check_row (row_errors (add_row (add_row b (unit_row p)) (unit_row q))) ≡ false)
      × (check_row
            (row_errors (add_row (add_row (add_row b (unit_row p)) (unit_row q)) (unit_row r)))
          ≡ false)
unfolding errors_at
two_wrong_bits b p q r h lp lq ne found =
    let two : row_errors (add_row (add_row b (unit_row p)) (unit_row q))
        ≡ add_errors (errors_at p) (row_errors (unit_row q)) =
      row_errors-add_row (add_row b (unit_row p)) (unit_row q)
      ∙ ap (λ (t : List ℕ). add_errors t (row_errors (unit_row q)))
          (row_errors-wrong b (unit_row p) h) in
    let three = row_errors-add_row (add_row (add_row b (unit_row p)) (unit_row q)) (unit_row r) in
    let tested : (p == q || still_wrong (add_errors (errors_at p) (row_errors (unit_row q))))
        ≡ true =
      all_below_sound 16
        (λ q. p == q || still_wrong (add_errors (errors_at p) (row_errors (unit_row q))))
        (all_below_sound 16
          (λ p.
            all_below 16
              (λ q. p == q || still_wrong (add_errors (errors_at p) (row_errors (unit_row q)))))
          all_still_wrong p lp)
        q lq in
    let (first, last) =
      still_wrong_lem _ r (ground (arith, tested, ne)) (ap find_position (sym two) ∙ found) in
    (
      ap check_row two ∙ first,
      ap check_row (three ∙ ap (λ (t : List ℕ). add_errors t (row_errors (unit_row r))) two) ∙ last,
    )

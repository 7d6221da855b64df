-- ===== src/Fec/ReedSolomon/Correct.antt =====
-- fec/rs_12_9.go: `CalcSyndrome`, `CheckSyndrome`, `Correct` and `CalcChecksum`, and that `Correct`
-- never finds an error.
use go_dmr.Base.{
  ℕ, zero, suc, ◌+◌, ◌-◌, ◌*◌, ◌%◌, ◌≡◌, refl, ap, ◌∙◌, bit_xor, ltb, leb, ◌==◌, ◌||◌, not, ◌&&◌,
  Bool, true, false, if◌then◌else◌, List, [], ◌∷◌, length, get_or, set, u8, arith,
}
use go_dmr.Base.Outcome.{Outcome, ok, err, ◌>>◌, require}
use go_dmr.Fec.ReedSolomon.{
  data_size, checksum_size, poly_max_deg, exp_table, galois_mul, galois_inv, log_of,
  discrepancy_from, calc_discrepancy, Search, calc_round, calc_rounds, calc, value_at, roots_from,
  find_roots,
}

pub data Error : Type 0 where
  unexpected_size not_correctable : Error

-- `syndrome[j]` after the loop over the data, from the value that it has.
unfoldable pub syndrome_of : ℕ → List ℕ → ℕ → ℕ
syndrome_of j [] s = s
syndrome_of j (x ∷ xs) s = syndrome_of j xs (bit_xor x (galois_mul (get_or exp_table (j + 1) 0) s))

-- The syndrome is passed as zeros.
unfoldable pub calc_syndrome : List ℕ → Outcome Error (List ℕ)
calc_syndrome buf = do
  require (length buf == data_size + checksum_size) unexpected_size
  ok (syndrome_of 0 buf 0 ∷ syndrome_of 1 buf 0 ∷ syndrome_of 2 buf 0 ∷ 0 ∷ 0 ∷ 0 ∷ [])

-- True where an element is not 0.
unfoldable pub check_syndrome : List ℕ → Bool
check_syndrome [] = false
check_syndrome (v ∷ vs) = not (v == 0) || check_syndrome vs

-- The loop that looks for a location outside the data.
unfoldable pub legal_locations : List ℕ → Bool
legal_locations [] = true
legal_locations (r ∷ roots) =
    if leb (data_size + checksum_size) r then false else legal_locations roots

-- The error evaluator at `i`: `n` rounds from `j` on, in uint8 arithmetic.
unfoldable pub numerator : ℕ → ℕ → ℕ → List ℕ → ℕ → ℕ
numerator zero j i evaluator num = num
numerator (suc n) j i evaluator num = numerator n (j + 1) i evaluator (
    bit_xor num (galois_mul (get_or evaluator j 0) (get_or exp_table (u8 ((255 - i) * j) % 255) 0)))

-- The derivative of the locator at `i`, at every second coefficient.
unfoldable pub denominator : ℕ → ℕ → ℕ → List ℕ → ℕ → ℕ
denominator zero j i locator denom = denom
denominator (suc n) j i locator denom = denominator n (j + 2) i locator (
    bit_xor denom
      (galois_mul (get_or locator j 0) (get_or exp_table (u8 ((255 - i) * (j - 1)) % 255) 0)))

unfoldable pub repair : List ℕ → List ℕ → List ℕ → List ℕ → List ℕ
repair [] locator evaluator buf = buf
repair (i ∷ roots) locator evaluator buf =
    let num = numerator poly_max_deg 0 i evaluator 0 in
    let denom = denominator 3 1 i locator 0 in
    let at = length buf - i - 1 in
    repair roots locator evaluator
      (set buf at (bit_xor (get_or buf at 0) (galois_mul num (galois_inv denom))))

-- `Correct`: the data that it leaves and the number of errors found.
unfoldable pub correct : List ℕ → List ℕ → Outcome Error (List ℕ × ℕ)
correct buf syndrome = do
  require (length buf == data_size + checksum_size) unexpected_size
  let (locator, evaluator) = calc syndrome
  let roots = find_roots locator
  let found = length roots
  if ltb 0 found && ltb found checksum_size
      then (if legal_locations roots
          then ok (repair roots locator evaluator buf, found)
          else err not_correctable)
      else ok (buf, 0)

-- The loop of `CalcChecksum`, over the nine bytes of data, from three bytes.
unfoldable pub checksum_from : ℕ → ℕ → ℕ → List ℕ → List ℕ
checksum_from c0 c1 c2 [] = c0 ∷ c1 ∷ c2 ∷ []
checksum_from c0 c1 c2 (x ∷ xs) =
    let feedback = bit_xor x c0 in
    checksum_from (bit_xor c1 (galois_mul 0x0e feedback)) (bit_xor c2 (galois_mul 0x38 feedback))
      (galois_mul 0x40 feedback) xs

-- For at least nine bytes.
unfoldable pub calc_checksum : List ℕ → List ℕ
calc_checksum buf = checksum_from 0 0 0 (nine buf)
  where
    nine : List ℕ → List ℕ
    nine buf =
        get_or buf 0 0
        ∷ get_or buf 1 0
        ∷ get_or buf 2 0
        ∷ get_or buf 3 0
        ∷ get_or buf 4 0
        ∷ get_or buf 5 0
        ∷ get_or buf 6 0
        ∷ get_or buf 7 0
        ∷ get_or buf 8 0
        ∷ []

-- While the degree is 0 there is no discrepancy, and the degree stays 0.
idle_round :
    (syndrome : List ℕ) (n : ℕ) (s : Search)
    → s.degree ≡ 0
    → ((calc_round syndrome n s).degree ≡ 0) × ((calc_round syndrome n s).locator ≡ s.locator)
unfolding calc_round calc_discrepancy
idle_round syndrome n s h =
    let none : discrepancy_from s.degree 0 s.locator syndrome n 0 ≡ 0 =
      ap (λ (l : ℕ). discrepancy_from l 0 s.locator syndrome n 0) h
      ∙ unfold discrepancy_from in refl in
    (ground (arith, none, h), ground (arith, none, h))

idle_rounds :
    (rounds n : ℕ) (syndrome : List ℕ) (s : Search)
    → s.degree ≡ 0
    → (calc_rounds rounds n syndrome s).locator ≡ s.locator
unfolding calc_rounds
idle_rounds zero n syndrome s h = refl
idle_rounds (suc rounds) n syndrome s h =
    let (still, kept) = idle_round syndrome n s h in
    idle_rounds rounds (n + 1) syndrome (calc_round syndrome n s) still ∙ kept

galois_mul-zero : (a : ℕ) → galois_mul a 0 ≡ 0
unfolding galois_mul
galois_mul-zero a = ground arith

one_times_one : galois_mul 1 1 ≡ 1
unfolding galois_mul log_of
one_times_one = refl

-- The polynomial 1 has the value 1 everywhere.
value_at_one : (r : ℕ) → value_at (checksum_size + 1) 0 r (1 ∷ 0 ∷ 0 ∷ 0 ∷ 0 ∷ 0 ∷ []) 0 ≡ 1
unfolding value_at
value_at_one r =
    let low : galois_mul (get_or exp_table (0 * r % 255) 0) 1 ≡ 1 =
      ap (λ (e : ℕ). galois_mul (get_or exp_table e 0) 1)
        (let z : 0 * r % 255 ≡ 0 = omega arith in z)
      ∙ one_times_one in
    let sum : bit_xor (bit_xor (bit_xor (bit_xor 0 1) 0) 0) 0 ≡ 1 = refl in
    ground (
      arith,
      low,
      galois_mul-zero (get_or exp_table (1 * r % 255) 0),
      galois_mul-zero (get_or exp_table (2 * r % 255) 0),
      galois_mul-zero (get_or exp_table (3 * r % 255) 0),
      sum,
    )

roots_of_one : (n : ℕ) → roots_from n (1 ∷ 0 ∷ 0 ∷ 0 ∷ 0 ∷ 0 ∷ []) ≡ []
unfolding roots_from
roots_of_one zero = refl
roots_of_one (suc n) = ground (arith, value_at_one (255 - n), roots_of_one n)

no_roots : (syndrome : List ℕ) → find_roots (calc syndrome).0 ≡ []
unfolding find_roots calc
no_roots syndrome =
    ap (roots_from 255) (idle_rounds checksum_size 0 syndrome _ refl) ∙ roots_of_one 255

-- `Correct` changes nothing: for every twelve bytes and every syndrome, right or wrong, it reports no error
-- and leaves the bytes as they are.
pub correct_idle : (buf syndrome : List ℕ) → length buf ≡ 12 → correct buf syndrome ≡ ok (buf, 0)
unfolding correct
correct_idle buf syndrome h = ground (arith, h, no_roots syndrome)

-- ===== src/Fec/Golay/Check.antt =====
-- fec/golay_20_8.go: the check accepts nothing.
use go_dmr.Base.{
  ℕ, zero, suc, ◌+◌, ◌≤◌, ◌<◌, ◌≡◌, refl, sym, ap, ◌∙◌, none, some, List, [], ◌∷◌, length,
  get_elem?, lt_of_get_elem?, take, drop, arith,
}
use go_dmr.Base.Outcome.{panic}
use go_dmr.Fec.Golay.{golay_20_8_parity, compare_parity, golay_20_8_check}

get_elem?-drop : (n i : ℕ) (xs : List ℕ) → get_elem? (drop n xs) i ≡ get_elem? xs (n + i)
get_elem?-drop zero i xs = ap (get_elem? xs) (omega arith)
get_elem?-drop (suc n) i [] = refl
get_elem?-drop (suc n) i (x ∷ xs) =
    get_elem?-drop n i xs
    ∙ ap (get_elem? (x ∷ xs)) (let e : suc (n + i) ≡ suc n + i = omega arith in e)

-- Where the bits from the ninth on are the parity, the loop runs on beyond it.
compare_parity-panic :
    (n i : ℕ) (parity bits : List ℕ)
    → drop 8 bits ≡ parity
    → i ≤ length parity
    → length parity < n + i
    → compare_parity n i parity bits ≡ panic
unfolding compare_parity
compare_parity-panic zero i parity bits e le lt = absurd (omega arith)
compare_parity-panic (suc n) i parity bits e le lt =
    elim (get_elem? parity i)
        as (λ o. get_elem? parity i ≡ o → compare_parity (suc n) i parity bits ≡ panic) [
          | none ↦ λ q. ground (arith, q)
          | some p ↦ λ q.
              let same : get_elem? bits (8 + i) ≡ some p =
                sym (get_elem?-drop 8 i bits) ∙ ap (λ (t : List ℕ). get_elem? t i) e ∙ q in
              let rest =
                compare_parity-panic n (i + 1) parity bits e
                  (omega (arith, lt_of_get_elem? parity i q)) (omega arith) in
              ground (arith, q, same, rest)
        ]
      refl

-- For twenty bits whose last twelve are the parity of the first eight: `Golay_20_8_Check` panics.
pub golay_20_8_check_valid :
    (bits : List ℕ)
    → length bits ≡ 20
    → drop 8 bits ≡ golay_20_8_parity (take 8 bits)
    → golay_20_8_check bits ≡ panic
unfolding golay_20_8_check
golay_20_8_check_valid bits size valid =
    let run =
      compare_parity-panic 20 0 (golay_20_8_parity (take 8 bits)) bits valid (omega arith)
        (unfold golay_20_8_parity in ground arith) in
    ground (arith, size, run)

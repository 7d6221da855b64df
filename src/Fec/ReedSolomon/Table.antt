-- ===== src/Fec/ReedSolomon/Table.antt =====
-- What the tables of the field give: products are bytes, and inverses invert.
use go_dmr.Base.{
  ℕ, ◌≡◌, refl, ◌<◌, ◌==◌, ◌||◌, ltb, leb, true, all_below, all_below_sound, get_or, u8, ◌+◌, ◌%◌,
  arith,
}
use go_dmr.Fec.ReedSolomon.{exp_table, log_of, galois_inv, galois_mul}

exp_table-lt : (i : ℕ) → i < 256 → get_or exp_table i 0 < 256
exp_table-lt i h =
    let e : ltb (get_or exp_table i 0) 256 ≡ true =
      all_below_sound 256 (λ n. ltb (get_or exp_table n 0) 256) (unfold all_below in refl) i h in
    ground (arith, e)

-- A product is a byte.
pub galois_mul-lt : (a b : ℕ) → galois_mul a b < 256
unfolding galois_mul
galois_mul-lt a b = ground (arith, exp_table-lt (u8 (log_of a + log_of b) % 255) (omega arith))

-- A byte but 0 times its inverse is 1, where the inverse is none of the two bytes without a logarithm.
pub galois_mul-galois_inv :
    (a : ℕ) → 0 < a → a < 256 → galois_inv a < 254 → galois_mul a (galois_inv a) ≡ 1
galois_mul-galois_inv a p h known =
    let e =
      all_below_sound 256
        (λ n. n == 0 || leb 254 (galois_inv n) || galois_mul n (galois_inv n) == 1)
        (unfold all_below galois_mul galois_inv log_of in refl) a h in
    ground (arith, e)

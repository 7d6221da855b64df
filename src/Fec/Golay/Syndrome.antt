-- ===== src/Fec/Golay/Syndrome.antt =====
-- fec/golay_23_12.go: the syndrome is additive.
use go_dmr.Base.{
  ℕ, zero, suc, ◌+◌, ◌*◌, ◌/◌, ◌%◌, ◌^◌, ◌≤◌, ◌<◌, ◌≡◌, refl, sym, ap, ap₂, ◌∙◌, bit_and, bit_xor,
  ◌==◌, not, Bool, if◌then◌else◌, List, [], ◌∷◌, length, arith,
}
use native.Mathlib.Nat.{pow-suc, one-le-pow, div-div-eq-div-mul}
use go_dmr.Base.Bits.Fields.{bit_and_single}
use go_dmr.Base.Bits.Xor.{xor_half, xor_low, xor_comm, xor_assoc, xor_self, xor-zero, xor_exchange}
use go_dmr.Fec.Golay.{syndrome_from}

halved : (y k : ℕ) → y / 2 / 2 ^ k ≡ y / 2 ^ suc k
halved y k = div-div-eq-div-mul y 2 (2 ^ k) ∙ ap (λ (t : ℕ). y / t) (omega (arith, pow-suc 2 k))

pub xor_shifted : (k x y : ℕ) → bit_xor x y / 2 ^ k ≡ bit_xor (x / 2 ^ k) (y / 2 ^ k)
xor_shifted zero x y = omega (arith, ap₂ bit_xor (by_one x) (by_one y))
  where
    by_one : (z : ℕ) → z / 2 ^ 0 ≡ z
    by_one z = omega arith
xor_shifted (suc k) x y =
    sym (halved (bit_xor x y) k)
    ∙ ap (λ (t : ℕ). t / 2 ^ k) (xor_half x y)
    ∙ xor_shifted k (x / 2) (y / 2)
    ∙ ap₂ bit_xor (halved x k) (halved y k)

-- The test of one bit.
digit_test : (d m : ℕ) → d < 2 → 1 ≤ m → not (d * m == 0) ≡ (d == 1)
digit_test zero m h k = ground arith
digit_test (suc zero) m h k = ground (arith, k)
digit_test (suc (suc d)) m h k = absurd (omega arith)

test-eq : (k x : ℕ) → not (bit_and x (2 ^ k) == 0) ≡ (x / 2 ^ k % 2 == 1)
test-eq k x =
    ap (λ (t : ℕ). not (t == 0)) (bit_and_single k x)
    ∙ digit_test (x / 2 ^ k % 2) (2 ^ k) (omega arith) (one-le-pow k 2 (omega arith))

digit_xor : (k x y : ℕ) → bit_xor x y / 2 ^ k % 2 ≡ (x / 2 ^ k % 2 + y / 2 ^ k % 2) % 2
digit_xor k x y =
    ap (λ (t : ℕ). t % 2) (xor_shifted k x y) ∙ xor_low (x / 2 ^ k) (y / 2 ^ k) ∙ omega arith

choose_xor :
    (d e g a b : ℕ)
    → d < 2
    → e < 2
    → (if (d + e) % 2 == 1 then bit_xor (bit_xor a b) g else bit_xor a b)
      ≡ bit_xor (if d == 1 then bit_xor a g else a) (if e == 1 then bit_xor b g else b)
choose_xor zero zero g a b hd he = refl
choose_xor zero (suc zero) g a b hd he = xor_assoc a b g
choose_xor (suc zero) zero g a b hd he =
    xor_assoc a b g ∙ ap (bit_xor a) (xor_comm b g) ∙ sym (xor_assoc a g b)
choose_xor (suc zero) (suc zero) g a b hd he =
    sym (xor-zero (bit_xor a b))
    ∙ ap (bit_xor (bit_xor a b)) (sym (xor_self g))
    ∙ xor_exchange a b g g
choose_xor (suc (suc d)) e g a b hd he = absurd (omega arith)
choose_xor d (suc (suc e)) g a b hd he = absurd (omega arith)

-- One round on the numbers, and on their exclusive or.
round_xor :
    (k x y g a b : ℕ)
    → (if not (bit_and (bit_xor x y) (2 ^ k) == 0) then bit_xor (bit_xor a b) g else bit_xor a b)
      ≡ bit_xor
          (if not (bit_and x (2 ^ k) == 0) then bit_xor a g else a)
          (if not (bit_and y (2 ^ k) == 0) then bit_xor b g else b)
round_xor k x y g a b =
    ap (λ (t : Bool). if t then bit_xor (bit_xor a b) g else bit_xor a b)
      (test-eq k (bit_xor x y) ∙ ap (λ (d : ℕ). d == 1) (digit_xor k x y))
    ∙ choose_xor (x / 2 ^ k % 2) (y / 2 ^ k % 2) g a b (omega arith) (omega arith)
    ∙ sym (
        ap₂ (λ (t u : Bool). bit_xor (if t then bit_xor a g else a) (if u then bit_xor b g else b))
          (test-eq k x) (test-eq k y))

pub syndrome_from_xor :
    (gen : List ℕ) (k x y a b : ℕ)
    → length gen ≤ k
    → syndrome_from gen (2 ^ k) (bit_xor x y) (bit_xor a b)
      ≡ bit_xor (syndrome_from gen (2 ^ k) x a) (syndrome_from gen (2 ^ k) y b)
unfolding syndrome_from
syndrome_from_xor [] k x y a b h = refl
syndrome_from_xor (g ∷ gen) zero x y a b h = absurd (omega arith)
syndrome_from_xor (g ∷ gen) (suc k) x y a b h =
    let half : 2 ^ suc k / 2 ≡ 2 ^ k = omega (arith, pow-suc 2 k) in
    rw (half, round_xor (suc k) x y g a b) (syndrome_from_xor gen k x y _ _ (omega arith))

-- ===== src/Base/Bits/Digits.antt =====
-- One equation for the lowest digit of `bit_and`, `bit_or` and `bit_xor`.
use Prim.Native.Nat.{
  ℕ, zero, suc, ◌+◌, ◌*◌, ◌/◌, ◌%◌, ◌≤◌, ◌<◌, min, max, differ, digits, bit_and, bit_or, bit_xor,
  bit_and-bitwise, bit_or-bitwise, bit_xor-bitwise,
}
use mathlib.Core.Path.{◌≡◌, refl}
use native.Mathlib.Omega.{arith}

-- The count of digits may be any bound of the first number.
module _ (rest : ℕ → ℕ) (op : ℕ → ℕ → ℕ) where
  digits_bound : (j k x y : ℕ) → x ≤ j → x ≤ k → digits rest op j x y ≡ digits rest op k x y
  digits_bound zero zero x y hj hk = refl
  digits_bound zero (suc k) zero y hj hk = refl
  digits_bound zero (suc k) (suc x) y hj hk = absurd (omega arith)
  digits_bound (suc j) zero zero y hj hk = refl
  digits_bound (suc j) zero (suc x) y hj hk = absurd (omega arith)
  digits_bound (suc j) (suc k) zero y hj hk = refl
  digits_bound (suc j) (suc k) (suc x) y hj hk =
      omega (arith, digits_bound j k (suc x / 2) (y / 2) (omega arith) (omega arith))

  lowest :
      (x y : ℕ)
      → digits rest op (suc x) (suc x) y
        ≡ digits rest op (suc x / 2) (suc x / 2) (y / 2) * 2 + op (suc x % 2) (y % 2)
  lowest x y =
      omega (arith, digits_bound x (suc x / 2) (suc x / 2) (y / 2) (omega arith) (omega arith))

pub bit_and_digit : (x y : ℕ) → bit_and x y ≡ bit_and (x / 2) (y / 2) * 2 + min (x % 2) (y % 2)
bit_and_digit zero y = simp bit_and-bitwise (omega arith)
bit_and_digit (suc x) y = simp bit_and-bitwise (lowest (λ b. 0) min x y)

pub bit_or_digit : (x y : ℕ) → bit_or x y ≡ bit_or (x / 2) (y / 2) * 2 + max (x % 2) (y % 2)
bit_or_digit zero y = simp bit_or-bitwise (omega arith)
bit_or_digit (suc x) y = simp bit_or-bitwise (lowest (λ b. b) max x y)

-- The sum of two digits modulo 2.
differ-add : (a b : ℕ) → a < 2 → b < 2 → differ a b ≡ (a + b) % 2
differ-add zero b ha hb = omega arith
differ-add (suc zero) zero ha hb = refl
differ-add (suc zero) (suc zero) ha hb = refl
differ-add (suc zero) (suc (suc b)) ha hb = absurd (omega arith)
differ-add (suc (suc a)) b ha hb = absurd (omega arith)

bit_xor-differ : (x y : ℕ) → bit_xor x y ≡ bit_xor (x / 2) (y / 2) * 2 + differ (x % 2) (y % 2)
bit_xor-differ zero y = simp bit_xor-bitwise (omega arith)
bit_xor-differ (suc x) y = simp bit_xor-bitwise (lowest (λ b. b) differ x y)

pub bit_xor_digit : (x y : ℕ) → bit_xor x y ≡ bit_xor (x / 2) (y / 2) * 2 + (x + y) % 2
bit_xor_digit x y =
    omega (arith, bit_xor-differ x y, differ-add (x % 2) (y % 2) (omega arith) (omega arith))

pub zero-bit_and : (y : ℕ) → bit_and 0 y ≡ 0
zero-bit_and y = bit_and-bitwise 0 y

pub zero-bit_or : (y : ℕ) → bit_or 0 y ≡ y
zero-bit_or y = bit_or-bitwise 0 y

pub zero-bit_xor : (y : ℕ) → bit_xor 0 y ≡ y
zero-bit_xor y = bit_xor-bitwise 0 y

-- ===== src/Base/Bits/Fields.antt =====
-- Masks and shifted fields as arithmetic.
use Prim.Native.Nat.{ℕ, zero, suc, ◌+◌, ◌-◌, ◌*◌, ◌/◌, ◌%◌, ◌^◌, ◌≤◌, ◌<◌, bit_and, bit_or}
use mathlib.Core.Path.{◌≡◌, sym, ap, ap₂, ◌∙◌}
use native.Mathlib.Nat.{pow-suc, one-le-pow, div-div-eq-div-mul}
use native.Mathlib.Omega.{arith}
use go_dmr.Base.Bits.Digits.{bit_and_digit, bit_or_digit, zero-bit_and, zero-bit_or}

-- Both laws at zero are by halving, with a bound on the number.
bit_or-zero_below : (n x : ℕ) → x ≤ n → bit_or x 0 ≡ x
bit_or-zero_below n zero h = zero-bit_or 0
bit_or-zero_below zero (suc x) h = absurd (omega arith)
bit_or-zero_below (suc n) (suc x) h =
    omega (arith, bit_or_digit (suc x) 0, bit_or-zero_below n (suc x / 2) (omega arith))

pub bit_or-zero : (x : ℕ) → bit_or x 0 ≡ x
bit_or-zero x = bit_or-zero_below x x (omega arith)

bit_and-zero_below : (n x : ℕ) → x ≤ n → bit_and x 0 ≡ 0
bit_and-zero_below n zero h = zero-bit_and 0
bit_and-zero_below zero (suc x) h = absurd (omega arith)
bit_and-zero_below (suc n) (suc x) h =
    omega (arith, bit_and_digit (suc x) 0, bit_and-zero_below n (suc x / 2) (omega arith))

pub bit_and-zero : (x : ℕ) → bit_and x 0 ≡ 0
bit_and-zero x = bit_and-zero_below x x (omega arith)

double_shift : (q k : ℕ) → q * 2 ^ suc k ≡ q * 2 ^ k * 2
double_shift q k = omega (arith, ap (λ (t : ℕ). q * t) (pow-suc 2 k))

-- A field above bit `k` and one below it do not meet: `|` adds them.
pub bit_or_disjoint : (k q r : ℕ) → r < 2 ^ k → bit_or (q * 2 ^ k) r ≡ q * 2 ^ k + r
bit_or_disjoint zero q r h = ground (arith, bit_or-zero q)
bit_or_disjoint (suc k) q r h = ground (
  arith,
  bit_or_digit (q * 2 ^ suc k) r,
  double_shift q k,
  pow-suc 2 k,
  bit_or_disjoint k q (r / 2) (omega (arith, pow-suc 2 k)),
)

masked_field : (k q r : ℕ) → r < 2 ^ k → bit_and (q * 2 ^ k + r) (2 ^ k - 1) ≡ r
masked_field zero q r h = ground (arith, bit_and-zero (q * 2 ^ 0 + r))
masked_field (suc k) q r h = ground (
  arith,
  bit_and_digit (q * 2 ^ suc k + r) (2 ^ suc k - 1),
  double_shift q k,
  one-le-pow k 2,
  pow-suc 2 k,
  masked_field k q (r / 2) (omega (arith, pow-suc 2 k)),
)

-- A mask of `k` ones is the remainder by `2 ^ k`.
pub bit_and_ones : (k x : ℕ) → bit_and x (2 ^ k - 1) ≡ x % 2 ^ k
bit_and_ones k x = ground (arith, one-le-pow k 2, masked_field k (x / 2 ^ k) (x % 2 ^ k))

-- A mask of one bit.
pub bit_and_single : (k x : ℕ) → bit_and x (2 ^ k) ≡ x / 2 ^ k % 2 * 2 ^ k
bit_and_single zero x = omega (arith, bit_and_digit x 1, bit_and-zero (x / 2))
bit_and_single (suc k) x =
    bit_and_digit x (2 ^ suc k)
    ∙ ap₂ (λ (u v : ℕ). bit_and (x / 2) u * 2 + v) (omega (arith, pow-suc 2 k))
        (omega (arith, pow-suc 2 k))
    ∙ ap (λ (t : ℕ). t * 2 + 0) (bit_and_single k (x / 2))
    ∙ omega (
      arith,
      ap (λ (t : ℕ). x / 2 ^ suc k % 2 * t) (pow-suc 2 k),
      ap (λ (t : ℕ). t % 2 * 2 ^ k * 2) (halved x k),
    )
  where
    halved : (y j : ℕ) → y / 2 / 2 ^ j ≡ y / 2 ^ suc j
    halved y j = div-div-eq-div-mul y 2 (2 ^ j) ∙ ap (λ (t : ℕ). y / t) (omega (arith, pow-suc 2 j))

bit_or_comm_below : (n x y : ℕ) → x ≤ n → bit_or x y ≡ bit_or y x
bit_or_comm_below n zero y h = zero-bit_or y ∙ sym (bit_or-zero y)
bit_or_comm_below zero (suc x) y h = absurd (omega arith)
bit_or_comm_below (suc n) (suc x) y h = ground (
  arith,
  bit_or_digit (suc x) y,
  bit_or_digit y (suc x),
  bit_or_comm_below n (suc x / 2) (y / 2) (omega arith),
)

pub bit_or_comm : (x y : ℕ) → bit_or x y ≡ bit_or y x
bit_or_comm x y = bit_or_comm_below x x y (omega arith)

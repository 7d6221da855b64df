-- ===== src/Base/Bits/Xor.antt =====
-- Exclusive or is addition of binary digits without carry.
use Prim.Native.Nat.{ℕ, zero, suc, ◌+◌, ◌*◌, ◌/◌, ◌%◌, ◌^◌, ◌≤◌, ◌<◌, bit_xor}
use mathlib.Core.Path.{◌≡◌, refl, ap, ap₂, sym, ◌∙◌}
use native.Mathlib.Nat.{pow-suc}
use native.Mathlib.Omega.{arith}
use go_dmr.Base.Bits.Digits.{bit_xor_digit, zero-bit_xor}

xor_comm_below : (n x y : ℕ) → x + y ≤ n → bit_xor x y ≡ bit_xor y x
xor_comm_below zero zero zero h = refl
xor_comm_below zero (suc x) y h = absurd (omega arith)
xor_comm_below zero zero (suc y) h = absurd (omega arith)
xor_comm_below (suc n) zero zero h = refl
xor_comm_below (suc n) (suc x) y h = omega (
  arith,
  bit_xor_digit (suc x) y,
  bit_xor_digit y (suc x),
  xor_comm_below n (suc x / 2) (y / 2) (omega arith),
)
xor_comm_below (suc n) zero (suc y) h = omega (
  arith,
  bit_xor_digit 0 (suc y),
  bit_xor_digit (suc y) 0,
  xor_comm_below n 0 (suc y / 2) (omega arith),
)

pub xor_comm : (x y : ℕ) → bit_xor x y ≡ bit_xor y x
xor_comm x y = xor_comm_below (x + y) x y (omega arith)

pub xor-zero : (x : ℕ) → bit_xor x 0 ≡ x
xor-zero x = xor_comm x 0 ∙ zero-bit_xor x

-- The halves and the lowest digit of an exclusive or.
pub xor_half : (x y : ℕ) → bit_xor x y / 2 ≡ bit_xor (x / 2) (y / 2)
xor_half x y = omega (arith, bit_xor_digit x y)

pub xor_low : (x y : ℕ) → bit_xor x y % 2 ≡ (x + y) % 2
xor_low x y = omega (arith, bit_xor_digit x y)

xor_self_below : (n x : ℕ) → x ≤ n → bit_xor x x ≡ 0
xor_self_below n zero h = refl
xor_self_below zero (suc x) h = absurd (omega arith)
xor_self_below (suc n) (suc x) h =
    omega (arith, bit_xor_digit (suc x) (suc x), xor_self_below n (suc x / 2) (omega arith))

pub xor_self : (x : ℕ) → bit_xor x x ≡ 0
xor_self x = xor_self_below x x (omega arith)

xor_assoc_below : (n x y z : ℕ) → x ≤ n → bit_xor (bit_xor x y) z ≡ bit_xor x (bit_xor y z)
xor_assoc_below n zero y z h = ap (λ (t : ℕ). bit_xor t z) (zero-bit_xor y) ∙ sym (zero-bit_xor _)
xor_assoc_below zero (suc x) y z h = absurd (omega arith)
xor_assoc_below (suc n) (suc x) y z h =
    let e = xor_half (suc x) y in
    let f = xor_half y z in
    ground (
      arith,
      e,
      f,
      bit_xor_digit (bit_xor (suc x) y) z,
      bit_xor_digit (suc x) (bit_xor y z),
      xor_low (suc x) y,
      xor_low y z,
      xor_assoc_below n (suc x / 2) (y / 2) (z / 2) (omega arith),
    )

pub xor_assoc : (x y z : ℕ) → bit_xor (bit_xor x y) z ≡ bit_xor x (bit_xor y z)
xor_assoc x y z = xor_assoc_below x x y z (omega arith)

-- An exclusive or of two numbers below `2 ^ k` is below it.
pub xor-lt : (k x y : ℕ) → x < 2 ^ k → y < 2 ^ k → bit_xor x y < 2 ^ k
xor-lt zero x y hx hy = ground (arith, xor_self 0)
xor-lt (suc k) x y hx hy = ground (arith, bit_xor_digit x y, pow-suc 2 k, xor-lt k (x / 2) (y / 2))

-- On binary digits it is the sum modulo 2.
pub xor_bits : (x y : ℕ) → x < 2 → y < 2 → bit_xor x y ≡ (x + y) % 2
xor_bits x y hx hy = ground (arith, bit_xor_digit x y, xor_self 0)

-- The same number added twice goes away.
pub xor_cancel : (x y : ℕ) → bit_xor x (bit_xor x y) ≡ y
xor_cancel x y = sym (xor_assoc x x y) ∙ ap (λ (t : ℕ). bit_xor t y) (xor_self x) ∙ zero-bit_xor y

pub xor-eq-zero : (x y : ℕ) → bit_xor x y ≡ 0 → x ≡ y
xor-eq-zero x y h = sym (xor-zero x) ∙ ap (bit_xor x) (sym h) ∙ xor_cancel x y

-- It works on the part above bit `k` and on the part below it separately.
half_field : (q r k : ℕ) → r < 2 ^ suc k → (q * 2 ^ suc k + r) / 2 ≡ q * 2 ^ k + r / 2
half_field q r k h = omega (arith, ap (λ (t : ℕ). q * t) (pow-suc 2 k))

low_field : (q r k : ℕ) → (q * 2 ^ suc k + r) % 2 ≡ r % 2
low_field q r k = omega (arith, ap (λ (t : ℕ). q * t) (pow-suc 2 k))

pub xor_fields :
    (k q r s t : ℕ)
    → r < 2 ^ k
    → t < 2 ^ k
    → bit_xor (q * 2 ^ k + r) (s * 2 ^ k + t) ≡ bit_xor q s * 2 ^ k + bit_xor r t
xor_fields zero q r s t hr ht = ground (arith, xor_self 0)
xor_fields (suc k) q r s t hr ht =
    let x = q * 2 ^ suc k + r in
    let y = s * 2 ^ suc k + t in
    let ih =
      xor_fields k q (r / 2) s (t / 2) (omega (arith, pow-suc 2 k)) (omega (arith, pow-suc 2 k)) in
    bit_xor_digit x y
    ∙ ap (λ (n : ℕ). n * 2 + (x + y) % 2)
        (ap₂ bit_xor (half_field q r k hr) (half_field s t k ht) ∙ ih)
    ∙ omega (
      arith,
      low_field q r k,
      low_field s t k,
      bit_xor_digit r t,
      ap (λ (n : ℕ). bit_xor q s * n) (pow-suc 2 k),
    )

-- Parts that do not meet are added.
pub xor_disjoint : (k q r : ℕ) → r < 2 ^ k → bit_xor (q * 2 ^ k) r ≡ q * 2 ^ k + r
xor_disjoint k q r h =
    ap₂ bit_xor (let e : q * 2 ^ k ≡ q * 2 ^ k + 0 = omega arith in e)
      (let e : r ≡ 0 * 2 ^ k + r = omega arith in e)
    ∙ xor_fields k q 0 0 r (omega arith) h
    ∙ ap₂ (λ (a b : ℕ). a * 2 ^ k + b) (xor-zero q) (zero-bit_xor r)

pub xor_exchange :
    (a b c d : ℕ) → bit_xor (bit_xor a b) (bit_xor c d) ≡ bit_xor (bit_xor a c) (bit_xor b d)
xor_exchange a b c d =
    xor_assoc a b (bit_xor c d)
    ∙ ap (bit_xor a)
        (sym (xor_assoc b c d) ∙ ap (λ (t : ℕ). bit_xor t d) (xor_comm b c) ∙ xor_assoc c b d)
    ∙ sym (xor_assoc a c (bit_xor b d))

pub xor_cancel_left : (a b c : ℕ) → bit_xor a b ≡ bit_xor a c → b ≡ c
xor_cancel_left a b c h = sym (xor_cancel a b) ∙ ap (bit_xor a) h ∙ xor_cancel a c

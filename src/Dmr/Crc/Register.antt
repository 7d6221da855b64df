-- ===== src/Dmr/Crc/Register.antt =====
-- A shift register of `j + 1` bits with feedback `poly`: the polynomial remainder that the three
-- checks compute. It is linear over exclusive or, and it loses nothing where `poly` is odd.
use go_dmr.Base.{ℕ, zero, suc, ◌+◌, ◌*◌, ◌/◌, ◌%◌, ◌^◌, ◌<◌, ◌≡◌, sym, ap, ap₂, ◌∙◌, bit_xor, arith}
use go_dmr.Base.Bits.Xor.{xor_fields, xor_exchange, xor-eq-zero, xor-zero, xor-lt, xor_self}
use go_dmr.Base.Bits.Digits.{zero-bit_xor}
use native.Mathlib.Nat.{pow-suc, one-le-pow, div-add-mod'}

module _ (j poly : ℕ) where
  -- The low `j` bits move up and `a` comes in; the top bit decides the feedback.
  unfoldable pub shift : ℕ → ℕ → ℕ
  shift x a = bit_xor (x % 2 ^ j * 2 + a) (x / 2 ^ j * poly)

-- Multiplying by one bit goes through exclusive or.
xor-mul_bit : (t u poly : ℕ) → t < 2 → u < 2 → bit_xor t u * poly ≡ bit_xor (t * poly) (u * poly)
xor-mul_bit zero zero poly ht hu = ground (arith, xor_self 0)
xor-mul_bit zero (suc zero) poly ht hu = ground (arith, zero-bit_xor poly)
xor-mul_bit (suc zero) zero poly ht hu = ground (arith, xor-zero poly)
xor-mul_bit (suc zero) (suc zero) poly ht hu = ground (arith, xor_self poly)
xor-mul_bit (suc (suc t)) u poly ht hu = absurd (omega arith)
xor-mul_bit t (suc (suc u)) poly ht hu = absurd (omega arith)

split_div : (p q r : ℕ) → r < p → (q * p + r) / p ≡ q
split_div p q r h = grind arith

split_mod : (p q r : ℕ) → r < p → (q * p + r) % p ≡ r
split_mod p q r h = grind arith

xor_double : (x y a : ℕ) → a < 2 → bit_xor x y * 2 + a ≡ bit_xor (x * 2 + 0) (y * 2 + a)
xor_double x y a h =
    sym
      (xor_fields 1 x 0 y a (omega arith) h ∙ ap (λ (t : ℕ). bit_xor x y * 2 + t) (zero-bit_xor a))

module _ (j poly : ℕ) where
  low-lt : (x : ℕ) → x % 2 ^ j < 2 ^ j
  low-lt x = omega (arith, one-le-pow j 2)

  top-lt : (x : ℕ) → x < 2 ^ suc j → x / 2 ^ j < 2
  top-lt x h = grind (arith, pow-suc 2 j)

  xor_parts :
      (x y : ℕ)
      → bit_xor x y ≡ bit_xor (x / 2 ^ j) (y / 2 ^ j) * 2 ^ j + bit_xor (x % 2 ^ j) (y % 2 ^ j)
  xor_parts x y =
      ap₂ bit_xor (sym (div-add-mod' x (2 ^ j))) (sym (div-add-mod' y (2 ^ j)))
      ∙ xor_fields j (x / 2 ^ j) (x % 2 ^ j) (y / 2 ^ j) (y % 2 ^ j) (low-lt x) (low-lt y)

  pub xor_mod : (x y : ℕ) → bit_xor x y % 2 ^ j ≡ bit_xor (x % 2 ^ j) (y % 2 ^ j)
  xor_mod x y =
      ap (λ (t : ℕ). t % 2 ^ j) (xor_parts x y)
      ∙ split_mod (2 ^ j) _ _ (xor-lt j _ _ (low-lt x) (low-lt y))

  xor_div : (x y : ℕ) → bit_xor x y / 2 ^ j ≡ bit_xor (x / 2 ^ j) (y / 2 ^ j)
  xor_div x y =
      ap (λ (t : ℕ). t / 2 ^ j) (xor_parts x y)
      ∙ split_div (2 ^ j) _ _ (xor-lt j _ _ (low-lt x) (low-lt y))

  -- One step on a sum of registers is the sum of the steps; the incoming bit goes to either.
  pub shift_xor :
      (x y a : ℕ)
      → x < 2 ^ suc j
      → y < 2 ^ suc j
      → a < 2
      → shift j poly (bit_xor x y) a ≡ bit_xor (shift j poly x 0) (shift j poly y a)
  unfolding shift
  shift_xor x y a hx hy ha =
      ap₂ bit_xor
        (ap (λ (t : ℕ). t * 2 + a) (xor_mod x y) ∙ xor_double (x % 2 ^ j) (y % 2 ^ j) a ha)
        (ap (λ (t : ℕ). t * poly) (xor_div x y)
          ∙ xor-mul_bit (x / 2 ^ j) (y / 2 ^ j) poly (top-lt x hx) (top-lt y hy))
      ∙ xor_exchange _ _ _ _

  -- An odd feedback keeps a register that is not zero from becoming zero.
  pub shift-eq-zero : (x : ℕ) → x < 2 ^ suc j → poly % 2 ≡ 1 → shift j poly x 0 ≡ 0 → x ≡ 0
  unfolding shift
  shift-eq-zero x h odd e =
      let same : x % 2 ^ j * 2 + 0 ≡ x / 2 ^ j * poly = xor-eq-zero _ _ e in
      small (x / 2 ^ j) (top-lt x h) same (div-add-mod' x (2 ^ j))
    where
      small : (t : ℕ) → t < 2 → x % 2 ^ j * 2 + 0 ≡ t * poly → t * 2 ^ j + x % 2 ^ j ≡ x → x ≡ 0
      small zero ht e p = omega arith
      small (suc zero) ht e p = absurd (omega arith)
      small (suc (suc t)) ht e p = absurd (omega arith)

  pub shift-lt : (x a : ℕ) → x < 2 ^ suc j → a < 2 → poly < 2 ^ suc j → shift j poly x a < 2 ^ suc j
  unfolding shift
  shift-lt x a hx ha hp =
      xor-lt (suc j) _ _ (omega (arith, pow-suc 2 j, low-lt x)) (bound (x / 2 ^ j) (top-lt x hx))
    where
      bound : (t : ℕ) → t < 2 → t * poly < 2 ^ suc j
      bound zero ht = omega (arith, one-le-pow (suc j) 2)
      bound (suc zero) ht = omega arith
      bound (suc (suc t)) ht = absurd (omega arith)

-- ===== src/Base/Words.antt =====
-- Casts to fixed widths, and big-endian numbers as the source writes and reads them. The parts of
-- a number that is read are bytes, so the shifts stay within the uint16 or uint32.
use Prim.Native.Nat.{ℕ, ◌+◌, ◌-◌, ◌*◌, ◌/◌, ◌%◌, ◌^◌, ◌<◌, bit_and, bit_or}
use mathlib.Core.Path.{◌≡◌, ap, ◌∙◌}
use mathlib.Core.Bool.{Bool}
use native.Mathlib.Omega.{arith}
use go_dmr.Base.Bits.Fields.{bit_or_disjoint}
use go_dmr.Base.Tests.{ltb}

-- `uint8(x)`
abbrev pub u8 : ℕ → ℕ
u8 x = x % 2 ^ 8

-- `^x` on a uint16
abbrev pub not16 : ℕ → ℕ
not16 x = 2 ^ 16 - 1 - x

-- `(b & mask) > 0`
abbrev pub has_bits : ℕ → ℕ → Bool
has_bits b mask = ltb 0 (bit_and b mask)

unfoldable pub be16 : ℕ → ℕ → ℕ
be16 a b = bit_or (a * 2 ^ 8) b

unfoldable pub be24 : ℕ → ℕ → ℕ → ℕ
be24 a b c = bit_or (bit_or (a * 2 ^ 16) (b * 2 ^ 8)) c

unfoldable pub be32 : ℕ → ℕ → ℕ → ℕ → ℕ
be32 a b c d = bit_or (bit_or (bit_or (a * 2 ^ 24) (b * 2 ^ 16)) (c * 2 ^ 8)) d

pub be16-split : (x : ℕ) → x < 2 ^ 16 → be16 (u8 (x / 2 ^ 8)) (u8 x) ≡ x
unfolding be16
be16-split x h = omega (arith, bit_or_disjoint 8 (x / 2 ^ 8 % 2 ^ 8) (x % 2 ^ 8) (omega arith))

or_bytes : (q b : ℕ) → b < 256 → bit_or (q * 2 ^ 16) (b * 2 ^ 8) ≡ (q * 256 + b) * 2 ^ 8
or_bytes q b h = omega (arith, bit_or_disjoint 16 q (b * 2 ^ 8) (omega arith))

pub be24-split : (x : ℕ) → x < 2 ^ 24 → be24 (u8 (x / 2 ^ 16)) (u8 (x / 2 ^ 8)) (u8 x) ≡ x
unfolding be24
be24-split x h =
    ap (λ (t : ℕ). bit_or t (x % 2 ^ 8))
      (or_bytes (x / 2 ^ 16 % 2 ^ 8) (x / 2 ^ 8 % 2 ^ 8) (omega arith))
    ∙ bit_or_disjoint 8 (x / 2 ^ 16 % 2 ^ 8 * 256 + x / 2 ^ 8 % 2 ^ 8) (x % 2 ^ 8) (omega arith)
    ∙ omega arith

pub be32-split :
    (x : ℕ) → x < 2 ^ 32 → be32 (u8 (x / 2 ^ 24)) (u8 (x / 2 ^ 16)) (u8 (x / 2 ^ 8)) (u8 x) ≡ x
unfolding be32
be32-split x h =
    ap (λ (t : ℕ). bit_or (bit_or t (x / 2 ^ 8 % 2 ^ 8 * 2 ^ 8)) (x % 2 ^ 8))
      (bit_or_disjoint 24 (x / 2 ^ 24 % 2 ^ 8) (x / 2 ^ 16 % 2 ^ 8 * 2 ^ 16) (omega arith))
    ∙ ap (λ (t : ℕ). bit_or (bit_or t (x / 2 ^ 8 % 2 ^ 8 * 2 ^ 8)) (x % 2 ^ 8))
        (let e : x / 2 ^ 24 % 2 ^ 8 * 2 ^ 24 + x / 2 ^ 16 % 2 ^ 8 * 2 ^ 16 ≡ x / 2 ^ 16 * 2 ^ 16 =
            omega arith in
          e)
    ∙ ap (λ (t : ℕ). bit_or t (x % 2 ^ 8)) (or_bytes (x / 2 ^ 16) (x / 2 ^ 8 % 2 ^ 8) (omega arith))
    ∙ bit_or_disjoint 8 (x / 2 ^ 16 * 256 + x / 2 ^ 8 % 2 ^ 8) (x % 2 ^ 8) (omega arith)
    ∙ omega arith

-- ===== src/Dmr/Crc/Linear.antt =====
-- CRC-16 as a linear register: the code's rounds are steps of the register, and lose nothing.
use go_dmr.Base.{
  ℕ, zero, suc, ◌+◌, ◌*◌, ◌/◌, ◌%◌, ◌^◌, ◌<◌, ◌≡◌, refl, sym, ap, ap₂, ◌∙◌, bit_and, bit_xor, ltb,
  if◌then◌else◌, arith, Bool, true, false,
}
use go_dmr.Base.Bits.Digits.{zero-bit_and}
use go_dmr.Base.Bits.Fields.{bit_and_single}
use go_dmr.Base.Bits.Xor.{
  xor-zero, xor_comm, xor_self, xor_assoc, xor_cancel_left, xor-eq-zero, xor-lt,
}
use go_dmr.Dmr.Crc.{crc16_round, crc16_rounds, crc16, crc16_end_rounds}
use go_dmr.Dmr.Crc.Register.{shift, shift_xor, shift-eq-zero, shift-lt}

abbrev pub IsU16 : ℕ → Type 0
IsU16 x = x < 2 ^ 16

-- The bit that enters the register.
incoming : ℕ → ℕ → ℕ
incoming b v = if ltb 0 (bit_and b v) then 1 else 0

incoming-lt : (b v : ℕ) → incoming b v < 2
unfolding incoming
incoming-lt b v = ground arith

incoming-zero : (v : ℕ) → incoming 0 v ≡ 0
unfolding incoming
incoming-zero v = ground (arith, zero-bit_and v)

top_cases :
    (crc t fed : ℕ)
    → crc / 2 ^ 15 ≡ t
    → t < 2
    → (if ltb 0 (t % 2 * 2 ^ 15) then bit_xor fed 0x1021 else fed) ≡ bit_xor fed (t * 0x1021)
top_cases crc zero fed e h = sym (xor-zero fed)
top_cases crc (suc zero) fed e h = refl
top_cases crc (suc (suc t)) fed e h = absurd (omega arith)

fed_cases :
    (crc : ℕ) (t : Bool)
    → IsU16 crc
    → (if t then (crc * 2 % 2 ^ 16 + 1) % 2 ^ 16 else crc * 2 % 2 ^ 16)
      ≡ crc % 2 ^ 15 * 2 + (if t then 1 else 0)
fed_cases crc true h = omega arith
fed_cases crc false h = omega arith

crc16_round-shift :
    (crc b v : ℕ) → IsU16 crc → crc16_round crc b v ≡ shift 15 0x1021 crc (incoming b v)
unfolding crc16_round shift incoming
crc16_round-shift crc b v h =
    ap (λ (m : ℕ). if ltb 0 m then bit_xor fed 0x1021 else fed) (bit_and_single 15 crc)
    ∙ top_cases crc (crc / 2 ^ 15) fed refl (omega arith)
    ∙ ap (λ (n : ℕ). bit_xor n (crc / 2 ^ 15 * 0x1021)) (fed_cases crc (ltb 0 (bit_and b v)) h)
  where
    fed : ℕ
    fed = if ltb 0 (bit_and b v) then (crc * 2 % 2 ^ 16 + 1) % 2 ^ 16 else crc * 2 % 2 ^ 16

shift_fits : (crc a : ℕ) → IsU16 crc → a < 2 → IsU16 (shift 15 0x1021 crc a)
shift_fits crc a h ha = shift-lt 15 0x1021 crc a h ha (omega arith)

round_fits : (crc b v : ℕ) → IsU16 crc → IsU16 (crc16_round crc b v)
round_fits crc b v h = rw (crc16_round-shift crc b v h) (shift_fits crc _ h (incoming-lt b v))

rounds_fit : (n crc b v : ℕ) → IsU16 crc → IsU16 (crc16_rounds n crc b v)
unfolding crc16_rounds
rounds_fit zero crc b v h = h
rounds_fit (suc n) crc b v h = rounds_fit n _ b (v / 2) (round_fits crc b v h)

pub crc16-lt : (crc b : ℕ) → IsU16 crc → IsU16 (crc16 crc b)
unfolding crc16
crc16-lt crc b h = rounds_fit 8 crc b 0x80 h

round_xor :
    (x y b v : ℕ)
    → IsU16 x
    → IsU16 y
    → crc16_round (bit_xor x y) b v ≡ bit_xor (crc16_round x 0 v) (crc16_round y b v)
round_xor x y b v hx hy =
    crc16_round-shift (bit_xor x y) b v (xor-lt 16 x y hx hy)
    ∙ shift_xor 15 0x1021 x y (incoming b v) hx hy (incoming-lt b v)
    ∙ sym (
        ap₂ bit_xor (crc16_round-shift x 0 v hx ∙ ap (shift 15 0x1021 x) (incoming-zero v))
          (crc16_round-shift y b v hy))

rounds_xor :
    (n x y b v : ℕ)
    → IsU16 x
    → IsU16 y
    → crc16_rounds n (bit_xor x y) b v ≡ bit_xor (crc16_rounds n x 0 v) (crc16_rounds n y b v)
unfolding crc16_rounds
rounds_xor zero x y b v hx hy = refl
rounds_xor (suc n) x y b v hx hy =
    ap (λ (c : ℕ). crc16_rounds n c b (v / 2)) (round_xor x y b v hx hy)
    ∙ rounds_xor n _ _ b (v / 2) (round_fits x 0 v hx) (round_fits y b v hy)

-- The register is linear: a byte may be fed to either summand.
pub crc16_linear :
    (x y b : ℕ) → IsU16 x → IsU16 y → crc16 (bit_xor x y) b ≡ bit_xor (crc16 x 0) (crc16 y b)
unfolding crc16
crc16_linear x y b hx hy = rounds_xor 8 x y b 0x80 hx hy

rounds-eq-zero : (n x v : ℕ) → IsU16 x → crc16_rounds n x 0 v ≡ 0 → x ≡ 0
unfolding crc16_rounds
rounds-eq-zero zero x v h e = e
rounds-eq-zero (suc n) x v h e = shift-eq-zero 15 0x1021 x h refl (
    sym (crc16_round-shift x 0 v h ∙ ap (shift 15 0x1021 x) (incoming-zero v))
    ∙ rounds-eq-zero n _ (v / 2) (round_fits x 0 v h) e)

-- Two registers that agree after a byte agreed before it.
pub crc16_injective : (x y b : ℕ) → IsU16 x → IsU16 y → crc16 x b ≡ crc16 y b → x ≡ y
crc16_injective x y b hx hy e =
    xor-eq-zero x y
      (unfold crc16 in rounds-eq-zero 8 (bit_xor x y) 0x80 (xor-lt 16 x y hx hy) zero_run)
  where
    sum : bit_xor (bit_xor x y) y ≡ x
    sum = xor_assoc x y y ∙ ap (bit_xor x) (xor_self y) ∙ xor-zero x

    zero_run : crc16 (bit_xor x y) 0 ≡ 0
    zero_run = xor_cancel_left (crc16 y b) _ _ (
        xor_comm _ _
        ∙ sym (crc16_linear (bit_xor x y) y b (xor-lt 16 x y hx hy) hy)
        ∙ ap (λ (t : ℕ). crc16 t b) sum
        ∙ e
        ∙ sym (xor-zero (crc16 y b)))

end_round-shift :
    (crc : ℕ)
    → IsU16 crc
    → (if ltb 0 (bit_and crc 0x8000) then bit_xor (crc * 2 % 2 ^ 16) 0x1021 else crc * 2 % 2 ^ 16)
      ≡ shift 15 0x1021 crc 0
unfolding shift
end_round-shift crc h =
    ap (λ (m : ℕ). if ltb 0 m then bit_xor (crc * 2 % 2 ^ 16) 0x1021 else crc * 2 % 2 ^ 16)
      (bit_and_single 15 crc)
    ∙ top_cases crc (crc / 2 ^ 15) _ refl (omega arith)
    ∙ ap (λ (n : ℕ). bit_xor n (crc / 2 ^ 15 * 0x1021)) (omega arith)

shift_injective : (x y : ℕ) → IsU16 x → IsU16 y → shift 15 0x1021 x 0 ≡ shift 15 0x1021 y 0 → x ≡ y
shift_injective x y hx hy e = xor-eq-zero x y (
    shift-eq-zero 15 0x1021 (bit_xor x y) (xor-lt 16 x y hx hy) refl (
      shift_xor 15 0x1021 x y 0 hx hy (omega arith)
      ∙ ap (bit_xor (shift 15 0x1021 x 0)) (sym e)
      ∙ xor_self _))

-- The end rounds lose nothing either.
pub end_rounds_injective :
    (n x y : ℕ) → IsU16 x → IsU16 y → crc16_end_rounds n x ≡ crc16_end_rounds n y → x ≡ y
unfolding crc16_end_rounds
end_rounds_injective zero x y hx hy e = e
end_rounds_injective (suc n) x y hx hy e = shift_injective x y hx hy (
    end_rounds_injective n _ _ (shift_fits x 0 hx (omega arith)) (shift_fits y 0 hy (omega arith)) (
      ap (crc16_end_rounds n) (sym (end_round-shift x hx))
      ∙ e
      ∙ ap (crc16_end_rounds n) (end_round-shift y hy)))

pub end_rounds_fit : (n x : ℕ) → IsU16 x → IsU16 (crc16_end_rounds n x)
unfolding crc16_end_rounds
end_rounds_fit zero x h = h
end_rounds_fit (suc n) x h =
    end_rounds_fit n _ (rw (end_round-shift x h) (shift_fits x 0 h (omega arith)))

pub end_rounds_xor :
    (n x y : ℕ)
    → IsU16 x
    → IsU16 y
    → crc16_end_rounds n (bit_xor x y) ≡ bit_xor (crc16_end_rounds n x) (crc16_end_rounds n y)
unfolding crc16_end_rounds
end_rounds_xor zero x y hx hy = refl
end_rounds_xor (suc n) x y hx hy =
    ap (crc16_end_rounds n) (
      end_round-shift (bit_xor x y) (xor-lt 16 x y hx hy)
      ∙ shift_xor 15 0x1021 x y 0 hx hy (omega arith)
      ∙ sym (ap₂ bit_xor (end_round-shift x hx) (end_round-shift y hy)))
    ∙ end_rounds_xor n _ _ (rw (end_round-shift x hx) (shift_fits x 0 hx (omega arith)))
        (rw (end_round-shift y hy) (shift_fits y 0 hy (omega arith)))

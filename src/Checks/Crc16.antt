-- ===== src/Checks/Crc16.antt =====
-- crc/crc16/ctc16.go: a CRC-16 by table, lowest bit first, and the same checksum bit by bit.
use go_dmr.Base.{
  ℕ, zero, suc, ◌+◌, ◌*◌, ◌/◌, ◌%◌, ◌^◌, ◌≡◌, refl, bit_and, bit_xor, ◌==◌, if◌then◌else◌, List, [],
  ◌∷◌, not16, u8, arith, ap, ap₂, ◌∙◌, sym,
}
use go_dmr.Base.Bits.Xor.{xor_half, xor_low, xor_assoc, xor_comm, xor_disjoint, xor-zero}
use go_dmr.Base.Bits.Fields.{bit_and_ones}
use native.Mathlib.Nat.{pow-suc}

abbrev pub ccitt : ℕ
ccitt = 0x8408

-- The inner loop of `makeTable`.
unfoldable pub table_rounds : ℕ → ℕ → ℕ → ℕ
table_rounds zero poly crc = crc
table_rounds (suc n) poly crc =
    table_rounds n poly (if bit_and crc 1 == 1 then bit_xor (crc / 2) poly else crc / 2)

-- The element of `makeTable(poly)` at `i`.
unfoldable pub table_at : ℕ → ℕ → ℕ
table_at poly i = table_rounds 8 poly i

-- The loop of `update`, on the inverted register.
unfoldable pub update_from : ℕ → ℕ → List ℕ → ℕ
update_from poly crc [] = crc
update_from poly crc (v ∷ bytes) =
    update_from poly (bit_xor (table_at poly (bit_xor (u8 crc) v)) (crc / 2 ^ 8)) bytes

-- `Update`, with the table of `poly`.
unfoldable pub update : ℕ → ℕ → List ℕ → ℕ
update crc poly bytes = not16 (update_from poly (not16 crc) bytes)

unfoldable pub checksum : List ℕ → ℕ → ℕ
checksum bytes poly = update 0 poly bytes

-- One bit of the register leaves, and feeds the polynomial back where it is 1.
abbrev pub step : ℕ → ℕ → ℕ
step poly x = bit_xor (x / 2) (x % 2 * poly)

abbrev pub steps : ℕ → ℕ → ℕ → ℕ
steps poly zero x = x
steps poly (suc n) x = steps poly n (step poly x)

-- The checksum of the register, bit by bit: a byte is added, and eight bits leave.
abbrev pub bit_by_bit : ℕ → ℕ → List ℕ → ℕ
bit_by_bit poly crc [] = crc
bit_by_bit poly crc (v ∷ bytes) = bit_by_bit poly (steps poly 8 (bit_xor crc v)) bytes

round-step : (poly x : ℕ) → (if bit_and x 1 == 1 then bit_xor (x / 2) poly else x / 2) ≡ step poly x
round-step poly x = ground (arith, bit_and_ones 1 x, xor-zero (x / 2))

table_rounds-steps : (n poly x : ℕ) → table_rounds n poly x ≡ steps poly n x
unfolding table_rounds
table_rounds-steps zero poly x = refl
table_rounds-steps (suc n) poly x =
    ap (table_rounds n poly) (round-step poly x) ∙ table_rounds-steps n poly (step poly x)

-- What lies above the bits that leave moves down.
steps-high : (n poly a q : ℕ) → steps poly n (bit_xor a (q * 2 ^ n)) ≡ bit_xor (steps poly n a) q
steps-high zero poly a q = ap (bit_xor a) (omega arith)
steps-high (suc n) poly a q =
    let half : q * 2 ^ suc n / 2 ≡ q * 2 ^ n = omega (arith, ap (λ (t : ℕ). q * t) (pow-suc 2 n)) in
    let even : q * 2 ^ suc n % 2 ≡ 0 = omega (arith, ap (λ (t : ℕ). q * t) (pow-suc 2 n)) in
    let halves = xor_half a (q * 2 ^ suc n) ∙ ap (bit_xor (a / 2)) half in
    let low : bit_xor a (q * 2 ^ suc n) % 2 ≡ a % 2 =
      omega (arith, xor_low a (q * 2 ^ suc n), even) in
    let stepped : step poly (bit_xor a (q * 2 ^ suc n)) ≡ bit_xor (step poly a) (q * 2 ^ n) =
      ap₂ (λ (x y : ℕ). bit_xor x (y * poly)) halves low
      ∙ xor_assoc (a / 2) (q * 2 ^ n) (a % 2 * poly)
      ∙ ap (bit_xor (a / 2)) (xor_comm (q * 2 ^ n) (a % 2 * poly))
      ∙ sym (xor_assoc (a / 2) (a % 2 * poly) (q * 2 ^ n)) in
    ap (steps poly n) stepped ∙ steps-high n poly (step poly a) q

-- A byte that is added meets the low byte of the register alone.
added : (crc v : ℕ) → bit_xor crc v ≡ bit_xor (bit_xor (u8 crc) v) (crc / 2 ^ 8 * 2 ^ 8)
added crc v =
    let high = crc / 2 ^ 8 * 2 ^ 8 in
    let split : crc ≡ bit_xor high (u8 crc) =
      (let e : crc ≡ crc / 2 ^ 8 * 2 ^ 8 + u8 crc = omega arith in e)
      ∙ sym (xor_disjoint 8 (crc / 2 ^ 8) (u8 crc) (omega arith)) in
    ap (λ (t : ℕ). bit_xor t v) split
    ∙ xor_assoc high (u8 crc) v
    ∙ xor_comm high (bit_xor (u8 crc) v)

update_from-bit_by_bit :
    (poly crc : ℕ) (bytes : List ℕ) → update_from poly crc bytes ≡ bit_by_bit poly crc bytes
unfolding update_from table_at
update_from-bit_by_bit poly crc [] = refl
update_from-bit_by_bit poly crc (v ∷ bytes) =
    ap (λ (t : ℕ). update_from poly t bytes)
      (ap (λ (t : ℕ). bit_xor t (crc / 2 ^ 8)) (table_rounds-steps 8 poly (bit_xor (u8 crc) v))
        ∙ sym (steps-high 8 poly (bit_xor (u8 crc) v) (crc / 2 ^ 8))
        ∙ ap (steps poly 8) (sym (added crc v)))
    ∙ update_from-bit_by_bit poly (steps poly 8 (bit_xor crc v)) bytes

-- For every polynomial, register and bytes, the checksum by table is the one that is computed bit by bit, between
-- the same two inversions.
pub update-bit_by_bit :
    (crc poly : ℕ) (bytes : List ℕ)
    → update crc poly bytes ≡ not16 (bit_by_bit poly (not16 crc) bytes)
unfolding update
update-bit_by_bit crc poly bytes =
    ap (λ (t : ℕ). not16 t) (update_from-bit_by_bit poly (not16 crc) bytes)

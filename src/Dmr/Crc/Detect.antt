-- ===== src/Dmr/Crc/Detect.antt =====
-- The errors that CRC-16 cannot miss, for messages of every length.
use go_dmr.Base.{
  ℕ, ◌+◌, ◌*◌, ◌^◌, ◌<◌, ◌≡◌, ◌≢◌, refl, sym, ap, ◌∙◌, bit_xor, ◌==◌, ◌||◌, not, ◌%◌, List, [], ◌∷◌,
  ◌++◌, All, arith, true, all_below, all_below_sound, agree_below,
}
use go_dmr.Base.Bits.Xor.{xor-zero, xor_disjoint, xor_cancel_left, xor-eq-zero, xor-lt, xor_self}
use go_dmr.Dmr.Bits.{IsByte}
use go_dmr.Dmr.Crc.{crc16, crc16end, crc16_end_rounds, crc16_bytes}
use go_dmr.Dmr.Crc.Register.{xor_mod}
use go_dmr.Dmr.Crc.Linear.{
  IsU16, crc16-lt, crc16_linear, crc16_injective, end_rounds_injective, end_rounds_fit,
  end_rounds_xor,
}

-- A byte fed to the empty register is the register, and a byte in it moves up by eight.
empty_table : all_below 256 (λ b. crc16 0 b == b) ≡ true
unfolding all_below crc16
empty_table = refl

move_table : all_below 256 (λ b. crc16 b 0 == b * 2 ^ 8) ≡ true
unfolding all_below crc16
move_table = refl

crc16-zero : (b : ℕ) → IsByte b → crc16 0 b ≡ b
crc16-zero b h = agree_below 256 (crc16 0) (λ x. x) empty_table b h

crc16_add : (x b : ℕ) → IsU16 x → IsByte b → crc16 x b ≡ bit_xor (crc16 x 0) b
crc16_add x b hx hb =
    ap (λ (t : ℕ). crc16 t b) (sym (xor-zero x))
    ∙ crc16_linear x 0 b hx (omega arith)
    ∙ ap (bit_xor (crc16 x 0)) (crc16-zero b hb)

-- Two bytes through the register: what it held, and the two bytes in its place.
crc16_two :
    (x b c : ℕ)
    → IsU16 x
    → IsByte b
    → IsByte c
    → crc16 (crc16 x b) c ≡ bit_xor (crc16 (crc16 x 0) 0) (b * 2 ^ 8 + c)
crc16_two x b c hx hb hc =
    ap (λ (t : ℕ). crc16 t c) (crc16_add x b hx hb)
    ∙ crc16_linear (crc16 x 0) b c (crc16-lt x 0 hx) (omega arith)
    ∙ ap (bit_xor (crc16 (crc16 x 0) 0)) (
        crc16_add b c (omega arith) hc
        ∙ ap (λ (t : ℕ). bit_xor t c) (agree_below 256 _ (λ y. y * 2 ^ 8) move_table b hb)
        ∙ xor_disjoint 8 b c hc)

bytes_fit : (x : ℕ) (bytes : List ℕ) → IsU16 x → IsU16 (crc16_bytes x bytes)
unfolding crc16_bytes
bytes_fit x [] h = h
bytes_fit x (b ∷ bytes) h = bytes_fit (crc16 x b) bytes (crc16-lt x b h)

bytes_injective :
    (x y : ℕ) (bytes : List ℕ)
    → IsU16 x
    → IsU16 y
    → crc16_bytes x bytes ≡ crc16_bytes y bytes
    → x ≡ y
unfolding crc16_bytes
bytes_injective x y [] hx hy e = e
bytes_injective x y (b ∷ bytes) hx hy e =
    crc16_injective x y b hx hy
      (bytes_injective (crc16 x b) (crc16 y b) bytes (crc16-lt x b hx) (crc16-lt y b hy) e)

crc16_bytes-append :
    (x : ℕ) (front back : List ℕ)
    → crc16_bytes x (front ++ back) ≡ crc16_bytes (crc16_bytes x front) back
unfolding crc16_bytes
crc16_bytes-append x [] back = refl
crc16_bytes-append x (b ∷ front) back = crc16_bytes-append (crc16 x b) front back

two_bytes_injective :
    (x b c b' c' : ℕ)
    → IsU16 x
    → All IsByte (b ∷ c ∷ b' ∷ c' ∷ [])
    → crc16 (crc16 x b) c ≡ crc16 (crc16 x b') c'
    → (b ≡ b') × (c ≡ c')
two_bytes_injective x b c b' c' hx h e =
    let same : b * 2 ^ 8 + c ≡ b' * 2 ^ 8 + c' =
      xor_cancel_left (crc16 (crc16 x 0) 0) _ _
        (sym (crc16_two x b c hx h.0 h.1.0) ∙ e ∙ crc16_two x b' c' hx h.1.1.0 h.1.1.1.0) in
    (omega arith, omega arith)

-- What two neighbouring bytes do to the checksum determines them.
pub crc16_burst_injective :
    (front back : List ℕ) (b c b' c' : ℕ)
    → All IsByte (b ∷ c ∷ b' ∷ c' ∷ [])
    → crc16end (crc16_bytes 0 (front ++ (b ∷ c ∷ back)))
      ≡ crc16end (crc16_bytes 0 (front ++ (b' ∷ c' ∷ back)))
    → (b ≡ b') × (c ≡ c')
crc16_burst_injective front back b c b' c' h e = two_bytes_injective x b c b' c' x_fits h (
    bytes_injective _ _ back (fits b c) (fits b' c') (
      unfold crc16end in
      end_rounds_injective 16 _ _ (bytes_fit _ back (fits b c)) (bytes_fit _ back (fits b' c'))
        (sym (ap crc16end (through b c)) ∙ e ∙ ap crc16end (through b' c'))))
  where
    x : ℕ
    x = crc16_bytes 0 front

    x_fits : IsU16 x
    x_fits = bytes_fit 0 front (omega arith)

    fits : (i j : ℕ) → IsU16 (crc16 (crc16 x i) j)
    fits i j = crc16-lt _ j (crc16-lt x i x_fits)

    through :
        (i j : ℕ) → crc16_bytes 0 (front ++ (i ∷ j ∷ back)) ≡ crc16_bytes (crc16 (crc16 x i) j) back
    through i j = unfold crc16_bytes in crc16_bytes-append 0 front (i ∷ j ∷ back)

-- Two messages that have the same bytes but for two neighbouring ones, of which at least one differs,
-- have different CRC-16 checksums: every error burst of up to sixteen bits that lies in two bytes
-- changes the checksum, for messages of every length.
pub crc16_detects_burst :
    (front back : List ℕ) (b c b' c' : ℕ)
    → All IsByte (b ∷ c ∷ b' ∷ c' ∷ [])
    → ¬ ((b ≡ b') × (c ≡ c'))
    → crc16end (crc16_bytes 0 (front ++ (b ∷ c ∷ back)))
      ≢ crc16end (crc16_bytes 0 (front ++ (b' ∷ c' ∷ back)))
crc16_detects_burst front back b c b' c' h ne e =
    ne (crc16_burst_injective front back b c b' c' h e)

-- The register's start is not lost either.
pub crc16_start_injective :
    (x y : ℕ) (bytes : List ℕ)
    → IsU16 x
    → IsU16 y
    → crc16end (crc16_bytes x bytes) ≡ crc16end (crc16_bytes y bytes)
    → x ≡ y
unfolding crc16end
crc16_start_injective x y bytes hx hy e =
    bytes_injective x y bytes hx hy
      (end_rounds_injective 16 _ _ (bytes_fit x bytes hx) (bytes_fit y bytes hy) e)

pub crc16end_bytes-lt : (x : ℕ) (bytes : List ℕ) → IsU16 x → IsU16 (crc16end (crc16_bytes x bytes))
unfolding crc16end
crc16end_bytes-lt x bytes h = end_rounds_fit 16 _ (bytes_fit x bytes h)

-- The last byte of a message decides about the lower half of the checksum.
low_table : all_below 256 (λ z. z == 0 || not (crc16end z % 2 ^ 8 == 0)) ≡ true
unfolding all_below crc16end crc16_end_rounds
low_table = refl

low_zero : (z : ℕ) → z < 256 → crc16end z % 2 ^ 8 ≡ 0 → z ≡ 0
low_zero z h e =
    let test = all_below_sound 256 (λ z. z == 0 || not (crc16end z % 2 ^ 8 == 0)) low_table z h in
    ground (arith, test, e)

low_end_xor :
    (x y : ℕ)
    → IsU16 x
    → IsU16 y
    → crc16end (bit_xor x y) % 2 ^ 8 ≡ bit_xor (crc16end x % 2 ^ 8) (crc16end y % 2 ^ 8)
unfolding crc16end
low_end_xor x y hx hy = ap (λ (t : ℕ). t % 2 ^ 8) (end_rounds_xor 16 x y hx hy) ∙ xor_mod 8 0 _ _

pub crc16_last_injective :
    (front : List ℕ) (b c : ℕ)
    → IsByte b
    → IsByte c
    → crc16end (crc16_bytes 0 (front ++ (b ∷ []))) % 2 ^ 8
      ≡ crc16end (crc16_bytes 0 (front ++ (c ∷ []))) % 2 ^ 8
    → b ≡ c
crc16_last_injective front b c hb hc e = xor-eq-zero b c (
    low_zero (bit_xor b c) (xor-lt 8 b c hb hc) (
      low_end_xor b c (omega arith) (omega arith)
      ∙ ap (bit_xor (crc16end b % 2 ^ 8)) (sym same)
      ∙ xor_self _))
  where
    x : ℕ
    x = crc16 (crc16_bytes 0 front) 0

    front_fits : IsU16 (crc16_bytes 0 front)
    front_fits = bytes_fit 0 front (omega arith)

    x_fits : IsU16 x
    x_fits = crc16-lt _ 0 front_fits

    through :
        (v : ℕ)
        → IsByte v
        → crc16end (crc16_bytes 0 (front ++ (v ∷ []))) % 2 ^ 8
          ≡ bit_xor (crc16end x % 2 ^ 8) (crc16end v % 2 ^ 8)
    through v hv =
        unfold crc16_bytes in
        ap (λ (t : ℕ). crc16end t % 2 ^ 8)
          (crc16_bytes-append 0 front (v ∷ []) ∙ crc16_add (crc16_bytes 0 front) v front_fits hv)
        ∙ low_end_xor x v x_fits (omega arith)

    same : crc16end b % 2 ^ 8 ≡ crc16end c % 2 ^ 8
    same = xor_cancel_left (crc16end x % 2 ^ 8) _ _ (sym (through b hb) ∙ e ∙ through c hc)

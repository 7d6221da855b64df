-- ===== src/Dmr/DataHeader/Fields.antt =====
-- The fields that share a byte of a data header, each read back from the byte.
use go_dmr.Base.{
  ℕ, ◌*◌, ◌/◌, ◌^◌, ◌<◌, ◌≡◌, refl, bit_and, bit_or, ltb, ◌==◌, ◌&&◌, ◌||◌, Bool, true, false, not,
  u8, has_bits, arith, all_below, all_below_sound,
}
use go_dmr.Base.{both, both_sound, same, same-eq}
use go_dmr.Dmr.DataHeader.{first_flags}

-- The first byte with the bits of `x` under `mask`.
abbrev pub head : ℕ → ℕ → ℕ → Bool → Bool → Bool → ℕ
head mask f x g r c = bit_or (first_flags f g r c) (bit_and x mask)

pad_test : ℕ → ℕ → Bool → Bool → Bool → Bool
pad_test f x g r c =
    let b = head 0b00010000 f x g r c in
    same (has_bits b 0b10000000) g
    && same (has_bits b 0b01000000) r
    && same (has_bits b 0b00100000) c
    && (bit_and b 0b00001111 == f)
    && (bit_and b 0b00010000 == bit_and x 0b00010000)

pad_table :
    all_below 4 (λ f. all_below 32 (λ x. both (λ g. both (λ r. both (λ c. pad_test f x g r c)))))
    ≡ true
unfolding all_below both same pad_test first_flags
pad_table = refl

pub pad_head :
    (f x : ℕ) (g r c : Bool)
    → f < 4
    → x < 32
    → let b = head 0b00010000 f x g r c in
      (has_bits b 0b10000000 ≡ g)
      × (has_bits b 0b01000000 ≡ r)
      × (has_bits b 0b00100000 ≡ c)
      × (bit_and b 0b00001111 ≡ f)
      × (bit_and b 0b00010000 ≡ bit_and x 0b00010000)
unfolding pad_test
pad_head f x g r c hf hx =
    let e =
      all_below_sound 32 (λ x. both (λ g. both (λ r. both (λ c. pad_test f x g r c))))
        (all_below_sound 4 _ pad_table f hf) x hx in
    let e' = both_sound (λ c. pad_test f x g r c) (both_sound _ (both_sound _ e g) r) c in
    let b = head 0b00010000 f x g r c in
    ground (
      arith,
      e',
      same-eq (has_bits b 0b10000000) g,
      same-eq (has_bits b 0b01000000) r,
      same-eq (has_bits b 0b00100000) c,
    )

blocks_test : ℕ → ℕ → Bool → Bool → Bool → Bool
blocks_test f x g r c =
    let b = head 0b00110000 f x g r c in
    same (has_bits b 0b10000000) g
    && same (has_bits b 0b01000000) r
    && (not (same (has_bits x 0b00100000) c) || same (has_bits b 0b00100000) c)
    && (not (same (has_bits x 0b00100000) c) || (bit_and b 0b00110000 == bit_and x 0b00110000))
    && (bit_and b 0b00001111 == f)

blocks_table :
    all_below 16
      (λ f. all_below 64 (λ x. both (λ g. both (λ r. both (λ c. blocks_test f x g r c)))))
    ≡ true
unfolding all_below both same blocks_test first_flags
blocks_table = refl

same_refl : (a : Bool) → same a a ≡ true
unfolding same
same_refl true = refl
same_refl false = refl

pub blocks_head :
    (f x : ℕ) (g r c : Bool)
    → f < 16
    → x < 64
    → has_bits x 0b00100000 ≡ c
    → let b = head 0b00110000 f x g r c in
      (has_bits b 0b10000000 ≡ g)
      × (has_bits b 0b01000000 ≡ r)
      × (has_bits b 0b00100000 ≡ c)
      × (bit_and b 0b00001111 ≡ f)
      × (bit_and b 0b00110000 ≡ bit_and x 0b00110000)
unfolding blocks_test
blocks_head f x g r c hf hx shared =
    let e =
      all_below_sound 64 (λ x. both (λ g. both (λ r. both (λ c. blocks_test f x g r c))))
        (all_below_sound 16 _ blocks_table f hf) x hx in
    let e' = both_sound (λ c. blocks_test f x g r c) (both_sound _ (both_sound _ e g) r) c in
    let b = head 0b00110000 f x g r c in
    ground (
      arith,
      e',
      shared,
      same_refl c,
      same-eq (has_bits b 0b10000000) g,
      same-eq (has_bits b 0b01000000) r,
      same-eq (has_bits b 0b00100000) c,
    )

plain_test : ℕ → Bool → Bool → Bool → Bool
plain_test f g r c =
    let b = first_flags f g r c in
    same (has_bits b 0b10000000) g
    && same (has_bits b 0b01000000) r
    && same (has_bits b 0b00100000) c
    && (bit_and b 0b00001111 == f)

plain_table : all_below 16 (λ f. both (λ g. both (λ r. both (λ c. plain_test f g r c)))) ≡ true
unfolding all_below both same plain_test first_flags
plain_table = refl

-- The first byte where the data adds nothing to it.
pub plain_head :
    (f : ℕ) (g r c : Bool)
    → f < 16
    → let b = first_flags f g r c in
      (has_bits b 0b10000000 ≡ g)
      × (has_bits b 0b01000000 ≡ r)
      × (has_bits b 0b00100000 ≡ c)
      × (bit_and b 0b00001111 ≡ f)
unfolding plain_test
plain_head f g r c hf =
    let e' =
      both_sound (λ c. plain_test f g r c)
        (both_sound _ (both_sound _ (all_below_sound 16 _ plain_table f hf) g) r) c in
    let b = first_flags f g r c in
    ground (
      arith,
      e',
      same-eq (has_bits b 0b10000000) g,
      same-eq (has_bits b 0b01000000) r,
      same-eq (has_bits b 0b00100000) c,
    )

second_table :
    all_below 16 (λ s. all_below 64 (λ x.
      let b = bit_or (bit_and (u8 (s * 2 ^ 4)) 0b11110000) (bit_and x 0b00001111) in
      (bit_and b 0b11110000 / 2 ^ 4 == s) && (bit_and b 0b00001111 == bit_and x 0b00001111)))
    ≡ true
unfolding all_below
second_table = refl

-- The second byte: the service access point and four bits of the data.
pub second_byte :
    (s x : ℕ)
    → s < 16
    → x < 64
    → let b = bit_or (bit_and (u8 (s * 2 ^ 4)) 0b11110000) (bit_and x 0b00001111) in
      (bit_and b 0b11110000 / 2 ^ 4 ≡ s) × (bit_and b 0b00001111 ≡ bit_and x 0b00001111)
second_byte s x hs hx =
    let e = all_below_sound 64 _ (all_below_sound 16 _ second_table s hs) x hx in ground (arith, e)

sap_table :
    all_below 16 (λ s. bit_and (bit_and (u8 (s * 2 ^ 4)) 0b11110000) 0b11110000 / 2 ^ 4 == s) ≡ true
unfolding all_below
sap_table = refl

pub sap_byte :
    (s : ℕ) → s < 16 → bit_and (bit_and (u8 (s * 2 ^ 4)) 0b11110000) 0b11110000 / 2 ^ 4 ≡ s
sap_byte s h = ground (arith, all_below_sound 16 _ sap_table s h)

split_table :
    all_below 64 (λ x.
      (bit_or (bit_and x 0b00110000) (bit_and x 0b00001111) == x)
      && (not (ltb x 32) || (bit_or (bit_and x 0b00010000) (bit_and x 0b00001111) == x))
      && (not (ltb x 16) || (bit_and x 0b00001111 == x)))
    ≡ true
unfolding all_below
split_table = refl

pub split_blocks : (x : ℕ) → x < 64 → bit_or (bit_and x 0b00110000) (bit_and x 0b00001111) ≡ x
split_blocks x h = ground (arith, all_below_sound 64 _ split_table x h)

pub split_pad : (x : ℕ) → x < 32 → bit_or (bit_and x 0b00010000) (bit_and x 0b00001111) ≡ x
split_pad x h = let b : x < 64 = omega arith in ground (arith, all_below_sound 64 _ split_table x b)

pub low_nibble : (x : ℕ) → x < 16 → bit_and x 0b00001111 ≡ x
low_nibble x h =
    let b : x < 64 = omega arith in ground (arith, all_below_sound 64 _ split_table x b)

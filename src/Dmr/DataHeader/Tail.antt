-- ===== src/Dmr/DataHeader/Tail.antt =====
-- Bytes 8 and 9 of a data header, whose fields depend on the packet format.
use go_dmr.Base.{
  ℕ, ◌*◌, ◌/◌, ◌^◌, ◌<◌, ◌≡◌, refl, bit_and, bit_or, ◌==◌, ◌&&◌, if◌then◌else◌, Bool, true, u8,
  has_bits, arith, all_below, all_below_sound,
}
use go_dmr.Base.{both, both_sound, same, same-eq}

abbrev pub udt_blocks : ℕ → ℕ → ℕ
udt_blocks p a = bit_or (bit_and a 0b00000011) (u8 (p * 2 ^ 3))

udt_blocks_test : ℕ → ℕ → Bool
udt_blocks_test p a =
    let b = udt_blocks p a in (bit_and b 0b11111000 / 2 ^ 3 == p) && (bit_and b 0b00000011 == a)

udt_blocks_table : all_below 32 (λ p. all_below 4 (λ a. udt_blocks_test p a)) ≡ true
unfolding all_below both same udt_blocks_test
udt_blocks_table = refl

-- Padding and appended blocks of unified data.
pub udt_blocks_fields :
    (p a : ℕ)
    → p < 32
    → a < 4
    → let b = udt_blocks p a in (bit_and b 0b11111000 / 2 ^ 3 ≡ p) × (bit_and b 0b00000011 ≡ a)
unfolding udt_blocks_test
udt_blocks_fields p a hp ha =
    let b = udt_blocks p a in
    let e =
      all_below_sound 4 (λ a. udt_blocks_test p a)
        (all_below_sound 32 (λ p. all_below 4 (λ a. udt_blocks_test p a)) (udt_blocks_table) p hp) a
        ha in
    ground (arith, e)

abbrev pub udt_opcode : ℕ → Bool → ℕ
udt_opcode o s = if s then bit_or (bit_and o 0b00111111) 0b10000000 else bit_and o 0b00111111

udt_opcode_test : ℕ → Bool → Bool
udt_opcode_test o s =
    let b = udt_opcode o s in same (has_bits b 0b10000000) s && (bit_and b 0b00111111 == o)

udt_opcode_table : all_below 64 (λ o. both (λ s. udt_opcode_test o s)) ≡ true
unfolding all_below both same udt_opcode_test
udt_opcode_table = refl

-- Supplementary flag and opcode of unified data.
pub udt_opcode_fields :
    (o : ℕ) (s : Bool)
    → o < 64
    → let b = udt_opcode o s in (has_bits b 0b10000000 ≡ s) × (bit_and b 0b00111111 ≡ o)
unfolding udt_opcode_test
udt_opcode_fields o s ho =
    let b = udt_opcode o s in
    let e =
      both_sound (λ s. udt_opcode_test o s)
        (all_below_sound 64 (λ o. both (λ s. udt_opcode_test o s)) (udt_opcode_table) o ho) s in
    ground (arith, e, same-eq (has_bits b 0b10000000) s)

abbrev pub block_count : ℕ → Bool → ℕ
block_count n full = if full then bit_or (bit_and n 0b01111111) 0b10000000 else bit_and n 0b01111111

block_count_test : ℕ → Bool → Bool
block_count_test n full =
    let b = block_count n full in same (has_bits b 0b10000000) full && (bit_and b 0b01111111 == n)

block_count_table : all_below 128 (λ n. both (λ full. block_count_test n full)) ≡ true
unfolding all_below both same block_count_test
block_count_table = refl

-- A block count below 128 with the flag of a full message.
pub block_count_fields :
    (n : ℕ) (full : Bool)
    → n < 128
    → let b = block_count n full in (has_bits b 0b10000000 ≡ full) × (bit_and b 0b01111111 ≡ n)
unfolding block_count_test
block_count_fields n full hn =
    let b = block_count n full in
    let e =
      both_sound (λ full. block_count_test n full)
        (all_below_sound 128 (λ n. both (λ full. block_count_test n full)) (block_count_table) n hn)
        full in
    ground (arith, e, same-eq (has_bits b 0b10000000) full)

abbrev pub response_status : ℕ → ℕ → ℕ
response_status c s = bit_or s (u8 (c * 2 ^ 3))

response_status_test : ℕ → ℕ → Bool
response_status_test c s =
    let b = response_status c s in
    (bit_and b 0b11111000 / 2 ^ 3 == c) && (bit_and b 0b00000111 == s)

response_status_table : all_below 32 (λ c. all_below 8 (λ s. response_status_test c s)) ≡ true
unfolding all_below both same response_status_test
response_status_table = refl

-- Class, type and status of a response.
pub response_status_fields :
    (c s : ℕ)
    → c < 32
    → s < 8
    → let b = response_status c s in (bit_and b 0b11111000 / 2 ^ 3 ≡ c) × (bit_and b 0b00000111 ≡ s)
unfolding response_status_test
response_status_fields c s hc hs =
    let b = response_status c s in
    let e =
      all_below_sound 8 (λ s. response_status_test c s)
        (all_below_sound 32 (λ c. all_below 8 (λ s. response_status_test c s))
          (response_status_table) c hc)
        s hs in
    ground (arith, e)

abbrev pub sequence_numbers : ℕ → ℕ → Bool → ℕ
sequence_numbers n f resync =
    let b = bit_or (bit_and f 0b00000111 * 2 ^ 0) (u8 (bit_and n 0b00000111 * 2 ^ 4)) in
    if resync then bit_or b 0b10000000 else b

sequence_numbers_test : ℕ → ℕ → Bool → Bool
sequence_numbers_test n f resync =
    let b = sequence_numbers n f resync in
    same (has_bits b 0b10000000) resync
    && (bit_and b 0b01110000 / 2 ^ 4 == n)
    && (bit_and b 0b00001111 == f)

sequence_numbers_table :
    all_below 8 (λ n. all_below 8 (λ f. both (λ resync. sequence_numbers_test n f resync))) ≡ true
unfolding all_below both same sequence_numbers_test
sequence_numbers_table = refl

-- The sequence numbers of confirmed data.
pub sequence_numbers_fields :
    (n f : ℕ) (resync : Bool)
    → n < 8
    → f < 8
    → let b = sequence_numbers n f resync in
      (has_bits b 0b10000000 ≡ resync)
      × (bit_and b 0b01110000 / 2 ^ 4 ≡ n)
      × (bit_and b 0b00001111 ≡ f)
unfolding sequence_numbers_test
sequence_numbers_fields n f resync hn hf =
    let b = sequence_numbers n f resync in
    let e =
      both_sound (λ resync. sequence_numbers_test n f resync)
        (all_below_sound 8 (λ f. both (λ resync. sequence_numbers_test n f resync))
          (all_below_sound 8
            (λ n. all_below 8 (λ f. both (λ resync. sequence_numbers_test n f resync)))
            (sequence_numbers_table) n hn)
          f hf)
        resync in
    ground (arith, e, same-eq (has_bits b 0b10000000) resync)

abbrev pub ports : ℕ → ℕ → Bool → Bool → ℕ
ports s d resync full =
    let b = bit_or (u8 (bit_and s 0b00000111 * 2 ^ 5)) (u8 (bit_and d 0b00000111 * 2 ^ 2)) in
    let b1 = if resync then bit_or b 0b00000010 else b in if full then bit_or b1 0b00000001 else b1

ports_test : ℕ → ℕ → Bool → Bool → Bool
ports_test s d resync full =
    let b = ports s d resync full in
    (bit_and b 0b11100000 / 2 ^ 5 == s)
    && (bit_and b 0b00011100 / 2 ^ 2 == d)
    && same (has_bits b 0b00000010) resync
    && same (has_bits b 0b00000001) full

ports_table :
    all_below 8 (λ s. all_below 8 (λ d. both (λ resync. both (λ full. ports_test s d resync full))))
    ≡ true
unfolding all_below both same ports_test
ports_table = refl

-- The ports of raw short data.
pub ports_fields :
    (s d : ℕ) (resync full : Bool)
    → s < 8
    → d < 8
    → let b = ports s d resync full in
      (bit_and b 0b11100000 / 2 ^ 5 ≡ s)
      × (bit_and b 0b00011100 / 2 ^ 2 ≡ d)
      × (has_bits b 0b00000010 ≡ resync)
      × (has_bits b 0b00000001 ≡ full)
unfolding ports_test
ports_fields s d resync full hs hd =
    let b = ports s d resync full in
    let e =
      both_sound (λ full. ports_test s d resync full)
        (both_sound (λ resync. both (λ full. ports_test s d resync full))
          (all_below_sound 8 (λ d. both (λ resync. both (λ full. ports_test s d resync full)))
            (all_below_sound 8
              (λ s. all_below 8 (λ d. both (λ resync. both (λ full. ports_test s d resync full))))
              (ports_table) s hs)
            d hd)
          resync)
        full in
    ground (arith, e, same-eq (has_bits b 0b00000010) resync, same-eq (has_bits b 0b00000001) full)

abbrev pub defined_format : ℕ → Bool → Bool → ℕ
defined_format d resync full =
    let b = u8 (bit_and d 0b00111111 * 2 ^ 2) in
    let b1 = if resync then bit_or b 0b00000010 else b in if full then bit_or b1 0b00000001 else b1

defined_format_test : ℕ → Bool → Bool → Bool
defined_format_test d resync full =
    let b = defined_format d resync full in
    (bit_and b 0b11111100 / 2 ^ 2 == d)
    && same (has_bits b 0b00000010) resync
    && same (has_bits b 0b00000001) full

defined_format_table :
    all_below 64 (λ d. both (λ resync. both (λ full. defined_format_test d resync full))) ≡ true
unfolding all_below both same defined_format_test
defined_format_table = refl

-- The format of defined short data.
pub defined_format_fields :
    (d : ℕ) (resync full : Bool)
    → d < 64
    → let b = defined_format d resync full in
      (bit_and b 0b11111100 / 2 ^ 2 ≡ d)
      × (has_bits b 0b00000010 ≡ resync)
      × (has_bits b 0b00000001 ≡ full)
unfolding defined_format_test
defined_format_fields d resync full hd =
    let b = defined_format d resync full in
    let e =
      both_sound (λ full. defined_format_test d resync full)
        (both_sound (λ resync. both (λ full. defined_format_test d resync full))
          (all_below_sound 64
            (λ d. both (λ resync. both (λ full. defined_format_test d resync full)))
            (defined_format_table) d hd)
          resync)
        full in
    ground (arith, e, same-eq (has_bits b 0b00000010) resync, same-eq (has_bits b 0b00000001) full)

manufacturer_table :
    all_below 128 (λ m.
      (bit_and (bit_and m 0b01111111) 0b01111111 == m)
      && (bit_and (bit_and m 0b01111111) 0b11110000 / 2 ^ 4 == m / 16))
    ≡ true
unfolding all_below
manufacturer_table = refl

-- The manufacturer's ID stands where the service access point is read.
pub manufacturer_fields :
    (m : ℕ)
    → m < 128
    → let b = bit_and m 0b01111111 in
      (bit_and b 0b01111111 ≡ m) × (bit_and b 0b11110000 / 2 ^ 4 ≡ m / 16)
manufacturer_fields m h = ground (arith, all_below_sound 128 _ manufacturer_table m h)

-- ===== src/Homebrew/Packet/Special.antt =====
-- The data types that the format has no code for.
use go_dmr.Base.{
  ℕ, ◌+◌, ◌*◌, ◌/◌, ◌%◌, ◌^◌, ◌<◌, ◌≡◌, ◌⊎◌, inl, inr, refl, ap, bit_or, Bool, true, false, Option,
  none, some, [], ◌∷◌, arith, all_below, all_below_sound, length, length-append, zeros, copy,
  copy_whole,
}
use go_dmr.Base.Outcome.{err}
use go_dmr.Base.Bits.Fields.{bit_and_ones}
use go_dmr.Dmr.Packet.{Packet}
use go_dmr.Homebrew.Packet.{unexpected_frame_type, build_data, parse_data, flags, data_type_of}

-- Byte 15 of data type 16 or 17, at `special + 2 * call + 4 * slot`.
byte_of : ℕ → ℕ
byte_of n =
    bit_or (bit_or (bit_or (n / 4 * 2 ^ 7 % 2 ^ 8) (n / 2 % 2 * 2 ^ 6 % 2 ^ 8)) (2 * 2 ^ 4))
      (16 + n % 2)

is_none : Option ℕ → Bool
is_none none = true
is_none (some n) = false

is_none→eq : (o : Option ℕ) → is_none o ≡ true → o ≡ none
unfolding is_none
is_none→eq none h = refl
is_none→eq (some n) h = cc

special_table : all_below 8 (λ n. is_none (data_type_of (byte_of n))) ≡ true
unfolding all_below byte_of data_type_of is_none
special_table = refl

special_byte :
    (slot call special : ℕ)
    → slot < 2
    → call < 2
    → special < 2
    → data_type_of (
        bit_or
          (bit_or (bit_or (slot * 2 ^ 7 % 2 ^ 8) (call * 2 ^ 6 % 2 ^ 8)) (2 * 2 ^ 4))
          (16 + special))
      ≡ none
special_byte slot call special hs hc hp =
    let n = special + 2 * call + 4 * slot in
    let e : n / 4 ≡ slot = omega arith in
    let f : n / 2 % 2 ≡ call = omega arith in
    let g : n % 2 ≡ special = omega arith in
    let k : data_type_of (byte_of n) ≡ none =
      is_none→eq _ (all_below_sound 8 _ special_table n (omega arith)) in
    unfold byte_of in (rw (e, f, g) at k)

special_flags :
    (p : Packet) → (p.data_type ≡ 16) ⊎ (p.data_type ≡ 17) → data_type_of (flags p) ≡ none
unfolding flags
special_flags p (inl e) =
    rw (e, bit_and_ones 1 p.timeslot, bit_and_ones 1 p.call_type)
      (special_byte (p.timeslot % 2) (p.call_type % 2) 0 (omega arith) (omega arith) (omega arith))
special_flags p (inr e) =
    rw (e, bit_and_ones 1 p.timeslot, bit_and_ones 1 p.call_type)
      (special_byte (p.timeslot % 2) (p.call_type % 2) 1 (omega arith) (omega arith) (omega arith))

-- A frame of one of the two data types above 15 (the synthetic types 16 and 17), with 33 bytes of
-- payload, is written as a message with frame type 0b11, which the parser refuses.
pub parse_data-build_data_special :
    (p : Packet) (repeater_id : ℕ)
    → (p.data_type ≡ 16) ⊎ (p.data_type ≡ 17)
    → length p.payload ≡ 33
    → parse_data (build_data p repeater_id) ≡ err unexpected_frame_type
unfolding parse_data build_data
parse_data-build_data_special p r types frame = ground (
  arith,
  special_flags p types,
  length-append (copy (zeros 33) p.payload) (p.ber ∷ p.rssi ∷ []),
  ap length (copy_whole (zeros 33) p.payload frame),
)

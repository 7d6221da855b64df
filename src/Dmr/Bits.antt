-- ===== src/Dmr/Bits.antt =====
-- bits.go: a byte slice as its binary digits, one to a byte, most significant first, and back.
pub mod RoundTrip
use go_dmr.Base.{
  ℕ, zero, suc, ◌+◌, ◌-◌, ◌*◌, ◌/◌, ◌%◌, ◌^◌, ◌<◌, bit_and, bit_or, ◌==◌, if◌then◌else◌, List, [],
  ◌∷◌, ◌++◌, length, get_or, set, zeros,
}

abbrev pub IsByte : ℕ → Type 0
IsByte b = b < 256

abbrev pub IsBit : ℕ → Type 0
IsBit b = b < 2

-- The loop of `toBits` with its rounds left and the mask.
to_bits_from : ℕ → ℕ → ℕ → List ℕ
to_bits_from zero b mask = []
to_bits_from (suc n) b mask = (if bit_and b mask == 0 then 0 else 1) ∷ to_bits_from n b (mask / 2)

unfoldable pub to_bits : ℕ → List ℕ
unfolding to_bits_from
to_bits b = to_bits_from 8 b 128

-- Each byte's digits are copied behind those of the bytes before it.
unfoldable pub bytes_to_bits : List ℕ → List ℕ
unfolding to_bits
bytes_to_bits [] = []
bytes_to_bits (b ∷ data_) = to_bits b ++ bytes_to_bits data_

-- `data[i/8] |= (1 << byte(7-(i%8)))`
unfoldable pub set_bit : ℕ → List ℕ → List ℕ
set_bit i bytes = set bytes (i / 8) (bit_or (get_or bytes (i / 8) 0) (2 ^ (7 - i % 8)))

-- The loop of `BitsToBytes` at index `i`. A digit that is not 1 counts as 0.
unfoldable pub bits_to_bytes_from : ℕ → List ℕ → List ℕ → List ℕ
bits_to_bytes_from i [] bytes = bytes
bits_to_bytes_from i (b ∷ bits) bytes =
    bits_to_bytes_from (i + 1) bits (if b == 1 then set_bit i bytes else bytes)

unfoldable pub bits_to_bytes : List ℕ → List ℕ
unfolding bits_to_bytes_from set_bit
bits_to_bytes bits = bits_to_bytes_from 0 bits (zeros ((length bits + 7) / 8))

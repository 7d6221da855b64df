-- ===== src/Dmr/Voice.antt =====
-- voice.go: embedded signalling of the voice bursts.
pub mod Signalling
pub mod Interleave
pub mod Total
use go_dmr.Base.{
  ℕ, zero, suc, ◌+◌, ◌-◌, ◌*◌, ◌%◌, ◌^◌, bit_or, ◌==◌, ◌||◌, not, Bool, true, false, if◌then◌else◌,
  Option, none, some, List, [], ◌∷◌, ◌++◌, length, get_elem?, get_or, take, drop, zeros, copy, u8,
}
use go_dmr.Base.Outcome.{Outcome, ok, err, panic, ◌>>=◌, ◌>>◌, require, or_panic}
use go_dmr.Dmr.Bits.{bits_to_bytes}
use go_dmr.Checks.QuadRes.{check}

pub record Emb : Type 0 where
  pub color_code : ℕ
  pub lcss : ℕ

pub data Error : Type 0 where
  bits_size checksum_error pi_not_zero : Error

unfoldable pub parse_emb : List ℕ → Outcome Error Emb
parse_emb bits = do
  require (length bits == 16) bits_size
  valid ← or_panic (check bits)
  require valid checksum_error
  require (get_or bits 4 0 == 0) pi_not_zero
  let b : ℕ → ℕ = λ i. get_or bits i 0
  ok (record {
    color_code =
        bit_or (bit_or (bit_or (u8 (b 0 * 2 ^ 3)) (u8 (b 1 * 2 ^ 2))) (u8 (b 2 * 2 ^ 1))) (b 3);
    lcss = bit_or (u8 (b 5 * 2 ^ 1)) (b 6);
  })

-- A nil slice is the empty one: neither has 48 bits.
unfoldable pub parse_emb_bits_from_sync : List ℕ → Outcome Error (List ℕ)
parse_emb_bits_from_sync sync = do
  require (length sync == 48) bits_size
  ok (copy (zeros 8) (take 8 sync) ++ copy (zeros 8) (drop 40 sync))

unfoldable pub parse_embedded_signalling_lc_from_sync_bits : List ℕ → Outcome Error (List ℕ)
parse_embedded_signalling_lc_from_sync_bits sync = do
  require (length sync == 48) bits_size
  ok (copy (zeros 32) (take 32 (drop 8 sync)))

pub record EmbeddedSignallingLc : Type 0 where
  pub bits : List ℕ
  pub checksum : List ℕ

unfoldable pub sum16 : List ℕ → ℕ → ℕ
sum16 [] verify = verify
sum16 (b ∷ bytes) verify = sum16 bytes ((verify + b) % 2 ^ 16)

-- `Check`, for a checksum of at least five bits.
unfoldable pub check_lc : EmbeddedSignallingLc → Bool
check_lc e =
    let c : ℕ → ℕ = λ i. get_or e.checksum i 0 in
    let checksum =
      bit_or
        (bit_or
          (bit_or (bit_or (bit_or 0 (u8 (c 0 * 2 ^ 4))) (u8 (c 1 * 2 ^ 3))) (u8 (c 2 * 2 ^ 2)))
          (u8 (c 3 * 2 ^ 1)))
        (c 4) in
    u8 (sum16 (bits_to_bytes e.bits) 0 % 31) == checksum

-- The places of the checksum among the 77 bits.
unfoldable pub is_checksum : ℕ → Bool
is_checksum i = i == 32 || i == 43 || i == 54 || i == 65 || i == 76

-- The loop of `Interleave`, `n` rounds from `i` on, with the bits and the checksum that are left; no
-- result is an index out of range.
unfoldable pub interleave_from : ℕ → ℕ → List ℕ → List ℕ → Option (List ℕ)
interleave_from zero i bits checksum = some []
interleave_from (suc n) i bits checksum = elim (is_checksum i) [
  | true ↦ elim checksum [
    | [] ↦ none
    | c ∷ left ↦ elim (interleave_from n (i + 1) bits left) [
      | none ↦ none
      | some out ↦ some (c ∷ out)
    ]
  ]
  | false ↦ elim bits [
    | [] ↦ none
    | b ∷ left ↦ elim (interleave_from n (i + 1) left checksum) [
      | none ↦ none
      | some out ↦ some (b ∷ out)
    ]
  ]
]

unfoldable pub interleave : EmbeddedSignallingLc → Option (List ℕ)
interleave e = interleave_from 77 0 e.bits e.checksum

-- The loop of `DeinterleaveEmbeddedSignallingLC` over the bits from place `i` on.
unfoldable pub deinterleave_from : ℕ → List ℕ → List ℕ × List ℕ
deinterleave_from i [] = ([], [])
deinterleave_from i (b ∷ bits) =
    let (data_bits, checksum) = deinterleave_from (i + 1) bits in
    if is_checksum i then (data_bits, b ∷ checksum) else (b ∷ data_bits, checksum)

unfoldable pub deinterleave_embedded_signalling_lc : List ℕ → Outcome Error EmbeddedSignallingLc
deinterleave_embedded_signalling_lc bits = do
  require (length bits == 77) bits_size
  let (data_bits, checksum) = deinterleave_from 0 bits
  ok (record { bits = data_bits; checksum = checksum })

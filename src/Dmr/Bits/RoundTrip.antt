-- ===== src/Dmr/Bits/RoundTrip.antt =====
-- `BitsToBytes` undoes `BytesToBits`, also when zeros follow the digits.
use go_dmr.Base.{
  ℕ, zero, suc, ◌+◌, ◌-◌, ◌*◌, ◌/◌, ◌%◌, ◌^◌, ◌≤◌, ◌<◌, ◌≡◌, refl, sym, ap, ap₂, ◌∙◌, bit_or, ◌==◌,
  if◌then◌else◌, List, [], ◌∷◌, ◌++◌, length, length-append, get_or, set, zeros, length-zeros, All,
  arith, Bool, true, false, all_below, agree_below,
}
use go_dmr.Dmr.Bits.{IsByte, to_bits, bytes_to_bits, set_bit, bits_to_bytes_from, bits_to_bytes}
use mathlib.Core.List.{append_assoc}
use mathlib.Core.Path.{◌≡⟨◌⟩◌, ◌∎}

-- What the digits from place `j` on add to the byte `acc`.
pack : ℕ → ℕ → List ℕ → ℕ
pack j acc [] = acc
pack j acc (b ∷ bits) = pack (j + 1) (if b == 1 then bit_or acc (2 ^ (7 - j)) else acc) bits

pack_table : all_below 256 (λ b. pack 0 0 (to_bits b) == b) ≡ true
unfolding pack to_bits all_below
pack_table = refl

pack-to_bits : (b : ℕ) → IsByte b → pack 0 0 (to_bits b) ≡ b
pack-to_bits b h = agree_below 256 (λ x. pack 0 0 (to_bits x)) (λ x. x) pack_table b h

-- The array of bytes with a cursor: what is finished, the byte at work, and what is still zero.
set_middle :
    (front back : List ℕ) (x v : ℕ)
    → set (front ++ (x ∷ back)) (length front) v ≡ front ++ (v ∷ back)
set_middle [] back x v = refl
set_middle (a ∷ front) back x v = ap (λ (t : List ℕ). a ∷ t) (set_middle front back x v)

get_middle : (front back : List ℕ) (x : ℕ) → get_or (front ++ (x ∷ back)) (length front) 0 ≡ x
get_middle [] back x = refl
get_middle (a ∷ front) back x = get_middle front back x

set_bit-middle :
    (front back : List ℕ) (x j : ℕ)
    → j < 8
    → set_bit (8 * length front + j) (front ++ (x ∷ back))
      ≡ front ++ (bit_or x (2 ^ (7 - j)) ∷ back)
unfolding set_bit
set_bit-middle front back x j h =
    let e : (8 * length front + j) / 8 ≡ length front = omega arith in
    let f : (8 * length front + j) % 8 ≡ j = omega arith in
    rw (e, f, get_middle front back x) (set_middle front back x _)

test_step :
    (t : Bool) (front back : List ℕ) (acc j : ℕ)
    → j < 8
    → (if t then set_bit (8 * length front + j) (front ++ (acc ∷ back)) else front ++ (acc ∷ back))
      ≡ front ++ ((if t then bit_or acc (2 ^ (7 - j)) else acc) ∷ back)
test_step true front back acc j h = set_bit-middle front back acc j h
test_step false front back acc j h = refl

pack_step :
    (front back bits rest : List ℕ) (acc i j : ℕ)
    → i ≡ 8 * length front + j
    → j + length bits ≤ 8
    → bits_to_bytes_from i (bits ++ rest) (front ++ (acc ∷ back))
      ≡ bits_to_bytes_from (i + length bits) rest (front ++ (pack j acc bits ∷ back))
unfolding bits_to_bytes_from pack
pack_step front back [] rest acc i j e h =
    ap (λ (k : ℕ). bits_to_bytes_from k rest (front ++ (acc ∷ back))) (omega arith)
pack_step front back (b ∷ bits) rest acc i j e h =
    let acc' = if b == 1 then bit_or acc (2 ^ (7 - j)) else acc in
    ap (bits_to_bytes_from (i + 1) (bits ++ rest))
      (rw e (test_step (b == 1) front back acc j (omega arith)))
    ∙ pack_step front back bits rest acc' (i + 1) (j + 1) (omega arith) (omega arith)
    ∙ ap (λ (k : ℕ). bits_to_bytes_from k rest (front ++ (pack (j + 1) acc' bits ∷ back)))
        (omega arith)

length-to_bits : (b : ℕ) → length (to_bits b) ≡ 8
unfolding to_bits
length-to_bits b = refl

pub length-bytes_to_bits : (bytes : List ℕ) → length (bytes_to_bits bytes) ≡ 8 * length bytes
unfolding bytes_to_bits
length-bytes_to_bits [] = refl
length-bytes_to_bits (b ∷ bytes) = omega (arith, length-bytes_to_bits bytes)

-- One byte's digits fill the byte at the cursor.
byte_step :
    (front back rest : List ℕ) (b : ℕ)
    → IsByte b
    → bits_to_bytes_from (8 * length front) (to_bits b ++ rest) (front ++ (0 ∷ back))
      ≡ bits_to_bytes_from (8 * suc (length front)) rest (front ++ (b ∷ back))
byte_step front back rest b h =
    pack_step front back (to_bits b) rest 0 (8 * length front) 0 (omega arith)
      (omega (arith, length-to_bits b))
    ∙ ap₂ (λ (i x : ℕ). bits_to_bytes_from i rest (front ++ (x ∷ back)))
        (omega (arith, length-to_bits b)) (pack-to_bits b h)

bytes_to_bits-cons :
    (b : ℕ) (bytes rest : List ℕ)
    → bytes_to_bits (b ∷ bytes) ++ rest ≡ to_bits b ++ (bytes_to_bits bytes ++ rest)
unfolding bytes_to_bits
bytes_to_bits-cons b bytes rest = append_assoc (to_bits b) (bytes_to_bits bytes) rest

bytes_step :
    (bytes front back rest : List ℕ)
    → All IsByte bytes
    → bits_to_bytes_from
        (8 * length front)
        (bytes_to_bits bytes ++ rest)
        (front ++ (zeros (length bytes) ++ back))
      ≡ bits_to_bytes_from (8 * (length front + length bytes)) rest (front ++ (bytes ++ back))
bytes_step [] front back rest h =
    unfold bytes_to_bits in ap (λ (i : ℕ). bits_to_bytes_from i rest (front ++ back)) (omega arith)
bytes_step (b ∷ bytes) front back rest h =
    let more = zeros (length bytes) ++ back in
    let grown : front ++ (b ∷ more) ≡ (front ++ (b ∷ [])) ++ more =
      sym (append_assoc front (b ∷ []) more) in
    let long : 8 * suc (length front) ≡ 8 * length (front ++ (b ∷ [])) =
      omega (arith, length-append front (b ∷ [])) in
    bits_to_bytes_from (8 * length front) (bytes_to_bits (b ∷ bytes) ++ rest) (front ++ (0 ∷ more))
    ≡⟨ ap (λ (t : List ℕ). bits_to_bytes_from (8 * length front) t (front ++ (0 ∷ more)))
        (bytes_to_bits-cons b bytes rest) ⟩
      bits_to_bytes_from (8 * length front) (to_bits b ++ (bytes_to_bits bytes ++ rest))
        (front ++ (0 ∷ more))
    ≡⟨ byte_step front more (bytes_to_bits bytes ++ rest) b h.0 ⟩
      bits_to_bytes_from (8 * suc (length front)) (bytes_to_bits bytes ++ rest)
        (front ++ (b ∷ more))
    ≡⟨ ap₂ (λ (i : ℕ) (t : List ℕ). bits_to_bytes_from i (bytes_to_bits bytes ++ rest) t) long
        grown ⟩
      bits_to_bytes_from (8 * length (front ++ (b ∷ []))) (bytes_to_bits bytes ++ rest)
        ((front ++ (b ∷ [])) ++ more)
    ≡⟨ bytes_step bytes (front ++ (b ∷ [])) back rest h.1 ⟩
      bits_to_bytes_from (8 * (length (front ++ (b ∷ [])) + length bytes)) rest
        ((front ++ (b ∷ [])) ++ (bytes ++ back))
    ≡⟨ ap₂ (λ (i : ℕ) (t : List ℕ). bits_to_bytes_from i rest t)
        (omega (arith, length-append front (b ∷ [])))
        (append_assoc front (b ∷ []) (bytes ++ back)) ⟩
      bits_to_bytes_from (8 * (length front + suc (length bytes))) rest
        (front ++ (b ∷ (bytes ++ back))) ∎

-- Digits that are zero leave the bytes as they are.
zeros_step : (n i : ℕ) (bytes : List ℕ) → bits_to_bytes_from i (zeros n) bytes ≡ bytes
unfolding bits_to_bytes_from
zeros_step zero i bytes = refl
zeros_step (suc n) i bytes = zeros_step n (i + 1) bytes

zeros_add : (m n : ℕ) → zeros (m + n) ≡ zeros m ++ zeros n
zeros_add zero n = ap (λ (k : ℕ). zeros k) (omega arith)
zeros_add (suc m) n =
    ap (λ (k : ℕ). zeros k) (let e : suc m + n ≡ suc (m + n) = omega arith in e)
    ∙ ap (λ (t : List ℕ). 0 ∷ t) (zeros_add m n)

-- For any bytes, converting them to digits, followed by any number of zero digits, and back gives
-- the bytes again, followed by the zero bytes that the extra digits fill.
pub bits_to_bytes-bytes_to_bits :
    (bytes : List ℕ) (n : ℕ)
    → All IsByte bytes
    → bits_to_bytes (bytes_to_bits bytes ++ zeros n) ≡ bytes ++ zeros ((n + 7) / 8)
unfolding bits_to_bytes
bits_to_bytes-bytes_to_bits bytes n h =
    bits_to_bytes_from 0 (bytes_to_bits bytes ++ zeros n)
      (zeros ((length (bytes_to_bits bytes ++ zeros n) + 7) / 8))
    ≡⟨ ap (bits_to_bytes_from 0 (bytes_to_bits bytes ++ zeros n)) size ⟩
      bits_to_bytes_from 0 (bytes_to_bits bytes ++ zeros n)
        (zeros (length bytes) ++ zeros ((n + 7) / 8))
    ≡⟨ bytes_step bytes [] (zeros ((n + 7) / 8)) (zeros n) h ⟩
      bits_to_bytes_from (8 * (0 + length bytes)) (zeros n) (bytes ++ zeros ((n + 7) / 8))
    ≡⟨ zeros_step n _ _ ⟩ bytes ++ zeros ((n + 7) / 8) ∎
  where
    size :
        zeros ((length (bytes_to_bits bytes ++ zeros n) + 7) / 8)
        ≡ zeros (length bytes) ++ zeros ((n + 7) / 8)
    size =
        ap (λ (k : ℕ). zeros k)
          (omega (
            arith,
            length-append (bytes_to_bits bytes) (zeros n),
            length-bytes_to_bits bytes,
            length-zeros n,
          ))
        ∙ zeros_add (length bytes) ((n + 7) / 8)

-- ===== src/Dmr/Voice/Total.antt =====
-- voice.go: where the parsers of embedded signalling panic, and where they do not.
use go_dmr.Base.{
  ℕ, zero, suc, ◌+◌, ◌-◌, ◌^◌, ◌<◌, ◌≡◌, ◌≢◌, refl, ap, bit_or, ltb, ◌==◌, Bool, true, false,
  if_holds, Bool-cases, inl, inr, some, sym, ◌∙◌, ◌++◌, copy, zeros, List, [], ◌∷◌, length, get_or,
  take, drop, all_below, all_below_sound, arith, bytes_eq,
}
use go_dmr.Base.Outcome.{ok, panic}
use go_dmr.Checks.QuadRes.{parity_bits, valid_data_parity, data_value, check}
use go_dmr.Dmr.Bits.{to_bits}
use go_dmr.Dmr.Voice.{
  parse_emb, parse_emb_bits_from_sync, parse_embedded_signalling_lc_from_sync_bits,
  deinterleave_embedded_signalling_lc,
}

or_small : all_below 128 (λ v. all_below 7 (λ k. ltb (bit_or v (2 ^ k)) 128)) ≡ true
unfolding all_below
or_small = refl

bit_or-lt : (v k : ℕ) → v < 128 → k < 7 → bit_or v (2 ^ k) < 128
bit_or-lt v k hv hk =
    let e : ltb (bit_or v (2 ^ k)) 128 ≡ true =
      all_below_sound 7 (λ j. ltb (bit_or v (2 ^ j)) 128)
        (all_below_sound 128 (λ u. all_below 7 (λ j. ltb (bit_or u (2 ^ j)) 128)) or_small v hv) k
        hk in
    ground (arith, e)

data_value-lt :
    (n col : ℕ) (bits : List ℕ) (value : ℕ)
    → 0 < col
    → value < 128
    → data_value n col bits value < 128
unfolding data_value
data_value-lt zero col bits value hc hv = hv
data_value-lt (suc n) col bits value hc hv = data_value-lt n (col + 1) bits _ (omega arith) (
    if_holds (λ (x : ℕ). x < 128) (get_or bits col 0 == 1) (bit_or value (2 ^ (7 - col))) value
      (bit_or-lt value (7 - col) hv (omega arith)) hv)

-- The table of parities is only as long as numbers of seven bits, but the first bit counts for 128.
check-eq-some : (bits : List ℕ) → get_or bits 0 0 ≢ 1 → (valid : Bool) × (check bits ≡ some valid)
unfolding check valid_data_parity
check-eq-some bits h =
    let low : (get_or bits 0 0 == 1) ≡ false = ground (arith, h) in
    let small : data_value 7 0 bits 0 < 128 =
      unfold data_value in rw low (data_value-lt 6 1 bits 0 (omega arith) (omega arith)) in
    let found : ltb (data_value 7 0 bits 0) 128 ≡ true = ground (arith, small) in
    elim (Bool-cases (ltb (length bits) 16)) [
      | inl short ↦ (false, rw short refl)
      | inr long ↦ (
        bytes_eq (take 9 (drop 7 bits)) (parity_bits (to_bits (data_value 7 0 bits 0))),
        rw (long, found) refl,
      )
    ]

pub parse_emb-ne-panic : (bits : List ℕ) → get_or bits 0 0 ≢ 1 → parse_emb bits ≢ panic
unfolding parse_emb
parse_emb-ne-panic bits h e = let (valid, found) = check-eq-some bits h in ground (arith, found)

pub parse_emb_bits-ne-panic : (sync : List ℕ) → parse_emb_bits_from_sync sync ≢ panic
unfolding parse_emb_bits_from_sync
parse_emb_bits-ne-panic sync e = ground arith

pub parse_signalling-ne-panic :
    (sync : List ℕ) → parse_embedded_signalling_lc_from_sync_bits sync ≢ panic
unfolding parse_embedded_signalling_lc_from_sync_bits
parse_signalling-ne-panic sync e = ground arith

pub deinterleave-ne-panic : (bits : List ℕ) → deinterleave_embedded_signalling_lc bits ≢ panic
unfolding deinterleave_embedded_signalling_lc
deinterleave-ne-panic bits e = ground arith

-- The first bit of the EMB field is that of the SYNC bits.
pub parse_emb_bits-first :
    (sync bits : List ℕ)
    → parse_emb_bits_from_sync sync ≡ ok bits
    → get_or bits 0 0 ≡ get_or sync 0 0
unfolding parse_emb_bits_from_sync
parse_emb_bits-first [] bits e = absurd (ground (arith, e))
parse_emb_bits-first (b ∷ sync) bits e =
    let made : copy (zeros 8) (take 8 (b ∷ sync)) ++ copy (zeros 8) (drop 40 (b ∷ sync)) ≡ bits =
      ground (arith, e) in
    ap (λ (t : List ℕ). get_or t 0 0) (sym made) ∙ unfold copy in refl

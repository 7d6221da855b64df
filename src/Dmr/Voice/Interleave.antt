-- ===== src/Dmr/Voice/Interleave.antt =====
-- Interleaving a link control of embedded signalling and back.
use go_dmr.Base.{
  ℕ, zero, suc, ◌+◌, ◌≡◌, refl, sym, ◌∙◌, ◌≤◌, Bool-cases, inl, inr, true, false, if◌then◌else◌,
  some, List, [], ◌∷◌, length, arith,
}
use go_dmr.Base.Outcome.{ok}
use go_dmr.Dmr.Voice.{
  EmbeddedSignallingLc, is_checksum, interleave_from, interleave, deinterleave_from,
  deinterleave_embedded_signalling_lc,
}

-- How many of `n` places from `i` on are the checksum's.
unfoldable places : ℕ → ℕ → ℕ
places zero i = 0
places (suc n) i = (if is_checksum i then 1 else 0) + places n (i + 1)

places-le : (n i : ℕ) → places n i ≤ n
unfolding places
places-le zero i = omega arith
places-le (suc n) i = ground (arith, places-le n (i + 1))

-- Interleaving from `i` on gives something, from which both parts come back.
abbrev ComesBack : ℕ → ℕ → List ℕ → List ℕ → Type 0
ComesBack n i bits checksum =
    (out : List ℕ) × (interleave_from n i bits checksum ≡ some out)
    × (length out ≡ n)
    × (deinterleave_from i out ≡ (bits, checksum))

at_checksum :
    (n i c : ℕ) (bits checksum : List ℕ)
    → is_checksum i ≡ true
    → ComesBack n (i + 1) bits checksum
    → ComesBack (suc n) i bits (c ∷ checksum)
unfolding interleave_from deinterleave_from
at_checksum n i c bits checksum here (out, made, size, back) =
    (c ∷ out, ground (arith, here, made), omega arith, ground (arith, here, back))

at_bit :
    (n i b : ℕ) (bits checksum : List ℕ)
    → is_checksum i ≡ false
    → ComesBack n (i + 1) bits checksum
    → ComesBack (suc n) i (b ∷ bits) checksum
unfolding interleave_from deinterleave_from
at_bit n i b bits checksum there (out, made, size, back) =
    (b ∷ out, ground (arith, there, made), omega arith, ground (arith, there, back))

comes_back :
    (n i : ℕ) (bits checksum : List ℕ)
    → length checksum ≡ places n i
    → length bits + length checksum ≡ n
    → ComesBack n i bits checksum
unfolding interleave_from deinterleave_from places
comes_back zero i [] [] e f = ([], refl, refl, refl)
comes_back zero i (b ∷ bits) checksum e f = absurd (omega arith)
comes_back zero i bits (c ∷ checksum) e f = absurd (omega arith)
comes_back (suc n) i [] [] e f = absurd (omega arith)
comes_back (suc n) i (b ∷ bits) [] e f = elim (Bool-cases (is_checksum i)) [
  | inl here ↦ absurd (ground (arith, here, e))
  | inr there ↦
      at_bit n i b bits [] there
        (comes_back n (i + 1) bits [] (ground (arith, there, e)) (omega arith))
]
comes_back (suc n) i [] (c ∷ checksum) e f = elim (Bool-cases (is_checksum i)) [
  | inl here ↦
      at_checksum n i c [] checksum here
        (comes_back n (i + 1) [] checksum (ground (arith, here, e)) (omega arith))
  | inr there ↦ absurd (ground (arith, there, e, places-le n (i + 1), f))
]
comes_back (suc n) i (b ∷ bits) (c ∷ checksum) e f = elim (Bool-cases (is_checksum i)) [
  | inl here ↦
      at_checksum n i c (b ∷ bits) checksum here
        (comes_back n (i + 1) (b ∷ bits) checksum (ground (arith, here, e)) (omega arith))
  | inr there ↦
      at_bit n i b bits (c ∷ checksum) there
        (comes_back n (i + 1) bits (c ∷ checksum) (ground (arith, there, e)) (omega arith))
]

-- For every link control of 72 bits with a checksum of five, `Interleave` gives 77 bits, from which
-- `DeinterleaveEmbeddedSignallingLC` gives the link control back.
pub deinterleave-interleave :
    (e : EmbeddedSignallingLc)
    → length e.bits ≡ 72
    → length e.checksum ≡ 5
    → (out : List ℕ) × (interleave e ≡ some out) × (deinterleave_embedded_signalling_lc out ≡ ok e)
unfolding interleave deinterleave_embedded_signalling_lc
deinterleave-interleave e hb hc =
    let five : places 77 0 ≡ 5 = unfold places is_checksum in refl in
    let (out, made, size, back) = comes_back 77 0 e.bits e.checksum (hc ∙ sym five) (omega arith) in
    (out, made, ground (arith, size, back))

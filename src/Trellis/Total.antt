-- ===== src/Trellis/Total.antt =====
-- `Decode` of the trellis code never panics, and leaves a buffer of the same length.
use go_dmr.Base.{
  ℕ, zero, suc, ◌+◌, ◌*◌, ◌≤◌, ◌≡◌, ◌≢◌, refl, ap, ◌∙◌, leb, none, some, List, [], ◌∷◌, length,
  length-set, get_elem?-eq-some, length-copy_dst, set, zeros, arith,
}
use go_dmr.Base.Outcome.{Outcome, ok, err, panic, ◌>>=◌, require}
use go_dmr.Trellis.{
  Error, short_buffer, interleave_matrix, dibits_of, place, points_of, match_row, tribits_from,
  extract_dibits, deinterleave, constellation_points, extract_tribits, extract_binary, decode,
}

length-points_of : (k : ℕ) (ds : List ℕ) → length ds ≡ 2 * k → length (points_of ds) ≡ k
unfolding points_of
length-points_of zero [] e = refl
length-points_of (suc k) [] e = absurd (omega arith)
length-points_of k (a ∷ []) e = absurd (omega arith)
length-points_of zero (a ∷ b ∷ ds) e = absurd (omega arith)
length-points_of (suc k) (a ∷ b ∷ ds) e = ap suc (length-points_of k ds (omega arith))

length-place_out : (ms ds out : List ℕ) → length (place ms ds out) ≡ length out
unfolding place
length-place_out [] ds out = refl
length-place_out (m ∷ ms) [] out = refl
length-place_out (m ∷ ms) (d ∷ ds) out = length-place_out ms ds (set out m d) ∙ length-set out m d

tribits_from-ne-panic :
    (n i last : ℕ) (points : List ℕ) → i + n ≤ length points → tribits_from n i last points ≢ panic
unfolding tribits_from
tribits_from-ne-panic zero i last points h e = cc
tribits_from-ne-panic (suc n) i last points h e =
    let (p, got) = get_elem?-eq-some points i (omega arith) in
    elim (match_row 8 (last * 8) (last * 8) p none)
        as (λ r. match_row 8 (last * 8) (last * 8) p none ≡ r → ⊥) [
          | none ↦ λ m. ground (arith, got, m)
          | some t ↦
              λ m. ground (arith, got, m, tribits_from-ne-panic n (i + 1) t points (omega arith))
        ]
      refl

pub decode-ne-panic : (bits buffer : List ℕ) → decode bits buffer ≢ panic
unfolding decode extract_dibits deinterleave constellation_points extract_tribits extract_binary
decode-ne-panic bits buffer e =
    let ordered = place interleave_matrix (dibits_of bits) (zeros 98) in
    let size = length-place_out interleave_matrix (dibits_of bits) (zeros 98) in
    let points = length-points_of 49 ordered (omega (arith, size)) in
    let tribits = tribits_from-ne-panic 48 0 0 (points_of ordered) (omega (arith, points)) in
    ground (arith, tribits)

module _ (n : ℕ) where
  abbrev HasLength : Outcome Error (List ℕ) → Type 0
  HasLength r = (out : List ℕ) → r ≡ ok out → length out ≡ n

  bind-HasLength :
      {A : Type 0} (m : Outcome Error A) (f : A → Outcome Error (List ℕ))
      → ((a : A) → HasLength (f a))
      → HasLength (m >>= f)
  bind-HasLength (ok a) f h = h a
  bind-HasLength (err x) f h = λ out e. cc
  bind-HasLength panic f h = λ out e. cc

pub length-decode :
    (bits buffer out : List ℕ) → decode bits buffer ≡ ok out → length out ≡ length buffer
unfolding decode
length-decode bits buffer =
    let n = length buffer in
    bind-HasLength n (require (leb 18 (length buffer)) short_buffer) _ (λ _.
      bind-HasLength n (extract_dibits bits) _ (λ dibits.
        bind-HasLength n (deinterleave dibits) _ (λ ordered.
          bind-HasLength n (constellation_points ordered) _ (λ points.
            bind-HasLength n (extract_tribits points) _ (λ tribits.
              bind-HasLength n (extract_binary tribits) _
                (λ binary out e. grind (arith, e, length-copy_dst)))))))

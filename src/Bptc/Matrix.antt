-- ===== src/Bptc/Matrix.antt =====
-- The interleaving of the block product turbo code.
use go_dmr.Base.{
  ℕ, zero, suc, ◌+◌, ◌<◌, ◌≡◌, refl, sym, ap, ap₂, ◌∙◌, ltb, ◌==◌, ◌&&◌, not, Bool, true, List, [],
  ◌∷◌, length, length-set, get_or, get_or-set_self, get_or-set_ne, set, arith,
}
use go_dmr.Bptc.{dm, deinterleave, interleave}

-- Place `k` of the matrix is none of the `n` places from `i` on.
fresh : ℕ → ℕ → ℕ → Bool
fresh zero i k = true
fresh (suc n) i k = not (k == dm i) && fresh n (i + 1) k

-- The `n` places from `i` on are different, and in a block.
distinct : ℕ → ℕ → Bool
distinct zero i = true
distinct (suc n) i = ltb (dm i) 196 && fresh n (i + 1) (dm i) && distinct n (i + 1)

matrix_distinct : distinct 196 1 ≡ true
unfolding distinct fresh dm
matrix_distinct = refl

get_or-interleave :
    (temp info : List ℕ) (i k : ℕ)
    → fresh (length temp) i k ≡ true
    → get_or (interleave i temp info) k 0 ≡ get_or info k 0
unfolding interleave fresh
get_or-interleave [] info i k h = refl
get_or-interleave (b ∷ temp) info i k h =
    get_or-interleave temp (set info (dm i) b) (i + 1) k (ground (arith, h))
    ∙ get_or-set_ne info (dm i) k b 0 (λ e. ground (arith, h, e))

pub length-interleave : (temp info : List ℕ) (i : ℕ) → length (interleave i temp info) ≡ length info
unfolding interleave
length-interleave [] info i = refl
length-interleave (b ∷ temp) info i =
    length-interleave temp (set info (dm i) b) (i + 1) ∙ length-set info (dm i) b

deinterleave-interleave_from :
    (temp info : List ℕ) (i : ℕ)
    → 195 < length info
    → distinct (length temp) i ≡ true
    → deinterleave (length temp) i (interleave i temp info) ≡ temp
unfolding deinterleave interleave distinct
deinterleave-interleave_from [] info i size h = refl
deinterleave-interleave_from (b ∷ temp) info i size h =
    ap₂ (λ (x : ℕ) (t : List ℕ). x ∷ t)
      (get_or-interleave temp (set info (dm i) b) (i + 1) (dm i) (ground (arith, h))
        ∙ get_or-set_self info (dm i) b 0 (ground (arith, h, size)))
      (deinterleave-interleave_from temp (set info (dm i) b) (i + 1)
        (omega (arith, length-set info (dm i) b, size)) (ground (arith, h)))

-- The deinterleaving of `Decode` undoes the interleaving of `Encode`.
pub deinterleave-interleave_block :
    (temp info : List ℕ)
    → length temp ≡ 196
    → 195 < length info
    → deinterleave 196 1 (interleave 1 temp info) ≡ temp
deinterleave-interleave_block temp info e size =
    ap (λ (n : ℕ). deinterleave n 1 (interleave 1 temp info)) (sym e)
    ∙ deinterleave-interleave_from temp info 1 size
        (ap (λ (n : ℕ). distinct n 1) e ∙ matrix_distinct)

-- ===== src/Trellis/Stages.antt =====
-- Each stage of the decoder undoes a stage of the encoder.
use go_dmr.Base.{
  ℕ, zero, suc, ◌<◌, ◌≡◌, refl, sym, ap, ap₂, ◌∙◌, ltb, ◌==◌, ==_iff, ◌&&◌, ◌||◌, Bool, Bool-cases,
  true, false, inl, inr, all_below, all_below_sound, agree_below, List, [], ◌∷◌, length, length-set,
  get_or, get_or-set_self, get_or-set_ne, list_ext, set, zeros, All, arith, if◌then◌else◌,
}
use mathlib.Core.Path.{subst}
use go_dmr.Trellis.{
  interleave_matrix, minus_one, minus_three, dibit, dibits_of, place, point, points_of,
}
use go_dmr.Trellis.Encode.{first_dibits, second_dibits, encode_dibits, gather, encode_bits}

abbrev pub Below : ℕ → ℕ → Type 0
Below n x = x < n

abbrev pub is_dibit : ℕ → Bool
is_dibit d = d == 3 || d == 1 || d == minus_one || d == minus_three

abbrev pub IsDibit : ℕ → Type 0
IsDibit d = is_dibit d ≡ true

-- Bits and dibits.
dibit_back :
    (d : ℕ)
    → IsDibit d
    → dibit
        (if d == 3 then 0 else if d == 1 then 0 else 1)
        (if d == 3 then 1 else if d == minus_three then 1 else 0)
      ≡ d
unfolding dibit
dibit_back d h = ground (arith, h)

pub dibits_of-encode_bits : (ds : List ℕ) → All IsDibit ds → dibits_of (encode_bits ds) ≡ ds
unfolding dibits_of
dibits_of-encode_bits [] h = refl
dibits_of-encode_bits (d ∷ ds) h =
    ap₂ (λ (x : ℕ) (t : List ℕ). x ∷ t) (dibit_back d h.0) (dibits_of-encode_bits ds h.1)

-- The matrix.
abbrev mem : ℕ → List ℕ → Bool
mem k [] = false
mem k (m ∷ ms) = k == m || mem k ms

get_or-place :
    (n : ℕ) (ms ds out : List ℕ) (k : ℕ)
    → length out ≡ n
    → All (Below n) ms
    → get_or (place ms (gather ms ds) out) k 0
      ≡ (if mem k ms then get_or ds k 0 else get_or out k 0)
unfolding place
get_or-place n [] ds out k e h = refl
get_or-place n (m ∷ ms) ds out k e h =
    let rest =
      get_or-place n ms ds (set out m (get_or ds m 0)) k (length-set out m (get_or ds m 0) ∙ e)
        h.1 in
    elim (Bool-cases (k == m)) [
      | inl same ↦
          let at : k ≡ m = (==_iff k m).0 same in
          let written : get_or (set out m (get_or ds m 0)) k 0 ≡ get_or ds k 0 =
            ap (λ (j : ℕ). get_or (set out m (get_or ds m 0)) j 0) at
            ∙ get_or-set_self out m (get_or ds m 0) 0 (omega (arith, e, h.0))
            ∙ ap (λ (j : ℕ). get_or ds j 0) (sym at) in
          rest ∙ rw same (ground (arith, written))
      | inr other ↦
          let kept = get_or-set_ne out m k (get_or ds m 0) 0 (λ at. ground (arith, other, at)) in
          rest ∙ rw other (ground (arith, kept))
    ]

length-place : (ms ds out : List ℕ) → length (place ms ds out) ≡ length out
unfolding place
length-place [] ds out = refl
length-place (m ∷ ms) [] out = refl
length-place (m ∷ ms) (d ∷ ds) out = length-place ms ds (set out m d) ∙ length-set out m d

all_small : List ℕ → Bool
all_small [] = true
all_small (m ∷ ms) = ltb m 98 && all_small ms

all_small_sound : (ms : List ℕ) → all_small ms ≡ true → All (Below 98) ms
unfolding all_small
all_small_sound [] h = tt
all_small_sound (m ∷ ms) h = (ground (arith, h), all_small_sound ms (ground (arith, h)))

matrix-Below : All (Below 98) interleave_matrix
unfolding all_small
matrix-Below = all_small_sound interleave_matrix refl

matrix-full : all_below 98 (λ k. mem k interleave_matrix) ≡ true
unfolding all_below
matrix-full = refl

-- Every place of the matrix is written once.
pub place-gather :
    (ds : List ℕ)
    → length ds ≡ 98
    → place interleave_matrix (gather interleave_matrix ds) (zeros 98) ≡ ds
place-gather ds e =
    list_ext _ ds (length-place interleave_matrix (gather interleave_matrix ds) (zeros 98) ∙ sym e)
      (λ k lt.
        let size = length-place interleave_matrix (gather interleave_matrix ds) (zeros 98) in
        let full =
          all_below_sound 98 (λ j. mem j interleave_matrix) matrix-full k
            (omega (arith, size, lt)) in
        get_or-place 98 interleave_matrix ds (zeros 98) k refl matrix-Below
        ∙ ap (λ (b : Bool). if b then get_or ds k 0 else get_or (zeros 98) k 0) full)

get_or-All : (P : ℕ → Type 0) (xs : List ℕ) (k : ℕ) → All P xs → k < length xs → P (get_or xs k 0)
get_or-All P [] k h lt = absurd (omega arith)
get_or-All P (x ∷ xs) zero h lt = h.0
get_or-All P (x ∷ xs) (suc k) h lt = get_or-All P xs k h.1 (omega arith)

gather-All :
    (P : ℕ → Type 0) (ms ds : List ℕ) → All P ds → All (Below (length ds)) ms → All P (gather ms ds)
gather-All P [] ds h b = tt
gather-All P (m ∷ ms) ds h b = (get_or-All P ds m h b.0, gather-All P ms ds h b.1)

pub gather-IsDibit :
    (ds : List ℕ) → length ds ≡ 98 → All IsDibit ds → All IsDibit (gather interleave_matrix ds)
gather-IsDibit ds e h =
    gather-All IsDibit interleave_matrix ds h
      (subst (λ (n : ℕ). All (Below n) interleave_matrix) (sym e) matrix-Below)

pub length-gather : (ms ds : List ℕ) → length (gather ms ds) ≡ length ms
length-gather [] ds = refl
length-gather (m ∷ ms) ds = ap suc (length-gather ms ds)

-- Points.
point_back : (p : ℕ) → p < 16 → point (get_or first_dibits p 0) (get_or second_dibits p 0) ≡ p
point_back p h =
    agree_below 16 (λ x. point (get_or first_dibits x 0) (get_or second_dibits x 0)) (λ x. x)
      (unfold all_below point in refl) p h

pub points_of-encode_dibits : (ps : List ℕ) → All (Below 16) ps → points_of (encode_dibits ps) ≡ ps
unfolding points_of
points_of-encode_dibits [] h = refl
points_of-encode_dibits (p ∷ ps) h =
    ap₂ (λ (x : ℕ) (t : List ℕ). x ∷ t) (point_back p h.0) (points_of-encode_dibits ps h.1)

dibits_good :
    (p : ℕ) → p < 16 → IsDibit (get_or first_dibits p 0) × IsDibit (get_or second_dibits p 0)
dibits_good p h = (
  all_below_sound 16 (λ x. is_dibit (get_or first_dibits x 0)) (unfold all_below in refl) p h,
  all_below_sound 16 (λ x. is_dibit (get_or second_dibits x 0)) (unfold all_below in refl) p h,
)

pub encode_dibits-IsDibit : (ps : List ℕ) → All (Below 16) ps → All IsDibit (encode_dibits ps)
encode_dibits-IsDibit [] h = tt
encode_dibits-IsDibit (p ∷ ps) h =
    let (a, b) = dibits_good p h.0 in (a, (b, encode_dibits-IsDibit ps h.1))

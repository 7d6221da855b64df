-- ===== src/Base/Reads.antt =====
-- What parts, copies and zeros of a list read as.
use Prim.Native.Nat.{ℕ, zero, suc, ◌+◌, ◌≤◌, ◌<◌}
use mathlib.Core.Path.{◌≡◌, refl, ap, ap₂, ◌∙◌}
use mathlib.Core.List.{List, [], ◌∷◌, ◌++◌}
use native.Mathlib.Omega.{arith}
use go_dmr.Base.Lists.{
  length, length-append, length-drop, take, take_all, drop, get_or, get_or-append,
  get_or-append_left, zeros, copy,
}

module _ {ℓ} {A : Type ℓ} where
  pub get_or-drop :
      (n : ℕ) (xs : List A) (i : ℕ) (d : A) → get_or (drop n xs) i d ≡ get_or xs (n + i) d
  get_or-drop zero xs i d = ap (λ (k : ℕ). get_or xs k d) (omega arith)
  get_or-drop (suc n) [] i d = refl
  get_or-drop (suc n) (x ∷ xs) i d =
      get_or-drop n xs i d
      ∙ ap (λ (k : ℕ). get_or (x ∷ xs) k d) (let e : suc (n + i) ≡ suc n + i = omega arith in e)

  pub get_or-take :
      (n : ℕ) (xs : List A) (i : ℕ) (d : A) → i < n → get_or (take n xs) i d ≡ get_or xs i d
  get_or-take zero xs i d h = absurd (omega arith)
  get_or-take (suc n) [] i d h = refl
  get_or-take (suc n) (x ∷ xs) zero d h = refl
  get_or-take (suc n) (x ∷ xs) (suc i) d h = get_or-take n xs i d (omega arith)

pub get_or-zeros : (n i : ℕ) → get_or (zeros n) i 0 ≡ 0
get_or-zeros zero i = refl
get_or-zeros (suc n) zero = refl
get_or-zeros (suc n) (suc i) = get_or-zeros n i

pub length-copy : (dst src : List ℕ) → length src ≤ length dst → length (copy dst src) ≡ length dst
unfolding copy
length-copy dst src h =
    length-append (take (length dst) src) (drop (length src) dst)
    ∙ omega (arith, ap length (take_all (length dst) src h), length-drop (length src) dst, h)

-- A copy reads as the source where it reaches, and as the destination behind it.
pub get_or-copy_src :
    (dst src : List ℕ) (i : ℕ)
    → length src ≤ length dst
    → i < length src
    → get_or (copy dst src) i 0 ≡ get_or src i 0
unfolding copy
get_or-copy_src dst src i h lt =
    ap (λ (t : List ℕ). get_or (t ++ drop (length src) dst) i 0) (take_all (length dst) src h)
    ∙ get_or-append_left src (drop (length src) dst) i 0 lt

pub get_or-copy_dst :
    (dst src : List ℕ) (i : ℕ)
    → length src ≤ length dst
    → get_or (copy dst src) (length src + i) 0 ≡ get_or dst (length src + i) 0
unfolding copy
get_or-copy_dst dst src i h =
    ap (λ (t : List ℕ). get_or (t ++ drop (length src) dst) (length src + i) 0)
      (take_all (length dst) src h)
    ∙ get_or-append src (drop (length src) dst) i 0
    ∙ get_or-drop (length src) dst i 0

-- Two lists of numbers that read alike.
pub list_ext :
    (xs ys : List ℕ)
    → length xs ≡ length ys
    → ((k : ℕ) → k < length xs → get_or xs k 0 ≡ get_or ys k 0)
    → xs ≡ ys
list_ext [] [] e h = refl
list_ext [] (y ∷ ys) e h = absurd (omega arith)
list_ext (x ∷ xs) [] e h = absurd (omega arith)
list_ext (x ∷ xs) (y ∷ ys) e h =
    ap₂ (λ (z : ℕ) (t : List ℕ). z ∷ t) (h 0 (omega arith))
      (list_ext xs ys (omega arith) (λ k lt. h (suc k) (omega arith)))

-- A copy keeps the length of what it is copied to, whatever the length of the source.
pub length-copy_dst : (dst src : List ℕ) → length (copy dst src) ≡ length dst
unfolding copy
length-copy_dst [] [] = refl
length-copy_dst [] (y ∷ src) = refl
length-copy_dst (x ∷ dst) [] = refl
length-copy_dst (x ∷ dst) (y ∷ src) = ap suc (length-copy_dst dst src)

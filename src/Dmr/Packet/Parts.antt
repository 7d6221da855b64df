-- ===== src/Dmr/Packet/Parts.antt =====
-- The parts of a frame of 264 bits, as the accessors read them.
use go_dmr.Base.{
  ℕ, zero, suc, ◌+◌, ◌≤◌, ◌≡◌, refl, sym, ap, ap₂, ◌∙◌, List, [], ◌∷◌, ◌++◌, length, take, drop,
  take-append, zeros, copy, copy_whole, arith,
}
use mathlib.Core.List.{append_assoc}
use go_dmr.Dmr.Packet.{Packet, slice, sync_bits, info_bits, slot_type_bits}

drop_past : (a c : List ℕ) (k n : ℕ) → k ≡ length a + n → drop k (a ++ c) ≡ drop n c
drop_past [] c k n h = ap (λ (t : ℕ). drop t c) (let e : k ≡ n = omega (arith, h) in e)
drop_past (x ∷ a) c zero n h = absurd (omega (arith, h))
drop_past (x ∷ a) c (suc k) n h = drop_past a c k n (omega (arith, h))

take_past : (a c : List ℕ) (k n : ℕ) → k ≡ length a + n → take k (a ++ c) ≡ a ++ take n c
take_past [] c k n h = ap (λ (t : ℕ). take t c) (let e : k ≡ n = omega (arith, h) in e)
take_past (x ∷ a) c zero n h = absurd (omega (arith, h))
take_past (x ∷ a) c (suc k) n h = ap (λ (t : List ℕ). x ∷ t) (take_past a c k n (omega (arith, h)))

drop_within : (a c : List ℕ) (n : ℕ) → n ≤ length a → drop n (a ++ c) ≡ drop n a ++ c
drop_within a c zero h = refl
drop_within [] c (suc n) h = absurd (omega (arith, h))
drop_within (x ∷ a) c (suc n) h = drop_within a c n (omega (arith, h))

take_part : (a c : List ℕ) (k : ℕ) → k ≡ length a → take k (a ++ c) ≡ a
take_part a c k h = ap (λ (t : ℕ). take t (a ++ c)) h ∙ take-append a c

-- The air interface's layout: information, slot type, SYNC, slot type, information.
abbrev pub layout : List ℕ → List ℕ → List ℕ → List ℕ → List ℕ → List ℕ
layout i1 s1 y s2 i2 = i1 ++ (s1 ++ (y ++ (s2 ++ i2)))

-- For a frame that consists of 98 information bits, ten slot type bits, 48 SYNC bits, ten more slot type
-- bits and 98 more information bits: `SyncBits` is the middle part, `InfoBits` joins the outer parts,
-- `SlotTypeBits` joins the two slot type parts, and leaves in the frame the second of them in place of
-- the first ten SYNC bits.
pub slot_type_bits-layout :
    (p : Packet) (i1 s1 y s2 i2 : List ℕ)
    → length i1 ≡ 98
    → length s1 ≡ 10
    → length y ≡ 48
    → length s2 ≡ 10
    → length i2 ≡ 98
    → p.bits ≡ layout i1 s1 y s2 i2
    → (sync_bits p ≡ y)
      × (info_bits p ≡ i1 ++ i2)
      × (slot_type_bits p ≡ (s1 ++ s2, record p { bits = layout i1 s1 (s2 ++ drop 10 y) s2 i2 }))
unfolding sync_bits info_bits slot_type_bits
slot_type_bits-layout p i1 s1 y s2 i2 h1 h2 h3 h4 h5 e =
    let from108 : drop 108 p.bits ≡ y ++ (s2 ++ i2) =
      ap (drop 108) e ∙ drop_past i1 _ 108 10 (omega arith) ∙ drop_past s1 _ 10 0 (omega arith) in
    let from98 : drop 98 p.bits ≡ s1 ++ (y ++ (s2 ++ i2)) =
      ap (drop 98) e ∙ drop_past i1 _ 98 0 (omega arith) in
    let from156 : drop 156 p.bits ≡ s2 ++ i2 =
      ap (drop 156) e
      ∙ drop_past i1 _ 156 58 (omega arith)
      ∙ drop_past s1 _ 58 48 (omega arith)
      ∙ drop_past y _ 48 0 (omega arith) in
    let from166 : drop 166 p.bits ≡ i2 =
      ap (drop 166) e
      ∙ drop_past i1 _ 166 68 (omega arith)
      ∙ drop_past s1 _ 68 58 (omega arith)
      ∙ drop_past y _ 58 10 (omega arith)
      ∙ drop_past s2 _ 10 0 (omega arith) in
    let from118 : drop (108 + length s2) p.bits ≡ drop 10 y ++ (s2 ++ i2) =
      ap (λ (k : ℕ). drop (108 + k) p.bits) h4
      ∙ ap (drop 118) e
      ∙ drop_past i1 _ 118 20 (omega arith)
      ∙ drop_past s1 _ 20 10 (omega arith)
      ∙ drop_within y (s2 ++ i2) 10 (omega arith) in
    let second : slice 156 166 p.bits ≡ s2 =
      ap (take 10) from156 ∙ take_part s2 i2 10 (omega arith) in
    let first : slice 98 108 p.bits ≡ s1 = ap (take 10) from98 ∙ take_part s1 _ 10 (omega arith) in
    let until108 : take 108 p.bits ≡ i1 ++ s1 =
      ap (take 108) e
      ∙ take_past i1 _ 108 10 (omega arith)
      ∙ ap (λ (t : List ℕ). i1 ++ t) (take_part s1 _ 10 (omega arith)) in
    let outer : slice 0 98 p.bits ≡ i1 = ap (take 98) e ∙ take_part i1 _ 98 (omega arith) in
    let after : take 108 p.bits
          ++ (slice 156 166 p.bits ++ drop (108 + length (slice 156 166 p.bits)) p.bits)
        ≡ layout i1 s1 (s2 ++ drop 10 y) s2 i2 =
      ap (λ (x : List ℕ). take 108 p.bits ++ (x ++ drop (108 + length x) p.bits)) second
      ∙ ap₂ (λ (a b : List ℕ). a ++ (s2 ++ b)) until108 from118
      ∙ append_assoc i1 s1 _
      ∙ ap (λ (t : List ℕ). i1 ++ (s1 ++ t)) (sym (append_assoc s2 (drop 10 y) (s2 ++ i2))) in
    (
      ap (take 48) from108 ∙ take_part y _ 48 (omega arith),
      ap₂ (λ (a b : List ℕ). copy (zeros 98) a ++ copy (zeros 98) b) outer from166
          ∙ ap₂ (λ (a b : List ℕ). a ++ b) (copy_whole (zeros 98) i1 h1)
              (copy_whole (zeros 98) i2 h5),
      ap₂ (λ (a b : List ℕ). (a, record p { bits = b }))
          (ap₂ (λ (a b : List ℕ). a ++ b) first second) after,
    )

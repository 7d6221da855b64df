-- ===== src/Dmr/DataBlock/Total.antt =====
-- datablock.go: blocks of rate 3/4 and the fragments of them: nothing panics, and what a fragment stores.
use go_dmr.Base.{
  ℕ, zero, suc, ◌+◌, ◌-◌, ◌≤◌, ◌≡◌, ◌≢◌, refl, ◌∙◌, ltb, ◌==◌, Bool, true, false, inl, inr, none,
  some, List, [], ◌∷◌, length, length-append, length-drop, length-copy_dst, length-zeros, get_elem?,
  get_elem?-eq-some, zeros, take, drop, arith, All, if◌then◌else◌, ◌⊎◌,
}
use mathlib.Core.Path.{subst}
use go_dmr.Base.Outcome.{ok, panic}
use go_dmr.Dmr.DataBlock.{
  DataBlock, DataFragment, rate34_data, part, data_block_length, parse_data_block, append_block,
  combine_from, combine_data_blocks, last_crc,
}

pub parse_data_block-ne-panic :
    (buf : List ℕ) (confirmed : Bool)
    → length buf ≡ 18
    → parse_data_block buf rate34_data confirmed ≢ panic
unfolding parse_data_block part data_block_length
parse_data_block-ne-panic buf false h e = ground (arith, h)
parse_data_block-ne-panic buf true h e =
    let (b0, h0) = get_elem?-eq-some buf 0 (omega (arith, h)) in
    let (b1, h1) = get_elem?-eq-some buf 1 (omega (arith, h)) in ground (arith, h, h0, h1)

-- A block of rate 3/4 that is parsed is marked good and has sixteen bytes or eighteen.
pub parse_data_block-eq-ok :
    (buf : List ℕ) (confirmed : Bool) (db : DataBlock)
    → parse_data_block buf rate34_data confirmed ≡ ok db
    → (db.is_ok ≡ true) × (16 ≤ db.size)
unfolding parse_data_block part data_block_length
parse_data_block-eq-ok buf false db e = ground arith
parse_data_block-eq-ok buf true db e =
    elim (get_elem? buf 0) as (λ r. get_elem? buf 0 ≡ r → (db.is_ok ≡ true) × (16 ≤ db.size)) [
      | none ↦ λ h. ground (arith, h)
      | some b0 ↦ λ h.
          elim (get_elem? buf 1)
              as (λ r. get_elem? buf 1 ≡ r → (db.is_ok ≡ true) × (16 ≤ db.size)) [
                | none ↦ λ k. ground (arith, h, k)
                | some b1 ↦ λ k. ground (arith, h, k)
              ]
            refl
    ]
      refl

pub combine_data_blocks-ne-panic : (blocks : List DataBlock) → combine_data_blocks blocks ≢ panic
unfolding combine_data_blocks
combine_data_blocks-ne-panic blocks e = ground arith

-- A fragment at work: it has all its bytes, and stores nothing or at least a block.
record Filled (f : DataFragment) : Type 0 where
  pub size : length f.bytes_ ≡ 1500
  pub some_block : (f.stored ≡ 0) ⊎ (16 ≤ f.stored)

length-split : (n : ℕ) (xs : List ℕ) → length (take n xs) + (length xs - n) ≡ length xs
length-split zero xs = omega arith
length-split (suc n) [] = omega arith
length-split (suc n) (x ∷ xs) = omega (arith, length-split n xs)

append_block-Filled :
    (f : DataFragment) (b : DataBlock) → 16 ≤ b.size → Filled f → Filled (append_block f b)
unfolding append_block
append_block-Filled f b h k = record {
  size =
      length-append (take f.stored f.bytes_) _
      ∙ omega (
        arith,
        length-copy_dst (drop f.stored f.bytes_) (take b.size b.bytes_),
        length-drop f.stored f.bytes_,
        length-split f.stored f.bytes_,
        k.size,
      );
  some_block = inr (omega (arith, h));
}

choice-Filled : (t : Bool) (f g : DataFragment) → Filled f → Filled g → Filled (if t then f else g)
choice-Filled true f g h k = h
choice-Filled false f g h k = k

set_crc-Filled : (f : DataFragment) (crc : ℕ) → Filled f → Filled (record f { crc = crc })
set_crc-Filled f crc h = record { size = h.size; some_block = h.some_block }

-- Every block has at least sixteen bytes.
abbrev pub IsWhole : DataBlock → Type 0
IsWhole b = 16 ≤ b.size

combine_from-Filled :
    (blocks : List DataBlock) (f : DataFragment)
    → All IsWhole blocks
    → Filled f
    → Filled (combine_from blocks f)
unfolding combine_from
combine_from-Filled [] f h k = k
combine_from-Filled (b ∷ []) f h k =
    let stored = if ltb (f.stored + b.size - 4) (length f.bytes_) then append_block f b else f in
    choice-Filled (b.size == 0) f (record stored { crc = last_crc b }) k
      (set_crc-Filled stored (last_crc b) (
        choice-Filled (ltb (f.stored + b.size - 4) (length f.bytes_)) (append_block f b) f
          (append_block-Filled f b h.0 k) k))
combine_from-Filled (b ∷ c ∷ blocks) f h k =
    let more = if ltb (f.stored + b.size) (length f.bytes_) then append_block f b else f in
    combine_from-Filled (c ∷ blocks) (if b.size == 0 then f else more) h.1 (
      choice-Filled (b.size == 0) f more k (
        choice-Filled (ltb (f.stored + b.size) (length f.bytes_)) (append_block f b) f
          (append_block-Filled f b h.0 k) k))

-- What `CombineDataBlocks` makes of blocks of rate 3/4 has all its bytes, and stores nothing or at least
-- a block.
pub combine_data_blocks-eq-ok :
    (blocks : List DataBlock) (f : DataFragment)
    → All IsWhole blocks
    → combine_data_blocks blocks ≡ ok f
    → (length f.bytes_ ≡ 1500) × ((f.stored ≡ 0) ⊎ (16 ≤ f.stored))
unfolding combine_data_blocks
combine_data_blocks-eq-ok blocks f h e =
    let start : DataFragment = record { bytes_ = zeros 1500; stored = 0; needed = 0; crc = 0 } in
    let made =
      combine_from-Filled blocks start h
        (record { size = length-zeros 1500; some_block = inl refl }) in
    let same : combine_from blocks start ≡ f = ground (arith, e) in
    let whole : Filled f = subst Filled same made in (whole.size, whole.some_block)

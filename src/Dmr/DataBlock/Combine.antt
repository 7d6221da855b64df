-- ===== src/Dmr/DataBlock/Combine.antt =====
-- Combining the blocks of a fragment gives its bytes back.
use go_dmr.Base.{
  ℕ, zero, suc, ◌+◌, ◌-◌, ◌*◌, ◌/◌, ◌^◌, ◌≤◌, ◌<◌, ◌≡◌, refl, sym, ap, ap₂, ◌∙◌, ltb, Bool, true,
  List, length, length-take, length-zeros, get_or, get_or-take, list_ext, take, zeros, arith,
  if◌then◌else◌,
}
use mathlib.Core.Path.{subst}
use go_dmr.Base.Outcome.{ok}
use go_dmr.Dmr.Crc.Bounds.{crc32end-lt}
use go_dmr.Dmr.DataBlock.Fragment.{needed_blocks-room, block_length-le, length-blocks_from}
use go_dmr.Dmr.Crc.{crc32, crc32end}
use go_dmr.Dmr.DataBlock.{
  DataBlock, DataFragment, data_block_length, fragment_crc, blocks_from, prepared, data_blocks,
  combine_from, combined_crc, combine_data_blocks, max_packet_fragment_size,
}
use go_dmr.Dmr.DataBlock.Append.{padded, Filled}
use go_dmr.Dmr.DataBlock.Collect.{Combined, combine_all}

crc-same :
    (n i stored : ℕ) (bytes bytes' : List ℕ) (crc : ℕ)
    → ((j : ℕ) → j < i + 2 * n → get_or bytes' j 0 ≡ padded bytes stored j)
    → combined_crc n i bytes' crc ≡ fragment_crc n i stored bytes crc
unfolding combined_crc fragment_crc
crc-same zero i stored bytes bytes' crc h = refl
crc-same (suc n) i stored bytes bytes' crc h =
    ap (combined_crc n (i + 2) bytes')
      (ap₂ (λ (x y : ℕ). crc32 (crc32 crc x) y) (h (i + 1) (omega arith)) (h i (omega arith)))
    ∙ crc-same n (i + 2) stored bytes bytes' _ (λ j lt. h j (omega arith))

even_length :
    (data_type : ℕ) (confirm : Bool) → (half : ℕ) × (data_block_length data_type confirm ≡ 2 * half)
unfolding data_block_length
even_length data_type confirm = (data_block_length data_type confirm / 2, ground arith)

start-Filled :
    (p : ℕ → ℕ)
    → Filled
        (record { bytes_ = zeros max_packet_fragment_size; stored = 0; needed = 0; crc = 0 })
        0
        0
        p
start-Filled p = record {
  whole = length-zeros 1500;
  count = refl;
  content = λ j lt. absurd (omega arith);
}

abbrev start : DataFragment
start = record { bytes_ = zeros max_packet_fragment_size; stored = 0; needed = 0; crc = 0 }

-- All blocks of a fragment, from the first on.
whole_fragment :
    (f : DataFragment) (data_type size : ℕ)
    → 4 ≤ size
    → f.stored ≤ length f.bytes_
    → f.needed * size ≤ 1500
    → 0 < f.needed
    → f.crc < 2 ^ 32
    → Filled
        (combine_from (blocks_from f.needed f data_type size 0 0) start)
        (f.needed * size)
        (f.needed * size - 4)
        (padded f.bytes_ f.stored)
      × ((combine_from (blocks_from f.needed f data_type size 0 0) start).crc ≡ f.crc)
whole_fragment f data_type size four le fits some_block h =
    let n = f.needed - 1 in
    let back : suc n ≡ f.needed = omega arith in
    let same : (if ltb f.stored 0 then f.stored else 0) ≡ 0 = ground arith in
    let room : 0 + suc n * size ≤ 1500 = omega (arith, ap (λ (k : ℕ). k * size) back, fits) in
    let done =
      combine_all f data_type size four le fits n 0 0 start (omega arith) room h
        (start-Filled (padded f.bytes_ f.stored)) in
    subst
      (λ (k : ℕ).
        Filled (combine_from (blocks_from k f data_type size 0 0) start) (k * size) (k * size - 4)
          (padded f.bytes_ f.stored)
        × ((combine_from (blocks_from k f data_type size 0 0) start).crc ≡ f.crc))
      back
      (subst
        (λ (t : ℕ).
          Filled (combine_from (blocks_from (suc n) f data_type size 0 t) start) (suc n * size)
            (suc n * size - 4) (padded f.bytes_ f.stored)
          × ((combine_from (blocks_from (suc n) f data_type size 0 t) start).crc ≡ f.crc))
        same
        (subst
          (λ (k : ℕ). Combined f data_type size four le fits k (
            combine_from
              (blocks_from (suc n) f data_type size 0 (if ltb f.stored 0 then f.stored else 0))
              start))
          (omega arith) done))

-- What `CombineDataBlocks` returns where the checksum is right.
right_crc_accepted :
    (blocks : List DataBlock)
    → 0 < length blocks
    → crc32end (
        combined_crc
          (((combine_from blocks start).stored - 4 + 1) / 2)
          0
          (combine_from blocks start).bytes_
          0)
      ≡ (combine_from blocks start).crc
    → combine_data_blocks blocks ≡ ok (combine_from blocks start)
unfolding combine_data_blocks
right_crc_accepted blocks some_block right = ground (arith, right)

-- What `DataBlocks` makes of a fragment that fits.
prepared_lem :
    (df : DataFragment) (size : ℕ)
    → 4 ≤ size
    → (prepared df size).needed * size ≤ 1500
    → ((prepared df size).stored ≡ length df.bytes_)
      × ((prepared df size).bytes_ ≡ df.bytes_)
      × ((prepared df size).stored + 4 ≤ (prepared df size).needed * size)
      × ((prepared df size).crc < 2 ^ 32)
      × ((prepared df size).crc
          ≡ crc32end (
              fragment_crc
                (((prepared df size).needed * size - 4 + 1) / 2)
                0
                (prepared df size).stored
                df.bytes_
                df.crc))
unfolding prepared
prepared_lem df size four fits =
    let stored = if ltb 1500 (length df.bytes_) then 1500 else length df.bytes_ in
    let (room, close) = needed_blocks-room stored size four in
    (ground (arith, room, fits), refl, room, crc32end-lt _, refl)

pos_of_room : (n size m : ℕ) → m + 4 ≤ n * size → 0 < n
pos_of_room zero size m h = absurd (omega arith)
pos_of_room (suc n) size m h = omega arith

-- The checksum over what is stored is the one over the fragment.
Filled-crc :
    (g : DataFragment) (n half stored crc : ℕ) (bytes : List ℕ)
    → Filled g n (n - 4) (padded bytes stored)
    → n ≡ 2 * half
    → combined_crc ((g.stored - 4 + 1) / 2) 0 g.bytes_ crc
      ≡ fragment_crc ((n - 4 + 1) / 2) 0 stored bytes crc
Filled-crc g n half stored crc bytes v even =
    ap (λ (k : ℕ). combined_crc ((k - 4 + 1) / 2) 0 g.bytes_ crc) v.count
    ∙ crc-same ((n - 4 + 1) / 2) 0 stored bytes g.bytes_ crc
        (λ j lt. v.content j (omega (arith, even, lt)))

Filled-front :
    (g : DataFragment) (n k stored : ℕ) (bytes : List ℕ)
    → Filled g n k (padded bytes stored)
    → stored ≡ length bytes
    → stored ≤ k
    → stored ≤ 1500
    → take (length bytes) g.bytes_ ≡ bytes
Filled-front g n k stored bytes v e le room =
    let size : length (take (length bytes) g.bytes_) ≡ length bytes =
      length-take (length bytes) g.bytes_ (omega (arith, v.whole, e, room)) in
    list_ext (take (length bytes) g.bytes_) bytes size (λ j lt.
      let within : ltb j stored ≡ true = ground (arith, lt, size, e) in
      get_or-take (length bytes) g.bytes_ j 0 (omega (arith, lt, size))
      ∙ v.content j (omega (arith, lt, size, e, le))
      ∙ ap (λ (t : Bool). if t then get_or bytes j 0 else 0) within)

-- Where the blocks that a fragment needs are at most 1500 bytes together, and no checksum is left in it from
-- before: `CombineDataBlocks` of what `DataBlocks` returns succeeds, its checksum is right, and it
-- starts with the bytes of the fragment.
pub combine_data_blocks-data_blocks :
    (df : DataFragment) (data_type : ℕ) (confirm : Bool)
    → df.crc ≡ 0
    → 0 < data_block_length data_type confirm
    → (prepared df (data_block_length data_type confirm)).needed
        * data_block_length data_type confirm
      ≤ 1500
    → (f : DataFragment) × (blocks : List DataBlock) × (g : DataFragment) × (data_blocks df
          data_type confirm
        ≡ ok (f, blocks))
      × (combine_data_blocks blocks ≡ ok g)
      × (g.crc ≡ f.crc)
      × (take (length df.bytes_) g.bytes_ ≡ df.bytes_)
unfolding data_blocks
combine_data_blocks-data_blocks df data_type confirm fresh some_block fits =
    let size = data_block_length data_type confirm in
    let f = prepared df size in
    let four = block_length-le data_type confirm some_block in
    let (stored, bytes, room, small, crc) = prepared_lem df size four fits in
    let some_needed : 0 < f.needed = pos_of_room f.needed size f.stored room in
    let blocks = blocks_from f.needed f data_type size 0 0 in
    let (v, sealed) =
      whole_fragment f data_type size four (omega (arith, stored, ap length bytes)) fits some_needed
        small in
    let g = combine_from blocks start in
    let (half, even) = even_length data_type confirm in
    let right : crc32end (combined_crc ((g.stored - 4 + 1) / 2) 0 g.bytes_ 0) ≡ g.crc =
      ap (λ (t : ℕ). crc32end t)
        (Filled-crc g (f.needed * size) (f.needed * half) f.stored 0 f.bytes_ v
            (omega (arith, ap (λ (t : ℕ). f.needed * t) even))
          ∙ ap₂
              (λ (l : List ℕ) (c : ℕ). fragment_crc ((f.needed * size - 4 + 1) / 2) 0 f.stored l c)
              bytes (sym fresh))
      ∙ sym crc
      ∙ sym sealed in
    (
      f,
      blocks,
      g,
      ground (arith, some_block),
      right_crc_accepted blocks
          (omega (arith, length-blocks_from f.needed f data_type size 0 0, some_needed)) right,
      sealed,
      ap (λ (l : List ℕ). take (length l) g.bytes_) (sym bytes)
          ∙ Filled-front g (f.needed * size) (f.needed * size - 4) f.stored f.bytes_ v
              (stored ∙ ap length (sym bytes)) (omega (arith, room)) (omega (arith, room, fits))
          ∙ bytes,
    )

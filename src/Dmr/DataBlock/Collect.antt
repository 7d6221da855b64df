-- ===== src/Dmr/DataBlock/Collect.antt =====
-- data.go: the loop of `CombineDataBlocks` over the blocks of `DataBlocks`.
use go_dmr.Base.{
  ℕ, zero, suc, ◌+◌, ◌-◌, ◌*◌, ◌^◌, ◌≤◌, ◌<◌, ◌≡◌, ◌≢◌, refl, sym, ap, ap₂, ◌∙◌, ltb, List, [], ◌∷◌,
  length, length-take_le, length-copy, length-zeros, get_or, take, drop, zeros, copy, arith,
  if◌then◌else◌,
}
use mathlib.Core.Path.{subst}
use go_dmr.Dmr.DataBlock.{
  DataBlock, DataFragment, put_crc, block_at, blocks_from, append_block, last_crc, combine_from,
}
use go_dmr.Dmr.DataBlock.Append.{
  padded, Filled, append_sized, four_bytes, put_crc_front, length-put_crc, put_crc_back,
  get_or-filled,
}

module _ (f : DataFragment) (data_type size : ℕ) (some_size : 4 ≤ size)
    (stored-le : f.stored ≤ length f.bytes_) (fits : f.needed * size ≤ 1500) where
  -- The bytes of a block, before the checksum.
  abbrev filled : ℕ → List ℕ
  filled taken =
      copy (zeros size) (
        take (if ltb (f.stored - taken) size then f.stored - taken else size) (drop taken f.bytes_))

  abbrev taken_at : ℕ → ℕ
  taken_at start = if ltb f.stored start then f.stored else start

  length-filled : (taken : ℕ) → length (filled taken) ≡ size
  length-filled taken =
      let store = if ltb (f.stored - taken) size then f.stored - taken else size in
      let store-le : store ≤ size = ground arith in
      length-copy (zeros size) (take store (drop taken f.bytes_))
        (omega (arith, length-take_le store (drop taken f.bytes_), length-zeros size))
      ∙ length-zeros size

  length-block_at : (i taken : ℕ) → length (block_at f data_type size i taken).bytes_ ≡ size
  unfolding block_at
  length-block_at i taken =
      ground (arith, length-filled taken, length-put_crc (filled taken) size f.crc)

  size-block_at : (i taken : ℕ) → (block_at f data_type size i taken).size ≡ size
  unfolding block_at
  size-block_at i taken = refl

  middle_bytes :
      (i taken : ℕ) → i + 1 ≢ f.needed → (block_at f data_type size i taken).bytes_ ≡ filled taken
  unfolding block_at
  middle_bytes i taken ne = ground (arith, ne)

  last_bytes :
      (i taken : ℕ)
      → i + 1 ≡ f.needed
      → (block_at f data_type size i taken).bytes_ ≡ put_crc (filled taken) size f.crc
  unfolding block_at
  last_bytes i taken e = ground (arith, e)

  filled-padded :
      (i m j : ℕ) → j < size → get_or (filled (taken_at m)) j 0 ≡ padded f.bytes_ f.stored (m + j)
  filled-padded i m j lt = get_or-filled f.bytes_ f.stored size m (taken_at m) j stored-le refl lt

  middle_block :
      (g : DataFragment) (i m : ℕ)
      → m + size ≤ 1500
      → i + 1 ≢ f.needed
      → Filled g m m (padded f.bytes_ f.stored)
      → Filled
          (append_block g (block_at f data_type size i (taken_at m)))
          (m + size)
          (m + size)
          (padded f.bytes_ f.stored)
  middle_block g i m room ne v =
      append_sized g (block_at f data_type size i (taken_at m)) m size size
        (padded f.bytes_ f.stored) v (length-block_at i (taken_at m)) (size-block_at i (taken_at m))
        room (omega arith)
        (λ j lt.
          ap (λ (t : List ℕ). get_or t j 0) (middle_bytes i (taken_at m) ne)
          ∙ filled-padded i m j lt)

  last_block :
      (g : DataFragment) (i m : ℕ)
      → m + size ≤ 1500
      → i + 1 ≡ f.needed
      → Filled g m m (padded f.bytes_ f.stored)
      → Filled
          (append_block g (block_at f data_type size i (taken_at m)))
          (m + size)
          (m + (size - 4))
          (padded f.bytes_ f.stored)
  last_block g i m room e v =
      append_sized g (block_at f data_type size i (taken_at m)) m (size - 4) size
        (padded f.bytes_ f.stored) v (length-block_at i (taken_at m)) (size-block_at i (taken_at m))
        room (omega arith)
        (λ j lt.
          ap (λ (t : List ℕ). get_or t j 0) (last_bytes i (taken_at m) e)
          ∙ put_crc_front (filled (taken_at m)) size f.crc j some_size lt
          ∙ filled-padded i m j (omega (arith, lt)))

  last_crc-block_at :
      (i taken : ℕ)
      → i + 1 ≡ f.needed
      → f.crc < 2 ^ 32
      → last_crc (block_at f data_type size i taken) ≡ f.crc
  unfolding last_crc
  last_crc-block_at i taken e h =
      let b = block_at f data_type size i taken in
      let same = last_bytes i taken e in
      let z = size-block_at i taken in
      let (c0, c1, c2, c3) =
        put_crc_back (filled taken) size f.crc (length-filled taken) some_size in
      rw
        (
          ap₂ (λ (l : List ℕ) (n : ℕ). get_or l (n - 4) 0) same z ∙ c0,
          ap₂ (λ (l : List ℕ) (n : ℕ). get_or l (n - 3) 0) same z ∙ c1,
          ap₂ (λ (l : List ℕ) (n : ℕ). get_or l (n - 2) 0) same z ∙ c2,
          ap₂ (λ (l : List ℕ) (n : ℕ). get_or l (n - 1) 0) same z ∙ c3,
        )
        (four_bytes f.crc h)

  -- The place of the next block's bytes.
  next_taken :
      (m : ℕ)
      → taken_at m + (if ltb (f.stored - taken_at m) size then f.stored - taken_at m else size)
        ≡ taken_at (m + size)
  next_taken m = ground arith

  -- The last block closes the fragment.
  close_from :
      (g : DataFragment) (i m : ℕ)
      → m + size ≤ 1500
      → i + 1 ≡ f.needed
      → f.crc < 2 ^ 32
      → Filled g m m (padded f.bytes_ f.stored)
      → combine_from (block_at f data_type size i (taken_at m) ∷ []) g
        ≡ record (append_block g (block_at f data_type size i (taken_at m))) { crc = f.crc }
  unfolding combine_from
  close_from g i m room e h v =
      let z = size-block_at i (taken_at m) in
      let c = last_crc-block_at i (taken_at m) e h in
      ground (arith, z, c, v.whole, v.count, room, some_size)

  pass_from :
      (g : DataFragment) (b c : DataBlock) (blocks : List DataBlock) (m : ℕ)
      → m + size < 1500
      → b.size ≡ size
      → Filled g m m (padded f.bytes_ f.stored)
      → combine_from (b ∷ c ∷ blocks) g ≡ combine_from (c ∷ blocks) (append_block g b)
  unfolding combine_from
  pass_from g b c blocks m room z v = ground (arith, z, v.whole, v.count, room, some_size)

  -- What the loop leaves of `count` bytes.
  abbrev pub Combined : ℕ → DataFragment → Type 0
  Combined n g = Filled g n (n - 4) (padded f.bytes_ f.stored) × (g.crc ≡ f.crc)

  pass_all :
      (n i m : ℕ) (g : DataFragment)
      → m + size < 1500
      → Filled g m m (padded f.bytes_ f.stored)
      → combine_from (blocks_from (suc (suc n)) f data_type size i (taken_at m)) g
        ≡ combine_from
            (blocks_from (suc n) f data_type size (i + 1) (taken_at (m + size)))
            (append_block g (block_at f data_type size i (taken_at m)))
  unfolding blocks_from
  pass_all n i m g room v =
      pass_from g (block_at f data_type size i (taken_at m)) _ _ m room
        (size-block_at i (taken_at m)) v
      ∙ ap
          (λ (t : ℕ).
            combine_from (blocks_from (suc n) f data_type size (i + 1) t)
              (append_block g (block_at f data_type size i (taken_at m))))
          (next_taken m)

  close_all :
      (i m : ℕ) (g : DataFragment)
      → m + size ≤ 1500
      → i + 1 ≡ f.needed
      → f.crc < 2 ^ 32
      → Filled g m m (padded f.bytes_ f.stored)
      → Combined (m + size) (combine_from (blocks_from 1 f data_type size i (taken_at m)) g)
  unfolding blocks_from
  close_all i m g room e h v =
      let b = block_at f data_type size i (taken_at m) in
      let last = last_block g i m room e v in
      let at : m + (size - 4) ≡ m + size - 4 = omega (arith, some_size) in
      subst (Combined (m + size)) (sym (close_from g i m room e h v)) (
        record {
          whole = last.whole;
          count = last.count;
          content = λ j lt. last.content j (omega (arith, at, lt));
        },
        refl,
      )

  pub combine_all :
      (n i m : ℕ) (g : DataFragment)
      → i + suc n ≡ f.needed
      → m + suc n * size ≤ 1500
      → f.crc < 2 ^ 32
      → Filled g m m (padded f.bytes_ f.stored)
      → Combined
          (m + suc n * size)
          (combine_from (blocks_from (suc n) f data_type size i (taken_at m)) g)
  combine_all zero i m g e room h v =
      subst (λ (k : ℕ). Combined k (combine_from (blocks_from 1 f data_type size i (taken_at m)) g))
        (omega arith) (close_all i m g (omega arith) e h v)
  combine_all (suc n) i m g e room h v =
      let g1 = append_block g (block_at f data_type size i (taken_at m)) in
      let steps : suc (suc n) * size ≡ size + suc n * size = omega arith in
      let more : size ≤ suc n * size = omega arith in
      let rest =
        combine_all n (i + 1) (m + size) g1 (omega arith) (omega (arith, steps, room)) h
          (middle_block g i m (omega (arith, steps, room)) (λ x. omega arith) v) in
      subst
        (λ (k : ℕ).
          Combined k (combine_from (blocks_from (suc (suc n)) f data_type size i (taken_at m)) g))
        (omega (arith, steps))
        (subst (Combined (m + size + suc n * size))
          (sym (pass_all n i m g (omega (arith, steps, more, room, some_size)) v)) rest)

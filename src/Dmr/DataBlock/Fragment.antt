-- ===== src/Dmr/DataBlock/Fragment.antt =====
-- How many blocks a fragment needs.
use go_dmr.Base.{
  ℕ, zero, suc, ◌+◌, ◌-◌, ◌*◌, ◌/◌, ◌%◌, ◌≤◌, ◌<◌, ◌≡◌, refl, ap, ltb, Bool, Bool-cases, inl, inr,
  List, length, arith,
}
use native.Mathlib.Nat.{div-add-mod'}
use go_dmr.Base.Outcome.{ok}
use go_dmr.Dmr.DataBlock.{
  DataBlock, DataFragment, data_block_length, needed_blocks, prepared, blocks_from, data_blocks,
}

-- Dividing upwards.
round_up :
    (stored size : ℕ)
    → 0 < size
    → (stored ≤ (stored + size - 1) / size * size)
      × ((stored + size - 1) / size * size < stored + size)
round_up stored size h =
    let split = div-add-mod' (stored + size - 1) size in
    let small : (stored + size - 1) % size < size = omega arith in
    (omega (arith, split, small), omega (arith, split))

pub needed_blocks-room :
    (stored size : ℕ)
    → 4 ≤ size
    → (stored + 4 ≤ needed_blocks stored size * size)
      × (needed_blocks stored size * size < stored + size + 4)
unfolding needed_blocks
needed_blocks-room stored size h =
    let (lo, hi) = round_up stored size (omega arith) in
    elim (Bool-cases (ltb ((stored + size - 1) / size * size - stored) 4)) [
      | inl short ↦ rw short (ground (arith, short, lo, hi), ground (arith, short, lo, hi))
      | inr long ↦ rw long (ground (arith, long, lo, hi), ground (arith, long, lo, hi))
    ]

pub length-blocks_from :
    (n : ℕ) (f : DataFragment) (data_type size i taken : ℕ)
    → length (blocks_from n f data_type size i taken) ≡ n
unfolding blocks_from
length-blocks_from zero f data_type size i taken = refl
length-blocks_from (suc n) f data_type size i taken =
    ap suc (length-blocks_from n f data_type size (i + 1) _)

pub block_length-le :
    (data_type : ℕ) (confirm : Bool)
    → 0 < data_block_length data_type confirm
    → 4 ≤ data_block_length data_type confirm
unfolding data_block_length
block_length-le data_type confirm h = ground (arith, h)

-- For every data type that has blocks, `DataBlocks` succeeds: it returns as many blocks as it says are needed,
-- they have room for the bytes that are stored and for the checksum of four bytes, and a block less would not.
pub data_blocks-room :
    (f : DataFragment) (data_type : ℕ) (confirm : Bool)
    → 0 < data_block_length data_type confirm
    → (f' : DataFragment) × (blocks : List DataBlock) × (data_blocks f data_type confirm
        ≡ ok (f', blocks))
      × (length blocks ≡ f'.needed)
      × (f'.stored + 4 ≤ length blocks * data_block_length data_type confirm)
      × (length blocks * data_block_length data_type confirm
          < f'.stored + data_block_length data_type confirm + 4)
unfolding data_blocks
data_blocks-room f data_type confirm h =
    let size = data_block_length data_type confirm in
    let four = block_length-le data_type confirm h in
    let room = needed_blocks-room (prepared f size).stored size four in
    let count = length-blocks_from (prepared f size).needed (prepared f size) data_type size 0 0 in
    (
      prepared f size,
      blocks_from (prepared f size).needed (prepared f size) data_type size 0 0,
      ground (arith, h),
      count,
      rw count (unfold prepared in room.0),
      rw count (unfold prepared in room.1),
    )

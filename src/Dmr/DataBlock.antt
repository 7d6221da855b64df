-- ===== src/Dmr/DataBlock.antt =====
-- data.go: data blocks, and the fragments that they carry. The text encodings of messages are a library's.
-- A slice is taken to be as long as its array.
pub mod RoundTrip
pub mod Total
pub mod Fragment
pub mod Append
pub mod Collect
pub mod Combine
use go_dmr.Base.{
  ℕ, zero, suc, ◌+◌, ◌-◌, ◌*◌, ◌/◌, ◌%◌, ◌^◌, bit_and, bit_or, bit_xor, ltb, ◌==◌, Bool, true,
  false, not, if◌then◌else◌, Option, none, some, List, [], ◌∷◌, ◌++◌, length, get_elem?, get_or,
  set, take, drop, zeros, copy, u8, not16,
}
use go_dmr.Base.Outcome.{Outcome, ok, err, panic, ◌>>=◌, ◌>>◌, require, or_panic}
use go_dmr.Dmr.Crc.{crc9, crc9end, crc32, crc32end}

abbrev pub data_type_data : ℕ
data_type_data = 6

abbrev pub rate12_data : ℕ
rate12_data = 7

abbrev pub rate34_data : ℕ
rate34_data = 8

abbrev pub max_packet_fragment_size : ℕ
max_packet_fragment_size = 1500

-- A key that the map does not have gives 0.
unfoldable pub crc9_mask : ℕ → ℕ
crc9_mask data_type =
    if data_type == rate12_data then 0x00f0 else if data_type == rate34_data then 0x01ff else 0

unfoldable pub crc9_bytes : ℕ → List ℕ → ℕ
crc9_bytes crc [] = crc
crc9_bytes crc (b ∷ bytes) = crc9_bytes (crc9 crc b 8) bytes

unfoldable pub calculate_crc9 : ℕ → List ℕ → ℕ → ℕ
calculate_crc9 serial bytes data_type =
    let crc = crc9end (crc9 (crc9_bytes 0 bytes) serial 7) 8 in
    bit_xor (bit_and (not16 crc) 0x01ff) (crc9_mask data_type)

unfoldable pub data_block_length : ℕ → Bool → ℕ
data_block_length data_type confirmed =
    let of_size : ℕ → ℕ = λ size. if not confirmed then size + 2 else size in
    if data_type == data_type_data
    then of_size 22
    else if data_type == rate12_data
    then of_size 10
    else if data_type == rate34_data
    then of_size 16
    else 0

pub record DataBlock : Type 0 where
  pub serial : ℕ
  pub crc : ℕ
  pub is_ok : Bool
  pub bytes_ : List ℕ
  pub size : ℕ

pub data Error : Type 0 where
  block_crc no_blocks fragment_crc_error : Error

-- `data[from:to]`, which panics beyond the end of the array.
unfoldable pub part : ℕ → ℕ → List ℕ → Outcome Error (List ℕ)
part from to xs = if ltb (length xs) to then panic else ok (take (to - from) (drop from xs))

unfoldable pub parse_data_block : List ℕ → ℕ → Bool → Outcome Error DataBlock
parse_data_block buf data_type false = do
  let size = data_block_length data_type false
  bytes ← part 0 size buf
  ok (record { serial = 0; crc = 0; is_ok = true; bytes_ = copy (zeros size) bytes; size = size })
parse_data_block buf data_type true = do
  let size = data_block_length data_type true
  b0 ← or_panic (get_elem? buf 0)
  b1 ← or_panic (get_elem? buf 1)
  let serial = b0 / 2 ^ 1
  let crc = bit_or (bit_and b0 0b00000001 * 2 ^ 8) b1
  bytes ← part 2 (2 + size) buf
  let block_bytes = copy (zeros size) bytes
  require (calculate_crc9 serial block_bytes data_type == crc) block_crc
  ok (record { serial = serial; crc = crc; is_ok = true; bytes_ = block_bytes; size = size })

-- `Bytes`, with the block that has the checksum.
unfoldable pub block_bytes : DataBlock → ℕ → Bool → DataBlock × List ℕ
block_bytes db data_type false = (db, copy (zeros (data_block_length data_type false)) db.bytes_)
block_bytes db data_type true =
    let crc = calculate_crc9 db.serial db.bytes_ data_type in
    (
      record db { crc = crc },
      bit_or (u8 (db.serial * 2 ^ 1)) (bit_and (u8 (crc / 2 ^ 8)) 0x01)
          ∷ u8 crc
          ∷ copy (zeros (data_block_length data_type true)) db.bytes_,
    )

pub record DataFragment : Type 0 where
  pub bytes_ : List ℕ
  pub stored : ℕ
  pub needed : ℕ
  pub crc : ℕ

-- The loop over the pairs of bytes, `n` rounds from `i` on; beyond `stored` there are zeros.
unfoldable pub fragment_crc : ℕ → ℕ → ℕ → List ℕ → ℕ → ℕ
fragment_crc zero i stored bytes crc = crc
fragment_crc (suc n) i stored bytes crc =
    let second = if ltb (i + 1) stored then get_or bytes (i + 1) 0 else 0 in
    let first = if ltb i stored then get_or bytes i 0 else 0 in
    fragment_crc n (i + 2) stored bytes (crc32 (crc32 crc second) first)

-- The last four bytes of a block become the checksum, lowest byte first.
unfoldable pub put_crc : List ℕ → ℕ → ℕ → List ℕ
put_crc bytes size crc =
    set
      (set (set (set bytes (size - 1) (u8 (crc / 2 ^ 24))) (size - 2) (u8 (crc / 2 ^ 16)))
        (size - 3) (u8 (crc / 2 ^ 8)))
      (size - 4) (u8 crc)

-- The block at `i` of `needed`, where `taken` bytes are stored already.
unfoldable pub block_at : DataFragment → ℕ → ℕ → ℕ → ℕ → DataBlock
block_at f data_type size i taken =
    let store = if ltb (f.stored - taken) size then f.stored - taken else size in
    let filled = copy (zeros size) (take store (drop taken f.bytes_)) in
    let bytes = if i + 1 == f.needed then put_crc filled size f.crc else filled in
    let serial = i % 128 in
    record {
      serial = serial;
      crc = calculate_crc9 serial bytes data_type;
      is_ok = false;
      bytes_ = bytes;
      size = size;
    }

-- The loop over the blocks, `n` rounds from `i` on.
unfoldable pub blocks_from : ℕ → DataFragment → ℕ → ℕ → ℕ → ℕ → List DataBlock
blocks_from zero f data_type size i taken = []
blocks_from (suc n) f data_type size i taken =
    let store = if ltb (f.stored - taken) size then f.stored - taken else size in
    block_at f data_type size i taken ∷ blocks_from n f data_type size (i + 1) (taken + store)

-- How many blocks the bytes need, with room for the checksum.
unfoldable pub needed_blocks : ℕ → ℕ → ℕ
needed_blocks stored size =
    let needed = (stored + size - 1) / size in
    if ltb (needed * size - stored) 4 then needed + 1 else needed

-- The fragment that `DataBlocks` leaves. The checksum starts from the one that the fragment has.
unfoldable pub prepared : DataFragment → ℕ → DataFragment
prepared df size =
    let stored =
      if ltb max_packet_fragment_size (length df.bytes_)
      then max_packet_fragment_size
      else length df.bytes_ in
    let needed = needed_blocks stored size in
    record df {
      stored = stored;
      needed = needed;
      crc = crc32end (fragment_crc ((needed * size - 4 + 1) / 2) 0 stored df.bytes_ df.crc);
    }

-- `DataBlocks`: the fragment that it leaves, and the blocks. A length of 0 is a division by zero.
unfoldable pub data_blocks : DataFragment → ℕ → Bool → Outcome Error (DataFragment × List DataBlock)
data_blocks df data_type confirm =
    let size = data_block_length data_type confirm in
    let f = prepared df size in
    if size == 0 then panic else ok (f, blocks_from f.needed f data_type size 0 0)

-- `f.Data[f.Stored:]` takes a block's bytes, as far as there is room.
unfoldable pub append_block : DataFragment → DataBlock → DataFragment
append_block f b = record f {
  bytes_ = take f.stored f.bytes_ ++ copy (drop f.stored f.bytes_) (take b.size b.bytes_);
  stored = f.stored + b.size;
}

-- The checksum in the last four bytes of a block.
unfoldable pub last_crc : DataBlock → ℕ
last_crc b =
    bit_or
      (bit_or
        (bit_or (bit_or 0 (get_or b.bytes_ (b.size - 4) 0))
          (get_or b.bytes_ (b.size - 3) 0 * 2 ^ 8))
        (get_or b.bytes_ (b.size - 2) 0 * 2 ^ 16))
      (get_or b.bytes_ (b.size - 1) 0 * 2 ^ 24)

-- The loop of `CombineDataBlocks`, for blocks that have the bytes their length says, and at least four
-- where they have any.
unfoldable pub combine_from : List DataBlock → DataFragment → DataFragment
combine_from [] f = f
combine_from (b ∷ []) f =
    let stored = if ltb (f.stored + b.size - 4) (length f.bytes_) then append_block f b else f in
    if b.size == 0 then f else record stored { crc = last_crc b }
combine_from (b ∷ c ∷ blocks) f =
    let next =
      if b.size == 0
      then f
      else if ltb (f.stored + b.size) (length f.bytes_)
      then append_block f b
      else f in
    combine_from (c ∷ blocks) next

unfoldable pub combined_crc : ℕ → ℕ → List ℕ → ℕ → ℕ
combined_crc zero i bytes crc = crc
combined_crc (suc n) i bytes crc =
    combined_crc n (i + 2) bytes (crc32 (crc32 crc (get_or bytes (i + 1) 0)) (get_or bytes i 0))

-- `CombineDataBlocks`; no slice and one without blocks are the same.
unfoldable pub combine_data_blocks : List DataBlock → Outcome Error DataFragment
combine_data_blocks blocks = do
  require (ltb 0 (length blocks)) no_blocks
  let start : DataFragment = record {
    bytes_ = zeros max_packet_fragment_size;
    stored = 0;
    needed = 0;
    crc = 0;
  }
  let f = combine_from blocks start
  require (crc32end (combined_crc ((f.stored - 4 + 1) / 2) 0 f.bytes_ 0) == f.crc)
      fragment_crc_error
  ok f

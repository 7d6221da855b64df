-- ===== src/Dmr/BlockTests.antt =====
-- Runs of data blocks and embedded signalling at concrete inputs.
use go_dmr.Base.{ℕ, ◌≡◌, refl, true, false, some, List, [], ◌∷◌, length, take, replicate, arith}
use go_dmr.Base.Outcome.{ok}
use go_dmr.Dmr.DataBlock.{
  DataBlock, DataFragment, data_block_length, parse_data_block, needed_blocks, prepared,
  combine_data_blocks, block_bytes, data_blocks,
}
use go_dmr.Dmr.DataBlock.RoundTrip.{parse_data_block-block_bytes}
use go_dmr.Dmr.DataBlock.Combine.{combine_data_blocks-data_blocks}
use go_dmr.Dmr.Voice.{
  EmbeddedSignallingLc, parse_emb, interleave, deinterleave_embedded_signalling_lc,
}
use go_dmr.Dmr.Voice.Interleave.{deinterleave-interleave}
use go_dmr.Dmr.Voice.Signalling.{emb_bits_of, parse_emb-emb_bits_of}

abbrev block : DataBlock
block = record {
  serial = 5;
  crc = 0;
  is_ok = false;
  bytes_ = 1 ∷ 2 ∷ 3 ∷ 4 ∷ 5 ∷ 6 ∷ 7 ∷ 8 ∷ 9 ∷ 10 ∷ [];
  size = 10;
}

parse_data_block-block_bytes_example :
    parse_data_block (block_bytes block 7 true).1 7 true
    ≡ ok (record ((block_bytes block 7 true).0) { is_ok = true })
unfolding data_block_length
parse_data_block-block_bytes_example = parse_data_block-block_bytes block 7 (omega arith) refl refl

abbrev fragment : DataFragment
fragment = record { bytes_ = replicate 21 65; stored = 0; needed = 0; crc = 0 }

abbrev signalling : EmbeddedSignallingLc
signalling = record { bits = replicate 72 1; checksum = 1 ∷ 0 ∷ 1 ∷ 1 ∷ 0 ∷ [] }

deinterleave-interleave_example :
    (out : List ℕ) × (interleave signalling ≡ some out)
    × (deinterleave_embedded_signalling_lc out ≡ ok signalling)
deinterleave-interleave_example = deinterleave-interleave signalling refl refl

parse_emb-emb_bits_of_example :
    parse_emb (emb_bits_of 5 2) ≡ ok (record { color_code = 5; lcss = 2 })
parse_emb-emb_bits_of_example = parse_emb-emb_bits_of 5 2 (omega arith) (omega arith)

combine_data_blocks-data_blocks_example :
    (f : DataFragment) × (blocks : List DataBlock) × (g : DataFragment) × (data_blocks fragment 8
        true
      ≡ ok (f, blocks))
    × (combine_data_blocks blocks ≡ ok g)
    × (g.crc ≡ f.crc)
    × (take (length fragment.bytes_) g.bytes_ ≡ fragment.bytes_)
unfolding data_block_length prepared needed_blocks
combine_data_blocks-data_blocks_example =
    combine_data_blocks-data_blocks fragment 8 true refl (omega arith) (omega arith)

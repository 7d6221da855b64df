-- ===== src/Bptc/Tests.antt =====
-- Witnesses of the block product turbo code.
use go_dmr.Base.{ℕ, ◌≡◌, refl, List, [], ◌∷◌, ◌++◌, zeros, copy, arith}
use go_dmr.Base.Outcome.{ok, ◌>>=◌}
use go_dmr.Bptc.{encode, decode, deinterleave, hamming_check}
use go_dmr.Bptc.RoundTrip.{decode-encode_block}
use go_dmr.Bptc.Check.{hamming_check-encode}

-- A preamble control block.
abbrev preamble : List ℕ
preamble = 0xbd ∷ 0x00 ∷ 0x80 ∷ 0x0a ∷ 0x00 ∷ 0x0c ∷ 0x30 ∷ 0x2f ∷ 0x9b ∷ 0xe5 ∷ 0x72 ∷ 0x81 ∷ []

decode-encode_block_example :
    encode preamble (zeros 196) >>= (λ block. decode block (zeros 12))
    ≡ ok (copy (zeros 12) (preamble ++ zeros 13))
decode-encode_block_example =
    decode-encode_block preamble (zeros 196) (zeros 12) refl (ground arith) (ground arith)
      (ground arith)

hamming_check-encode_example :
    encode preamble (zeros 196) >>= (λ block. hamming_check (deinterleave 196 1 block)) ≡ ok tt
hamming_check-encode_example =
    hamming_check-encode preamble (zeros 196) (ground arith) (ground arith)

-- ===== src/Bptc/Total.antt =====
-- `Decode` of the block product turbo code never panics, and leaves a buffer of the same length.
use go_dmr.Base.{ℕ, ◌≡◌, ◌≢◌, List, length, length-copy_dst, arith}
use go_dmr.Base.Outcome.{ok, panic}
use go_dmr.Dmr.Bits.{bits_to_bytes}
use go_dmr.Bptc.{deinterleave, extract, decode}

pub decode-ne-panic : (info buf : List ℕ) → decode info buf ≢ panic
unfolding decode
decode-ne-panic info buf e = ground arith

pub length-decode : (info buf out : List ℕ) → decode info buf ≡ ok out → length out ≡ length buf
unfolding decode
length-decode info buf out e =
    ground (arith, length-copy_dst buf (bits_to_bytes (extract (deinterleave 196 1 info))))

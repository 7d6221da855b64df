-- ===== src/Dmr/Packet.antt =====
-- packet.go: a frame of the air interface, and the parts of its 264 bits.
pub mod Parts
use go_dmr.Base.{ℕ, ◌+◌, ◌-◌, List, ◌++◌, take, drop, zeros, copy, length}
use go_dmr.Dmr.Bits.{bytes_to_bits, bits_to_bytes}

pub record Packet : Type 0 where
  pub timeslot : ℕ
  pub sequence : ℕ
  pub src_id : ℕ
  pub dst_id : ℕ
  pub repeater_id : ℕ
  pub stream_id : ℕ
  pub data_type : ℕ
  pub call_type : ℕ
  pub ber : ℕ
  pub rssi : ℕ
  pub payload : List ℕ
  pub bits : List ℕ

-- Data types of a slot, Table 6.1 of the air interface.
abbrev pub privacy_indicator : ℕ
privacy_indicator = 0

abbrev pub voice_lc : ℕ
voice_lc = 1

abbrev pub terminator_with_lc : ℕ
terminator_with_lc = 2

abbrev pub idle : ℕ
idle = 9

abbrev pub voice_burst_a : ℕ
voice_burst_a = 10

abbrev pub voice_burst_b : ℕ
voice_burst_b = 11

abbrev pub voice_burst_f : ℕ
voice_burst_f = 15

abbrev pub ipsc_sync : ℕ
ipsc_sync = 16

abbrev pub unknown_slot_type : ℕ
unknown_slot_type = 17

abbrev pub call_type_group : ℕ
call_type_group = 0

abbrev pub call_type_private : ℕ
call_type_private = 1

-- `p.Bits[from:to]`
abbrev pub slice : ℕ → ℕ → List ℕ → List ℕ
slice from to xs = take (to - from) (drop from xs)

unfoldable pub sync_bits : Packet → List ℕ
sync_bits p = slice 108 156 p.bits

unfoldable pub emb_bits : Packet → List ℕ
unfolding sync_bits
emb_bits p = slice 0 8 (sync_bits p) ++ slice 40 48 (sync_bits p)

unfoldable pub info_bits : Packet → List ℕ
info_bits p = copy (zeros 98) (slice 0 98 p.bits) ++ copy (zeros 98) (drop 166 p.bits)

-- `append` writes the second half behind the first in the array of `p.Bits` itself, whose capacity
-- goes on: the frame changes too.
unfoldable pub slot_type_bits : Packet → List ℕ × Packet
slot_type_bits p =
    let second = slice 156 166 p.bits in
    (
      slice 98 108 p.bits ++ second,
      record p { bits = take 108 p.bits ++ (second ++ drop (108 + length second) p.bits) },
    )

unfoldable pub slot_type : Packet → List ℕ × Packet
unfolding slot_type_bits
slot_type p = let (bits, p') = slot_type_bits p in (bits_to_bytes bits, p')

unfoldable pub voice_bits : Packet → List ℕ
voice_bits p = copy (zeros 108) (slice 0 108 p.bits) ++ copy (zeros 108) (drop 156 p.bits)

pub set_data : Packet → List ℕ → Packet
set_data p payload = record p { payload = payload; bits = bytes_to_bits payload }

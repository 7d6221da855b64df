-- ===== src/Homebrew/Packet.antt =====
-- homebrew.go, `buildData`, `parseData` and the packed repeater ID: a frame as the 55 bytes of a
-- DMRD message.
pub mod RoundTrip
pub mod Special
use go_dmr.Base.{
  ℕ, ◌+◌, ◌-◌, ◌*◌, ◌/◌, ◌%◌, ◌^◌, bit_and, bit_or, leb, ltb, ◌==◌, ◌&&◌, if◌then◌else◌, Option,
  none, some, List, [], ◌∷◌, ◌++◌, length, get_or, take, drop, zeros, copy, u8, be24, be32,
}
use go_dmr.Base.Outcome.{Outcome, ok, err, ◌>>=◌, ◌>>◌, require}
use go_dmr.Dmr.Bits.{bytes_to_bits}
use go_dmr.Dmr.Packet.{Packet, voice_burst_a, voice_burst_b, voice_burst_f, slice}

pub data Error : Type 0 where
  data_size unexpected_frame_type : Error

pub pack_repeater_id : ℕ → List ℕ
pack_repeater_id id = u8 (id / 2 ^ 24) ∷ u8 (id / 2 ^ 16) ∷ u8 (id / 2 ^ 8) ∷ u8 id ∷ []

abbrev pub dmr_data : List ℕ
dmr_data = b'D' ∷ b'M' ∷ b'R' ∷ b'D' ∷ []

-- Byte 15: slot, call type, frame type and data type. `DataType` is a uint8, and
-- `p.DataType - dmr.VoiceBurstA` is not below 0 in its case.
unfoldable pub flags : Packet → ℕ
flags p =
    let b = bit_or (bit_and p.timeslot 1 * 2 ^ 7 % 2 ^ 8) (bit_and p.call_type 1 * 2 ^ 6 % 2 ^ 8) in
    if leb voice_burst_b p.data_type && leb p.data_type voice_burst_f
    then bit_or b (p.data_type - voice_burst_a)
    else if p.data_type == voice_burst_a
    then bit_or b (1 * 2 ^ 4)
    else bit_or (bit_or b (2 * 2 ^ 4)) p.data_type

unfoldable pub build_data : Packet → ℕ → List ℕ
build_data p repeater_id =
    dmr_data
    ++ (p.sequence
        ∷ u8 (p.src_id / 2 ^ 16)
        ∷ u8 (p.src_id / 2 ^ 8)
        ∷ u8 p.src_id
        ∷ u8 (p.dst_id / 2 ^ 16)
        ∷ u8 (p.dst_id / 2 ^ 8)
        ∷ u8 p.dst_id
        ∷ u8 (repeater_id / 2 ^ 24)
        ∷ u8 (repeater_id / 2 ^ 16)
        ∷ u8 (repeater_id / 2 ^ 8)
        ∷ u8 repeater_id
        ∷ flags p
        ∷ u8 (p.stream_id / 2 ^ 24)
        ∷ u8 (p.stream_id / 2 ^ 16)
        ∷ u8 (p.stream_id / 2 ^ 8)
        ∷ u8 p.stream_id
        ∷ (copy (zeros 33) p.payload ++ (p.ber ∷ p.rssi ∷ [])))

-- The data type that byte 15 states; `VoiceBurstA + (data[15] & 0x0f)` is at most 25.
unfoldable pub data_type_of : ℕ → Option ℕ
data_type_of b =
    let frame_type = bit_and (b / 2 ^ 4) 3 in
    if leb frame_type 1
    then some (voice_burst_a + bit_and b 0x0f)
    else if frame_type == 2
    then some (bit_and b 0x0f)
    else none

or_frame_type : Option ℕ → Outcome Error ℕ
or_frame_type none = err unexpected_frame_type
or_frame_type (some t) = ok t

unfoldable pub parse_data : List ℕ → Outcome Error Packet
unfolding or_frame_type
parse_data b = do
  require (length b == 55) data_size
  data_type ← or_frame_type (data_type_of (get_or b 15 0))
  let payload = copy (zeros 33) (slice 20 53 b)
  ok (record {
    sequence = get_or b 4 0;
    src_id = be24 (get_or b 5 0) (get_or b 6 0) (get_or b 7 0);
    dst_id = be24 (get_or b 8 0) (get_or b 9 0) (get_or b 10 0);
    repeater_id = be32 (get_or b 11 0) (get_or b 12 0) (get_or b 13 0) (get_or b 14 0);
    timeslot = bit_and (get_or b 15 0 / 2 ^ 7) 1;
    call_type = bit_and (get_or b 15 0 / 2 ^ 6) 1;
    stream_id = be32 (get_or b 16 0) (get_or b 17 0) (get_or b 18 0) (get_or b 19 0);
    data_type = data_type;
    ber = get_or b 53 0;
    rssi = get_or b 54 0;
    payload = payload;
    bits = bytes_to_bits payload;
  })

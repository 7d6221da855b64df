-- ===== src/Lc/Message/RoundTrip.antt =====
-- What `Bytes` writes, `ParseLC` reads.
use go_dmr.Base.{
  ℕ, ◌*◌, ◌/◌, ◌^◌, ◌<◌, ◌≡◌, refl, bit_and, bit_or, ◌==◌, ◌&&◌, Bool, true, false, some, List, u8,
  be24-split, be32-split, arith, all_below, all_below_sound, if◌then◌else◌,
}
use go_dmr.Base.Outcome.{ok}
use go_dmr.Dmr.Packet.{call_type_group, call_type_private}
use go_dmr.Lc.ServiceOptions.{parse_service_options-byte}
use go_dmr.Lc.Pdu.{
  VoiceChannelUser, GpsInfo, parse_voice_channel_user, parse_gps_info, voice_channel_user_bytes,
  gps_info_bytes,
}
use go_dmr.Lc.Message.{Lc, empty, bytes, parse_lc}

-- A group or unit-to-unit voice message.
abbrev pub voice : Bool → ℕ → VoiceChannelUser → Lc
voice group feature v =
    record (if group then empty call_type_group 0 feature else empty call_type_private 3 feature) {
      voice_channel_user = some v;
    }

-- A voice message of a group or of two units, whose addresses fit 24 bits and whose priority is below
-- four, is written as bytes that parse, without an error, to the same message.
pub parse_lc-bytes-voice :
    (group : Bool) (feature : ℕ) (v : VoiceChannelUser)
    → v.service_options.priority < 4
    → v.dst_id < 2 ^ 24
    → v.src_id < 2 ^ 24
    → (b : List ℕ) × (bytes (voice group feature v) ≡ ok b)
      × (parse_lc b ≡ ok (voice group feature v))
unfolding bytes parse_lc parse_voice_channel_user voice_channel_user_bytes
parse_lc-bytes-voice true feature v hp hd hs = (
  _,
  refl,
  ground (
    arith,
    parse_service_options-byte v.service_options hp,
    be24-split v.dst_id,
    be24-split v.src_id,
  ),
)
parse_lc-bytes-voice false feature v hp hd hs = (
  _,
  refl,
  ground (
    arith,
    parse_service_options-byte v.service_options hp,
    be24-split v.dst_id,
    be24-split v.src_id,
  ),
)

gps_table :
    all_below 8 (λ e. all_below 2 (λ x.
      let b = bit_or (u8 (bit_and e 0b00000111 * 2 ^ 1)) (u8 (bit_and x 0b00000001)) in
      (bit_and b 0b00001110 / 2 ^ 1 == e) && (bit_and b 0b00000001 == u8 x)))
    ≡ true
unfolding all_below
gps_table = refl

gps_byte :
    (e x : ℕ)
    → e < 8
    → x < 2
    → let b = bit_or (u8 (bit_and e 0b00000111 * 2 ^ 1)) (u8 (bit_and x 0b00000001)) in
      (bit_and b 0b00001110 / 2 ^ 1 ≡ e) × (bit_and b 0b00000001 ≡ u8 x)
gps_byte e x he hx =
    let h = all_below_sound 2 _ (all_below_sound 8 _ gps_table e he) x hx in ground (arith, h)

-- A position message whose error is below eight, whose longitude fits 25 bits and whose latitude fits
-- 24 bits is written as bytes that parse, without an error, to the same message.
pub parse_lc-bytes_gps :
    (feature : ℕ) (g : GpsInfo)
    → g.position_error < 8
    → g.longitude < 2 ^ 25
    → g.latitude < 2 ^ 24
    → let lc = record (empty 0 8 feature) { gps_info = some g } in
      (b : List ℕ) × (bytes lc ≡ ok b) × (parse_lc b ≡ ok lc)
unfolding bytes parse_lc parse_gps_info gps_info_bytes
parse_lc-bytes_gps feature g he ho ha = (
  _,
  refl,
  ground (
    arith,
    gps_byte g.position_error (g.longitude / 2 ^ 24) he (omega arith),
    be24-split g.latitude,
    be32-split g.longitude (omega arith),
  ),
)

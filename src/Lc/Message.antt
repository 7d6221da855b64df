-- ===== src/Lc/Message.antt =====
-- lc/lc.go: `LC`, `ParseLC` and `Bytes`. The `String` methods are not modelled.
pub mod Full
pub mod RoundTrip
pub mod TalkerAlias
use go_dmr.Base.{
  ℕ, ◌==◌, if◌then◌else◌, Bool, true, false, not, Option, none, some, List, [], ◌∷◌, ◌++◌, length,
  get_or, bit_and, has_bits, ltb, ◌≢◌, arith,
}
use go_dmr.Base.Outcome.{Outcome, ok, err, panic, ◌>>=◌, ◌>>◌, require, or_panic}
use go_dmr.Dmr.Packet.{slice, call_type_group, call_type_private}
use go_dmr.Lc.Pdu.{
  Error, pdu_size, lc_size, protect_flag, unknown_opcode, VoiceChannelUser, GpsInfo,
  TalkerAliasHeader, parse_voice_channel_user, parse_gps_info, parse_talker_alias_header,
  parse_talker_alias_header-ne-panic, parse_talker_alias_block, voice_channel_user_bytes,
  gps_info_bytes, talker_alias_header_bytes,
}

abbrev pub group_voice_channel_user : ℕ
group_voice_channel_user = 0x00

abbrev pub unit_to_unit_voice_channel_user : ℕ
unit_to_unit_voice_channel_user = 0x03

abbrev pub talker_alias_header_opcode : ℕ
talker_alias_header_opcode = 0x04

abbrev pub talker_alias_blk1 : ℕ
talker_alias_blk1 = 0x05

abbrev pub talker_alias_blk2 : ℕ
talker_alias_blk2 = 0x06

abbrev pub talker_alias_blk3 : ℕ
talker_alias_blk3 = 0x07

abbrev pub gps_info_opcode : ℕ
gps_info_opcode = 0x08

-- A nil pointer is `none`; the three talker alias blocks are the elements of the array.
pub record Lc : Type 0 where
  pub call_type : ℕ
  pub opcode : ℕ
  pub feature_set_id : ℕ
  pub voice_channel_user : Option VoiceChannelUser
  pub gps_info : Option GpsInfo
  pub talker_alias_header : Option TalkerAliasHeader
  pub talker_alias_block0 : Option (List ℕ)
  pub talker_alias_block1 : Option (List ℕ)
  pub talker_alias_block2 : Option (List ℕ)

-- The inner unit of `Bytes`: an opcode that is not known has none, and a nil pointer is dereferenced.
inner_bytes : Lc → Outcome Error (List ℕ)
inner_bytes lc =
    let voice = (do v ← or_panic lc.voice_channel_user; ok (voice_channel_user_bytes v)) in
    let alias = (do t ← or_panic lc.talker_alias_header; talker_alias_header_bytes t) in
    let gps = (do g ← or_panic lc.gps_info; ok (gps_info_bytes g)) in
    if lc.opcode == group_voice_channel_user
    then voice
    else if lc.opcode == unit_to_unit_voice_channel_user
    then voice
    else if lc.opcode == talker_alias_header_opcode
    then alias
    else if lc.opcode == talker_alias_blk1
    then or_panic lc.talker_alias_block0
    else if lc.opcode == talker_alias_blk2
    then or_panic lc.talker_alias_block1
    else if lc.opcode == talker_alias_blk3
    then or_panic lc.talker_alias_block2
    else if lc.opcode == gps_info_opcode
    then gps
    else ok []

-- `Bytes`
unfoldable pub bytes : Lc → Outcome Error (List ℕ)
unfolding inner_bytes
bytes lc = do inner ← inner_bytes lc; ok ((lc.opcode ∷ lc.feature_set_id ∷ []) ++ inner)

-- The message with its opcode and feature set only.
abbrev pub empty : ℕ → ℕ → ℕ → Lc
empty call_type opcode feature_set_id = record {
  call_type = call_type;
  opcode = opcode;
  feature_set_id = feature_set_id;
  voice_channel_user = none;
  gps_info = none;
  talker_alias_header = none;
  talker_alias_block0 = none;
  talker_alias_block1 = none;
  talker_alias_block2 = none;
}

-- The switch of `ParseLC` over the opcode, on the last seven bytes.
parse_inner : ℕ → ℕ → List ℕ → Outcome Error Lc
parse_inner opcode feature b =
    if opcode == group_voice_channel_user
    then (do
      v ← parse_voice_channel_user b
      ok (record (empty call_type_group opcode feature) { voice_channel_user = some v }))
    else if opcode == unit_to_unit_voice_channel_user
    then (do
      v ← parse_voice_channel_user b
      ok (record (empty call_type_private opcode feature) { voice_channel_user = some v }))
    else if opcode == talker_alias_header_opcode
    then (do
      t ← parse_talker_alias_header b
      ok (record (empty 0 opcode feature) { talker_alias_header = some t }))
    else if opcode == talker_alias_blk1
    then (do
      t ← parse_talker_alias_block b
      ok (record (empty 0 opcode feature) { talker_alias_block0 = some t }))
    else if opcode == talker_alias_blk2
    then (do
      t ← parse_talker_alias_block b
      ok (record (empty 0 opcode feature) { talker_alias_block1 = some t }))
    else if opcode == talker_alias_blk3
    then (do
      t ← parse_talker_alias_block b
      ok (record (empty 0 opcode feature) { talker_alias_block2 = some t }))
    else if opcode == gps_info_opcode
    then (do g ← parse_gps_info b; ok (record (empty 0 opcode feature) { gps_info = some g }))
    else err unknown_opcode

-- `ParseLC`
unfoldable pub parse_lc : List ℕ → Outcome Error Lc
unfolding parse_inner
parse_lc b = do
  require (length b == 9) lc_size
  require (not (has_bits (get_or b 0 0) 0b10000000)) protect_flag
  parse_inner (bit_and (get_or b 0 0) 0b00111111) (get_or b 1 0) (slice 2 9 b)

-- `ParseLC` never panics.
pub parse_lc-ne-panic : (b : List ℕ) → parse_lc b ≢ panic
unfolding parse_lc parse_inner parse_voice_channel_user parse_gps_info parse_talker_alias_block
parse_lc-ne-panic b e = ground (arith, parse_talker_alias_header-ne-panic (slice 2 9 b))

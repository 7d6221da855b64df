-- ===== src/Lc/Pdu.antt =====
-- lc/voicechanneluser.go, lc/gpsinfo.go and lc/talkeralias.go: what a link control message carries in
-- its last seven bytes.
use go_dmr.Base.{
  ℕ, zero, suc, ◌+◌, ◌-◌, ◌*◌, ◌/◌, ◌%◌, ◌^◌, bit_and, bit_or, ltb, ◌==◌, if◌then◌else◌, Option,
  none, some, List, [], ◌∷◌, length, get_elem?, get_or, set, take, zeros, u8, be24, be32, ◌≡◌, ◌≢◌,
  ◌≤◌, refl, ◌∙◌, inl, inr, Bool-cases, ==_iff, length-set, get_elem?-eq-some, arith,
}
use go_dmr.Base.Outcome.{Outcome, ok, panic, ◌>>=◌, ◌>>◌, require, or_panic}
use go_dmr.Dmr.Packet.{slice}
use go_dmr.Lc.ServiceOptions.{ServiceOptions, byte, parse_service_options}

pub data Error : Type 0 where
  pdu_size lc_size protect_flag unknown_opcode : Error

pub record VoiceChannelUser : Type 0 where
  pub service_options : ServiceOptions
  pub dst_id : ℕ
  pub src_id : ℕ

unfoldable pub parse_voice_channel_user : List ℕ → Outcome Error VoiceChannelUser
parse_voice_channel_user b = do
  require (length b == 7) pdu_size
  ok (record {
    service_options = parse_service_options (get_or b 0 0);
    dst_id = be24 (get_or b 1 0) (get_or b 2 0) (get_or b 3 0);
    src_id = be24 (get_or b 4 0) (get_or b 5 0) (get_or b 6 0);
  })

unfoldable pub voice_channel_user_bytes : VoiceChannelUser → List ℕ
voice_channel_user_bytes v =
    byte v.service_options
    ∷ u8 (v.dst_id / 2 ^ 16)
    ∷ u8 (v.dst_id / 2 ^ 8)
    ∷ u8 v.dst_id
    ∷ u8 (v.src_id / 2 ^ 16)
    ∷ u8 (v.src_id / 2 ^ 8)
    ∷ u8 v.src_id
    ∷ []

pub record GpsInfo : Type 0 where
  pub position_error : ℕ
  pub longitude : ℕ
  pub latitude : ℕ

unfoldable pub parse_gps_info : List ℕ → Outcome Error GpsInfo
parse_gps_info b = do
  require (length b == 7) pdu_size
  ok (record {
    position_error = bit_and (get_or b 0 0) 0b00001110 / 2 ^ 1;
    longitude =
        be32 (bit_and (get_or b 0 0) 0b00000001) (get_or b 1 0) (get_or b 2 0) (get_or b 3 0);
    latitude = be24 (get_or b 4 0) (get_or b 5 0) (get_or b 6 0);
  })

unfoldable pub gps_info_bytes : GpsInfo → List ℕ
gps_info_bytes g =
    bit_or (u8 (bit_and g.position_error 0b00000111 * 2 ^ 1))
      (u8 (bit_and (g.longitude / 2 ^ 24) 0b00000001))
    ∷ u8 (g.longitude / 2 ^ 16)
    ∷ u8 (g.longitude / 2 ^ 8)
    ∷ u8 g.longitude
    ∷ u8 (g.latitude / 2 ^ 16)
    ∷ u8 (g.latitude / 2 ^ 8)
    ∷ u8 g.latitude
    ∷ []

pub record TalkerAliasHeader : Type 0 where
  pub data_format : ℕ
  pub size : ℕ
  pub text : List ℕ

abbrev pub format_7bit : ℕ
format_7bit = 0

-- `movebit`; `none` is an index out of range. `0 << dstBit` is 0, so a bit that is 0 clears the byte.
unfoldable pub move_bit : List ℕ → ℕ → ℕ → List ℕ → ℕ → ℕ → Option (List ℕ)
move_bit src src_byte src_bit dst dst_byte dst_bit = elim (get_elem? src src_byte) [
  | none ↦ none
  | some s ↦ elim (get_elem? dst dst_byte) [
    | none ↦ none
    | some d ↦ some (
        set dst dst_byte (
          if ltb 0 (bit_and (s / 2 ^ src_bit) 1)
          then bit_or d (2 ^ dst_bit)
          else bit_and d (0 * 2 ^ dst_bit)))
  ]
]

-- The loop of `ParseTalkerAliasHeaderPDU` with its rounds left and its index.
unfoldable pub unpack_text : ℕ → ℕ → List ℕ → List ℕ → Option (List ℕ)
unpack_text zero i src dst = some dst
unpack_text (suc n) i src dst =
    elim (move_bit src (i / 8) (7 - i % 8) dst ((i - 7) / 7) (6 - i % 7)) [
      | none ↦ none
      | some next ↦ unpack_text n (i + 1) src next
    ]

unfoldable pub parse_talker_alias_header : List ℕ → Outcome Error TalkerAliasHeader
parse_talker_alias_header b = do
  require (length b == 7) pdu_size
  let format = bit_and (get_or b 0 0) 0b11000000 / 2 ^ 6
  text ←
      or_panic (if format == format_7bit then unpack_text 49 7 b (zeros 7) else some (slice 1 6 b))
  ok (record {
    data_format = format;
    size = bit_and (get_or b 0 0) 0b00111110 / 2 ^ 1;
    text = text;
  })

-- The loop of `Bytes`. The byte that it writes to, `i/8 - 1`, is -1 for `i` below 8.
unfoldable pub pack_text : ℕ → ℕ → List ℕ → List ℕ → Option (List ℕ)
pack_text zero i src dst = some dst
pack_text (suc n) i src dst =
    if ltb i 8
    then none
    else elim (move_bit src ((i - 7) / 7) (6 - i % 7) dst (i / 8 - 1) (7 - i % 8)) [
      | none ↦ none
      | some next ↦ pack_text n (i + 1) src next
    ]

-- `out[0]` to `out[5]`
six : List ℕ → Option (List ℕ)
six b = if ltb (length b) 6 then none else some (take 6 b)

unfoldable pub talker_alias_header_bytes : TalkerAliasHeader → Outcome Error (List ℕ)
unfolding six
talker_alias_header_bytes t = do
  out ←
      or_panic
        (if t.data_format == format_7bit then pack_text 49 7 t.text (zeros 6) else some t.text)
  rest ← or_panic (six out)
  ok (
      bit_or
        (bit_or (bit_and (u8 (t.data_format * 2 ^ 6)) 0b11000000)
          (bit_and (u8 (t.size * 2 ^ 1)) 0b00111110))
        (bit_and 0 0b00000001)
      ∷ rest)

-- `ParseTalkerAliasBlockPDU`, whose result holds only a text.
unfoldable pub parse_talker_alias_block : List ℕ → Outcome Error (List ℕ)
parse_talker_alias_block b = do require (length b == 7) pdu_size; ok (slice 0 6 b)

-- The loop stays within seven bytes on both sides.
unpack_text-ne-none :
    (n i : ℕ) (src dst : List ℕ)
    → n + i ≤ 56
    → length src ≡ 7
    → length dst ≡ 7
    → unpack_text n i src dst ≢ none
unfolding unpack_text move_bit
unpack_text-ne-none zero i src dst h es ed e = cc
unpack_text-ne-none (suc n) i src dst h es ed e =
    let (s, hs) = get_elem?-eq-some src (i / 8) (omega arith) in
    let (d, hd) = get_elem?-eq-some dst ((i - 7) / 7) (omega arith) in
    let v =
      if ltb 0 (bit_and (s / 2 ^ (7 - i % 8)) 1)
      then bit_or d (2 ^ (6 - i % 7))
      else bit_and d (0 * 2 ^ (6 - i % 7)) in
    let left =
      unpack_text-ne-none n (i + 1) src (set dst ((i - 7) / 7) v) (omega arith) es
        (length-set dst ((i - 7) / 7) v ∙ ed) in
    ground (arith, hs, hd, left)

pub parse_talker_alias_header-ne-panic : (b : List ℕ) → parse_talker_alias_header b ≢ panic
unfolding parse_talker_alias_header
parse_talker_alias_header-ne-panic b e = elim (Bool-cases (length b == 7)) [
  | inl h ↦
      let size : length b ≡ 7 = (==_iff (length b) 7).0 h in
      ground (arith, h, unpack_text-ne-none 49 7 b (zeros 7) (omega arith) size refl)
  | inr h ↦ ground (arith, h)
]

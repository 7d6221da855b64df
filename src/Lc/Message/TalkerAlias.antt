-- ===== src/Lc/Message/TalkerAlias.antt =====
-- Talker aliases are read, but not written.
use go_dmr.Base.{
  ℕ, ◌≡◌, ◌≤◌, inl, inr, some, List, [], ◌∷◌, length, length-take, length-drop, arith, zero, suc,
  bit_and, get_or, take, drop,
}
use go_dmr.Base.Outcome.{ok, err, panic, Outcome-cases}
use go_dmr.Dmr.Packet.{slice}
use go_dmr.Lc.Pdu.{
  lc_size, TalkerAliasHeader, parse_voice_channel_user, parse_gps_info, parse_talker_alias_header,
  parse_talker_alias_block, talker_alias_header_bytes, pack_text,
}
use go_dmr.Lc.Message.{Lc, bytes, parse_lc}

short : (n : ℕ) (b : List ℕ) → length (take n b) ≤ n
short zero b = omega arith
short (suc n) [] = omega arith
short (suc n) (x ∷ b) = omega (arith, short n b)

-- The text that was parsed is packed from its eighth bit on, or has five bytes where six are read.
header_panics :
    (b : List ℕ) (t : _) → parse_talker_alias_header b ≡ ok t → talker_alias_header_bytes t ≡ panic
unfolding parse_talker_alias_header talker_alias_header_bytes pack_text
header_panics b t e = ground (arith, short 5 (drop 1 b))

accepted_header :
    (b : List ℕ) (lc : Lc)
    → parse_lc b ≡ ok lc
    → lc.opcode ≡ 4
    → (t : TalkerAliasHeader) × (parse_talker_alias_header (slice 2 9 b) ≡ ok t)
      × (lc.talker_alias_header ≡ some t)
unfolding parse_lc parse_voice_channel_user parse_talker_alias_block parse_gps_info
accepted_header b lc e o = elim (Outcome-cases (parse_talker_alias_header (slice 2 9 b))) [
  | inl (t, p) ↦ (t, p, ground (arith, p))
  | inr (inl (x, p)) ↦ absurd (ground (arith, p))
  | inr (inr p) ↦ absurd (ground (arith, p))
]

-- No talker alias header that `ParseLC` accepts can be written: for every message it returns with
-- that opcode, `Bytes` panics.
pub bytes_talker_alias_header :
    (b : List ℕ) (lc : Lc) → parse_lc b ≡ ok lc → lc.opcode ≡ 4 → bytes lc ≡ panic
unfolding bytes parse_lc
bytes_talker_alias_header b lc e o =
    let (t, p, q) = accepted_header b lc e o in
    ground (arith, q, o, header_panics (slice 2 9 b) t p)

-- A block of the three is stored as the six bytes behind the feature set.
block_stored :
    (b : List ℕ) (lc : Lc)
    → parse_lc b ≡ ok lc
    → let text = some (slice 0 6 (slice 2 9 b)) in
      let opcode = bit_and (get_or b 0 0) 0b00111111 in
      ((opcode ≡ 5) → (lc.opcode ≡ 5) × (lc.talker_alias_block0 ≡ text))
      × ((opcode ≡ 6) → (lc.opcode ≡ 6) × (lc.talker_alias_block1 ≡ text))
      × ((opcode ≡ 7) → (lc.opcode ≡ 7) × (lc.talker_alias_block2 ≡ text))
unfolding parse_lc parse_talker_alias_block
block_stored b lc e = (λ o. ground (arith, o), λ o. ground (arith, o), λ o. ground (arith, o))

accepted_opcode :
    (b : List ℕ) (lc : Lc)
    → parse_lc b ≡ ok lc
    → (lc.opcode ≡ bit_and (get_or b 0 0) 0b00111111) × (length b ≡ 9)
unfolding parse_lc parse_talker_alias_block parse_voice_channel_user parse_gps_info
accepted_opcode b lc e = elim (Outcome-cases (parse_talker_alias_header (slice 2 9 b))) [
  | inl (t, p) ↦ ground (arith, p)
  | inr (inl (x, p)) ↦ ground (arith, p)
  | inr (inr p) ↦ ground (arith, p)
]

accepted_block :
    (b : List ℕ) (lc : Lc)
    → parse_lc b ≡ ok lc
    → 5 ≤ lc.opcode
    → lc.opcode ≤ 7
    → bytes lc ≡ ok (lc.opcode ∷ lc.feature_set_id ∷ slice 0 6 (slice 2 9 b))
unfolding bytes
accepted_block b lc e lo hi =
    let o = (accepted_opcode b lc e).0 in
    let (f, g, k) = block_stored b lc e in ground (arith, o, f, g, k)

too_short : (b : List ℕ) → length b ≡ 8 → parse_lc b ≡ err lc_size
unfolding parse_lc
too_short b h = ground (arith, h)

-- A talker alias block that `ParseLC` accepts is written one byte too short: `Bytes` returns eight bytes,
-- which `ParseLC` refuses.
pub parse_lc-bytes_talker_alias_block :
    (b : List ℕ) (lc : Lc)
    → parse_lc b ≡ ok lc
    → 5 ≤ lc.opcode
    → lc.opcode ≤ 7
    → (b' : List ℕ) × (bytes lc ≡ ok b') × (length b' ≡ 8) × (parse_lc b' ≡ err lc_size)
parse_lc-bytes_talker_alias_block b lc e lo hi =
    let written = accepted_block b lc e lo hi in
    let size = (accepted_opcode b lc e).1 in
    let m = lc.opcode ∷ lc.feature_set_id ∷ slice 0 6 (slice 2 9 b) in
    let eight : length m ≡ 8 = omega (
      arith,
      length-take 6 (slice 2 9 b) (
          omega (
            arith,
            size,
            length-take 7 (drop 2 b) (omega (arith, size, length-drop 2 b)),
            length-drop 2 b,
          )),
    ) in
    (m, written, eight, too_short m eight)

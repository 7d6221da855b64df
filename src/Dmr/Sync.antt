-- ===== src/Dmr/Sync.antt =====
-- sync.go: the patterns of the SYNC bits. The table of names is not modelled.
use go_dmr.Base.{
  ℕ, ◌<◌, ◌≡◌, ◌↔◌, ◌==◌, refl, ap, ◌∙◌, if◌then◌else◌, true, List, [], ◌∷◌, bytes_eq, bytes_eq→eq,
  get_or, arith, all_below, agree_below,
}
use go_dmr.Dmr.Bits.{bits_to_bytes}

abbrev pub bs_sourced_voice : List ℕ
bs_sourced_voice = 0x75 ∷ 0x5f ∷ 0xd7 ∷ 0xdf ∷ 0x75 ∷ 0xf7 ∷ []

abbrev pub bs_sourced_data : List ℕ
bs_sourced_data = 0xdf ∷ 0xf5 ∷ 0x7d ∷ 0x75 ∷ 0xdf ∷ 0x5d ∷ []

abbrev pub ms_sourced_voice : List ℕ
ms_sourced_voice = 0x7f ∷ 0x7d ∷ 0x5d ∷ 0xd5 ∷ 0x7d ∷ 0xfd ∷ []

abbrev pub ms_sourced_data : List ℕ
ms_sourced_data = 0xd5 ∷ 0xd7 ∷ 0xf7 ∷ 0x7f ∷ 0xd7 ∷ 0x57 ∷ []

abbrev pub ms_sourced_rc : List ℕ
ms_sourced_rc = 0x77 ∷ 0xd5 ∷ 0x5f ∷ 0x7d ∷ 0xfd ∷ 0x77 ∷ []

abbrev pub direct_voice_ts1 : List ℕ
direct_voice_ts1 = 0x5d ∷ 0x57 ∷ 0x7f ∷ 0x77 ∷ 0x57 ∷ 0xff ∷ []

abbrev pub direct_data_ts1 : List ℕ
direct_data_ts1 = 0xf7 ∷ 0xfd ∷ 0xd5 ∷ 0xdd ∷ 0xfd ∷ 0x55 ∷ []

abbrev pub direct_voice_ts2 : List ℕ
direct_voice_ts2 = 0x7d ∷ 0xff ∷ 0xd5 ∷ 0xf5 ∷ 0x5d ∷ 0x5f ∷ []

abbrev pub direct_data_ts2 : List ℕ
direct_data_ts2 = 0xd7 ∷ 0x55 ∷ 0x7f ∷ 0x5f ∷ 0xf7 ∷ 0xf5 ∷ []

-- The switch of `SyncPattern` on the packed bits.
pattern_of : List ℕ → ℕ
pattern_of b =
    if bytes_eq b bs_sourced_voice
    then 0
    else if bytes_eq b bs_sourced_data
    then 1
    else if bytes_eq b ms_sourced_voice
    then 2
    else if bytes_eq b ms_sourced_data
    then 3
    else if bytes_eq b ms_sourced_rc
    then 4
    else if bytes_eq b direct_voice_ts1
    then 5
    else if bytes_eq b direct_data_ts1
    then 6
    else if bytes_eq b direct_voice_ts2
    then 7
    else if bytes_eq b direct_data_ts2
    then 8
    else 9

unfoldable pub sync_pattern : List ℕ → ℕ
unfolding pattern_of
sync_pattern bits = pattern_of (bits_to_bytes bits)

-- The patterns of Table 9.2 in the order of their codes.
abbrev pub patterns : List (List ℕ)
patterns =
    bs_sourced_voice ∷ bs_sourced_data ∷ ms_sourced_voice ∷ ms_sourced_data ∷ ms_sourced_rc
    ∷ direct_voice_ts1 ∷ direct_data_ts1 ∷ direct_voice_ts2 ∷ direct_data_ts2 ∷ []

distinct_table : all_below 9 (λ k. pattern_of (get_or patterns k []) == k) ≡ true
unfolding all_below pattern_of bytes_eq
distinct_table = refl

distinct : (k : ℕ) → k < 9 → pattern_of (get_or patterns k []) ≡ k
distinct k h = agree_below 9 (λ k. pattern_of (get_or patterns k [])) (λ k. k) distinct_table k h

found : (b : List ℕ) (k : ℕ) → k < 9 → pattern_of b ≡ k → b ≡ get_or patterns k []
unfolding pattern_of
found b k h e = ground (
  arith,
  bytes_eq→eq b bs_sourced_voice,
  bytes_eq→eq b bs_sourced_data,
  bytes_eq→eq b ms_sourced_voice,
  bytes_eq→eq b ms_sourced_data,
  bytes_eq→eq b ms_sourced_rc,
  bytes_eq→eq b direct_voice_ts1,
  bytes_eq→eq b direct_data_ts1,
  bytes_eq→eq b direct_voice_ts2,
  bytes_eq→eq b direct_data_ts2,
)

-- For each of the nine patterns of Table 9.2 and any bits: `SyncPattern` names the pattern exactly if the
-- bits pack to it. So no two patterns are confused, and none hides behind an earlier case.
pub sync_pattern_iff :
    (bits : List ℕ) (k : ℕ)
    → k < 9
    → (sync_pattern bits ≡ k) ↔ (bits_to_bytes bits ≡ get_or patterns k [])
unfolding sync_pattern
sync_pattern_iff bits k h =
    (λ e. found (bits_to_bytes bits) k h e, λ e. ap pattern_of e ∙ distinct k h)

-- ===== src/Lc/Tests.antt =====
-- Runs of link control at concrete inputs.
use go_dmr.Base.{ℕ, ◌≡◌, refl, true, false, some, List, [], ◌∷◌, arith}
use go_dmr.Base.Outcome.{ok}
use go_dmr.Lc.ServiceOptions.{ServiceOptions}
use go_dmr.Lc.Pdu.{VoiceChannelUser, GpsInfo}
use go_dmr.Lc.Message.{Lc, empty, bytes, parse_lc}
use go_dmr.Lc.Message.Full.{message, as_full, parse_full_lc, parse_full_lc-parse_lc}
use go_dmr.Lc.Message.RoundTrip.{voice, parse_lc-bytes-voice, parse_lc-bytes_gps}

abbrev caller_options : ServiceOptions
caller_options = record {
  emergency = true;
  privacy = false;
  broadcast = true;
  open_voice_call_mode = false;
  priority = 2;
}

abbrev user : VoiceChannelUser
user = record { service_options = caller_options; dst_id = 446; src_id = 2042214 }

parse_lc-bytes-voice_example :
    (b : List ℕ) × (bytes (voice true 16 user) ≡ ok b) × (parse_lc b ≡ ok (voice true 16 user))
parse_lc-bytes-voice_example =
    parse_lc-bytes-voice true 16 user (omega arith) (omega arith) (omega arith)

abbrev position : GpsInfo
position = record { position_error = 3; longitude = 20000000; latitude = 9000000 }

parse_lc-bytes_gps_example :
    let lc = record (empty 0 8 0) { gps_info = some position } in
    (b : List ℕ) × (bytes lc ≡ ok b) × (parse_lc b ≡ ok lc)
parse_lc-bytes_gps_example = parse_lc-bytes_gps 0 position (omega arith) (omega arith) (omega arith)

abbrev header_message : Lc
header_message = record (empty 0 4 0) {
  talker_alias_header = some (record { data_format = 1; size = 5; text = 1 ∷ 2 ∷ 3 ∷ 4 ∷ 5 ∷ [] });
}

abbrev block_message : Lc
block_message = record (empty 0 5 0) { talker_alias_block0 = some (1 ∷ 2 ∷ 3 ∷ 4 ∷ 5 ∷ 6 ∷ []) }

parse_full_lc-parse_lc_example :
    parse_full_lc (0 ∷ 16 ∷ 0 ∷ 0 ∷ 1 ∷ 190 ∷ 31 ∷ 41 ∷ 102 ∷ 1 ∷ 2 ∷ 3 ∷ [])
    ≡ as_full message (parse_lc (0 ∷ 16 ∷ 0 ∷ 0 ∷ 1 ∷ 190 ∷ 31 ∷ 41 ∷ 102 ∷ []))
parse_full_lc-parse_lc_example =
    parse_full_lc-parse_lc (0 ∷ 16 ∷ 0 ∷ 0 ∷ 1 ∷ 190 ∷ 31 ∷ 41 ∷ 102 ∷ 1 ∷ 2 ∷ 3 ∷ []) refl

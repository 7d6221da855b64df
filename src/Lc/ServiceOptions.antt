-- ===== src/Lc/ServiceOptions.antt =====
-- lc/serviceoptions/serviceoptions.go: the options of a voice service in one byte.
use go_dmr.Base.{
  ℕ, ◌*◌, ◌/◌, ◌^◌, ◌<◌, ◌≡◌, refl, bit_and, bit_or, ◌==◌, ◌&&◌, if◌then◌else◌, Bool, true, u8,
  has_bits, arith, all_below, all_below_sound,
}
use go_dmr.Base.{both, both_sound, same, same-eq}

pub record ServiceOptions : Type 0 where
  pub emergency : Bool
  pub privacy : Bool
  pub broadcast : Bool
  pub open_voice_call_mode : Bool
  pub priority : ℕ

-- `Byte`
unfoldable pub byte : ServiceOptions → ℕ
byte so =
    let b = if so.emergency then 0b00000001 else 0 in
    let b1 = if so.privacy then bit_or b 0b00000010 else b in
    let b2 = if so.broadcast then bit_or b1 0b00010000 else b1 in
    let b3 = if so.open_voice_call_mode then bit_or b2 0b00100000 else b2 in
    bit_or b3 (u8 (so.priority * 2 ^ 6))

unfoldable pub parse_service_options : ℕ → ServiceOptions
parse_service_options b = record {
  emergency = has_bits b 0b00000001;
  privacy = has_bits b 0b00000010;
  broadcast = has_bits b 0b00010000;
  open_voice_call_mode = has_bits b 0b00100000;
  priority = bit_and b 0b11000000 / 2 ^ 6;
}

agrees : ServiceOptions → ServiceOptions → Bool
agrees a b =
    same a.emergency b.emergency
    && same a.privacy b.privacy
    && same a.broadcast b.broadcast
    && same a.open_voice_call_mode b.open_voice_call_mode
    && (a.priority == b.priority)

agrees-eq : (a b : ServiceOptions) → agrees a b ≡ true → a ≡ b
unfolding agrees
agrees-eq a b h = ground (
  arith,
  same-eq a.emergency b.emergency,
  same-eq a.privacy b.privacy,
  same-eq a.broadcast b.broadcast,
  same-eq a.open_voice_call_mode b.open_voice_call_mode,
)

abbrev options : ℕ → Bool → Bool → Bool → Bool → ServiceOptions
options n e p b o = record {
  emergency = e;
  privacy = p;
  broadcast = b;
  open_voice_call_mode = o;
  priority = n;
}

option_test : ℕ → Bool → Bool → Bool → Bool → Bool
option_test n e p b o =
    agrees (parse_service_options (byte (options n e p b o))) (options n e p b o)

options_table :
    all_below 4 (λ n. both (λ e. both (λ p. both (λ b. both (λ o. option_test n e p b o))))) ≡ true
unfolding all_below both same agrees option_test byte parse_service_options
options_table = refl

-- Service options with a priority below four are read back from their byte.
pub parse_service_options-byte :
    (so : ServiceOptions) → so.priority < 4 → parse_service_options (byte so) ≡ so
parse_service_options-byte so h = agrees-eq _ so (
    unfold option_test in
    both_sound (option_test so.priority so.emergency so.privacy so.broadcast)
      (both_sound _
        (both_sound _ (both_sound _ (all_below_sound 4 _ options_table so.priority h) so.emergency)
          so.privacy)
        so.broadcast)
      so.open_voice_call_mode)

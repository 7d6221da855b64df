-- ===== src/Ipsc/Config.antt =====
-- ipsc.go, `New`: what the configuration makes of the mode byte and the four flag bytes. The flags of
-- mask.go stand as their values. Resolving addresses is a parameter of `New`.
use go_dmr.Base.{ℕ, bit_and, bit_or, ◌==◌, Bool, if◌then◌else◌, Option, List}
use go_dmr.Base.Outcome.{Outcome, ok, err}

-- The values of `IPSCMode`: "" is digital too, and `no_radio` is "none".
pub data IpscMode : Type 0 where
  analog digital no_radio unknown : IpscMode

-- An `int`, which a configuration may make negative: `negsuc n` is `-(n + 1)`.
pub data ℤ : Type 0 where
  pos negsuc : ℕ → ℤ

-- The text of `AuthKey` as its length and the bytes that `hex.DecodeString` gives; addresses are
-- numbers, `Master` and `Listen` are as `net.ResolveUDPAddr` answers.
pub record Config : Type 0 where
  pub radio_id : ℕ
  pub alive_timer : ℕ
  pub max_missed : ℤ
  pub ipsc_mode : IpscMode
  pub peer_oper_disabled : Bool
  pub ts1_link_disabled : Bool
  pub ts2_link_disabled : Bool
  pub csbk_call : Bool
  pub repeater_call_monitoring : Bool
  pub console_application_disabled : Bool
  pub xnl_call : Bool
  pub xnl_master : Bool
  pub data_call : Bool
  pub voice_call : Bool
  pub master_peer : Bool
  pub auth_key_len : ℕ
  pub auth_key : Option (List ℕ)
  pub listen : Option ℕ
  pub has_master : Bool
  pub master : Option ℕ

pub data Error : Type 0 where
  bad_auth_key unknown_mode bad_listen bad_master : Error

unfoldable pub base_mode : Config → ℕ
base_mode c = if c.peer_oper_disabled then 0 else bit_or 0 0x40

-- The switch over `IPSCMode`, which starts from the mode so far.
unfoldable pub with_ipsc_mode : IpscMode → ℕ → Outcome Error ℕ
with_ipsc_mode analog mode = ok (bit_or mode 0x10)
with_ipsc_mode digital mode = ok (bit_or mode 0x20)
with_ipsc_mode no_radio mode = ok (bit_and mode 0xcf)
with_ipsc_mode unknown mode = err unknown_mode

unfoldable pub with_timeslots : Config → ℕ → ℕ
with_timeslots c mode =
    let first = if c.ts1_link_disabled then bit_or mode 0x04 else bit_or mode 0x08 in
    if c.ts2_link_disabled then bit_or first 0x01 else bit_or first 0x02

-- The third flag byte.
unfoldable pub service_flags : Config → ℕ
service_flags c =
    let csbk = if c.csbk_call then bit_or 0 0x80 else 0 in
    let rcm = if c.repeater_call_monitoring then bit_or csbk 0x40 else csbk in
    if c.console_application_disabled then rcm else bit_or rcm 0x20

-- The fourth flag byte.
unfoldable pub call_flags : Config → ℕ
call_flags c =
    let xnl =
      if c.xnl_call
      then (if c.xnl_master then bit_or (bit_or 0 0x80) 0x40 else bit_or (bit_or 0 0x80) 0x20)
      else 0 in
    let auth = if c.auth_key_len == 0 then xnl else bit_or xnl 0x10 in
    let data_calls = if c.data_call then bit_or auth 0x08 else auth in
    let voice_calls = if c.voice_call then bit_or data_calls 0x04 else data_calls in
    if c.master_peer then bit_or voice_calls 0x01 else voice_calls

abbrev pub second : ℕ
second = 1000000000

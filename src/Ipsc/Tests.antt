-- ===== src/Ipsc/Tests.antt =====
-- Runs of the IPSC package at concrete inputs.
use go_dmr.Base.{ℕ, ◌≡◌, refl, true, false, none, some, List, [], ◌∷◌, ◌++◌, zeros, be32, arith}
use go_dmr.Base.Outcome.{ok}
use go_dmr.Ipsc.Config.{
  pos, Config, digital, base_mode, with_ipsc_mode, with_timeslots, service_flags, call_flags,
}
use go_dmr.Ipsc.Network.{
  Ipsc, no_status, new, put_uint32, or_error, has_key, authenticate, payload, master_required,
  register, parse, receive, request, turn, send_to_master, done,
}
use go_dmr.Ipsc.Network.Alive.{
  WithinLimit, here, next, arrives, Reach-WithinLimit, silent_turns, silent_turns-registers,
  send_to_master-done,
}

abbrev settings : Config
settings = record {
  radio_id = 2042214;
  alive_timer = 0;
  max_missed = pos 2;
  ipsc_mode = digital;
  peer_oper_disabled = false;
  ts1_link_disabled = false;
  ts2_link_disabled = true;
  csbk_call = true;
  repeater_call_monitoring = false;
  console_application_disabled = false;
  xnl_call = true;
  xnl_master = false;
  data_call = true;
  voice_call = true;
  master_peer = false;
  auth_key_len = 0;
  auth_key = none;
  listen = some 1;
  has_master = true;
  master = some 2;
}

abbrev started : Ipsc
started = record {
  max_missed = pos 2;
  alive_timer = 5000000000;
  auth_key = [];
  addr = 1;
  id = 0 ∷ 31 ∷ 41 ∷ 102 ∷ [];
  mode = 0x69;
  flags = 0 ∷ 0 ∷ 0xa0 ∷ 0xac ∷ [];
  ts_flags = 0x69 ∷ 0 ∷ 0 ∷ 0xa0 ∷ 0xac ∷ [];
  peers = [];
  master = record {
    addr = some 2;
    radio_id = 0;
    mode = 0;
    flags = 0 ∷ 0 ∷ 0 ∷ 0 ∷ [];
    status = no_status;
  };
}

new-started : new settings ≡ ok started
unfolding new or_error put_uint32 base_mode with_ipsc_mode with_timeslots service_flags call_flags
new-started = refl

abbrev mac : List ℕ → List ℕ → List ℕ
mac key text = zeros 20

abbrev encode : List ℕ → List ℕ
encode text = text ++ text

-- A registration reply in a buffer of 512 bytes.
abbrev reply : List ℕ
reply = 0x91 ∷ 0 ∷ 0 ∷ 0 ∷ 7 ∷ 0x6a ∷ 0 ∷ 0 ∷ 0 ∷ 1 ∷ zeros 502

abbrev registered : Ipsc
registered = record started {
  master = record (started.master) {
    radio_id = 7;
    mode = 0x6a;
    flags = 0 ∷ 0 ∷ 0 ∷ 1 ∷ [];
    status = record no_status { connected = true };
  };
}

Reach-WithinLimit_example : WithinLimit registered
unfolding receive authenticate has_key payload parse master_required register be32
Reach-WithinLimit_example =
    Reach-WithinLimit mac encode settings started registered new-started
      (next here (arrives 3 reply 10 refl))

abbrev waiting : Ipsc
waiting = record registered {
  master = record (registered.master) {
    status = record (registered.master.status) { outstanding = 2 };
  };
}

silent_turns-registers_example :
    (c' : Ipsc) × (silent_turns mac encode 2 waiting ≡ some c')
    × (c'.master.status.connected ≡ false)
    × (turn mac encode c' ≡ some (c', some (request mac encode c' 0x90)))
unfolding has_key
silent_turns-registers_example = silent_turns-registers mac encode 1 waiting refl refl refl

send_to_master-done_example :
    send_to_master 3 (λ bytes. some 1) (1 ∷ 2 ∷ 3 ∷ []) ≡ (1 ∷ 2 ∷ 3 ∷ [], done)
send_to_master-done_example =
    send_to_master-done (λ bytes. some 1) 3 (1 ∷ 2 ∷ 3 ∷ [])
      (λ b bytes. (1, refl, omega arith, omega arith)) (omega arith)

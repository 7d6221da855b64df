-- ===== src/Ipsc/Network/Flags.antt =====
-- What the mode byte and the flags that `New` makes tell a peer.
use go_dmr.Base.{ℕ, ◌≡◌, ap, ◌∙◌, ◌==◌, ◌&&◌, not, has_bits, List, [], ◌∷◌, get_or, arith}
use go_dmr.Base.Outcome.{ok}
use go_dmr.Ipsc.Config.{
  Config, base_mode, with_ipsc_mode, with_timeslots, service_flags, call_flags,
}
use go_dmr.Ipsc.Network.{Ipsc, new}

service :
    (c : Config)
    → (has_bits (service_flags c) 0x80 ≡ c.csbk_call)
      × (has_bits (service_flags c) 0x40 ≡ c.repeater_call_monitoring)
      × (has_bits (service_flags c) 0x20 ≡ not c.console_application_disabled)
unfolding service_flags
service c = ground arith

calls :
    (c : Config)
    → (has_bits (call_flags c) 0x80 ≡ c.xnl_call)
      × (has_bits (call_flags c) 0x40 ≡ c.xnl_call && c.xnl_master)
      × (has_bits (call_flags c) 0x20 ≡ c.xnl_call && not c.xnl_master)
      × (has_bits (call_flags c) 0x10 ≡ not (c.auth_key_len == 0))
      × (has_bits (call_flags c) 0x08 ≡ c.data_call)
      × (has_bits (call_flags c) 0x04 ≡ c.voice_call)
      × (has_bits (call_flags c) 0x01 ≡ c.master_peer)
unfolding call_flags
calls c = ground arith

-- What a package announces of its configuration.
pub record Announces (c : Config) (s : Ipsc) : Type 0 where
  pub operational : has_bits s.mode 0x40 ≡ not c.peer_oper_disabled
  pub ts1_on : has_bits s.mode 0x08 ≡ not c.ts1_link_disabled
  pub ts1_off : has_bits s.mode 0x04 ≡ c.ts1_link_disabled
  pub ts2_on : has_bits s.mode 0x02 ≡ not c.ts2_link_disabled
  pub ts2_off : has_bits s.mode 0x01 ≡ c.ts2_link_disabled
  pub csbk : has_bits (get_or s.flags 2 0) 0x80 ≡ c.csbk_call
  pub monitoring : has_bits (get_or s.flags 2 0) 0x40 ≡ c.repeater_call_monitoring
  pub console : has_bits (get_or s.flags 2 0) 0x20 ≡ not c.console_application_disabled
  pub xnl : has_bits (get_or s.flags 3 0) 0x80 ≡ c.xnl_call
  pub xnl_master : has_bits (get_or s.flags 3 0) 0x40 ≡ c.xnl_call && c.xnl_master
  pub xnl_slave : has_bits (get_or s.flags 3 0) 0x20 ≡ c.xnl_call && not c.xnl_master
  pub authenticated : has_bits (get_or s.flags 3 0) 0x10 ≡ not (c.auth_key_len == 0)
  pub data_calls : has_bits (get_or s.flags 3 0) 0x08 ≡ c.data_call
  pub voice_calls : has_bits (get_or s.flags 3 0) 0x04 ≡ c.voice_call
  pub master : has_bits (get_or s.flags 3 0) 0x01 ≡ c.master_peer
  pub sent_with_packets : s.ts_flags ≡ s.mode ∷ s.flags

mode :
    (c : Config) (s : Ipsc)
    → new c ≡ ok s
    → (has_bits s.mode 0x40 ≡ not c.peer_oper_disabled)
      × (has_bits s.mode 0x08 ≡ not c.ts1_link_disabled)
      × (has_bits s.mode 0x04 ≡ c.ts1_link_disabled)
      × (has_bits s.mode 0x02 ≡ not c.ts2_link_disabled)
      × (has_bits s.mode 0x01 ≡ c.ts2_link_disabled)
unfolding new base_mode with_ipsc_mode with_timeslots
mode c s e = ground (arith, e)

flags :
    (c : Config) (s : Ipsc)
    → new c ≡ ok s
    → (s.flags ≡ 0 ∷ 0 ∷ service_flags c ∷ call_flags c ∷ []) × (s.ts_flags ≡ s.mode ∷ s.flags)
unfolding new
flags c s e = ground (arith, e)

-- Wherever `New` succeeds, the mode byte and the flag bytes that its packets carry tell the configuration: each
-- bit is set exactly where the option it stands for says so.
pub new-Announces : (c : Config) (s : Ipsc) → new c ≡ ok s → Announces c s
new-Announces c s e =
    let (m40, m8, m4, m2, m1) = mode c s e in
    let (f, ts) = flags c s e in
    let (s80, s40, s20) = service c in
    let (c80, c40, c20, c10, c8, c4, c1) = calls c in
    record {
      operational = m40;
      ts1_on = m8;
      ts1_off = m4;
      ts2_on = m2;
      ts2_off = m1;
      csbk = ap (λ (l : List ℕ). has_bits (get_or l 2 0) 0x80) f ∙ s80;
      monitoring = ap (λ (l : List ℕ). has_bits (get_or l 2 0) 0x40) f ∙ s40;
      console = ap (λ (l : List ℕ). has_bits (get_or l 2 0) 0x20) f ∙ s20;
      xnl = ap (λ (l : List ℕ). has_bits (get_or l 3 0) 0x80) f ∙ c80;
      xnl_master = ap (λ (l : List ℕ). has_bits (get_or l 3 0) 0x40) f ∙ c40;
      xnl_slave = ap (λ (l : List ℕ). has_bits (get_or l 3 0) 0x20) f ∙ c20;
      authenticated = ap (λ (l : List ℕ). has_bits (get_or l 3 0) 0x10) f ∙ c10;
      data_calls = ap (λ (l : List ℕ). has_bits (get_or l 3 0) 0x08) f ∙ c8;
      voice_calls = ap (λ (l : List ℕ). has_bits (get_or l 3 0) 0x04) f ∙ c4;
      master = ap (λ (l : List ℕ). has_bits (get_or l 3 0) 0x01) f ∙ c1;
      sent_with_packets = ts;
    }

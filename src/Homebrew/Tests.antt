-- ===== src/Homebrew/Tests.antt =====
-- Runs of the network code at concrete inputs.
use go_dmr.Base.{
  ℕ, ◌≡◌, refl, none, some, true, false, List, [], ◌∷◌, ◌++◌, ◌⊎◌, inl, length, set, zeros,
  get_elem?, bytes_eq, arith,
}
use go_dmr.Base.Outcome.{ok}
use mathlib.Core.List.{map}
use go_dmr.Dmr.Bits.{bytes_to_bits}
use go_dmr.Dmr.Packet.{Packet}
use go_dmr.Homebrew.Packet.{build_data, parse_data}
use go_dmr.Homebrew.Packet.RoundTrip.{parse_data-build_data}
use go_dmr.Homebrew.State.{
  auth_none, auth_begin, auth_done, Peer, Env, Homebrew, sent, returns, repeater_key,
  repeater_login, repeater_ack, master_nak, write_to_peer, lookup,
}
use go_dmr.Homebrew.Handle.{handle, handle_peer, handshake, incoming_begin, handle_packet}
use go_dmr.Homebrew.Handle.Auth.{Answers, handle_peer_login}
use go_dmr.Homebrew.Handle.Confined.{IsConfined, handle_peer-IsConfined}
use go_dmr.Homebrew.Handle.Login.{Leaves, login_completes}
use go_dmr.Homebrew.Handle.Traffic.{targets, handle_packet_group}
use go_dmr.Homebrew.State.{auth_failed}
use go_dmr.Homebrew.Handle.Auth.{peer_after}
use go_dmr.Homebrew.Handle.Confined.{events_of}
use go_dmr.Homebrew.Keepalive.{tick_peer}
use go_dmr.Homebrew.Keepalive.Retry.{tick_peer_retries}
use go_dmr.Homebrew.Handle.Panics.{ShortLogin, BadConfig, handle_panics}

abbrev frame : Packet
frame = record {
  timeslot = 1;
  sequence = 7;
  src_id = 2042214;
  dst_id = 446;
  repeater_id = 0;
  stream_id = 99;
  data_type = 11;
  call_type = 0;
  ber = 1;
  rssi = 40;
  payload = zeros 33;
  bits = [];
}

parse_data-build_data_example :
    parse_data (build_data frame 2043044)
    ≡ ok (record frame { repeater_id = 2043044; bits = bytes_to_bits (zeros 33) })
parse_data-build_data_example =
    parse_data-build_data frame
      (record {
        slot = omega arith;
        call = omega arith;
        types = omega arith;
        source = omega arith;
        target = omega arith;
        stream = omega arith;
        frame = refl;
      })
      2043044 (omega arith)

abbrev world : Env
world = record {
  now = 5;
  random = some (1 ∷ 2 ∷ 3 ∷ 4 ∷ []);
  sha256 = λ t. zeros 32;
  equal_fold = bytes_eq;
  write_ok = λ text addr. true;
  callback_ok = λ packet. true;
  config_of = λ t. length t;
  config_data = repeater_ack;
}

abbrev caller : Peer
caller = record {
  id = 9;
  addr = 77;
  config = none;
  auth_key = b'k' ∷ [];
  status = auth_begin;
  nonce = [];
  token = zeros 32;
  incoming = true;
  tg_id = 446;
  unlink_on_auth_failure = false;
  has_callback = false;
  last = record {
    tg_subscribed = 0;
    auth_sent = 0;
    packet_sent = 0;
    packet_received = 0;
    ping_sent = 0;
    ping_received = 0;
    pong_received = 0;
  };
  packed_id = none;
}

abbrev member : Peer
member = record caller { id = 8; addr = 78; status = auth_done }

abbrev process : Homebrew
process = record {
  config_id = 2043044;
  id = 0 ∷ 31 ∷ 44 ∷ 164 ∷ [];
  heap = caller ∷ member ∷ [];
  by_addr = (77, 0) ∷ (78, 1) ∷ [];
  by_id = (9, 0) ∷ (8, 1) ∷ [];
  has_pf = false;
  last = 0;
}

abbrev answer : List ℕ
answer = repeater_key ++ ((0 ∷ 0 ∷ 0 ∷ 9 ∷ []) ++ zeros 32)

handle_peer_login_example : Answers caller answer 40
unfolding handle_peer handshake incoming_begin write_to_peer bytes_eq
handle_peer_login_example =
    handle_peer_login world process 0 caller answer 40 refl refl (λ e. cc) refl

-- A link to another master that is refused.
abbrev refused_link : Peer
refused_link = record caller {
  id = 8;
  status = auth_none;
  incoming = false;
  unlink_on_auth_failure = true;
}

handle_peer-IsConfined_example :
    IsConfined process 0 77 8 true
      (handle_peer world process 0 refused_link (master_nak ++ zeros 4) 10)
handle_peer-IsConfined_example =
    handle_peer-IsConfined world process 0 refused_link (master_nak ++ zeros 4) 10 (λ e. cc)

handle_packet_group_example :
    (heap' : List Peer) × (handle_packet world process 1 member frame
      ≡ returns
          (record process { heap = heap'; last = 5 })
          (map (sent (build_data frame 2043044)) (
            targets 8 446 process.by_addr (
              set process.heap 1 (record member {
                tg_id = 446;
                last = record (member.last) { tg_subscribed = 5 };
              }))))
          none)
    × (get_elem? heap' 1
        ≡ some (record member { tg_id = 446; last = record (member.last) { tg_subscribed = 5 } }))
handle_packet_group_example =
    handle_packet_group world process 1 member frame (λ text addr. refl) (omega arith)
      (omega arith, (omega arith, tt)) refl refl refl

handle_panics_example :
    ShortLogin process 99 repeater_login 4 ⊎ BadConfig process 99 repeater_login 4
unfolding handle bytes_eq lookup
handle_panics_example =
    handle_panics world process 99 repeater_login 4 (omega arith, (omega arith, tt)) refl

abbrev master : Homebrew
master = record process { heap = record caller { status = auth_none } ∷ [] }

abbrev repeater : Homebrew
repeater = record process { heap = record caller { status = auth_none; incoming = false } ∷ [] }

abbrev key_token : List ℕ
key_token = zeros 32

login_completes_example :
    let q = record caller { status = auth_none } in
    let p = record q { incoming = false } in
    (q1 q2 p1 p2 : Peer) × Leaves 0
      (handle_peer world master 0 q (repeater_login ++ process.id) 8)
      q1
      (repeater_ack ++ (1 ∷ 2 ∷ 3 ∷ 4 ∷ []))
    × Leaves 0
        (handle_peer world repeater 0 p (repeater_ack ++ ((1 ∷ 2 ∷ 3 ∷ 4 ∷ []) ++ [])) 10)
        p1
        (repeater_key ++ (process.id ++ zeros 32))
    × Leaves 0
        (handle_peer world master 0 q1 (repeater_key ++ (process.id ++ (zeros 32 ++ []))) 40)
        q2
        (repeater_ack ++ process.id)
    × Leaves 0
        (handle_peer world repeater 0 p1 (repeater_ack ++ (process.id ++ [])) 10)
        p2
        repeater_ack
    × (q2.status ≡ auth_done)
    × (p2.status ≡ auth_done)
login_completes_example =
    login_completes world world world world master master repeater repeater 0 0
      (record caller { status = auth_none })
      (record caller { status = auth_none; incoming = false }) 1 2 3 4 0 31 44 164 process.id [] []
      [] 8 (omega arith) (omega arith) (omega arith) (omega arith) refl refl refl refl refl
      (λ t. refl) (λ t. refl) refl refl (omega arith)

abbrev waiting : Peer
waiting = record caller { status = auth_none; incoming = false }

tick_peer_retries_example :
    let e1 = record world { now = 16000000000 } in
    let e2 = record world { now = 17000000000 } in
    (p1 p2 : Peer) × (peer_after 0 (tick_peer e1 repeater 0 waiting) ≡ some p1)
    × (p1.status ≡ auth_failed)
    × (events_of (tick_peer e1 repeater 0 waiting) ≡ [])
    × (peer_after 0 (tick_peer e2 repeater 0 p1) ≡ some p2)
    × (p2.status ≡ auth_none)
    × (events_of (tick_peer e2 repeater 0 p1) ≡ sent (repeater_login ++ process.id) 77 ∷ [])
tick_peer_retries_example =
    tick_peer_retries (record world { now = 16000000000 }) (record world { now = 17000000000 })
      repeater repeater 0 waiting (omega arith) (omega arith) refl (inl refl) (omega arith)
      (omega arith)

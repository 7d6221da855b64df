-- ===== src/Homebrew/Handle.antt =====
-- homebrew.go, `handle` and what it calls: one datagram from the socket. The datagram is the first `n`
-- bytes of the listener's buffer of 302, and a slice such as `data[6:10]` may reach into the bytes
-- behind it, which an earlier datagram left. The answers of `checkRepeaterID` and of
-- `CheckRepeaterID` that are only logged are left out.
pub mod Auth
pub mod Confined
pub mod Index
pub mod Login
pub mod Panics
pub mod Keeps
pub mod Sound
pub mod Traffic
use go_dmr.Base.{
  ℕ, ◌+◌, ◌-◌, ◌==◌, ltb, ◌&&◌, ◌||◌, if◌then◌else◌, Bool, true, false, not, Option, none, some,
  List, [], ◌∷◌, ◌++◌, length, get_elem?, get_or, set, take, drop, bytes_eq, be32,
}
use go_dmr.Base.Outcome.{ok, err, panic}
use go_dmr.Dmr.Packet.{Packet, slice, call_type_group}
use go_dmr.Homebrew.Packet.{dmr_data, build_data, parse_data}
use go_dmr.Homebrew.State.{
  AuthStatus, auth_none, auth_begin, auth_done, auth_failed, Last, Peer, Env, Homebrew, Event, sent,
  delivered, Failure, write_failed, callback_failed, bad_packet, Handled, returns, panics,
  master_nak, master_ack, repeater_ack, repeater_login, repeater_key, repeater_config, master_ping,
  master_pong, repeater_ping, repeater_pong, lookup, store, touch_sent, touch_received,
  write_to_peer, update_token, handle_auth, link, unlink,
}

-- `bytes.Equal(data[:len(text)], text)`
abbrev pub starts : List ℕ → List ℕ → Bool
starts buf text = bytes_eq (take (length text) buf) text

-- An incoming peer that has not logged in.
unfoldable pub incoming_none : Env → Homebrew → ℕ → Peer → List ℕ → Handled
incoming_none env h i p buf =
    if starts buf repeater_login
    then elim env.random [
      | none ↦ write_to_peer env h i p (master_nak ++ h.id)
      | some nonce ↦
          write_to_peer env h i (record (update_token env p nonce) { status = auth_begin })
            (repeater_ack ++ nonce)
    ]
    else returns (store h i p) [] none

-- An incoming peer that owes the answer to its nonce.
unfoldable pub incoming_begin : Env → Homebrew → ℕ → Peer → List ℕ → ℕ → Handled
incoming_begin env h i p buf n =
    if starts buf repeater_key
    then (if not (n == 40)
        then write_to_peer env h i (record p { status = auth_none }) (master_nak ++ h.id)
        else if not (bytes_eq (drop 8 (take n buf)) p.token)
        then write_to_peer env h i (record p { status = auth_none }) (master_nak ++ h.id)
        else write_to_peer env h i
            (record p {
              status = auth_done;
              last = record (p.last) { ping_received = env.now; pong_received = env.now };
            })
            (repeater_ack ++ h.id))
    else returns (store h i p) [] none

-- A refused login, `peer.Status = AuthFailed` and perhaps `h.Unlink(peer.ID)`.
pub refused : Homebrew → ℕ → Peer → Handled
refused h i p =
    let h' = store h i (record p { status = auth_failed }) in
    returns (if p.unlink_on_auth_failure then unlink h' p.id else h') [] none

unfoldable pub outgoing_none : Env → Homebrew → ℕ → Peer → List ℕ → Handled
unfolding refused
outgoing_none env h i p buf =
    if starts buf repeater_ack
    then handle_auth env h i (update_token env (record p { status = auth_begin }) (slice 6 10 buf))
    else if starts buf master_nak
    then refused h i p
    else returns (store h i p) [] none

-- An accepted login is answered with the configuration.
pub accepted : Env → Homebrew → ℕ → Peer → Handled
accepted env h i p =
    write_to_peer env h i
      (record p {
        status = auth_done;
        last = record (p.last) { ping_sent = env.now; pong_received = env.now };
      })
      env.config_data

unfoldable pub outgoing_begin : Env → Homebrew → ℕ → Peer → List ℕ → Handled
unfolding refused accepted
outgoing_begin env h i p buf =
    if starts buf master_ack
    then accepted env h i p
    else if starts buf master_nak
    then refused h i p
    else if starts buf repeater_ack
    then accepted env h i p
    else returns (store h i p) [] none

-- `h.SendTG(p, peer)`, over the peers in the order of the map; a failed write ends the loop.
unfoldable pub send_tg_loop : Env → List ℕ → ℕ → ℕ → List (ℕ × ℕ) → Homebrew → Handled
send_tg_loop env bytes own dst_id [] h = returns h [] none
send_tg_loop env bytes own dst_id ((addr, j) ∷ peers) h = elim (get_elem? h.heap j) [
  | none ↦ panics
  | some q ↦
      if q.id == own || not (q.tg_id == dst_id)
      then send_tg_loop env bytes own dst_id peers h
      else (let rest = send_tg_loop env bytes own dst_id peers (store h j (touch_sent q env.now)) in
          if env.write_ok bytes q.addr
          then elim rest [
            | panics ↦ panics
            | returns h' events failure ↦ returns h' (sent bytes q.addr ∷ events) failure
          ]
          else returns (store h j (touch_sent q env.now)) (sent bytes q.addr ∷ [])
              (some write_failed))
]

deliver : Env → Homebrew → Packet → Handled
deliver env h packet =
    returns h (delivered packet ∷ [])
      (if env.callback_ok packet then none else some callback_failed)

-- `h.handlePacket(p, peer)`. A callback is an event: what it does to the state is not modelled.
unfoldable pub handle_packet : Env → Homebrew → ℕ → Peer → Packet → Handled
unfolding deliver
handle_packet env h i p packet =
    let h' = record (store h i p) { last = env.now } in
    if p.has_callback || h.has_pf
    then deliver env h' packet
    else if packet.call_type == call_type_group
    then (let q = record p {
      tg_id = packet.dst_id;
      last = record (p.last) { tg_subscribed = env.now };
    } in
        send_tg_loop env (build_data packet h.config_id) p.id packet.dst_id h.by_addr
          (record (store h i q) { last = env.now }))
    else returns h' [] none

-- A DMRD message of a peer that is logged in.
unfoldable pub dmr_message : Env → Homebrew → ℕ → Peer → List ℕ → Handled
dmr_message env h i p message = elim (parse_data message) [
  | ok packet ↦ handle_packet env h i p packet
  | err e ↦ returns (store h i p) [] (some (bad_packet e))
  | panic ↦ panics
]

-- A message of an incoming peer that is logged in. A configuration that does not parse is nil, and
-- `printConfig` dereferences it.
unfoldable pub incoming_done : Env → Homebrew → ℕ → Peer → List ℕ → ℕ → Handled
incoming_done env h i p buf n =
    let pinged = record p { last = record (p.last) { ping_received = env.now } } in
    if starts buf dmr_data
    then dmr_message env h i p (take n buf)
    else if n == 10 && starts buf master_ack
    then returns (store h i p) [] none
    else if n == 11 && starts buf master_ping
    then write_to_peer env h i pinged (repeater_pong ++ drop 7 (take n buf))
    else if n == 11 && starts buf repeater_ping
    then write_to_peer env h i pinged (master_pong ++ drop 7 (take n buf))
    else if starts buf repeater_config
    then (if n == 302
        then write_to_peer env h i (record p { config = some (env.config_of (take n buf)) })
            (repeater_ack ++ h.id)
        else panics)
    else returns (store h i p) [] none

-- A message of an outgoing peer that is logged in.
unfoldable pub outgoing_done : Env → Homebrew → ℕ → Peer → List ℕ → ℕ → Handled
outgoing_done env h i p buf n =
    let known = env.equal_fold (slice 6 10 buf) h.id in
    let known_pong = env.equal_fold (slice 7 11 buf) h.id in
    let ping =
      write_to_peer env h i (record p { last = record (p.last) { ping_sent = env.now } })
        (master_ping ++ h.id) in
    let ponged =
      returns (store h i (record p { last = record (p.last) { pong_received = env.now } })) []
        none in
    let ignored = returns (store h i p) [] none in
    if starts buf dmr_data
    then dmr_message env h i p (take n buf)
    else if n == 10 && starts buf master_ack
    then (if known then ping else ignored)
    else if n == 10 && starts buf master_nak
    then (if known then handle_auth env h i (record p { status = auth_failed }) else ignored)
    else if n == 10 && starts buf repeater_ack
    then (if known then ping else ignored)
    else if n == 11 && starts buf master_pong
    then (if known_pong then ponged else ignored)
    else if n == 11 && starts buf repeater_pong
    then (if known_pong then ponged else ignored)
    else ignored

-- A peer whose status is not `AuthDone`, after the test for DMRD.
unfoldable pub handshake : Env → Homebrew → ℕ → Peer → List ℕ → ℕ → Handled
handshake env h i p buf n = elim p.status [
  | auth_none ↦ if p.incoming then incoming_none env h i p buf else outgoing_none env h i p buf
  | auth_begin ↦ if p.incoming then incoming_begin env h i p buf n else outgoing_begin env h i p buf
  | _ ↦ returns (store h i p) [] none
]

-- From the length test on, for the peer at `i`.
unfoldable pub handle_peer : Env → Homebrew → ℕ → Peer → List ℕ → ℕ → Handled
handle_peer env h i p buf n =
    let q = touch_received p env.now in
    let logged_in =
      if p.incoming then incoming_done env h i q buf n else outgoing_done env h i q buf n in
    let begun =
      if starts buf dmr_data then returns (store h i q) [] none else handshake env h i q buf n in
    if ltb n 8 then returns h [] none else elim p.status [ auth_done ↦ logged_in | _ ↦ begun ]

-- A login from an address that has no peer makes one.
unfoldable pub new_peer : ℕ → ℕ → Peer
new_peer id remote = record {
  id = id;
  addr = remote;
  config = none;
  auth_key = b'p' ∷ b'a' ∷ b's' ∷ b's' ∷ b'w' ∷ b'0' ∷ b'r' ∷ b'd' ∷ [];
  status = auth_none;
  nonce = [];
  token = [];
  incoming = true;
  tg_id = 446;
  unlink_on_auth_failure = false;
  has_callback = false;
  last = record {
    tg_subscribed = 0;
    auth_sent = 0;
    packet_sent = 0;
    packet_received = 0;
    ping_sent = 0;
    ping_received = 0;
    pong_received = 0;
  };
  packed_id = none;
}

unfoldable pub at_peer : Env → Homebrew → ℕ → List ℕ → ℕ → Handled
at_peer env h i buf n = elim (get_elem? h.heap i) [
  | none ↦ panics
  | some p ↦ handle_peer env h i p buf n
]

-- `h.handle(remote, data)`. `unpackRepeaterID(data[4:])` reads four bytes, and panics where the
-- datagram has fewer than eight.
unfoldable pub handle : Env → Homebrew → ℕ → List ℕ → ℕ → Handled
unfolding at_peer new_peer
handle env h remote buf n = elim (lookup remote h.by_addr) [
  | some i ↦ at_peer env h i buf n
  | none ↦
      if starts buf repeater_login
      then (if ltb n 8
          then panics
          else (let id = be32 (get_or buf 4 0) (get_or buf 5 0) (get_or buf 6 0) (get_or buf 7 0) in
              let (h', i) = link h (new_peer id remote) in at_peer env h' i buf n))
      else returns h [] none
]

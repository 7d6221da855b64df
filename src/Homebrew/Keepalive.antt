-- ===== src/Homebrew/Keepalive.antt =====
-- homebrew.go, `keepalive`, `Send` and `Close`: what happens without a datagram. Times are in
-- nanoseconds. `now.Sub` of a later time is negative and of a very early one is cut off at some 292
-- years: neither changes a comparison with a timeout. A failed write is only logged in `keepalive`.
pub mod Retry
use go_dmr.Base.{
  ℕ, ◌-◌, ◌*◌, ltb, if◌then◌else◌, Bool, Option, none, some, List, [], ◌∷◌, ◌++◌, get_elem?,
}
use go_dmr.Dmr.Packet.{Packet}
use go_dmr.Homebrew.Packet.{build_data}
use go_dmr.Homebrew.State.{
  AuthStatus, auth_none, auth_begin, auth_done, auth_failed, Peer, Env, Homebrew, Event, sent,
  Failure, Handled, returns, panics, write_failed, repeater_closing, repeater_ping, store,
  touch_sent, write_to_peer, handle_auth,
}

abbrev pub second : ℕ
second = 1000000000

abbrev pub auth_timeout : ℕ
auth_timeout = second * 15

abbrev pub ping_interval : ℕ
ping_interval = second * 5

abbrev pub ping_timeout : ℕ
ping_timeout = second * 15

-- One call behind another, whose error is only logged.
unfoldable pub and_then : Handled → (Homebrew → Handled) → Handled
and_then panics next = panics
and_then (returns h events failure) next = elim (next h) [
  | panics ↦ panics
  | returns h' later failure' ↦ returns h' (events ++ later) none
]

-- One peer's turn in `keepalive`.
unfoldable pub tick_peer : Env → Homebrew → ℕ → Peer → Handled
unfolding and_then
tick_peer env h i p =
    let idle = returns h [] none in
    let restarted = record p { status = auth_none } in
    let logged_in =
      if ltb ping_timeout (env.now - p.last.pong_received)
      then and_then (write_to_peer env h i restarted (repeater_closing ++ h.id))
          (λ h'. handle_auth env h' i (touch_sent restarted env.now))
      else if ltb ping_interval (env.now - p.last.ping_sent)
      then and_then
          (write_to_peer env h i (record p { last = record (p.last) { ping_sent = env.now } })
            (repeater_ping ++ h.id))
          (λ h'. returns h' [] none)
      else idle in
    let waiting =
      if ltb auth_timeout (env.now - p.last.packet_received)
      then returns (store h i (record p { status = auth_failed })) [] none
      else idle in
    let failed =
      if ltb auth_timeout (env.now - p.last.auth_sent)
      then and_then (handle_auth env h i restarted) (λ h'. returns h' [] none)
      else idle in
    if p.incoming then idle else elim p.status [
      | auth_failed ↦ failed
      | auth_none ↦ waiting
      | auth_begin ↦ waiting
      | auth_done ↦ logged_in
    ]

-- One second's round of `keepalive`, over the peers in the order of the map.
unfoldable pub keepalive : Env → List (ℕ × ℕ) → Homebrew → Handled
keepalive env [] h = returns h [] none
keepalive env ((addr, i) ∷ peers) h = elim (get_elem? h.heap i) [
  | none ↦ panics
  | some p ↦ and_then (tick_peer env h i p) (λ h'. keepalive env peers h')
]

-- The loop of `Send` over the peers: a failed write ends it.
unfoldable pub send_loop : Env → List ℕ → List (ℕ × ℕ) → Homebrew → Handled
send_loop env bytes [] h = returns h [] none
send_loop env bytes ((addr, i) ∷ peers) h = elim (get_elem? h.heap i) [
  | none ↦ panics
  | some q ↦
      let rest = send_loop env bytes peers (store h i (touch_sent q env.now)) in
      if env.write_ok bytes q.addr
      then elim rest [
        | panics ↦ panics
        | returns h' events failure ↦ returns h' (sent bytes q.addr ∷ events) failure
      ]
      else returns (store h i (touch_sent q env.now)) (sent bytes q.addr ∷ []) (some write_failed)
]

-- `h.Send(p)`
unfoldable pub send : Env → Homebrew → Packet → Handled
unfolding send_loop
send env h p = send_loop env (build_data p h.config_id) h.by_addr h

-- ===== src/Homebrew/Handle/Panics.antt =====
-- The datagrams that stop the process.
use go_dmr.Base.{
  ℕ, ◌<◌, ◌≡◌, ◌≢◌, refl, ◌⊎◌, inl, inr, true, none, some, List, [], ◌∷◌, length, get_elem?,
  get_elem?-eq-some, take, arith, be32, get_or, Option-cases,
}
use go_dmr.Dmr.Packet.{Packet}
use go_dmr.Homebrew.Packet.{Error, build_data, parse_data}
use go_dmr.Base.Outcome.{Outcome, ok, err, panic}
use go_dmr.Homebrew.State.{
  auth_none, auth_done, auth_failed, Peer, Env, Homebrew, bad_packet, returns, panics, store,
  repeater_config, repeater_login, write_to_peer, handle_auth, lookup, link, linked, touch_received,
  touch_sent,
}
use go_dmr.Homebrew.Handle.{
  starts, handle, at_peer, new_peer, handle_peer, handshake, incoming_none, incoming_begin,
  outgoing_none, outgoing_begin, incoming_done, outgoing_done, dmr_message, handle_packet,
  send_tg_loop,
}
use go_dmr.Homebrew.Handle.Traffic.{InHeap, InHeap-set}
use go_dmr.Homebrew.Handle.Index.{link-InHeap, get_elem?-last, lookup-InHeap}

module _ (env : Env) (h : Homebrew) (i : ℕ) where
  auth-ne-panics : (p : Peer) → handle_auth env h i p ≢ panics
  unfolding handle_auth write_to_peer
  auth-ne-panics p e = ground arith

  handshake-ne-panics : (p : Peer) (buf : List ℕ) (n : ℕ) → handshake env h i p buf n ≢ panics
  unfolding handshake incoming_none incoming_begin outgoing_none outgoing_begin handle_auth
      write_to_peer
  handshake-ne-panics p buf n e = ground arith

send_tg-ne-panics :
    (env : Env) (bytes : List ℕ) (own dst_id : ℕ) (peers : List (ℕ × ℕ)) (h : Homebrew)
    → InHeap peers h.heap
    → send_tg_loop env bytes own dst_id peers h ≢ panics
unfolding send_tg_loop
send_tg-ne-panics env bytes own dst_id [] h valid e = cc
send_tg-ne-panics env bytes own dst_id ((addr, j) ∷ peers) h valid e =
    let (q, g) = get_elem?-eq-some h.heap j valid.0 in
    let q' = touch_sent q env.now in
    ground (
      arith,
      g,
      send_tg-ne-panics env bytes own dst_id peers h valid.1,
      send_tg-ne-panics env bytes own dst_id peers (store h j q')
          (InHeap-set peers h.heap j q' valid.1),
    )

parse_data-ne-panic : (message : List ℕ) → parse_data message ≢ panic
unfolding parse_data
parse_data-ne-panic message e = ground arith

module _ (env : Env) (h : Homebrew) (i : ℕ) (valid : InHeap h.by_addr h.heap) where
  packet-ne-panics : (p : Peer) (packet : Packet) → handle_packet env h i p packet ≢ panics
  unfolding handle_packet
  packet-ne-panics p packet e =
      let q = record p {
        tg_id = packet.dst_id;
        last = record (p.last) { tg_subscribed = env.now };
      } in
      ground (
        arith,
        send_tg-ne-panics env (build_data packet h.config_id) p.id packet.dst_id h.by_addr
            (record (store h i q) { last = env.now }) (InHeap-set h.by_addr h.heap i q valid),
      )

  dmr-ne-panics : (p : Peer) (message : List ℕ) → dmr_message env h i p message ≢ panics
  unfolding dmr_message
  dmr-ne-panics p message e = parsed (parse_data message) (parse_data-ne-panic message) e
    where
      parsed :
          (r : Outcome Error Packet)
          → r ≢ panic
          → elim r [
            | ok packet ↦ handle_packet env h i p packet
            | err e ↦ returns (store h i p) [] (some (bad_packet e))
            | panic ↦ panics
          ]
            ≢ panics
      parsed (ok packet) ne e = packet-ne-panics p packet e
      parsed (err x) ne e = cc
      parsed panic ne e = ne refl

  outgoing-ne-panics : (p : Peer) (buf : List ℕ) (n : ℕ) → outgoing_done env h i p buf n ≢ panics
  unfolding outgoing_done write_to_peer
  outgoing-ne-panics p buf n e = ground (
    arith,
    auth-ne-panics env h i (record p { status = auth_failed }),
    dmr-ne-panics p (take n buf),
  )

  incoming_panics :
      (p : Peer) (buf : List ℕ) (n : ℕ)
      → incoming_done env h i p buf n ≡ panics
      → (starts buf repeater_config ≡ true) × (n ≢ 302)
  unfolding incoming_done write_to_peer
  incoming_panics p buf n e = ground (arith, dmr-ne-panics p (take n buf))

  -- The peer that crashes the process is an incoming one that is logged in and sends a configuration
  -- of another length than 302 bytes.
  peer_panics :
      (p : Peer) (buf : List ℕ) (n : ℕ)
      → handle_peer env h i p buf n ≡ panics
      → (p.incoming ≡ true)
        × (p.status ≡ auth_done)
        × (starts buf repeater_config ≡ true)
        × (n ≢ 302)
  unfolding handle_peer
  peer_panics p buf n e =
      let q = touch_received p env.now in
      ground (
        arith,
        incoming_panics q buf n,
        outgoing-ne-panics q buf n,
        handshake-ne-panics env h i q buf n,
      )

-- The two ways in which a datagram stops the process.
abbrev pub ShortLogin : Homebrew → ℕ → List ℕ → ℕ → Type 0
ShortLogin h remote buf n =
    (lookup remote h.by_addr ≡ none) × (starts buf repeater_login ≡ true) × (n < 8)

abbrev pub BadConfig : Homebrew → ℕ → List ℕ → ℕ → Type 0
BadConfig h remote buf n =
    (i : ℕ) × (p : Peer) × (lookup remote h.by_addr ≡ some i)
    × (get_elem? h.heap i ≡ some p)
    × (p.incoming ≡ true)
    × (p.status ≡ auth_done)
    × (starts buf repeater_config ≡ true)
    × (n ≢ 302)

linked-ne-panics :
    (env : Env) (h : Homebrew) (p : Peer) (buf : List ℕ) (n : ℕ)
    → InHeap h.by_addr h.heap
    → p.status ≡ auth_none
    → at_peer env (link h p).0 (link h p).1 buf n ≢ panics
unfolding at_peer link linked
linked-ne-panics env h p buf n valid fresh e =
    let crash =
      peer_panics env (link h p).0 (length h.heap) (link-InHeap h p valid) (linked p) buf n in
    ground (arith, crash, get_elem?-last h.heap (linked p))

stranger-panics :
    (env : Env) (h : Homebrew) (remote : ℕ) (buf : List ℕ) (n : ℕ)
    → InHeap h.by_addr h.heap
    → lookup remote h.by_addr ≡ none
    → handle env h remote buf n ≡ panics
    → (starts buf repeater_login ≡ true) × (n < 8)
unfolding handle
stranger-panics env h remote buf n valid unknown e =
    let id = be32 (get_or buf 4 0) (get_or buf 5 0) (get_or buf 6 0) (get_or buf 7 0) in
    ground (arith, unknown, linked-ne-panics env h (new_peer id remote) buf n valid refl)

known-panics :
    (env : Env) (h : Homebrew) (remote : ℕ) (buf : List ℕ) (n i : ℕ) (p : Peer)
    → lookup remote h.by_addr ≡ some i
    → get_elem? h.heap i ≡ some p
    → handle env h remote buf n ≡ panics
    → handle_peer env h i p buf n ≡ panics
unfolding handle at_peer
known-panics env h remote buf n i p known g e = ground arith

-- Where the index of addresses is sound, `handle` panics on two kinds of datagrams only: a login of
-- fewer than eight bytes from an address that has no peer, and a configuration of another length than
-- 302 bytes from an incoming peer that is logged in.
pub handle_panics :
    (env : Env) (h : Homebrew) (remote : ℕ) (buf : List ℕ) (n : ℕ)
    → InHeap h.by_addr h.heap
    → handle env h remote buf n ≡ panics
    → ShortLogin h remote buf n ⊎ BadConfig h remote buf n
unfolding handle
handle_panics env h remote buf n valid e = elim (Option-cases (lookup remote h.by_addr)) [
  | inl unknown ↦
      let (s, l) = stranger-panics env h remote buf n valid unknown e in inl (unknown, s, l)
  | inr (i, known) ↦
      let (p, g) =
        get_elem?-eq-some h.heap i (lookup-InHeap remote i h.by_addr h.heap valid known) in
      let (inc, s, c, len) =
        peer_panics env h i valid p buf n (known-panics env h remote buf n i p known g e) in
      inr (i, p, known, g, inc, s, c, len)
]

-- ===== src/Homebrew/Handle/Keeps.antt =====
-- The whole of `handle` keeps the indexes sound.
use go_dmr.Base.{ℕ, ◌≡◌, refl, ltb, ◌==◌, ◌||◌, not, some, List, [], ◌∷◌, get_elem?, arith}
use go_dmr.Base.Outcome.{Outcome, ok, err, panic}
use go_dmr.Dmr.Packet.{Packet, call_type_group}
use go_dmr.Homebrew.Packet.{Error, parse_data}
use go_dmr.Homebrew.State.{
  Peer, Env, Homebrew, Event, sent, Handled, returns, panics, store, write_to_peer, lookup,
  touch_sent, touch_received, bad_packet, repeater_login,
}
use go_dmr.Homebrew.Handle.{
  handle, at_peer, handle_peer, incoming_done, outgoing_done, dmr_message, handle_packet,
  send_tg_loop, starts,
}
use go_dmr.Homebrew.Handle.Sound.{
  IsIndexed, Keeps, if-Keeps, option-Keeps, store-IsIndexed, link-IsIndexed, auth-Keeps,
  handshake-Keeps,
}

-- The first message of a loop and what the rest of the loop leaves.
pub after_send :
    (e : Event) (r : Handled)
    → Keeps r
    → Keeps (elim r [ panics ↦ panics | returns h events failure ↦ returns h (e ∷ events) failure ])
after_send e panics k = tt
after_send e (returns h events failure) k = k

send_tg_loop-Keeps :
    (env : Env) (text : List ℕ) (own dst_id : ℕ) (peers : List (ℕ × ℕ)) (h : Homebrew)
    → IsIndexed h
    → Keeps (send_tg_loop env text own dst_id peers h)
unfolding send_tg_loop
send_tg_loop-Keeps env text own dst_id [] h v = v
send_tg_loop-Keeps env text own dst_id ((addr, j) ∷ peers) h v =
    option-Keeps (get_elem? h.heap j) _ _ tt (λ q g.
      let kept = store-IsIndexed h j q g v (touch_sent q env.now) refl refl in
      if-Keeps (q.id == own || not (q.tg_id == dst_id)) _ _
        (send_tg_loop-Keeps env text own dst_id peers h v)
        (if-Keeps (env.write_ok text q.addr) _ _
          (after_send (sent text q.addr) _
            (send_tg_loop-Keeps env text own dst_id peers (store h j (touch_sent q env.now)) kept))
          kept))

module _ (env : Env) (h : Homebrew) (i : ℕ) (old : Peer) (g : get_elem? h.heap i ≡ some old)
    (v : IsIndexed h) where
  handle_packet-Keeps :
      (p : Peer) (packet : Packet)
      → p.addr ≡ old.addr
      → p.id ≡ old.id
      → Keeps (handle_packet env h i p packet)
  unfolding handle_packet
  handle_packet-Keeps p packet a d =
      if-Keeps (p.has_callback || h.has_pf) _ _ (store-IsIndexed h i old g v p a d) (
        if-Keeps (packet.call_type == call_type_group) _ _
          (send_tg_loop-Keeps _ _ _ _ _ _ (store-IsIndexed h i old g v _ a d))
          (store-IsIndexed h i old g v p a d))

  dmr_message-Keeps :
      (p : Peer) (message : List ℕ)
      → p.addr ≡ old.addr
      → p.id ≡ old.id
      → Keeps (dmr_message env h i p message)
  unfolding dmr_message
  dmr_message-Keeps p message a d = parsed (parse_data message)
    where
      parsed :
          (r : Outcome Error Packet)
          → Keeps (elim r [
            | ok packet ↦ handle_packet env h i p packet
            | err e ↦ returns (store h i p) [] (some (bad_packet e))
            | panic ↦ panics
          ])
      parsed (ok packet) = handle_packet-Keeps p packet a d
      parsed (err e) = store-IsIndexed h i old g v p a d
      parsed panic = tt

  incoming_done-Keeps :
      (p : Peer) (buf : List ℕ) (n : ℕ)
      → p.addr ≡ old.addr
      → p.id ≡ old.id
      → Keeps (incoming_done env h i p buf n)
  unfolding incoming_done write_to_peer
  incoming_done-Keeps p buf n a d = grind (arith, store-IsIndexed h i old g v, dmr_message-Keeps)

  outgoing_done-Keeps :
      (p : Peer) (buf : List ℕ) (n : ℕ)
      → p.addr ≡ old.addr
      → p.id ≡ old.id
      → Keeps (outgoing_done env h i p buf n)
  unfolding outgoing_done write_to_peer
  outgoing_done-Keeps p buf n a d = grind (
    arith,
    store-IsIndexed h i old g v,
    dmr_message-Keeps,
    λ (q : Peer). auth-Keeps h i old g v env q,
  )

  handle_peer-Keeps : (buf : List ℕ) (n : ℕ) → Keeps (handle_peer env h i old buf n)
  unfolding handle_peer
  handle_peer-Keeps buf n =
      let q = touch_received old env.now in
      ground (
        arith,
        store-IsIndexed h i old g v q refl refl,
        incoming_done-Keeps q buf n refl refl,
        outgoing_done-Keeps q buf n refl refl,
        handshake-Keeps h i old g v env q buf n refl refl,
      )

at_peer-Keeps :
    (env : Env) (h : Homebrew) (i : ℕ) (buf : List ℕ) (n : ℕ)
    → IsIndexed h
    → Keeps (at_peer env h i buf n)
unfolding at_peer
at_peer-Keeps env h i buf n v =
    option-Keeps (get_elem? h.heap i) _ _ tt (λ p g. handle_peer-Keeps env h i p g v buf n)

-- Whatever arrives, `handle` leaves sound indexes where it found them, unless it panics.
pub handle-Keeps :
    (env : Env) (h : Homebrew) (remote : ℕ) (buf : List ℕ) (n : ℕ)
    → IsIndexed h
    → Keeps (handle env h remote buf n)
unfolding handle
handle-Keeps env h remote buf n v =
    option-Keeps (lookup remote h.by_addr) _ _
      (if-Keeps (starts buf repeater_login) _ _
        (if-Keeps (ltb n 8) _ _ tt (at_peer-Keeps env _ _ buf n (link-IsIndexed h _ v))) v)
      (λ i known. at_peer-Keeps env h i buf n v)

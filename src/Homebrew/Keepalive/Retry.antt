-- ===== src/Homebrew/Keepalive/Retry.antt =====
-- A link that is not answered is set up again.
use go_dmr.Base.{
  ℕ, ◌+◌, ◌<◌, ◌≡◌, ◌⊎◌, inl, inr, refl, ap, ◌∙◌, false, none, some, [], ◌∷◌, ◌++◌, length,
  get_elem?-set_self, arith,
}
use go_dmr.Homebrew.State.{
  auth_none, auth_begin, auth_failed, Peer, Env, Homebrew, sent, returns, repeater_login, store,
  touch_received, touch_sent, write_to_peer, handle_auth,
}
use go_dmr.Homebrew.Keepalive.{tick_peer, and_then, auth_timeout}
use go_dmr.Homebrew.Handle.Auth.{peer_after}
use go_dmr.Homebrew.Handle.Confined.{events_of}

gives_up :
    (env : Env) (h : Homebrew) (i : ℕ) (p : Peer)
    → p.incoming ≡ false
    → (p.status ≡ auth_none) ⊎ (p.status ≡ auth_begin)
    → p.last.packet_received + auth_timeout < env.now
    → tick_peer env h i p ≡ returns (store h i (record p { status = auth_failed })) [] none
unfolding tick_peer
gives_up env h i p out (inl s) late = ground (arith, s)
gives_up env h i p out (inr s) late = ground (arith, s)

-- The peer that a login was sent to.
logging_in : Env → Peer → Peer
logging_in env p =
    let q = touch_received (record p { status = auth_none }) env.now in
    touch_sent (record q { last = record (q.last) { auth_sent = env.now } }) env.now

starts_again :
    (env : Env) (h : Homebrew) (i : ℕ) (p : Peer)
    → p.incoming ≡ false
    → p.status ≡ auth_failed
    → p.last.auth_sent + auth_timeout < env.now
    → tick_peer env h i p
      ≡ returns (store h i (logging_in env p)) (sent (repeater_login ++ h.id) p.addr ∷ []) none
unfolding tick_peer and_then write_to_peer handle_auth logging_in
starts_again env h i p out s late = ground arith

-- An outgoing peer that waits for an answer to its login, with nothing received for longer than the
-- timeout in a first round of `keepalive` and with its last login older than the timeout in a second
-- one, is held for failed by the first round and sent its login anew by the second, which leaves it
-- waiting again. The two rounds may run in any two states of the process.
pub tick_peer_retries :
    (e1 e2 : Env) (h1 h2 : Homebrew) (i : ℕ) (p : Peer)
    → i < length h1.heap
    → i < length h2.heap
    → p.incoming ≡ false
    → (p.status ≡ auth_none) ⊎ (p.status ≡ auth_begin)
    → p.last.packet_received + auth_timeout < e1.now
    → p.last.auth_sent + auth_timeout < e2.now
    → (p1 p2 : Peer) × (peer_after i (tick_peer e1 h1 i p) ≡ some p1)
      × (p1.status ≡ auth_failed)
      × (events_of (tick_peer e1 h1 i p) ≡ [])
      × (peer_after i (tick_peer e2 h2 i p1) ≡ some p2)
      × (p2.status ≡ auth_none)
      × (events_of (tick_peer e2 h2 i p1) ≡ sent (repeater_login ++ h2.id) p.addr ∷ [])
unfolding logging_in
tick_peer_retries e1 e2 h1 h2 i p b1 b2 out waits late1 late2 =
    let failed = record p { status = auth_failed } in
    let first = gives_up e1 h1 i p out waits late1 in
    let then_ = starts_again e2 h2 i failed out refl late2 in
    (
      failed,
      logging_in e2 failed,
      ap (peer_after i) first ∙ get_elem?-set_self h1.heap i _ b1,
      refl,
      ap events_of first,
      ap (peer_after i) then_ ∙ get_elem?-set_self h2.heap i _ b2,
      refl,
      ap events_of then_,
    )

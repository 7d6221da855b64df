-- ===== src/Homebrew/Handle/Login.antt =====
-- The login between a master (the peer is incoming) and a repeater (the peer is outgoing), message by
-- message.
use go_dmr.Base.{
  ℕ, ◌<◌, ◌≤◌, ◌≡◌, refl, sym, ap, ◌∙◌, true, false, some, List, [], ◌∷◌, ◌++◌, length,
  get_elem?-set_self, take, take-append, bytes_eq, bytes_eq_refl, arith,
}
use go_dmr.Homebrew.State.{
  auth_none, auth_begin, auth_done, Peer, Env, Homebrew, sent, Handled, repeater_key,
  repeater_login, repeater_ack, write_to_peer, update_token, handle_auth, touch_received,
  touch_sent,
}
use go_dmr.Homebrew.Handle.{
  handle_peer, handshake, incoming_none, incoming_begin, outgoing_none, outgoing_begin, accepted,
}
use go_dmr.Homebrew.Handle.Auth.{peer_after}
use go_dmr.Homebrew.Handle.Confined.{events_of}

-- One message handled: the peer that is left, and the one message sent.
abbrev pub Leaves : ℕ → Handled → Peer → List ℕ → Type 0
Leaves i r p text = (peer_after i r ≡ some p) × (events_of r ≡ sent text p.addr ∷ [])

module _ (env : Env) (h : Homebrew) (i : ℕ) (b : i < length h.heap) where
  write-Leaves :
      (p : Peer) (text : List ℕ)
      → Leaves i (write_to_peer env h i p text) (touch_sent p env.now) text
  unfolding write_to_peer
  write-Leaves p text = (get_elem?-set_self h.heap i _ b, refl)

  asked : Peer → List ℕ → Peer
  asked p nonce =
      touch_sent
        (record (update_token env (touch_received p env.now) nonce) { status = auth_begin }) env.now

  login_step :
      (p : Peer) (nonce rest : List ℕ) (n : ℕ)
      → p.incoming ≡ true
      → p.status ≡ auth_none
      → env.random ≡ some nonce
      → 8 ≤ n
      → Leaves i
          (handle_peer env h i p (repeater_login ++ rest) n)
          (asked p nonce)
          (repeater_ack ++ nonce)
  unfolding handle_peer handshake incoming_none asked bytes_eq
  login_step p nonce rest n inc none_yet r long = ground (
    arith,
    write-Leaves
        (record (update_token env (touch_received p env.now) nonce) { status = auth_begin })
        (repeater_ack ++ nonce),
  )

  keyed : Peer → List ℕ → Peer
  keyed p nonce =
      touch_sent
        (touch_received
          (update_token env (record (touch_received p env.now) { status = auth_begin }) nonce)
          env.now)
        env.now

  -- The repeater answers the nonce.
  nonce_step :
      (p : Peer) (w x y z : ℕ) (rest : List ℕ) (n : ℕ)
      → p.incoming ≡ false
      → p.status ≡ auth_none
      → 8 ≤ n
      → let nonce = w ∷ x ∷ y ∷ z ∷ [] in
        Leaves i
          (handle_peer env h i p (repeater_ack ++ (nonce ++ rest)) n)
          (keyed p nonce)
          (repeater_key ++ (h.id ++ env.sha256 (nonce ++ p.auth_key)))
  unfolding handle_peer handshake outgoing_none handle_auth update_token keyed bytes_eq
  nonce_step p w x y z rest n inc none_yet long =
      let nonce = w ∷ x ∷ y ∷ z ∷ [] in
      let q =
        touch_received
          (update_token env (record (touch_received p env.now) { status = auth_begin }) nonce)
          env.now in
      ground (arith, write-Leaves q (repeater_key ++ (h.id ++ env.sha256 (nonce ++ p.auth_key))))

  admitted : Peer → Peer
  admitted p =
      let q = touch_received p env.now in
      touch_sent
        (record q {
          status = auth_done;
          last = record (q.last) { ping_received = env.now; pong_received = env.now };
        })
        env.now

  -- The master compares the answer.
  key_step :
      (p : Peer) (w x y z : ℕ) (token rest : List ℕ)
      → p.incoming ≡ true
      → p.status ≡ auth_begin
      → p.token ≡ token
      → length token ≡ 32
      → Leaves i
          (handle_peer env h i p (repeater_key ++ ((w ∷ x ∷ y ∷ z ∷ []) ++ (token ++ rest))) 40)
          (admitted p)
          (repeater_ack ++ h.id)
  unfolding handle_peer handshake incoming_begin admitted bytes_eq
  key_step p w x y z token rest inc begun t size =
      let q = touch_received p env.now in
      let whole : take 32 (token ++ rest) ≡ token =
        ap (λ (k : ℕ). take k (token ++ rest)) (sym size) ∙ take-append token rest in
      ground (
        arith,
        whole,
        bytes_eq_refl token,
        write-Leaves
            (record q {
              status = auth_done;
              last = record (q.last) { ping_received = env.now; pong_received = env.now };
            })
            (repeater_ack ++ h.id),
      )

  configured : Peer → Peer
  configured p =
      let q = touch_received p env.now in
      touch_sent
        (record q {
          status = auth_done;
          last = record (q.last) { ping_sent = env.now; pong_received = env.now };
        })
        env.now

  -- The repeater sends its configuration.
  accept_step :
      (p : Peer) (rest : List ℕ) (n : ℕ)
      → p.incoming ≡ false
      → p.status ≡ auth_begin
      → 8 ≤ n
      → Leaves i (handle_peer env h i p (repeater_ack ++ rest) n) (configured p) env.config_data
  unfolding handle_peer handshake outgoing_begin accepted configured bytes_eq
  accept_step p rest n inc begun long =
      let q = touch_received p env.now in
      ground (
        arith,
        write-Leaves
            (record q {
              status = auth_done;
              last = record (q.last) { ping_sent = env.now; pong_received = env.now };
            })
            env.config_data,
      )

-- A repeater with an ID of four bytes and a master that makes a nonce of four bytes, which share
-- a key and a 32-byte hash, log in with four messages, each handled at any later time and in any
-- state of the process. The master answers a login with its nonce; the repeater answers that with
-- the hash of the nonce and the key behind its ID; the master admits the peer and acknowledges;
-- the repeater holds the link for done and sends its configuration. The messages are those that
-- the other side sent, with anything behind them in the buffer.
pub login_completes :
    (m m' r r' : Env) (hm hm' hr hr' : Homebrew) (j i : ℕ) (q p : Peer) (a b c d w x y z : ℕ)
    (rest1 rest2 rest3 rest4 : List ℕ) (n1 : ℕ)
    → j < length hm.heap
    → j < length hm'.heap
    → i < length hr.heap
    → i < length hr'.heap
    → q.incoming ≡ true
    → q.status ≡ auth_none
    → p.incoming ≡ false
    → p.status ≡ auth_none
    → q.auth_key ≡ p.auth_key
    → ((t : List ℕ) → m.sha256 t ≡ r.sha256 t)
    → ((t : List ℕ) → length (r.sha256 t) ≡ 32)
    → m.random ≡ some (a ∷ b ∷ c ∷ d ∷ [])
    → hr.id ≡ w ∷ x ∷ y ∷ z ∷ []
    → 8 ≤ n1
    → let nonce = a ∷ b ∷ c ∷ d ∷ [] in
      let token = r.sha256 (nonce ++ p.auth_key) in
      (q1 q2 p1 p2 : Peer) × Leaves j
        (handle_peer m hm j q (repeater_login ++ rest1) n1)
        q1
        (repeater_ack ++ nonce)
      × Leaves i
          (handle_peer r hr i p (repeater_ack ++ (nonce ++ rest2)) 10)
          p1
          (repeater_key ++ (hr.id ++ token))
      × Leaves j
          (handle_peer m' hm' j q1 (repeater_key ++ (hr.id ++ (token ++ rest3))) 40)
          q2
          (repeater_ack ++ hm'.id)
      × Leaves i (handle_peer r' hr' i p1 (repeater_ack ++ (hm'.id ++ rest4)) 10) p2 r'.config_data
      × (q2.status ≡ auth_done)
      × (p2.status ≡ auth_done)
unfolding asked keyed admitted configured update_token
login_completes m m' r r' hm hm' hr hr' j i q p a b c d w x y z rest1 rest2 rest3 rest4 n1 bm bm' br
      br' qi qs pi ps same hash size rand id long =
    let nonce = a ∷ b ∷ c ∷ d ∷ [] in
    let q1 = asked m hm j bm q nonce in
    let p1 = keyed r hr i br p nonce in
    let token = r.sha256 (nonce ++ p.auth_key) in
    let known : q1.token ≡ token =
      hash (nonce ++ q.auth_key) ∙ ap (λ (k : List ℕ). r.sha256 (nonce ++ k)) same in
    (
      q1,
      admitted m' hm' j bm' q1,
      p1,
      configured r' hr' i br' p1,
      login_step m hm j bm q nonce rest1 n1 qi qs rand long,
      nonce_step r hr i br p a b c d rest2 10 pi ps (omega arith),
      rw id
          (key_step m' hm' j bm' q1 w x y z token rest3 qi refl known (size (nonce ++ p.auth_key))),
      accept_step r' hr' i br' p1 (hm'.id ++ rest4) 10 pi refl (omega arith),
      refl,
      refl,
    )

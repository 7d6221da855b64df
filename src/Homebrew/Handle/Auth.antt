-- ===== src/Homebrew/Handle/Auth.antt =====
-- Who becomes logged in, and what a peer that is not logged in can bring about.
use go_dmr.Base.{
  ℕ, ◌<◌, ◌≡◌, ◌≢◌, refl, ap, true, Option, none, some, List, [], ◌++◌, length, get_elem?,
  get_elem?-set_self, lt_of_get_elem?, take, drop, bytes_eq→eq, arith,
}
use go_dmr.Homebrew.State.{
  AuthStatus, auth_none, auth_begin, auth_done, Peer, Env, Homebrew, Event, Failure, Handled,
  returns, panics, store, repeater_key, repeater_ack, master_nak, write_to_peer, update_token,
  touch_received,
}
use go_dmr.Homebrew.Handle.{starts, handle_peer, handshake, incoming_none, incoming_begin}

-- The answer that a nonce asks for: 40 bytes with the token behind the repeater's ID.
abbrev pub Answers : Peer → List ℕ → ℕ → Type 0
Answers p buf n =
    (p.status ≡ auth_begin)
    × (n ≡ 40)
    × (starts buf repeater_key ≡ true)
    × (drop 8 (take n buf) ≡ p.token)

-- The peer at `i` after a handler.
abbrev pub peer_after : ℕ → Handled → Option Peer
peer_after i (returns h events failure) = get_elem? h.heap i
peer_after i panics = none

abbrev pub status_of : Option Peer → Option AuthStatus
status_of none = none
status_of (some p) = some p.status

abbrev pub status_after : ℕ → Handled → Option AuthStatus
status_after i r = status_of (peer_after i r)

module _ (env : Env) (h : Homebrew) (i : ℕ) (b : i < length h.heap) where
  status-write :
      (p : Peer) (text : List ℕ) → status_after i (write_to_peer env h i p text) ≡ some p.status
  unfolding write_to_peer
  status-write p text = ap status_of (get_elem?-set_self h.heap i _ b)

  status-store :
      (p : Peer) (events : List Event) (failure : Option Failure)
      → status_after i (returns (store h i p) events failure) ≡ some p.status
  status-store p events failure = ap status_of (get_elem?-set_self h.heap i p b)

  begin_done :
      (p : Peer) (buf : List ℕ) (n : ℕ)
      → status_after i (incoming_begin env h i p buf n) ≡ some auth_done
      → p.status ≡ auth_begin
      → Answers p buf n
  unfolding incoming_begin
  begin_done p buf n e s = ground (
    arith,
    status-store p [] none,
    status-write (record p { status = auth_none }) (master_nak ++ h.id),
    bytes_eq→eq (drop 8 (take n buf)) p.token,
  )

  none_not_done :
      (p : Peer) (buf : List ℕ)
      → p.status ≡ auth_none
      → status_after i (incoming_none env h i p buf) ≢ some auth_done
  unfolding incoming_none
  none_not_done p buf s e =
      elim env.random as (λ r. env.random ≡ r → ⊥) [
        | none ↦ λ r. ground (arith, status-store p [] none, status-write p (master_nak ++ h.id))
        | some nonce ↦ λ r. ground (
          arith,
          status-store p [] none,
          status-write (record (update_token env p nonce) { status = auth_begin })
              (repeater_ack ++ nonce),
        )
      ]
        refl

  handshake_done :
      (p : Peer) (buf : List ℕ) (n : ℕ)
      → p.incoming ≡ true
      → p.status ≢ auth_done
      → status_after i (handshake env h i p buf n) ≡ some auth_done
      → Answers p buf n
  unfolding handshake
  handshake_done p buf n inc nd e =
      ground (arith, begin_done p buf n, none_not_done p buf, status-store p [] none)

-- No other datagram logs an incoming peer in: if the part of `handle` that runs for a known peer
-- runs for an incoming one that is not logged in and leaves it logged in, then the peer was
-- waiting for the answer to its nonce, and the datagram is that answer: RPTK, 40 bytes long, with
-- the token that is stored for the peer behind the ID.
pub handle_peer_login :
    (env : Env) (h : Homebrew) (i : ℕ) (p : Peer) (buf : List ℕ) (n : ℕ)
    → get_elem? h.heap i ≡ some p
    → p.incoming ≡ true
    → p.status ≢ auth_done
    → status_after i (handle_peer env h i p buf n) ≡ some auth_done
    → Answers p buf n
unfolding handle_peer
handle_peer_login env h i p buf n g inc nd e =
    let b = lt_of_get_elem? h.heap i g in
    ground (
      arith,
      handshake_done env h i b (touch_received p env.now) buf n inc nd,
      status-store env h i b (touch_received p env.now) [] none,
      ap status_of g,
    )

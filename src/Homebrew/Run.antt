-- ===== src/Homebrew/Run.antt =====
-- homebrew.go, what drives the package: `New`, `Link`, `Unlink`, `Close` and `ListenAndServe`, and the
-- steps that the state can take. The socket's errors other than of a write are not modelled.
pub mod Invariant
pub mod Reflection
use go_dmr.Base.{
  ℕ, ◌≡◌, ◌==◌, if◌then◌else◌, Bool, true, false, Option, none, some, List, [], ◌∷◌, ◌++◌, length,
  get_elem?,
}
use go_dmr.Dmr.Packet.{Packet}
use go_dmr.Homebrew.Packet.{pack_repeater_id}
use go_dmr.Homebrew.State.{
  AuthStatus, auth_done, Peer, Env, Homebrew, Event, sent, Failure, no_auth_key, peer_not_linked,
  write_failed, Handled, returns, panics, repeater_closing, lookup, store, touch_sent, handle_auth,
  link, linked, unlink,
}
use go_dmr.Homebrew.Handle.{handle}
use go_dmr.Homebrew.Keepalive.{keepalive, send}

-- `New`, for a configuration with the ID `id` and a socket that opens.
unfoldable pub new : ℕ → Homebrew
new id = record {
  config_id = id;
  id = pack_repeater_id id;
  heap = [];
  by_addr = [];
  by_id = [];
  has_pf = false;
  last = 0;
}

-- `h.Link(peer)`, for a peer that was just allocated and has an address.
unfoldable pub link_peer : Env → Homebrew → Peer → Handled
link_peer env h p =
    let (h', i) = link h p in
    if length p.auth_key == 0
    then returns h [] (some no_auth_key)
    else if p.incoming
    then returns h' [] none
    else handle_auth env h' i (linked p)

-- `h.Unlink(id)` with its error.
unfoldable pub unlink_peer : Homebrew → ℕ → Handled
unlink_peer h id = elim (lookup id h.by_id) [
  | none ↦ returns h [] (some peer_not_linked)
  | some i ↦ returns (unlink h id) [] none
]

-- The loop of `Close` over the peers, which a failed write breaks; its error is dropped.
unfoldable pub close_loop : Env → List ℕ → List (ℕ × ℕ) → Homebrew → Handled
close_loop env text [] h = returns h [] none
close_loop env text ((addr, i) ∷ peers) h = elim (get_elem? h.heap i) [
  | none ↦ panics
  | some q ↦
      let rest = close_loop env text peers (store h i (touch_sent q env.now)) in
      let told =
        if env.write_ok text q.addr
        then elim rest [
          | panics ↦ panics
          | returns h' events failure ↦ returns h' (sent text q.addr ∷ events) failure
        ]
        else returns (store h i (touch_sent q env.now)) (sent text q.addr ∷ []) none in
      elim q.status [ auth_done ↦ told | _ ↦ close_loop env text peers h ]
]

-- `h.Close()`, where the package is active; otherwise nothing happens.
unfoldable pub close : Env → Bool → Homebrew → Handled
close env active h =
    if active then close_loop env (repeater_closing ++ h.id) h.by_addr h else returns h [] none

-- One read of the socket: the sender, the buffer and the length read.
pub record Arrival : Type 0 where
  pub env : Env
  pub remote : ℕ
  pub buf : List ℕ
  pub n : ℕ

-- The loop of `ListenAndServe` over what arrives: the first error of `handle` ends it.
unfoldable pub serve : List Arrival → Homebrew → Handled
serve [] h = returns h [] none
serve (a ∷ arrivals) h = elim (handle a.env h a.remote a.buf a.n) [
  | panics ↦ panics
  | returns h' events (some failure) ↦ returns h' events (some failure)
  | returns h' events none ↦ elim (serve arrivals h') [
    | panics ↦ panics
    | returns h'' later failure ↦ returns h'' (events ++ later) failure
  ]
]

-- What can happen to a running package.
pub data Step (h h' : Homebrew) : Type 0 where
  receives :
      (env : Env) (remote : ℕ) (buf : List ℕ) (n : ℕ) (events : List Event)
      (failure : Option Failure)
      → handle env h remote buf n ≡ returns h' events failure
      → Step h h'
  ticks :
      (env : Env) (events : List Event) (failure : Option Failure)
      → keepalive env h.by_addr h ≡ returns h' events failure
      → Step h h'
  transmits :
      (env : Env) (p : Packet) (events : List Event) (failure : Option Failure)
      → send env h p ≡ returns h' events failure
      → Step h h'
  links :
      (env : Env) (p : Peer) (events : List Event) (failure : Option Failure)
      → link_peer env h p ≡ returns h' events failure
      → Step h h'
  unlinks :
      (id : ℕ) (events : List Event) (failure : Option Failure)
      → unlink_peer h id ≡ returns h' events failure
      → Step h h'
  closes :
      (env : Env) (active : Bool) (events : List Event) (failure : Option Failure)
      → close env active h ≡ returns h' events failure
      → Step h h'
  sets_callback : (present : Bool) → h' ≡ record h { has_pf = present } → Step h h'

pub data Reach (s : Homebrew) : Homebrew → Type 0 where
  here : Reach s s
  next : {t u : Homebrew} → Reach s t → Step t u → Reach s u

-- ===== src/Homebrew/Handle/Confined.antt =====
-- A peer that is not logged in reaches nobody else.
use go_dmr.Base.{
  ℕ, ◌≡◌, ◌≢◌, refl, sym, ap, ◌∙◌, Bool, true, false, Option, none, some, List, [], ◌∷◌, ◌++◌,
  get_elem?, get_elem?-set_ne, get_elem?-set_self, lt_of_get_elem?, length-set, set, option_holds,
  arith, All, if◌then◌else◌, ltb,
}
use native.Mathlib.Decide.{ℕ_discrete}
use go_dmr.Dmr.Packet.{slice}
use go_dmr.Homebrew.State.{
  AuthStatus, auth_none, auth_begin, auth_done, auth_failed, Peer, Env, Homebrew, Event, sent,
  delivered, Failure, Handled, returns, panics, store, write_to_peer, handle_auth, unlink,
  touch_received, update_token, lookup, delete, master_nak, repeater_ack, repeater_login,
  repeater_key,
}
use go_dmr.Homebrew.Handle.{
  handle_peer, handshake, incoming_none, incoming_begin, outgoing_none, outgoing_begin,
  incoming_done, outgoing_done, refused, accepted, starts,
}
use go_dmr.Homebrew.Packet.{dmr_data}

abbrev pub events_of : Handled → List Event
events_of (returns h events failure) = events
events_of panics = []

-- The three stores of the state that is left.
abbrev pub heap_of : Handled → List Peer
heap_of (returns h events failure) = h.heap
heap_of panics = []

abbrev pub by_addr_of : Handled → List (ℕ × ℕ)
by_addr_of (returns h events failure) = h.by_addr
by_addr_of panics = []

abbrev pub by_id_of : Handled → List (ℕ × ℕ)
by_id_of (returns h events failure) = h.by_id
by_id_of panics = []

-- A datagram to the address `addr`, and no frame delivered.
abbrev pub ToAddress : ℕ → Event → Type 0
ToAddress addr (sent text to) = to ≡ addr
ToAddress addr (delivered packet) = ⊥

-- No other peer that is filed under the ID has the address `a`.
abbrev pub NotFiled : Homebrew → ℕ → ℕ → ℕ → Type 0
NotFiled h i id a =
    (j : ℕ) (q : Peer)
    → lookup id h.by_id ≡ some j
    → i ≢ j
    → get_elem? h.heap j ≡ some q
    → q.addr ≢ a

-- What is sent goes to the peer's own address, and every other peer stays as it was. The indexes stay as
-- they were too, unless the peer is to be unlinked where its login fails; then one of its ID and one
-- address may be gone, its own or that of the peer that is filed under its ID.
pub record IsConfined (h : Homebrew) (i addr id : ℕ) (unlinks : Bool) (r : Handled) : Type 0 where
  pub own_address : All (ToAddress addr) (events_of r)
  pub others : (j : ℕ) → i ≢ j → get_elem? (heap_of r) j ≡ get_elem? h.heap j
  pub kept : unlinks ≡ false → (by_addr_of r ≡ h.by_addr) × (by_id_of r ≡ h.by_id)
  pub ids : (k : ℕ) → k ≢ id → lookup k (by_id_of r) ≡ lookup k h.by_id
  pub addresses :
      (a : ℕ) → a ≢ addr → NotFiled h i id a → lookup a (by_addr_of r) ≡ lookup a h.by_addr

-- Confined as what `p` may do.
abbrev pub IsConfinedTo : Homebrew → ℕ → Peer → Handled → Type 0
IsConfinedTo h i p r = IsConfined h i p.addr p.id p.unlink_on_auth_failure r

lookup-delete_ne : (k j : ℕ) (m : List (ℕ × ℕ)) → k ≢ j → lookup k (delete j m) ≡ lookup k m
unfolding lookup delete
lookup-delete_ne k j [] ne = refl
lookup-delete_ne k j ((a, v) ∷ m) ne = let rest = lookup-delete_ne k j m ne in ground (arith, rest)

unlink-heap : (h : Homebrew) (id : ℕ) → (unlink h id).heap ≡ h.heap
unfolding unlink
unlink-heap h id = ground arith

unlink-by_id : (h : Homebrew) (id k : ℕ) → k ≢ id → lookup k (unlink h id).by_id ≡ lookup k h.by_id
unfolding unlink
unlink-by_id h id k ne = let gone = lookup-delete_ne k id h.by_id ne in ground (arith, gone)

unlink-by_addr :
    (h : Homebrew) (id a : ℕ)
    → ((j : ℕ) (q : Peer) → lookup id h.by_id ≡ some j → get_elem? h.heap j ≡ some q → a ≢ q.addr)
    → lookup a (unlink h id).by_addr ≡ lookup a h.by_addr
unfolding unlink
unlink-by_addr h id a other =
    let old : Homebrew → Type 0 = λ t. lookup a t.by_addr ≡ lookup a h.by_addr in
    option_holds old (lookup id h.by_id) _ _ (λ unfiled. refl)
      (λ j filed.
        option_holds old (get_elem? h.heap j) _ _ (λ gone. refl)
          (λ q at. lookup-delete_ne a q.addr h.by_addr (other j q filed at)))

module _ (env : Env) (h : Homebrew) (i : ℕ) {addr id : ℕ} {unlinks : Bool} where
  silent-IsConfined :
      (p : Peer) (failure : Option Failure)
      → IsConfined h i addr id unlinks (returns (store h i p) [] failure)
  silent-IsConfined p failure = record {
    own_address = tt;
    others = λ j ne. get_elem?-set_ne h.heap i j p ne;
    kept = λ e. (refl, refl);
    ids = λ k ne. refl;
    addresses = λ a ne other. refl;
  }

  write-IsConfined :
      (p : Peer) (text : List ℕ)
      → p.addr ≡ addr
      → IsConfined h i addr id unlinks (write_to_peer env h i p text)
  unfolding write_to_peer
  write-IsConfined p text e = record {
    own_address = (e, tt);
    others = λ j ne. get_elem?-set_ne h.heap i j _ ne;
    kept = λ e. (refl, refl);
    ids = λ k ne. refl;
    addresses = λ a ne other. refl;
  }

  unlinked-IsConfined :
      (p : Peer)
      → p.addr ≡ addr
      → unlinks ≡ true
      → IsConfined h i addr id unlinks (returns (unlink (store h i p) id) [] none)
  unlinked-IsConfined p own b = record {
    own_address = tt;
    others = λ j ne.
        ap (λ (t : List Peer). get_elem? t j) (unlink-heap (store h i p) id)
        ∙ get_elem?-set_ne h.heap i j p ne;
    kept = λ e. absurd (ground (arith, b, e));
    ids = unlink-by_id (store h i p) id;
    addresses = λ a ne other. unlink-by_addr (store h i p) id a (λ j q filed at.
        elim (ℕ_discrete i j) [
          | yes same ↦ λ e. ne (e ∙ sym (own_at j q same at))
          | no apart ↦
              λ e. other j q filed apart (sym (get_elem?-set_ne h.heap i j p apart) ∙ at) (sym e)
        ]);
  }
    where
      own_at : (j : ℕ) (q : Peer) → i ≡ j → get_elem? (set h.heap i p) j ≡ some q → addr ≡ q.addr
      own_at j q same at =
          let inside =
            lt_of_get_elem? (set h.heap i p) i (ap (get_elem? (set h.heap i p)) same ∙ at) in
          let found =
            get_elem?-set_self h.heap i p (omega (arith, inside, length-set h.heap i p)) in
          ground (arith, same, at, own, found, ap (get_elem? (set h.heap i p)) same)

  if-IsConfined :
      (b : Bool) (r s : Handled)
      → IsConfined h i addr id unlinks r
      → IsConfined h i addr id unlinks s
      → IsConfined h i addr id unlinks (if b then r else s)
  if-IsConfined true r s x y = x
  if-IsConfined false r s x y = y

  status-IsConfined :
      (t : AuthStatus) (r s u : Handled)
      → IsConfined h i addr id unlinks r
      → IsConfined h i addr id unlinks s
      → IsConfined h i addr id unlinks u
      → IsConfined h i addr id unlinks (elim t [ auth_none ↦ r | auth_begin ↦ s | _ ↦ u ])
  status-IsConfined auth_none r s u x y z = x
  status-IsConfined auth_begin r s u x y z = y
  status-IsConfined auth_done r s u x y z = z
  status-IsConfined auth_failed r s u x y z = z

module _ (env : Env) (h : Homebrew) (i : ℕ) where
  auth-IsConfined : (p : Peer) → IsConfinedTo h i p (handle_auth env h i p)
  unfolding handle_auth
  auth-IsConfined p =
      let q = touch_received p env.now in
      if-IsConfined env h i p.incoming _ _ (silent-IsConfined env h i p none) (
        status-IsConfined env h i p.status _ _ _
          (write-IsConfined env h i (record q { last = record (q.last) { auth_sent = env.now } })
            (repeater_login ++ h.id) refl)
          (write-IsConfined env h i q (repeater_key ++ (h.id ++ p.token)) refl)
          (silent-IsConfined env h i q none))

  begin-IsConfined :
      (p : Peer) (buf : List ℕ) (n : ℕ) → IsConfinedTo h i p (incoming_begin env h i p buf n)
  unfolding incoming_begin
  begin-IsConfined p buf n = search (if-IsConfined, write-IsConfined, silent-IsConfined) depth 8

  none-IsConfined : (p : Peer) (buf : List ℕ) → IsConfinedTo h i p (incoming_none env h i p buf)
  unfolding incoming_none
  none-IsConfined p buf =
      if-IsConfined env h i _ _ _ (nonce_cases env.random) (silent-IsConfined env h i p none)
    where
      nonce_cases :
          (r : Option (List ℕ))
          → IsConfinedTo h i p (elim r [
            | none ↦ write_to_peer env h i p (master_nak ++ h.id)
            | some nonce ↦
                write_to_peer env h i
                  (record (update_token env p nonce) { status = auth_begin })
                  (repeater_ack ++ nonce)
          ])
      nonce_cases none = write-IsConfined env h i p _ refl
      nonce_cases (some nonce) = write-IsConfined env h i _ _ (unfold update_token in refl)

  refused-IsConfined : (p : Peer) → IsConfinedTo h i p (refused h i p)
  unfolding refused
  refused-IsConfined p =
      elim p.unlink_on_auth_failure
          as (λ b.
            p.unlink_on_auth_failure ≡ b
            → IsConfinedTo h i p (
                returns
                  (if b
                    then unlink (store h i (record p { status = auth_failed })) p.id
                    else store h i (record p { status = auth_failed }))
                  [] none)) [
                    | true ↦ λ unlinks. unlinked-IsConfined env h i _ refl unlinks
                    | false ↦ λ stays. silent-IsConfined env h i _ none
                  ]
        refl

  outgoing_none-IsConfined :
      (p : Peer) (buf : List ℕ) → IsConfinedTo h i p (outgoing_none env h i p buf)
  unfolding outgoing_none update_token
  outgoing_none-IsConfined p buf =
      if-IsConfined env h i _ _ _
        (auth-IsConfined (update_token env (record p { status = auth_begin }) (slice 6 10 buf)))
        (if-IsConfined env h i _ _ _ (refused-IsConfined p) (silent-IsConfined env h i p none))

  outgoing_begin-IsConfined :
      (p : Peer) (buf : List ℕ) → IsConfinedTo h i p (outgoing_begin env h i p buf)
  unfolding outgoing_begin accepted
  outgoing_begin-IsConfined p buf =
      search (if-IsConfined, write-IsConfined, silent-IsConfined, refused-IsConfined) depth 8

  handshake-IsConfined :
      (p : Peer) (buf : List ℕ) (n : ℕ) → IsConfinedTo h i p (handshake env h i p buf n)
  unfolding handshake
  handshake-IsConfined p buf n =
      status-IsConfined env h i p.status _ _ _
        (if-IsConfined env h i p.incoming _ _ (none-IsConfined p buf)
          (outgoing_none-IsConfined p buf))
        (if-IsConfined env h i p.incoming _ _ (begin-IsConfined p buf n)
          (outgoing_begin-IsConfined p buf))
        (silent-IsConfined env h i p none)

-- A datagram from a peer that is not logged in, whatever it holds and in whichever direction the link
-- was made: everything that is sent in answer goes to that peer's own address, no frame is delivered to a
-- callback, and no other peer's state changes. The indexes change only where the peer is to be unlinked
-- when its login fails: then every other ID leads where it led, and so does every address but the
-- peer's own and that of another peer which is filed under the same ID.
pub handle_peer-IsConfined :
    (env : Env) (h : Homebrew) (i : ℕ) (p : Peer) (buf : List ℕ) (n : ℕ)
    → p.status ≢ auth_done
    → IsConfinedTo h i p (handle_peer env h i p buf n)
unfolding handle_peer
handle_peer-IsConfined env h i p buf n nd =
    if-IsConfined env h i (ltb n 8) _ _
      (record {
        own_address = tt;
        others = λ j ne. refl;
        kept = λ e. (refl, refl);
        ids = λ k ne. refl;
        addresses = λ a ne other. refl;
      })
      (by_status p.status nd)
  where
    by_status :
        (t : AuthStatus)
        → t ≢ auth_done
        → IsConfinedTo h i p (elim t [
          | auth_done ↦
              if p.incoming
              then incoming_done env h i (touch_received p env.now) buf n
              else outgoing_done env h i (touch_received p env.now) buf n
          | _ ↦
              if starts buf dmr_data
              then returns (store h i (touch_received p env.now)) [] none
              else handshake env h i (touch_received p env.now) buf n
        ])
    by_status auth_done ne = absurd (ne refl)
    by_status auth_none ne =
        if-IsConfined env h i _ _ _ (silent-IsConfined env h i _ none)
          (handshake-IsConfined env h i (touch_received p env.now) buf n)
    by_status auth_begin ne =
        if-IsConfined env h i _ _ _ (silent-IsConfined env h i _ none)
          (handshake-IsConfined env h i (touch_received p env.now) buf n)
    by_status auth_failed ne =
        if-IsConfined env h i _ _ _ (silent-IsConfined env h i _ none)
          (handshake-IsConfined env h i (touch_received p env.now) buf n)

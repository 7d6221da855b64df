-- ===== src/Homebrew/State.antt =====
-- homebrew.go and peer.go: the peers, their two indexes, and what a call does outside the process.
-- A `*Peer` is an index into the heap, since both indexes and the handler share the object. Times
-- are numbers, 0 for the zero time; an address is the number of its text.
use go_dmr.Base.{
  ℕ, ◌==◌, if◌then◌else◌, Bool, false, Option, none, some, List, [], ◌∷◌, ◌++◌, length, get_elem?,
  set, bytes_eq,
}
use go_dmr.Dmr.Packet.{Packet}
use go_dmr.Homebrew.Packet
use go_dmr.Homebrew.Packet.{pack_repeater_id}

pub data AuthStatus : Type 0 where
  auth_none auth_begin auth_done auth_failed : AuthStatus

-- `peer.Last`
pub record Last : Type 0 where
  pub tg_subscribed : ℕ
  pub auth_sent : ℕ
  pub packet_sent : ℕ
  pub packet_received : ℕ
  pub ping_sent : ℕ
  pub ping_received : ℕ
  pub pong_received : ℕ

pub record Peer : Type 0 where
  pub id : ℕ
  pub addr : ℕ
  -- What was parsed from the peer's configuration message.
  pub config : Option ℕ
  pub auth_key : List ℕ
  pub status : AuthStatus
  pub nonce : List ℕ
  pub token : List ℕ
  pub incoming : Bool
  pub tg_id : ℕ
  pub unlink_on_auth_failure : Bool
  -- Whether `PacketReceived` is set.
  pub has_callback : Bool
  pub last : Last
  pub packed_id : Option (List ℕ)

-- The process around the package: the clock, random numbers, SHA-256, `bytes.EqualFold`, the socket,
-- the callbacks, and the texts of a configuration.
pub record Env : Type 0 where
  pub now : ℕ
  pub random : Option (List ℕ)
  pub sha256 : List ℕ → List ℕ
  pub equal_fold : List ℕ → List ℕ → Bool
  pub write_ok : List ℕ → ℕ → Bool
  pub callback_ok : Packet → Bool
  pub config_of : List ℕ → ℕ
  pub config_data : List ℕ

pub record Homebrew : Type 0 where
  -- `h.Config.ID`
  pub config_id : ℕ
  pub id : List ℕ
  pub heap : List Peer
  -- `h.Peer`: addresses to peers.
  pub by_addr : List (ℕ × ℕ)
  -- `h.PeerID`: repeater IDs to peers.
  pub by_id : List (ℕ × ℕ)
  -- Whether `h.pf` is set.
  pub has_pf : Bool
  pub last : ℕ

pub data Event : Type 0 where
  sent : List ℕ → ℕ → Event
  delivered : Packet → Event

pub data Failure : Type 0 where
  write_failed callback_failed peer_not_linked no_auth_key : Failure
  bad_packet : Packet.Error → Failure

-- What a handler leaves: the new state, what was sent and delivered, and the error if any; or a panic.
pub data Handled : Type 0 where
  returns : Homebrew → List Event → Option Failure → Handled
  panics : Handled

abbrev pub master_nak : List ℕ
master_nak = b'M' ∷ b'S' ∷ b'T' ∷ b'N' ∷ b'A' ∷ b'K' ∷ []

abbrev pub master_ack : List ℕ
master_ack = b'M' ∷ b'S' ∷ b'T' ∷ b'A' ∷ b'C' ∷ b'K' ∷ []

abbrev pub repeater_ack : List ℕ
repeater_ack = b'R' ∷ b'P' ∷ b'T' ∷ b'A' ∷ b'C' ∷ b'K' ∷ []

abbrev pub repeater_login : List ℕ
repeater_login = b'R' ∷ b'P' ∷ b'T' ∷ b'L' ∷ []

abbrev pub repeater_key : List ℕ
repeater_key = b'R' ∷ b'P' ∷ b'T' ∷ b'K' ∷ []

abbrev pub repeater_config : List ℕ
repeater_config = b'R' ∷ b'P' ∷ b'T' ∷ b'C' ∷ []

abbrev pub master_ping : List ℕ
master_ping = b'M' ∷ b'S' ∷ b'T' ∷ b'P' ∷ b'I' ∷ b'N' ∷ b'G' ∷ []

abbrev pub master_pong : List ℕ
master_pong = b'M' ∷ b'S' ∷ b'T' ∷ b'P' ∷ b'O' ∷ b'N' ∷ b'G' ∷ []

abbrev pub repeater_ping : List ℕ
repeater_ping = b'R' ∷ b'P' ∷ b'T' ∷ b'P' ∷ b'I' ∷ b'N' ∷ b'G' ∷ []

abbrev pub repeater_pong : List ℕ
repeater_pong = b'R' ∷ b'P' ∷ b'T' ∷ b'P' ∷ b'O' ∷ b'N' ∷ b'G' ∷ []

abbrev pub repeater_closing : List ℕ
repeater_closing = b'R' ∷ b'P' ∷ b'T' ∷ b'C' ∷ b'L' ∷ []

-- Go maps as association lists with one entry for a key.
unfoldable pub lookup : ℕ → List (ℕ × ℕ) → Option ℕ
lookup k [] = none
lookup k ((j, v) ∷ m) = if j == k then some v else lookup k m

unfoldable pub insert : ℕ → ℕ → List (ℕ × ℕ) → List (ℕ × ℕ)
insert k v [] = (k, v) ∷ []
insert k v ((j, w) ∷ m) = if j == k then (k, v) ∷ m else (j, w) ∷ insert k v m

unfoldable pub delete : ℕ → List (ℕ × ℕ) → List (ℕ × ℕ)
delete k [] = []
delete k ((j, w) ∷ m) = let rest = delete k m in if j == k then rest else (j, w) ∷ rest

-- A store through the pointer `i`.
abbrev pub store : Homebrew → ℕ → Peer → Homebrew
store h i p = record h { heap = set h.heap i p }

abbrev pub touch_sent : Peer → ℕ → Peer
touch_sent p now = record p { last = record (p.last) { packet_sent = now } }

abbrev pub touch_received : Peer → ℕ → Peer
touch_received p now = record p { last = record (p.last) { packet_received = now } }

-- `h.WriteToPeer(b, peer)`, with the peer as it stands before the call.
unfoldable pub write_to_peer : Env → Homebrew → ℕ → Peer → List ℕ → Handled
write_to_peer env h i p b =
    returns (store h i (touch_sent p env.now)) (sent b p.addr ∷ [])
      (if env.write_ok b p.addr then none else some write_failed)

-- `peer.CheckRepeaterID(id)`; the answer is only logged.
pub check_repeater_id : Peer → List ℕ → Bool
check_repeater_id p id = elim p.packed_id [ none ↦ false | some own ↦ bytes_eq id own ]

-- `peer.UpdateToken(nonce)`
unfoldable pub update_token : Env → Peer → List ℕ → Peer
update_token env p nonce = record p { nonce = nonce; token = env.sha256 (nonce ++ p.auth_key) }

-- `h.handleAuth(peer)`
unfoldable pub handle_auth : Env → Homebrew → ℕ → Peer → Handled
unfolding write_to_peer
handle_auth env h i p =
    if p.incoming
    then returns (store h i p) [] none
    else (let q = touch_received p env.now in
        elim p.status [
          | auth_none ↦
              write_to_peer env h i (record q { last = record (q.last) { auth_sent = env.now } })
                (repeater_login ++ h.id)
          | auth_begin ↦ write_to_peer env h i q (repeater_key ++ (h.id ++ p.token))
          | _ ↦ returns (store h i q) [] none
        ])

-- The peer as `Link` sets it up.
unfoldable pub linked : Peer → Peer
linked p = record p {
  last = record (p.last) { packet_sent = 0; packet_received = 0; ping_sent = 0; pong_received = 0 };
  packed_id = some (pack_repeater_id p.id);
}

-- `h.Link(peer)`, for a peer that was just allocated with an address and a key.
unfoldable pub link : Homebrew → Peer → Homebrew × ℕ
link h p =
    let i = length h.heap in
    (
      record h {
        heap = h.heap ++ (linked p ∷ []);
        by_addr = insert p.addr i h.by_addr;
        by_id = insert p.id i h.by_id;
      },
      i,
    )

-- `h.Unlink(id)`: an ID that is not linked changes nothing.
unfoldable pub unlink : Homebrew → ℕ → Homebrew
unfolding lookup delete
unlink h id = elim (lookup id h.by_id) [
  | none ↦ h
  | some i ↦ elim (get_elem? h.heap i) [
    | none ↦ h
    | some p ↦ record h { by_addr = delete p.addr h.by_addr; by_id = delete id h.by_id }
  ]
]

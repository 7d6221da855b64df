-- ===== src/Ipsc/Network.antt =====
-- ipsc.go: the package's state, `New`, what it does with a datagram, and a turn of `peerMaintenance`.
-- A turn and the handling of a datagram are taken as single steps, and the log and the dump are left out.
pub mod Key
pub mod Alive
pub mod Flags
use go_dmr.Base.{
  ℕ, zero, suc, ◌+◌, ◌-◌, ◌*◌, ◌/◌, ◌%◌, ◌^◌, ◌≡◌, ltb, leb, ◌==◌, ◌||◌, not, Bool, true, false,
  if◌then◌else◌, Option, none, some, List, [], ◌∷◌, ◌++◌, length, get_or, take, drop, bytes_eq,
  be32, u8,
}
use go_dmr.Base.Outcome.{Outcome, ok, err, panic, ◌>>=◌, ◌>>◌}
use go_dmr.Ipsc.Config.{
  ℤ, pos, negsuc, Config, Error, bad_auth_key, bad_listen, bad_master, base_mode, with_ipsc_mode,
  with_timeslots, service_flags, call_flags, second,
}

pub record Status : Type 0 where
  pub connected : Bool
  pub sent : ℕ
  pub missed : ℕ
  pub outstanding : ℕ
  pub received : ℕ
  pub rx_time : ℕ

-- `ipscPeer`: nothing makes one.
pub record Peer : Type 0 where
  pub radio_id : ℕ
  pub mode : ℕ
  pub flags : List ℕ
  pub status : Status

-- The field `master`.
pub record Master : Type 0 where
  pub addr : Option ℕ
  pub radio_id : ℕ
  pub mode : ℕ
  pub flags : List ℕ
  pub status : Status

-- `IPSC`: `id`, `mode`, `flags` and `ts_flags` are of the field `local`; no key is the empty one.
pub record Ipsc : Type 0 where
  pub max_missed : ℤ
  pub alive_timer : ℕ
  pub auth_key : List ℕ
  pub addr : ℕ
  pub id : List ℕ
  pub mode : ℕ
  pub flags : List ℕ
  pub ts_flags : List ℕ
  pub peers : List (ℕ × Peer)
  pub master : Master

-- `n > limit`
unfoldable pub exceeds : ℕ → ℤ → Bool
exceeds n (pos limit) = ltb limit n
exceeds n (negsuc limit) = true

abbrev pub no_status : Status
no_status = record {
  connected = false;
  sent = 0;
  missed = 0;
  outstanding = 0;
  received = 0;
  rx_time = 0;
}

-- An answer of another package, or this error.
unfoldable pub or_error : {A : Type 0} → Option A → Error → Outcome Error A
or_error (some a) e = ok a
or_error none e = err e

-- `binary.BigEndian.PutUint32`
unfoldable pub put_uint32 : ℕ → List ℕ
put_uint32 x = u8 (x / 2 ^ 24) ∷ u8 (x / 2 ^ 16) ∷ u8 (x / 2 ^ 8) ∷ u8 x ∷ []

unfoldable pub new : Config → Outcome Error Ipsc
new c = do
  key ← if c.auth_key_len == 0 then ok [] else or_error c.auth_key bad_auth_key
  mode ← with_ipsc_mode c.ipsc_mode (base_mode c)
  listen ← or_error c.listen bad_listen
  master ← if c.has_master then or_error c.master bad_master >>= (λ a. ok (some a)) else ok none
  let full = with_timeslots c mode
  let flags = 0 ∷ 0 ∷ service_flags c ∷ call_flags c ∷ []
  ok (record {
    max_missed = c.max_missed;
    alive_timer = if c.alive_timer == 0 then 5 * second else c.alive_timer;
    auth_key = key;
    addr = listen;
    id = put_uint32 c.radio_id;
    mode = full;
    flags = flags;
    ts_flags = full ∷ flags;
    peers = [];
    master = record {
      addr = master;
      radio_id = 0;
      mode = 0;
      flags = 0 ∷ 0 ∷ 0 ∷ 0 ∷ [];
      status = no_status;
    };
  })

unfoldable pub has_key : List ℕ → Bool
has_key key = ltb 0 (length key)

-- `payload` of a datagram of `n` bytes, as its length; `none` is a slice that ends before it starts.
unfoldable pub payload : Ipsc → ℕ → Option ℕ
payload c n = if not (has_key c.auth_key) then some n else if ltb n 10 then none else some (n - 10)

unfoldable pub valid_master : Ipsc → ℕ → Bool
valid_master c id = c.master.radio_id == id

-- `resetKeepAlive`. What it changes of a peer is a copy.
unfoldable pub reset_keep_alive : Ipsc → ℕ → Ipsc
reset_keep_alive c id =
    if valid_master c id
    then record c {
      master = record (c.master) { status = record (c.master.status) { outstanding = 0 } };
    }
    else c

unfoldable pub master_required : ℕ → Bool
master_required kind = kind == 0x93 || kind == 0x97

-- What `MasterAliveReply` does.
unfoldable pub alive_reply : Ipsc → ℕ → ℕ → Ipsc
alive_reply c id now =
    let reset = reset_keep_alive c id in
    let s = reset.master.status in
    record reset {
      master = record (reset.master) {
        status = record s { received = s.received + 1; rx_time = now };
      };
    }

-- What `MasterRegistrationReply` does, for a reply that has a sixth byte.
unfoldable pub register : Ipsc → ℕ → List ℕ → Ipsc
register c id buf = record c {
  master = record (c.master) {
    radio_id = id;
    mode = get_or buf 5 0;
    flags = take 4 (drop 6 buf);
    status = record (c.master.status) { connected = true; outstanding = 0 };
  };
}

-- `parse`, for a buffer of 512 bytes that holds a datagram of `n`: a slice may reach beyond `n`, an index
-- may not, and then there is no result.
unfoldable pub parse : Ipsc → ℕ → List ℕ → ℕ → Option Ipsc
parse c now buf n =
    if n == 0
    then none
    else let kind = get_or buf 0 0 in
      let id = be32 (get_or buf 1 0) (get_or buf 2 0) (get_or buf 3 0) (get_or buf 4 0) in
      if master_required kind
      then (if valid_master c id
          then (if kind == 0x97 then some (alive_reply c id now) else some c)
          else some c)
      else if kind == 0x91
      then (if leb n 5 then none else some (register c id buf))
      else some c

-- `mac key text` is the HMAC-SHA1, `encode` is `hex.Encode`.
module _ (mac : List ℕ → List ℕ → List ℕ) (encode : List ℕ → List ℕ) where
  -- `authenticate`, for a datagram of `n` bytes.
  unfoldable pub authenticate : Ipsc → List ℕ → ℕ → Option Bool
  authenticate c buf n = if not (has_key c.auth_key) then some true else elim (payload c n) [
    | none ↦ none
    | some m ↦ some (bytes_eq (take (n - m) (drop m buf)) (mac c.auth_key (take m buf)))
  ]

  -- The round of `Run` that a datagram takes.
  unfoldable pub receive : Ipsc → ℕ → List ℕ → ℕ → Option Ipsc
  receive c now buf n = elim (authenticate c buf n) [
    | none ↦ none
    | some false ↦ some c
    | some true ↦ elim (payload c n) [ none ↦ none | some m ↦ parse c now buf m ]
  ]

  -- `hashedPacket`, whose buffer for the code in hexadecimal digits has twenty bytes.
  unfoldable pub hashed_packet : List ℕ → List ℕ → Option (List ℕ)
  hashed_packet key text =
      if not (has_key key)
      then some text
      else if leb (2 * length (mac key text)) 20
      then some (text ++ encode (mac key text))
      else none

  -- A packet of `peerMaintenance`: the two link types and versions are always the same.
  unfoldable pub request : Ipsc → ℕ → List ℕ
  request c kind = kind ∷ (c.id ++ (c.ts_flags ++ (0x04 ∷ 0x02 ∷ 0x04 ∷ 0x01 ∷ [])))

  -- One turn of `peerMaintenance`: the state and the packet that is sent before it sleeps, if any; no
  -- result is a panic.
  unfoldable pub turn : Ipsc → Option (Ipsc × Option (List ℕ))
  turn c =
      let s = c.master.status in
      let with_status : Status → Ipsc =
        λ t. record c { master = record (c.master) { status = t } } in
      if s.connected
      then elim (hashed_packet c.auth_key (request c 0x96)) [
        | none ↦ none
        | some p ↦
            let counted = if ltb 0 s.outstanding then record s { missed = s.missed + 1 } else s in
            if exceeds s.outstanding c.max_missed
            then some (with_status (record counted { connected = false; outstanding = 0 }), none)
            else some (
              with_status (record counted { sent = s.sent + 1; outstanding = s.outstanding + 1 }),
              some p,
            )
      ]
      else elim (hashed_packet c.auth_key (request c 0x90)) [
        | none ↦ none
        | some p ↦ some (c, some p)
      ]

-- What `sendToMaster` comes to.
pub data Sent : Type 0 where
  done failed unfinished : Sent

-- The loop of `sendToMaster` over a connection that answers each write with the bytes it took, or fails:
-- what was written, in `fuel` writes at most.
unfoldable pub send_to_master : ℕ → (List ℕ → Option ℕ) → List ℕ → List ℕ × Sent
send_to_master fuel write [] = ([], done)
send_to_master zero write (b ∷ bytes) = ([], unfinished)
send_to_master (suc fuel) write (b ∷ bytes) = elim (write (b ∷ bytes)) [
  | none ↦ ([], failed)
  | some n ↦
      let (later, result) = send_to_master fuel write (drop n (b ∷ bytes)) in
      (take n (b ∷ bytes) ++ later, result)
]

-- ===== src/Ipsc/Network/Alive.antt =====
-- The keep-alives to the master, and what is sent to it.
use go_dmr.Base.{
  ℕ, zero, suc, ◌+◌, ◌≤◌, ◌<◌, ◌≡◌, refl, ap, ltb, true, false, Option, none, some, List, [], ◌∷◌,
  ◌++◌, length, length-drop, take, drop, inl, inr, Option-cases, arith, if◌then◌else◌,
}
use go_dmr.Base.Outcome.{ok}
use go_dmr.Ipsc.Config.{ℤ, pos, negsuc, Config}
use go_dmr.Ipsc.Network.{
  Ipsc, Status, new, reset_keep_alive, alive_reply, register, payload, parse, receive, turn, done,
  send_to_master, has_key, hashed_packet, request, exceeds,
}

take-drop : (n : ℕ) (xs : List ℕ) → take n xs ++ drop n xs ≡ xs
take-drop zero xs = refl
take-drop (suc n) [] = refl
take-drop (suc n) (x ∷ xs) = ap (λ (t : List ℕ). x ∷ t) (take-drop n xs)

-- A connection that takes at least one byte with each write, and no more than it is given: `sendToMaster`
-- ends, after at most as many writes as there are bytes, and has written exactly the bytes, in order.
pub send_to_master-done :
    (write : List ℕ → Option ℕ) (fuel : ℕ) (text : List ℕ)
    → ((b : ℕ) (bytes : List ℕ)
        → (n : ℕ) × (write (b ∷ bytes) ≡ some n) × (0 < n) × (n ≤ length (b ∷ bytes)))
    → length text ≤ fuel
    → send_to_master fuel write text ≡ (text, done)
unfolding send_to_master
send_to_master-done write zero [] takes le = refl
send_to_master-done write (suc fuel) [] takes le = refl
send_to_master-done write zero (b ∷ text) takes le = absurd (omega arith)
send_to_master-done write (suc fuel) (b ∷ text) takes le =
    let (n, answer, some_byte, whole) = takes b text in
    let rest =
      send_to_master-done write fuel (drop n (b ∷ text)) takes
        (omega (arith, length-drop n (b ∷ text))) in
    rw (answer, send_to_master) (rw rest (ap (λ (t : List ℕ). (t, done)) (take-drop n (b ∷ text))))

-- How many keep-alives can be without an answer: one more than may be missed, and none where that number
-- is negative.
abbrev pub allowed : ℤ → ℕ
allowed (pos n) = n + 1
allowed (negsuc n) = 0

exceeds-allowed : (n : ℕ) (limit : ℤ) → allowed limit ≤ n → exceeds n limit ≡ true
unfolding exceeds
exceeds-allowed n (pos m) h = ground (arith, h)
exceeds-allowed n (negsuc m) h = refl

exceeds-below : (n : ℕ) (limit : ℤ) → n < allowed limit → exceeds n limit ≡ false
unfolding exceeds
exceeds-below n (pos m) h = ground (arith, h)
exceeds-below n (negsuc m) h = absurd (omega arith)

exceeds-inside : (n : ℕ) (limit : ℤ) → exceeds n limit ≡ false → n < allowed limit
unfolding exceeds
exceeds-inside n (pos m) h = ground (arith, h)
exceeds-inside n (negsuc m) h = absurd (ground (arith, h))

-- No more keep-alives are without an answer than can be.
abbrev pub WithinLimit : Ipsc → Type 0
WithinLimit c = c.master.status.outstanding ≤ allowed c.max_missed

module _ (mac : List ℕ → List ℕ → List ℕ) (encode : List ℕ → List ℕ) where
  -- What happens to a running package.
  pub data Step (c c' : Ipsc) : Type 0 where
    arrives :
        (now : ℕ) (buf : List ℕ) (n : ℕ) → receive mac encode c now buf n ≡ some c' → Step c c'
    turns : (packet : Option (List ℕ)) → turn mac encode c ≡ some (c', packet) → Step c c'

  pub data Reach (s : Ipsc) : Ipsc → Type 0 where
    here : Reach s s
    next : {t u : Ipsc} → Reach s t → Step t u → Reach s u

  parse-WithinLimit :
      (c c' : Ipsc) (now : ℕ) (buf : List ℕ) (n : ℕ)
      → parse c now buf n ≡ some c'
      → WithinLimit c
      → WithinLimit c'
  unfolding parse alive_reply register reset_keep_alive
  parse-WithinLimit c c' now buf n e v = ground (arith, e, v)

  receive-WithinLimit :
      (c c' : Ipsc) (now : ℕ) (buf : List ℕ) (n : ℕ)
      → receive mac encode c now buf n ≡ some c'
      → WithinLimit c
      → WithinLimit c'
  unfolding receive
  receive-WithinLimit c c' now buf n e v = elim (Option-cases (payload c n)) [
    | inl gone ↦ ground (arith, e, v, gone)
    | inr (m, had) ↦ ground (arith, e, v, had, parse-WithinLimit c c' now buf m)
  ]

  turn-WithinLimit :
      (c c' : Ipsc) (packet : Option (List ℕ))
      → turn mac encode c ≡ some (c', packet)
      → WithinLimit c
      → WithinLimit c'
  unfolding turn
  turn-WithinLimit c c' packet e v =
      ground (arith, e, v, exceeds-inside c.master.status.outstanding c.max_missed)

  Step-WithinLimit : {c c' : Ipsc} → Step c c' → WithinLimit c → WithinLimit c'
  Step-WithinLimit {c} {c'} (arrives now buf n e) v = receive-WithinLimit c c' now buf n e v
  Step-WithinLimit {c} {c'} (turns packet e) v = turn-WithinLimit c c' packet e v

  new-WithinLimit : (config : Config) (c : Ipsc) → new config ≡ ok c → WithinLimit c
  unfolding new
  new-WithinLimit config c e = ground (arith, e)

  -- However a package runs from `New` on, by datagrams and by turns of `peerMaintenance`: the keep-alives
  -- that no answer has reset are at most one more than the number that may be missed, and none where that
  -- number is negative.
  pub Reach-WithinLimit :
      (config : Config) (s c : Ipsc) → new config ≡ ok s → Reach s c → WithinLimit c
  Reach-WithinLimit config s c e here = new-WithinLimit config c e
  Reach-WithinLimit config s c e (next {t} r step) =
      Step-WithinLimit step (Reach-WithinLimit config s t e r)

  -- `n` turns one after the other, with no datagram between them.
  unfoldable pub silent_turns : ℕ → Ipsc → Option Ipsc
  silent_turns zero c = some c
  silent_turns (suc n) c = elim (turn mac encode c) [
    | none ↦ none
    | some (c', packet) ↦ silent_turns n c'
  ]

  -- A turn that sends a keep-alive.
  keeps_alive :
      (c : Ipsc)
      → has_key c.auth_key ≡ false
      → c.master.status.connected ≡ true
      → c.master.status.outstanding < allowed c.max_missed
      → (c' : Ipsc) × (turn mac encode c ≡ some (c', some (request mac encode c 0x96)))
        × (has_key c'.auth_key ≡ false)
        × (c'.master.status.connected ≡ true)
        × (c'.master.status.outstanding ≡ c.master.status.outstanding + 1)
        × (c'.max_missed ≡ c.max_missed)
  unfolding turn hashed_packet
  keeps_alive c key up le =
      let s = c.master.status in
      let counted : Status =
        if ltb 0 s.outstanding then record s { missed = s.missed + 1 } else s in
      (
        record c {
          master = record (c.master) {
            status = record counted { sent = s.sent + 1; outstanding = s.outstanding + 1 };
          };
        },
        ground (arith, key, up, exceeds-below s.outstanding c.max_missed le),
        key,
        ground (arith, up),
        refl,
        refl,
      )

  -- A turn that gives the master up, and one that asks it again.
  gives_up :
      (c : Ipsc)
      → has_key c.auth_key ≡ false
      → c.master.status.connected ≡ true
      → allowed c.max_missed ≤ c.master.status.outstanding
      → (c' : Ipsc) × (turn mac encode c ≡ some (c', none))
        × (c'.master.status.connected ≡ false)
        × (has_key c'.auth_key ≡ false)
  unfolding turn hashed_packet
  gives_up c key up gt =
      let s = c.master.status in
      let counted : Status =
        if ltb 0 s.outstanding then record s { missed = s.missed + 1 } else s in
      (
        record c {
          master = record (c.master) {
            status = record counted { connected = false; outstanding = 0 };
          };
        },
        ground (arith, key, up, exceeds-allowed s.outstanding c.max_missed gt),
        refl,
        key,
      )

  registers :
      (c : Ipsc)
      → has_key c.auth_key ≡ false
      → c.master.status.connected ≡ false
      → turn mac encode c ≡ some (c, some (request mac encode c 0x90))
  unfolding turn hashed_packet
  registers c key down = ground (arith, key, down)

  -- Without a key, while the master is connected and `n` more keep-alives may go unanswered: `n + 1` turns
  -- without a datagram disconnect it, and the turn after them sends a registration request.
  pub silent_turns-registers :
      (n : ℕ) (c : Ipsc)
      → has_key c.auth_key ≡ false
      → c.master.status.connected ≡ true
      → c.master.status.outstanding + n ≡ allowed c.max_missed
      → (c' : Ipsc) × (silent_turns (suc n) c ≡ some c')
        × (c'.master.status.connected ≡ false)
        × (turn mac encode c' ≡ some (c', some (request mac encode c' 0x90)))
  unfolding silent_turns
  silent_turns-registers zero c key up e =
      let (c1, ran, down, key1) = gives_up c key up (omega arith) in
      (c1, ground (arith, ran), down, registers c1 key1 down)
  silent_turns-registers (suc n) c key up e =
      let (c1, ran, key1, up1, count, limit) = keeps_alive c key up (omega arith) in
      let (c2, later, down, asks) =
        silent_turns-registers n c1 key1 up1 (omega (arith, count, e, ap allowed limit)) in
      (c2, ground (arith, ran, later), down, asks)

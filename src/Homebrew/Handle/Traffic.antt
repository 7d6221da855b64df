-- ===== src/Homebrew/Handle/Traffic.antt =====
-- Whom a frame of a talk group reaches.
use go_dmr.Base.{
  ℕ, ◌<◌, ◌≡◌, refl, ap, ◌∙◌, ◌==◌, ◌||◌, true, false, not, none, some, List, [], ◌∷◌, length,
  get_elem?, get_elem?-set_self, get_elem?-set_ne, get_elem?-eq-some, length-set, set, arith,
  if◌then◌else◌, All, Bool-cases, inl, inr,
}
use mathlib.Core.List.{map}
use native.Mathlib.Decide.{ℕ_discrete}
use go_dmr.Dmr.Packet.{Packet}
use go_dmr.Homebrew.Packet.{build_data}
use go_dmr.Homebrew.State.{Peer, Env, Homebrew, sent, returns, store, touch_sent}
use go_dmr.Homebrew.Handle.{send_tg_loop, handle_packet}

-- The addresses of the peers on talk group `dst_id`, other than the peer `own`, in the map's order.
unfoldable pub targets : ℕ → ℕ → List (ℕ × ℕ) → List Peer → List ℕ
targets own dst_id [] heap = []
targets own dst_id ((addr, j) ∷ peers) heap =
    let rest = targets own dst_id peers heap in
    elim (get_elem? heap j) [
      | none ↦ rest
      | some q ↦ if q.id == own || not (q.tg_id == dst_id) then rest else q.addr ∷ rest
    ]

-- Every entry of the index points into the heap.
abbrev pub InHeap : List (ℕ × ℕ) → List Peer → Type 0
InHeap peers heap = All (λ e. e.1 < length heap) peers

-- A peer that was written to is still the same target.
targets-touch :
    (own dst_id : ℕ) (peers : List (ℕ × ℕ)) (heap : List Peer) (j : ℕ) (q r : Peer)
    → get_elem? heap j ≡ some q
    → r.id ≡ q.id
    → r.tg_id ≡ q.tg_id
    → r.addr ≡ q.addr
    → j < length heap
    → targets own dst_id peers (set heap j r) ≡ targets own dst_id peers heap
unfolding targets
targets-touch own dst_id [] heap j q r g e f a b = refl
targets-touch own dst_id ((addr, k) ∷ peers) heap j q r g e f a b = elim (ℕ_discrete j k) [
  | yes same ↦ ground (
    arith,
    ap (λ (t : ℕ). get_elem? (set heap j r) t) same,
    ap (get_elem? heap) same,
    get_elem?-set_self heap j r b,
    targets-touch own dst_id peers heap j q r g e f a b,
  )
  | no other ↦ ground (
    arith,
    get_elem?-set_ne heap j k r other,
    targets-touch own dst_id peers heap j q r g e f a b,
  )
]

pub InHeap-set :
    (peers : List (ℕ × ℕ)) (heap : List Peer) (j : ℕ) (q : Peer)
    → InHeap peers heap
    → InHeap peers (set heap j q)
InHeap-set [] heap j q h = tt
InHeap-set ((addr, k) ∷ peers) heap j q h =
    (omega (arith, h.0, length-set heap j q), InHeap-set peers heap j q h.1)

module _ (env : Env) (bytes : List ℕ) (own dst_id : ℕ) where
  pub send_tg_loop-targets :
      (peers : List (ℕ × ℕ)) (h : Homebrew)
      → ((text : List ℕ) (addr : ℕ) → env.write_ok text addr ≡ true)
      → InHeap peers h.heap
      → (heap' : List Peer) × (send_tg_loop env bytes own dst_id peers h
          ≡ returns
              (record h { heap = heap' })
              (map (sent bytes) (targets own dst_id peers h.heap))
              none)
        × ((j : ℕ) (q : Peer)
            → get_elem? h.heap j ≡ some q
            → q.id ≡ own
            → get_elem? heap' j ≡ some q)
  unfolding send_tg_loop targets
  send_tg_loop-targets [] h ok valid = (h.heap, refl, λ j q e own_id. e)
  send_tg_loop-targets ((addr, j) ∷ peers) h ok valid =
      let (q, g) = get_elem?-eq-some h.heap j valid.0 in
      let q' = touch_sent q env.now in
      let (skipped, e, skipped_own) = send_tg_loop-targets peers h ok valid.1 in
      let (written, f, written_own) =
        send_tg_loop-targets peers (store h j q') ok (InHeap-set peers h.heap j q' valid.1) in
      elim (Bool-cases (q.id == own || not (q.tg_id == dst_id))) [
        | inl skip ↦ (skipped, ground (arith, g, e, skip), skipped_own)
        | inr send ↦ (
          written,
          ground (
            arith,
            g,
            f,
            send,
            ok bytes q.addr,
            targets-touch own dst_id peers h.heap j q q' g refl refl refl valid.0,
          ),
          λ k r at own_id.
              written_own k r
                (get_elem?-set_ne h.heap j k q'
                    (λ same. ground (arith, g, at, ap (get_elem? h.heap) same, own_id, send))
                  ∙ at)
                own_id,
        )
      ]

-- Where no callback is set, the index of addresses is sound and every write succeeds: a group frame of
-- a peer that is logged in puts that peer on the frame's talk group, notes the time of it, and is then sent, as
-- one DMRD message each, exactly to the peers of the index that are on that talk group and have another ID than
-- the sender. No error is returned, and nothing of the state but the peers and the time of the last
-- packet changes.
pub handle_packet_group :
    (env : Env) (h : Homebrew) (i : ℕ) (p : Peer) (packet : Packet)
    → ((text : List ℕ) (addr : ℕ) → env.write_ok text addr ≡ true)
    → i < length h.heap
    → InHeap h.by_addr h.heap
    → p.has_callback ≡ false
    → h.has_pf ≡ false
    → packet.call_type ≡ 0
    → let q = record p {
      tg_id = packet.dst_id;
      last = record (p.last) { tg_subscribed = env.now };
    } in
      (heap' : List Peer) × (handle_packet env h i p packet
        ≡ returns
            (record h { heap = heap'; last = env.now })
            (map
              (sent (build_data packet h.config_id))
              (targets p.id packet.dst_id h.by_addr (set h.heap i q)))
            none)
      × (get_elem? heap' i ≡ some q)
unfolding handle_packet
handle_packet_group env h i p packet ok here valid cb pf group =
    let q = record p {
      tg_id = packet.dst_id;
      last = record (p.last) { tg_subscribed = env.now };
    } in
    let start = record (store h i q) { last = env.now } in
    let (heap', e, own) =
      send_tg_loop-targets env (build_data packet h.config_id) p.id packet.dst_id h.by_addr start ok
        (InHeap-set h.by_addr h.heap i q valid) in
    (heap', ground (arith, e), own i q (get_elem?-set_self h.heap i q here) refl)

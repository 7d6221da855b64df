-- ===== src/Homebrew/Handle/Index.antt =====
-- The index of addresses as peers are linked and looked up.
use go_dmr.Base.{
  ℕ, ◌<◌, ◌≡◌, refl, ◌==◌, true, false, some, List, [], ◌∷◌, ◌++◌, length, length-append, get_elem?,
  arith, if◌then◌else◌,
}
use go_dmr.Homebrew.State.{Peer, Homebrew, lookup, insert, link, linked}
use go_dmr.Homebrew.Handle.Traffic.{InHeap}

pub InHeap-append :
    (peers : List (ℕ × ℕ)) (heap : List Peer) (q : Peer)
    → InHeap peers heap
    → InHeap peers (heap ++ (q ∷ []))
InHeap-append [] heap q h = tt
InHeap-append ((addr, k) ∷ peers) heap q h =
    (omega (arith, h.0, length-append heap (q ∷ [])), InHeap-append peers heap q h.1)

pub InHeap-insert :
    (addr i : ℕ) (peers : List (ℕ × ℕ)) (heap : List Peer)
    → i < length heap
    → InHeap peers heap
    → InHeap (insert addr i peers) heap
unfolding insert
InHeap-insert addr i [] heap b h = (b, tt)
InHeap-insert addr i ((a, k) ∷ peers) heap b h =
    elim (a == addr)
      as (λ t. InHeap (if t then (addr, i) ∷ peers else (a, k) ∷ insert addr i peers) heap) [
        | true ↦ (b, h.1)
        | false ↦ (h.0, InHeap-insert addr i peers heap b h.1)
      ]

-- Linking a new peer keeps the index sound.
pub link-InHeap :
    (h : Homebrew) (p : Peer)
    → InHeap h.by_addr h.heap
    → InHeap (link h p).0.by_addr (link h p).0.heap
unfolding link
link-InHeap h p valid =
    InHeap-insert p.addr (length h.heap) h.by_addr (h.heap ++ (linked p ∷ []))
      (omega (arith, length-append h.heap (linked p ∷ [])))
      (InHeap-append h.by_addr h.heap (linked p) valid)

pub get_elem?-last :
    (heap : List Peer) (q : Peer) → get_elem? (heap ++ (q ∷ [])) (length heap) ≡ some q
get_elem?-last [] q = refl
get_elem?-last (p ∷ heap) q = get_elem?-last heap q

pub lookup-InHeap :
    (addr i : ℕ) (peers : List (ℕ × ℕ)) (heap : List Peer)
    → InHeap peers heap
    → lookup addr peers ≡ some i
    → i < length heap
unfolding lookup
lookup-InHeap addr i [] heap h e = cc
lookup-InHeap addr i ((a, k) ∷ peers) heap h e = ground (arith, lookup-InHeap addr i peers heap h.1)

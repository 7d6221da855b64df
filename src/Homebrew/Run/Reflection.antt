-- ===== src/Homebrew/Run/Reflection.antt =====
-- What an address that is not logged in can make a running package send.
use go_dmr.Base.{
  ℕ, ◌≡◌, ◌≢◌, refl, ap, ◌∙◌, ltb, ◌==◌, true, some, List, [], ◌∷◌, get_elem?, get_or, be32, length,
  All, arith, Option-cases, Bool-cases, if_holds, option_holds, inl, inr,
}
use mathlib.Core.Path.{subst}
use go_dmr.Homebrew.State.{
  auth_none, auth_done, Peer, Env, Homebrew, Handled, lookup, link, linked, repeater_login,
}
use go_dmr.Homebrew.Handle.{handle, at_peer, handle_peer, new_peer, starts}
use go_dmr.Homebrew.Handle.Confined.{events_of, ToAddress, handle_peer-IsConfined}
use go_dmr.Homebrew.Handle.Index.{get_elem?-last}
use go_dmr.Homebrew.Handle.Sound.{filed, address}
use go_dmr.Homebrew.Run.{new, Reach}
use go_dmr.Homebrew.Run.Invariant.{Reach-IsIndexed}

-- The peer that an address leads to, if any, is not logged in.
abbrev pub Stranger : Homebrew → ℕ → Type 0
Stranger h remote =
    (i : ℕ) (p : Peer)
    → lookup remote h.by_addr ≡ some i
    → get_elem? h.heap i ≡ some p
    → p.status ≢ auth_done

filed-lookup :
    (index : List (ℕ × ℕ)) (heap : List Peer) (k i : ℕ)
    → filed address index heap ≡ true
    → lookup k index ≡ some i
    → (p : Peer) × (get_elem? heap i ≡ some p) × (p.addr ≡ k)
unfolding filed lookup
filed-lookup [] heap k i v e = cc
filed-lookup ((j, m) ∷ index) heap k i v e = elim (Bool-cases (j == k)) [
  | inr other ↦ filed-lookup index heap k i (ground arith) (ground (arith, other))
  | inl same ↦ elim (Option-cases (get_elem? heap m)) [
    | inl gone ↦ absurd (ground (arith, gone))
    | inr (p, g) ↦ (p, ground (arith, same, g), ground (arith, same, g))
  ]
]

at_stranger :
    (env : Env) (h : Homebrew) (i : ℕ) (p : Peer) (remote : ℕ) (buf : List ℕ) (n : ℕ)
    → get_elem? h.heap i ≡ some p
    → p.addr ≡ remote
    → p.status ≢ auth_done
    → All (ToAddress remote) (events_of (at_peer env h i buf n))
unfolding at_peer
at_stranger env h i p remote buf n g a s =
    option_holds (λ r. All (ToAddress remote) (events_of r)) (get_elem? h.heap i) _ _ (λ gone. tt)
      (λ q e.
        let same : q ≡ p = ground (arith, e, g) in
        subst (λ (t : ℕ). All (ToAddress t) (events_of (handle_peer env h i q buf n)))
          (ap address same ∙ a)
          ((handle_peer-IsConfined env h i q buf n
            (λ (done : q.status ≡ auth_done). s (ground (arith, same, done)))).own_address))

fresh :
    (env : Env) (h : Homebrew) (p : Peer) (remote : ℕ) (buf : List ℕ) (n : ℕ)
    → p.addr ≡ remote
    → p.status ≡ auth_none
    → All (ToAddress remote) (events_of (at_peer env (link h p).0 (link h p).1 buf n))
unfolding link linked
fresh env h p remote buf n a s =
    at_stranger env (link h p).0 (length h.heap) (linked p) remote buf n
      (get_elem?-last h.heap (linked p)) a
      (λ (done : p.status ≡ auth_done). ground (arith, s, done))

-- In every state that a package reaches from `New` on: whatever datagram comes from an address whose peer,
-- if it has one, is not logged in, everything that `handle` sends goes back to that very address, and no
-- frame is delivered to a callback.
pub handle-Reach-reply :
    (id : ℕ) (h : Homebrew) (env : Env) (remote : ℕ) (buf : List ℕ) (n : ℕ)
    → Reach (new id) h
    → Stranger h remote
    → All (ToAddress remote) (events_of (handle env h remote buf n))
unfolding handle new_peer
handle-Reach-reply id h env remote buf n r s =
    let v = Reach-IsIndexed id r in
    let replies : Handled → Type 0 = λ o. All (ToAddress remote) (events_of o) in
    option_holds replies (lookup remote h.by_addr) _ _
      (λ unknown.
        if_holds replies (starts buf repeater_login) _ _
          (if_holds replies (ltb n 8) _ _ tt (
            let q =
              new_peer (be32 (get_or buf 4 0) (get_or buf 5 0) (get_or buf 6 0) (get_or buf 7 0))
                remote in
            fresh env h q remote buf n refl refl))
          tt)
      (λ i known.
        let (p, g, a) = filed-lookup h.by_addr h.heap remote i v.0 known in
        at_stranger env h i p remote buf n g a (s i p known g))

-- ===== src/Homebrew/Run/Invariant.antt =====
-- The indexes of a running package are sound, whatever happens to it.
use go_dmr.Base.{
  ℕ, ◌≡◌, refl, ◌==◌, Option, none, some, List, [], ◌∷◌, ◌++◌, get_elem?, get_elem?-set_self,
  lt_of_get_elem?, length, arith,
}
use go_dmr.Homebrew.State.{
  AuthStatus, auth_none, auth_begin, auth_done, auth_failed, Peer, Env, Homebrew, Event, sent,
  Failure, Handled, returns, panics, store, write_to_peer, lookup, link, linked, touch_sent,
}
use go_dmr.Homebrew.Keepalive.{tick_peer, and_then, keepalive, send_loop, send}
use go_dmr.Homebrew.Run.{
  new, link_peer, unlink_peer, close_loop, close, Step, receives, ticks, transmits, links, unlinks,
  closes, sets_callback, Reach, here, next,
}
use go_dmr.Homebrew.Handle.Index.{get_elem?-last}
use go_dmr.Homebrew.Handle.Sound.{
  IsIndexed, filed, Keeps, if-Keeps, option-Keeps, store-IsIndexed, link-IsIndexed,
  unlink-IsIndexed, auth-Keeps,
}
use go_dmr.Homebrew.Handle.Keeps.{after_send, handle-Keeps}

tick_peer-Keeps :
    (env : Env) (h : Homebrew) (i : ℕ) (p : Peer)
    → get_elem? h.heap i ≡ some p
    → IsIndexed h
    → Keeps (tick_peer env h i p)
unfolding tick_peer and_then write_to_peer
tick_peer-Keeps env h i p g v =
    let restarted = record p { status = auth_none } in
    let q = touch_sent restarted env.now in
    let kept = store-IsIndexed h i p g v in
    let again = get_elem?-set_self h.heap i q (lt_of_get_elem? h.heap i g) in
    ground (
      arith,
      kept q refl refl,
      kept (record p { status = auth_failed }) refl refl,
      kept (touch_sent (record p { last = record (p.last) { ping_sent = env.now } }) env.now) refl
          refl,
      auth-Keeps h i p g v env restarted refl refl,
      auth-Keeps (store h i q) i q again (kept q refl refl) env q refl refl,
    )

and_then-Keeps :
    (r : Handled) (f : Homebrew → Handled)
    → Keeps r
    → ((h : Homebrew) → IsIndexed h → Keeps (f h))
    → Keeps (and_then r f)
unfolding and_then
and_then-Keeps panics f k l = tt
and_then-Keeps (returns h events failure) f k l = logged (f h) (l h k)
  where
    logged :
        (r : Handled)
        → Keeps r
        → Keeps (elim r [
          | panics ↦ panics
          | returns h' later failure' ↦ returns h' (events ++ later) none
        ])
    logged panics k = tt
    logged (returns h' later failure') k = k

keepalive-Keeps :
    (env : Env) (peers : List (ℕ × ℕ)) (h : Homebrew) → IsIndexed h → Keeps (keepalive env peers h)
unfolding keepalive
keepalive-Keeps env [] h v = v
keepalive-Keeps env ((addr, i) ∷ peers) h v = option-Keeps (get_elem? h.heap i) _ _ tt (λ p g.
    and_then-Keeps _ _ (tick_peer-Keeps env h i p g v) (λ h' v'. keepalive-Keeps env peers h' v'))

send_loop-Keeps :
    (env : Env) (text : List ℕ) (peers : List (ℕ × ℕ)) (h : Homebrew)
    → IsIndexed h
    → Keeps (send_loop env text peers h)
unfolding send_loop
send_loop-Keeps env text [] h v = v
send_loop-Keeps env text ((addr, i) ∷ peers) h v = option-Keeps (get_elem? h.heap i) _ _ tt (λ q g.
    let kept = store-IsIndexed h i q g v (touch_sent q env.now) refl refl in
    if-Keeps (env.write_ok text q.addr) _ _
      (after_send (sent text q.addr) _
        (send_loop-Keeps env text peers (store h i (touch_sent q env.now)) kept))
      kept)

close_loop-Keeps :
    (env : Env) (text : List ℕ) (peers : List (ℕ × ℕ)) (h : Homebrew)
    → IsIndexed h
    → Keeps (close_loop env text peers h)
unfolding close_loop
close_loop-Keeps env text [] h v = v
close_loop-Keeps env text ((addr, i) ∷ peers) h v = option-Keeps (get_elem? h.heap i) _ _ tt (λ q g.
    let kept = store-IsIndexed h i q g v (touch_sent q env.now) refl refl in
    by_status q.status _ _
      (if-Keeps (env.write_ok text q.addr) _ _
        (after_send (sent text q.addr) _
          (close_loop-Keeps env text peers (store h i (touch_sent q env.now)) kept))
        kept)
      (close_loop-Keeps env text peers h v))
  where
    by_status :
        (s : AuthStatus) (r t : Handled)
        → Keeps r
        → Keeps t
        → Keeps (elim s [ auth_done ↦ r | _ ↦ t ])
    by_status auth_done r t k l = k
    by_status auth_none r t k l = l
    by_status auth_begin r t k l = l
    by_status auth_failed r t k l = l

link_peer-Keeps : (env : Env) (h : Homebrew) (p : Peer) → IsIndexed h → Keeps (link_peer env h p)
unfolding link_peer link
link_peer-Keeps env h p v = if-Keeps (length p.auth_key == 0) _ _ v (
    if-Keeps p.incoming _ _ (unfold link in link-IsIndexed h p v) (
      auth-Keeps (link h p).0 (length h.heap) (linked p) (get_elem?-last h.heap (linked p))
        (link-IsIndexed h p v) env (linked p) refl refl))

-- What a call that returned has left.
returned :
    (r : Handled) (h : Homebrew) (events : List Event) (failure : Option Failure)
    → Keeps r
    → r ≡ returns h events failure
    → IsIndexed h
returned panics h events failure k e = cc
returned (returns h' events' failure') h events failure k e = ground (arith, k, e)

Step-IsIndexed : {h h' : Homebrew} → Step h h' → IsIndexed h → IsIndexed h'
unfolding send unlink_peer close
Step-IsIndexed {h} {h'} (receives env remote buf n ev f e) v =
    returned _ h' ev f (handle-Keeps env h remote buf n v) e
Step-IsIndexed {h} {h'} (ticks env ev f e) v =
    returned _ h' ev f (keepalive-Keeps env h.by_addr h v) e
Step-IsIndexed {h} {h'} (transmits env p ev f e) v =
    returned _ h' ev f (send_loop-Keeps env _ h.by_addr h v) e
Step-IsIndexed {h} {h'} (links env p ev f e) v = returned _ h' ev f (link_peer-Keeps env h p v) e
Step-IsIndexed {h} {h'} (unlinks id ev f e) v =
    returned (unlink_peer h id) h' ev f
      (option-Keeps (lookup id h.by_id) _ _ v (λ i known. unlink-IsIndexed h id v)) e
Step-IsIndexed {h} {h'} (closes env active ev f e) v =
    returned (close env active h) h' ev f
      (if-Keeps active _ _ (close_loop-Keeps env _ h.by_addr h v) v) e
Step-IsIndexed {h} {h'} (sets_callback present e) v = ground (arith, v, e)

-- However a package runs from `New` on, by datagrams, rounds of `keepalive`, frames that are sent, peers that
-- are linked and unlinked, a close and a change of the callback: every address of the one index leads to
-- a peer with that address, and every ID of the other to a peer with that ID.
pub Reach-IsIndexed : (id : ℕ) {h : Homebrew} → Reach (new id) h → IsIndexed h
unfolding new filed
Reach-IsIndexed id here = (refl, refl)
Reach-IsIndexed id (next r s) = Step-IsIndexed s (Reach-IsIndexed id r)

-- ===== src/Homebrew/Handle/Sound.antt =====
-- Every address and ID of the two indexes leads to a peer that has it: the operations that keep it so.
use go_dmr.Base.{
  ℕ, zero, suc, ◌≡◌, refl, ◌==◌, ==_refl, ◌&&◌, Bool, true, false, Option, none, some, List, [],
  ◌∷◌, ◌++◌, length, get_elem?, get_elem?-set_self, get_elem?-set_ne, lt_of_get_elem?, set, arith,
  if◌then◌else◌, Option-cases, if_holds, option_holds, inl, inr,
}
use go_dmr.Homebrew.Handle.Index.{get_elem?-last}
use native.Mathlib.Decide.{ℕ_discrete}
use go_dmr.Homebrew.State.{
  auth_failed, Peer, Env, Homebrew, Handled, returns, panics, store, write_to_peer, handle_auth,
  insert, delete, link, linked, unlink, update_token,
}
use go_dmr.Homebrew.Handle.{
  handshake, incoming_none, incoming_begin, outgoing_none, outgoing_begin, refused,
}

-- Every entry of an index leads to a peer with the entry's key.
unfoldable pub filed : (Peer → ℕ) → List (ℕ × ℕ) → List Peer → Bool
filed key [] heap = true
filed key ((k, i) ∷ index) heap =
    (elim (get_elem? heap i) [ none ↦ false | some p ↦ key p == k ]) && filed key index heap

abbrev pub address : Peer → ℕ
address p = p.addr

abbrev pub repeater_id : Peer → ℕ
repeater_id p = p.id

abbrev pub IsIndexed : Homebrew → Type 0
IsIndexed h = (filed address h.by_addr h.heap ≡ true) × (filed repeater_id h.by_id h.heap ≡ true)

-- A handler leaves sound indexes, unless it panics.
abbrev pub Keeps : Handled → Type 0
Keeps (returns h events failure) = IsIndexed h
Keeps panics = Unit

pub if-Keeps : (b : Bool) (r s : Handled) → Keeps r → Keeps s → Keeps (if b then r else s)
if-Keeps = if_holds Keeps

pub option-Keeps :
    {A : Type 0} (o : Option A) (r : Handled) (f : A → Handled)
    → Keeps r
    → ((a : A) → o ≡ some a → Keeps (f a))
    → Keeps (elim o [ none ↦ r | some a ↦ f a ])
option-Keeps o r f k = option_holds Keeps o r f (λ e. k)

-- A peer that is stored in place of another with the same address and ID.
filed-set :
    (key : Peer → ℕ) (index : List (ℕ × ℕ)) (heap : List Peer) (i : ℕ) (old q : Peer)
    → get_elem? heap i ≡ some old
    → key q ≡ key old
    → filed key index heap ≡ true
    → filed key index (set heap i q) ≡ true
unfolding filed
filed-set key [] heap i old q g e v = refl
filed-set key ((k, j) ∷ index) heap i old q g e v = elim (ℕ_discrete i j) [
  | yes same ↦ ground (
    arith,
    same,
    get_elem?-set_self heap i q (lt_of_get_elem? heap i g),
    filed-set key index heap i old q g e,
  )
  | no differ ↦
      ground (arith, get_elem?-set_ne heap i j q differ, filed-set key index heap i old q g e)
]

module _ (h : Homebrew) (i : ℕ) (old : Peer) (g : get_elem? h.heap i ≡ some old)
    (v : IsIndexed h) where
  pub store-IsIndexed : (q : Peer) → q.addr ≡ old.addr → q.id ≡ old.id → IsIndexed (store h i q)
  store-IsIndexed q a d = (
    filed-set address h.by_addr h.heap i old q g a v.0,
    filed-set repeater_id h.by_id h.heap i old q g d v.1,
  )

  pub auth-Keeps :
      (env : Env) (p : Peer) → p.addr ≡ old.addr → p.id ≡ old.id → Keeps (handle_auth env h i p)
  unfolding handle_auth write_to_peer
  auth-Keeps env p a d = grind (arith, store-IsIndexed)

  incoming_none-Keeps :
      (env : Env) (p : Peer) (buf : List ℕ)
      → p.addr ≡ old.addr
      → p.id ≡ old.id
      → Keeps (incoming_none env h i p buf)
  unfolding incoming_none write_to_peer update_token
  incoming_none-Keeps env p buf a d = grind (arith, store-IsIndexed)

  incoming_begin-Keeps :
      (env : Env) (p : Peer) (buf : List ℕ) (n : ℕ)
      → p.addr ≡ old.addr
      → p.id ≡ old.id
      → Keeps (incoming_begin env h i p buf n)
  unfolding incoming_begin write_to_peer
  incoming_begin-Keeps env p buf n a d = grind (arith, store-IsIndexed)

filed-delete :
    (key : Peer → ℕ) (k : ℕ) (index : List (ℕ × ℕ)) (heap : List Peer)
    → filed key index heap ≡ true
    → filed key (delete k index) heap ≡ true
unfolding filed delete
filed-delete key k [] heap v = refl
filed-delete key k ((j, i) ∷ index) heap v = ground (arith, filed-delete key k index heap)

filed-insert :
    (key : Peer → ℕ) (i : ℕ) (p : Peer) (index : List (ℕ × ℕ)) (heap : List Peer)
    → get_elem? heap i ≡ some p
    → filed key index heap ≡ true
    → filed key (insert (key p) i index) heap ≡ true
unfolding filed insert
filed-insert key i p [] heap g v = ground (arith, ==_refl (key p))
filed-insert key i p ((j, m) ∷ index) heap g v =
    ground (arith, ==_refl (key p), filed-insert key i p index heap g)

get_elem?-append :
    (heap : List Peer) (q p : Peer) (i : ℕ)
    → get_elem? heap i ≡ some p
    → get_elem? (heap ++ (q ∷ [])) i ≡ some p
get_elem?-append [] q p i g = cc
get_elem?-append (x ∷ heap) q p zero g = g
get_elem?-append (x ∷ heap) q p (suc i) g = get_elem?-append heap q p i g

filed-append :
    (key : Peer → ℕ) (index : List (ℕ × ℕ)) (heap : List Peer) (q : Peer)
    → filed key index heap ≡ true
    → filed key index (heap ++ (q ∷ [])) ≡ true
unfolding filed
filed-append key [] heap q v = refl
filed-append key ((k, i) ∷ index) heap q v = elim (Option-cases (get_elem? heap i)) [
  | inl gone ↦ ground (arith, gone)
  | inr (p, g) ↦ ground (arith, g, get_elem?-append heap q p i g, filed-append key index heap q)
]

-- `Unlink` and `Link` keep the indexes sound.
pub unlink-IsIndexed : (h : Homebrew) (id : ℕ) → IsIndexed h → IsIndexed (unlink h id)
unfolding unlink
unlink-IsIndexed h id v = grind (arith, filed-delete)

pub link-IsIndexed : (h : Homebrew) (p : Peer) → IsIndexed h → IsIndexed (link h p).0
unfolding link linked
link-IsIndexed h p v =
    let last = get_elem?-last h.heap (linked p) in
    (
      filed-insert address (length h.heap) (linked p) h.by_addr _ last
          (filed-append address h.by_addr h.heap (linked p) v.0),
      filed-insert repeater_id (length h.heap) (linked p) h.by_id _ last
          (filed-append repeater_id h.by_id h.heap (linked p) v.1),
    )

module _ (h : Homebrew) (i : ℕ) (old : Peer) (g : get_elem? h.heap i ≡ some old)
    (v : IsIndexed h) where
  refused-Keeps : (p : Peer) → p.addr ≡ old.addr → p.id ≡ old.id → Keeps (refused h i p)
  unfolding refused
  refused-Keeps p a d =
      let q = record p { status = auth_failed } in
      let kept = store-IsIndexed h i old g v q a d in
      ground (arith, kept, unlink-IsIndexed (store h i q) p.id kept)

  outgoing_none-Keeps :
      (env : Env) (p : Peer) (buf : List ℕ)
      → p.addr ≡ old.addr
      → p.id ≡ old.id
      → Keeps (outgoing_none env h i p buf)
  unfolding outgoing_none update_token
  outgoing_none-Keeps env p buf a d =
      grind (arith, store-IsIndexed h i old g v, auth-Keeps h i old g v, refused-Keeps)

  outgoing_begin-Keeps :
      (env : Env) (p : Peer) (buf : List ℕ)
      → p.addr ≡ old.addr
      → p.id ≡ old.id
      → Keeps (outgoing_begin env h i p buf)
  unfolding outgoing_begin write_to_peer
  outgoing_begin-Keeps env p buf a d = grind (arith, store-IsIndexed h i old g v, refused-Keeps)

  pub handshake-Keeps :
      (env : Env) (p : Peer) (buf : List ℕ) (n : ℕ)
      → p.addr ≡ old.addr
      → p.id ≡ old.id
      → Keeps (handshake env h i p buf n)
  unfolding handshake
  handshake-Keeps env p buf n a d = grind (
    arith,
    store-IsIndexed h i old g v,
    outgoing_begin-Keeps,
    outgoing_none-Keeps,
    incoming_none-Keeps h i old g v,
    incoming_begin-Keeps h i old g v,
  )

-- ===== src/Terminal/Invariant.antt =====
-- What every packet keeps of the state of a terminal, and what it is to keep it.
pub mod Calls
pub mod Data
pub mod DataFrames
pub mod Voice
pub mod Packets
use go_dmr.Base.{
  ℕ, zero, suc, ◌+◌, ◌*◌, ◌≤◌, ◌<◌, ◌≡◌, ◌≢◌, refl, sym, ap, ◌∙◌, ltb, Bool, Bool-cases, true,
  false, inl, inr, if◌then◌else◌, Option, none, some, List, [], ◌∷◌, length, length-set, get_elem?,
  get_elem?-eq-some, get_elem?-set_self, set, All, arith,
}
use mathlib.Core.Path.{subst}
use go_dmr.Base.Outcome.{Outcome, ok, err, panic, or_panic}
use go_dmr.Dmr.Packet.{Packet, info_bits}
use go_dmr.Dmr.DataBlock.{DataBlock}
use go_dmr.Vbptc.{new}
use go_dmr.Vbptc.Shape.{Shape, new-Shape}
use go_dmr.Terminal.{Slot, Terminal, Event, idle, new_slot, new_terminal}
use go_dmr.Terminal.Action.{
  Error, Action, next, ◌>>=◌, done, when, current, call, relabel, slot_of, put_slot, set_state,
  emit, need, read_info_bits,
}

-- A block that was received: of rate 3/4, with sixteen bytes or eighteen.
abbrev pub IsReceived : Option DataBlock → Type 0
IsReceived none = Unit {0}
IsReceived (some b) = (b.is_ok ≡ true) × (16 ≤ b.size)

pub record SlotOk (s : Slot) : Type 0 where
  pub sized : length s.blocks ≡ s.full_message_blocks
  pub received : All IsReceived s.blocks
  pub shape : Shape s.embedded_signalling

pub record Inv (t : Terminal) : Type 0 where
  pub three : length t.slots ≡ 3
  pub slots_ok : All SlotOk t.slots
  pub known_state : t.state < 3

-- A frame of one of the slots, with all its bits.
pub record IsFrame (p : Packet) : Type 0 where
  pub timeslot-lt : p.timeslot < 3
  pub size : 264 ≤ length p.bits

pub new_slot-SlotOk : SlotOk new_slot
unfolding new_slot
new_slot-SlotOk = record { sized = refl; received = tt; shape = new-Shape }

pub new_terminal-Inv : (id : ℕ) → Inv (new_terminal id)
unfolding new_terminal
new_terminal-Inv id = record {
  three = refl;
  slots_ok = (new_slot-SlotOk, (new_slot-SlotOk, (new_slot-SlotOk, tt)));
  known_state = omega arith;
}

module _ {A : Type 0} (P : A → Type 0) where
  pub All-get_elem? : (xs : List A) (i : ℕ) (x : A) → All P xs → get_elem? xs i ≡ some x → P x
  All-get_elem? [] i x h e = cc
  All-get_elem? (y ∷ xs) zero x h e = subst P (grind (arith, e)) h.0
  All-get_elem? (y ∷ xs) (suc i) x h e = All-get_elem? xs i x h.1 e

  pub All-set : (xs : List A) (i : ℕ) (v : A) → All P xs → P v → All P (set xs i v)
  All-set [] i v h k = tt
  All-set (x ∷ xs) zero v h k = (k, h.1)
  All-set (x ∷ xs) (suc i) v h k = (h.0, All-set xs i v h.1 k)

pub put-Inv :
    (t : Terminal) (i : ℕ) (s : Slot)
    → Inv t
    → SlotOk s
    → Inv (record t { slots = set t.slots i s })
put-Inv t i s h k = record {
  three = length-set t.slots i s ∙ h.three;
  slots_ok = All-set SlotOk t.slots i s h.slots_ok k;
  known_state = h.known_state;
}

-- `C` is what makes up for a panic.
module _ (C : Type 0) {A : Type 0} where
  unfoldable pub Good : (A → Terminal → Type 0) → Outcome Error A × Terminal → Type 0
  Good Q (ok a, t) = Q a t
  Good Q (err e, t) = Inv t
  Good Q (panic, t) = C

-- The action leaves a terminal with the invariant.
abbrev pub Kept : {A : Type 0} → A → Terminal → Type 0
Kept a t = Inv t

abbrev pub Keeps : Type 0 → {A : Type 0} → Outcome Error A × Terminal → Type 0
Keeps C r = Good C Kept r

module _ (C : Type 0) {A B : Type 0} (Q : B → Terminal → Type 0) where
  pub Good-next :
      (P : A → Terminal → Type 0) (r : Outcome Error A × Terminal) (f : A → Action B)
      → Good C P r
      → ((a : A) (t : Terminal) → P a t → Good C Q (f a t))
      → Good C Q (next r f)
  unfolding Good next
  Good-next P (ok a, t) f h k = k a t h
  Good-next P (err e, t) f h k = h
  Good-next P (panic, t) f h k = h

module _ (C : Type 0) {E A B : Type 0} (Q : B → Terminal → Type 0) (t : Terminal) (h : Inv t) where
  pub Good-call :
      (g : E → Error) (r : Outcome E A) (f : A → Action B)
      → r ≢ panic
      → ((a : A) → r ≡ ok a → Good C Q (f a t))
      → Good C Q (next (call g r t) f)
  unfolding Good next call
  Good-call g (ok a) f s k = k a refl
  Good-call g (err e) f s k = h
  Good-call g panic f s k = absurd (s refl)

  -- A call that may panic.
  pub Good-risky_call :
      (g : E → Error) (r : Outcome E A) (f : A → Action B)
      → ((r ≡ panic) → C)
      → ((a : A) → r ≡ ok a → Good C Q (f a t))
      → Good C Q (next (call g r t) f)
  unfolding Good next call
  Good-risky_call g (ok a) f s k = k a refl
  Good-risky_call g (err e) f s k = h
  Good-risky_call g panic f s k = s refl

module _ (C : Type 0) {B : Type 0} (Q : B → Terminal → Type 0) (t : Terminal) (h : Inv t)
    (p : Packet) (frame : IsFrame p) where
  pub Good-slot_of :
      (f : Slot → Action B)
      → ((s : Slot) → get_elem? t.slots p.timeslot ≡ some s → SlotOk s → Good C Q (f s t))
      → Good C Q (next (slot_of p t) f)
  unfolding slot_of next
  Good-slot_of f k =
      let (s, e) =
        get_elem?-eq-some t.slots p.timeslot (omega (arith, h.three, frame.timeslot-lt)) in
      rw e (k s e (All-get_elem? SlotOk t.slots p.timeslot s h.slots_ok e))

  pub Good-put_slot :
      (s : Slot) (f : Unit {0} → Action B)
      → SlotOk s
      → ((t' : Terminal) → Inv t' → get_elem? t'.slots p.timeslot ≡ some s → Good C Q (f tt t'))
      → Good C Q (next (put_slot p s t) f)
  unfolding put_slot next
  Good-put_slot s f k g =
      g (record t { slots = set t.slots p.timeslot s }) (put-Inv t p.timeslot s h k)
        (get_elem?-set_self t.slots p.timeslot s (omega (arith, h.three, frame.timeslot-lt)))

  pub Good-read_info_bits :
      (f : List ℕ → Action B)
      → Good C Q (f (info_bits p) t)
      → Good C Q (next (read_info_bits p t) f)
  unfolding read_info_bits need next
  Good-read_info_bits f k =
      let long : ltb (length p.bits) 166 ≡ false = ground (arith, frame.size) in rw long k

-- The ends of an action.
pub Good-ok :
    (C : Type 0) {A : Type 0} (Q : A → Terminal → Type 0) (a : A) (t : Terminal)
    → Q a t
    → Good C Q (ok a, t)
unfolding Good
Good-ok C Q a t h = h

pub Good-err :
    (C : Type 0) {A : Type 0} (Q : A → Terminal → Type 0) (e : Error) (t : Terminal)
    → Inv t
    → Good C Q (err e, t)
unfolding Good
Good-err C Q e t h = h

pub Keeps-if :
    (C : Type 0) (b : Bool) (m : Action (Unit {0})) (t : Terminal)
    → Inv t
    → ((b ≡ true) → Keeps C (m t))
    → Keeps C (when b m t)
unfolding when
Keeps-if C true m t h k = k refl
Keeps-if C false m t h k = Good-ok C Kept tt t h

pub Good-if :
    (C : Type 0) {A : Type 0} (Q : A → Terminal → Type 0) (b : Bool) (m n : Action A) (t : Terminal)
    → ((b ≡ true) → Good C Q (m t))
    → ((b ≡ false) → Good C Q (n t))
    → Good C Q ((if b then m else n) t)
Good-if C Q true m n t f g = f refl
Good-if C Q false m n t f g = g refl

pub Good-current :
    (C : Type 0) {B : Type 0} (Q : B → Terminal → Type 0) (t : Terminal) (f : Terminal → Action B)
    → Good C Q (f t t)
    → Good C Q (next (current t) f)
unfolding current next
Good-current C Q t f h = h

-- A slot is stored last.
pub Keeps-put_slot :
    (C : Type 0) (p : Packet) (t : Terminal) (s : Slot)
    → Inv t
    → SlotOk s
    → Keeps C (put_slot p s t)
unfolding put_slot
Keeps-put_slot C p t s h k = Good-ok C Kept tt _ (put-Inv t p.timeslot s h k)

pub Keeps-emit : (C : Type 0) (e : Event) (t : Terminal) → Inv t → Keeps C (emit e t)
unfolding emit
Keeps-emit C e t h =
    Good-ok C Kept tt _
      (record { three = h.three; slots_ok = h.slots_ok; known_state = h.known_state })

-- A call is made last.
pub Good-last_call :
    (C : Type 0) {E A : Type 0} (Q : A → Terminal → Type 0) (t : Terminal) (g : E → Error)
    (r : Outcome E A)
    → Inv t
    → r ≢ panic
    → ((a : A) → r ≡ ok a → Q a t)
    → Good C Q (call g r t)
unfolding Good call
Good-last_call C Q t g (ok a) h s k = k a refl
Good-last_call C Q t g (err e) h s k = h
Good-last_call C Q t g panic h s k = absurd (s refl)

pub Good-need :
    (C : Type 0) {B : Type 0} (Q : B → Terminal → Type 0) (n : ℕ) (p : Packet) (t : Terminal)
    (f : Unit {0} → Action B)
    → IsFrame p
    → n ≤ 264
    → Good C Q (f tt t)
    → Good C Q (next (need n p t) f)
unfolding need next
Good-need C Q n p t f frame h k =
    let long : ltb (length p.bits) n ≡ false = ground (arith, frame.size, h) in rw long k

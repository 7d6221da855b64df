-- ===== src/Terminal/Calls.antt =====
-- What ends a call.
use go_dmr.Base.{ℕ, ◌≡◌, refl, ap, ◌∙◌, some, ◌⊎◌, inl, inr, get_elem?, get_elem?-eq-some, arith}
use go_dmr.Base.Outcome.{Outcome, ok, err, panic}
use go_dmr.Dmr.Packet.{Packet, terminator_with_lc}
use go_dmr.Dmr.MessageData.{Codec}
use go_dmr.Terminal.{Slot, Terminal, idle}
use go_dmr.Terminal.Action.{
  Error, of_bptc, of_full_lc, of_control_block, Action, next, current, call, slot_of, put_slot,
  set_state, need, read_info_bits, call_end, data_call_end, voice_call_end,
}
use go_dmr.Terminal.VoiceCall.{read_full_lc}
use go_dmr.Terminal.Dispatch.{
  csbk, handle_control_block, handle_terminator_with_lc, no_error, handle_packet,
}
use go_dmr.Terminal.Invariant.{Inv, IsFrame, Good, Keeps}
use go_dmr.Terminal.Invariant.Packets.{handle_terminator-Keeps}

call_end-state : (p : Packet) (t : Terminal) → IsFrame p → Inv t → (call_end p t).1.state ≡ idle
unfolding call_end data_call_end voice_call_end slot_of put_slot set_state current next
call_end-state p t frame h =
    let (s, found) =
      get_elem?-eq-some t.slots p.timeslot (omega (arith, h.three, frame.timeslot-lt)) in
    ground (arith, found, h.known_state)

-- An action behind which no call is active.
next-state :
    {A B : Type 0} (n : ℕ) (r : Outcome Error A × Terminal) (f : A → Action B)
    → r.1.state ≡ n
    → ((a : A) (t : Terminal) → t.state ≡ n → (f a t).1.state ≡ n)
    → (next r f).1.state ≡ n
unfolding next
next-state n (ok a, t) f h k = k a t h
next-state n (err e, t) f h k = h
next-state n (panic, t) f h k = h

call-state :
    {E A B : Type 0} (n : ℕ) (g : E → Error) (r : Outcome E A) (f : A → Action B) (t : Terminal)
    → t.state ≡ n
    → ((a : A) → (f a t).1.state ≡ n)
    → (next (call g r t) f).1.state ≡ n
unfolding next call
call-state n g (ok a) f t h k = k a
call-state n g (err e) f t h k = h
call-state n g panic f t h k = h

last_call-state :
    {E A : Type 0} (n : ℕ) (g : E → Error) (r : Outcome E A) (t : Terminal)
    → t.state ≡ n
    → (call g r t).1.state ≡ n
unfolding call
last_call-state n g r t h = h

read_info_bits-state :
    (n : ℕ) (p : Packet) (t : Terminal) → t.state ≡ n → (read_info_bits p t).1.state ≡ n
unfolding read_info_bits need next
read_info_bits-state n p t h = ground arith

next-slot_of :
    {B : Type 0} (p : Packet) (t : Terminal) (s : Slot) (f : Slot → Action B)
    → get_elem? t.slots p.timeslot ≡ some s
    → next (slot_of p t) f ≡ f s t
unfolding next slot_of
next-slot_of p t s f e = rw e refl

handle_control_block-state :
    (p : Packet) (t : Terminal) → IsFrame p → Inv t → (handle_control_block p t).1.state ≡ idle
unfolding handle_control_block
handle_control_block-state p t frame h =
    let (s, found) =
      get_elem?-eq-some t.slots p.timeslot (omega (arith, h.three, frame.timeslot-lt)) in
    ap (λ (r : Outcome Error (Unit {0}) × Terminal). r.1.state) (next-slot_of p t s _ found)
    ∙ next-state idle _ _ (call_end-state p t frame h) (λ _ t1 h1.
      next-state idle _ _ (read_info_bits-state idle p t1 h1) (λ bits t2 h2.
        call-state idle of_bptc _ _ t2 h2
          (λ bytes. call-state idle of_control_block _ _ t2 h2 (λ cb. h2))))

read_full_lc-state :
    (n mask : ℕ) (p : Packet) (t : Terminal) → t.state ≡ n → (read_full_lc mask p t).1.state ≡ n
unfolding read_full_lc
read_full_lc-state n mask p t h =
    next-state n _ _ (read_info_bits-state n p t h)
      (λ bits t' h'. call-state n of_bptc _ _ t' h' (λ bytes. last_call-state n of_full_lc _ t' h'))

handle_terminator-state :
    (p : Packet) (t : Terminal) → IsFrame p → Inv t → (handle_terminator_with_lc p t).1.state ≡ idle
unfolding handle_terminator_with_lc
handle_terminator-state p t frame h =
    next-state idle _ _ (call_end-state p t frame h)
      (λ _ t1 h1. next-state idle _ _ (read_full_lc-state idle 0x99 p t1 h1) (λ lc t2 h2. h2))

no_error-state : (r : Outcome Error (Unit {0}) × Terminal) → (no_error r).1 ≡ r.1
no_error-state (ok u, t) = refl
no_error-state (err e, t) = refl
no_error-state (panic, t) = refl

-- For a frame of one of the slots that is a control block or a terminator, where the invariant holds: no
-- call is active afterwards on any slot, also when the frame's content is refused.
pub handle_packet_ends_calls :
    (codecs : ℕ → Codec) (p : Packet) (t : Terminal)
    → IsFrame p
    → Inv t
    → (p.data_type ≡ csbk) ⊎ (p.data_type ≡ terminator_with_lc)
    → (handle_packet codecs p t).1.state ≡ idle
unfolding handle_packet
handle_packet_ends_calls codecs p t frame h (inl block) =
    let ended = handle_control_block-state p t frame h in ground (arith, block, ended)
handle_packet_ends_calls codecs p t frame h (inr end) =
    let ended = handle_terminator-state p t frame h in
    let same = no_error-state (handle_terminator_with_lc p t) in
    ground (arith, end, ap (λ (u : Terminal). u.state) same ∙ ended)

no_error-ok : (r : Outcome Error (Unit {0}) × Terminal) → Keeps ⊥ r → (no_error r).0 ≡ ok tt
unfolding Good
no_error-ok (ok u, t) h = refl
no_error-ok (err e, t) h = refl
no_error-ok (panic, t) h = absurd h

-- For a terminator of one of the slots, where the invariant holds: `handlePacket` returns no error, whatever
-- the frame's bits are.
pub handle_packet_terminator :
    (codecs : ℕ → Codec) (p : Packet) (t : Terminal)
    → IsFrame p
    → Inv t
    → p.data_type ≡ terminator_with_lc
    → (handle_packet codecs p t).0 ≡ ok tt
unfolding handle_packet
handle_packet_terminator codecs p t frame h end =
    let fine =
      no_error-ok (handle_terminator_with_lc p t) (handle_terminator-Keeps ⊥ p frame t h) in
    ground (arith, end, fine)

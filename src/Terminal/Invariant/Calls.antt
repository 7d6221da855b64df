-- ===== src/Terminal/Invariant/Calls.antt =====
-- The start and the end of calls keep the invariant and never panic, for a frame of one of the slots.
use go_dmr.Base.{ℕ, ◌<◌, ◌==◌, not, false, arith}
use go_dmr.Dmr.Packet.{Packet}
use go_dmr.Terminal.{Slot, Terminal, idle, data_call_active, voice_call_active}
use go_dmr.Terminal.Action.{
  next, ◌>>◌, put_slot, set_state, data_call_end, voice_call_end, call_end, data_call_start,
  voice_call_start,
}
use go_dmr.Terminal.Invariant.{
  SlotOk, Inv, IsFrame, put-Inv, Keeps, Good-next, Good-slot_of, Good-ok, Good-if, Good-current,
  Kept, Keeps-if,
}

state-Inv : (t : Terminal) (n : ℕ) → n < 3 → Inv t → Inv (record t { state = n })
state-Inv t n h k = record { three = k.three; slots_ok = k.slots_ok; known_state = h }

module _ (C : Type 0) (p : Packet) (frame : IsFrame p) where
  -- A slot stored and a state entered.
  stored :
      (t : Terminal) (s : Slot) (n : ℕ)
      → n < 3
      → Inv t
      → SlotOk s
      → Keeps C ((put_slot p s >> set_state n) t)
  unfolding put_slot set_state next
  stored t s n lt h k = Good-ok C Kept tt _ (state-Inv _ n lt (put-Inv t p.timeslot s h k))

  pub data_call_end-Keeps : (t : Terminal) → Inv t → Keeps C (data_call_end p t)
  unfolding data_call_end
  data_call_end-Keeps t h = Good-slot_of C Kept t h p frame _ (λ s e k. Good-current C Kept t _ (
      Good-if C Kept (not (t.state == data_call_active)) _ _ t (λ _. Good-ok C Kept tt t h)
        (λ _.
          stored t (record s { packet_header_valid = false }) idle (omega arith) h
            (record { sized = k.sized; received = k.received; shape = k.shape }))))

  pub voice_call_end-Keeps : (t : Terminal) → Inv t → Keeps C (voice_call_end p t)
  unfolding voice_call_end
  voice_call_end-Keeps t h = Good-slot_of C Kept t h p frame _ (λ s e k. Good-current C Kept t _ (
      Good-if C Kept (not (t.state == voice_call_active)) _ _ t (λ _. Good-ok C Kept tt t h)
        (λ _.
          stored t (record s { stream_id = 0 }) idle (omega arith) h
            (record { sized = k.sized; received = k.received; shape = k.shape }))))

  pub call_end-Keeps : (t : Terminal) → Inv t → Keeps C (call_end p t)
  unfolding call_end
  call_end-Keeps t h = Good-current C Kept t _ (
      Good-if C Kept (t.state == data_call_active) _ _ t (λ _. data_call_end-Keeps t h)
        (λ _.
          Good-if C Kept (t.state == voice_call_active) _ _ t (λ _. voice_call_end-Keeps t h)
            (λ _. Good-ok C Kept tt t h)))

  pub data_call_start-Keeps : (t : Terminal) → Inv t → Keeps C (data_call_start p t)
  unfolding data_call_start
  data_call_start-Keeps t h = Good-slot_of C Kept t h p frame _ (λ old e k.
      Good-current C Kept t _ (
        Good-next C Kept Kept _ _
          (Keeps-if C _ _ t h (λ _. Keeps-if C _ _ t h (λ _. data_call_end-Keeps t h)))
          (λ u t' h'. Good-slot_of C Kept t' h' p frame _ (λ s e' k'.
            stored t'
              (record s { packet_header_valid = false; dst_id = p.dst_id; src_id = p.src_id })
              data_call_active (omega arith) h'
              (record { sized = k'.sized; received = k'.received; shape = k'.shape })))))

  pub voice_call_start-Keeps : (t : Terminal) → Inv t → Keeps C (voice_call_start p t)
  unfolding voice_call_start
  voice_call_start-Keeps t h = Good-slot_of C Kept t h p frame _ (λ old e k.
      Good-next C Kept Kept _ _ (Keeps-if C _ _ t h (λ _. voice_call_end-Keeps t h)) (λ u t' h'.
        Good-slot_of C Kept t' h' p frame _ (λ s e' k'.
          stored t' (record s { stream_id = p.stream_id }) voice_call_active (omega arith) h'
            (record { sized = k'.sized; received = k'.received; shape = k'.shape }))))

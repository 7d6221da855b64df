-- ===== src/Terminal/Invariant/Packets.antt =====
-- Every packet keeps the invariant, and which packets make the terminal panic.
use go_dmr.Base.{ℕ, ◌≡◌, refl, leb, ◌==◌, ◌&&◌, Bool, true, false, if◌then◌else◌, zeros, arith}
use go_dmr.Base.Outcome.{Outcome, ok, err, panic}
use go_dmr.Dmr.Packet.{
  Packet, info_bits, voice_lc, terminator_with_lc, voice_burst_a, voice_burst_f,
}
use go_dmr.Dmr.DataBlock.{data_type_data, rate34_data}
use go_dmr.Dmr.ControlBlock.{parse_control_block-ne-panic}
use go_dmr.Dmr.MessageData.{Codec}
use go_dmr.Bptc.Total.{decode-ne-panic}
use go_dmr.Terminal.{Terminal}
use go_dmr.Terminal.Action.{Error, of_bptc, of_control_block}
use go_dmr.Terminal.Dispatch.{
  csbk, handle_control_block, handle_terminator_with_lc, no_error, handle_packet,
}
use go_dmr.Terminal.Invariant.{
  Inv, IsFrame, Good, Kept, Keeps, Good-next, Good-call, Good-slot_of, Good-read_info_bits, Good-ok,
}
use go_dmr.Terminal.Invariant.Calls.{call_end-Keeps}
use go_dmr.Terminal.Invariant.DataFrames.{SlotExcess, handle_rate34_data-Keeps, handle_data-Keeps}
use go_dmr.Terminal.Invariant.Voice.{
  HighColor, handle_voice-Keeps, read_full_lc-Keeps, handle_voice_lc-Keeps,
}

module _ (C : Type 0) (p : Packet) (frame : IsFrame p) where
  handle_control_block-Keeps : (t : Terminal) → Inv t → Keeps C (handle_control_block p t)
  unfolding handle_control_block
  handle_control_block-Keeps t h = Good-slot_of C Kept t h p frame _ (λ s e k.
      Good-next C Kept Kept _ _ (call_end-Keeps C p frame t h) (λ _ t1 h1.
        Good-read_info_bits C Kept t1 h1 p frame _ (
          Good-call C Kept t1 h1 of_bptc _ _ (decode-ne-panic (info_bits p) (zeros 12)) (λ bytes eb.
            Good-call C Kept t1 h1 of_control_block _ _ (parse_control_block-ne-panic bytes)
              (λ cb ec. Good-ok C Kept tt t1 h1)))))

  pub handle_terminator-Keeps : (t : Terminal) → Inv t → Keeps C (handle_terminator_with_lc p t)
  unfolding handle_terminator_with_lc
  handle_terminator-Keeps t h = Good-next C Kept Kept _ _ (call_end-Keeps C p frame t h) (λ _ t1 h1.
      Good-next C Kept Kept _ _ (read_full_lc-Keeps C p frame 0x99 t1 h1)
        (λ lc t2 h2. Good-ok C Kept tt t2 h2))

no_error-Keeps :
    (C : Type 0) (r : Outcome Error (Unit {0}) × Terminal) → Keeps C r → Keeps C (no_error r)
unfolding Good
no_error-Keeps C (ok u, t) h = h
no_error-Keeps C (err e, t) h = h
no_error-Keeps C (panic, t) h = h

Keeps-branch :
    (C : Type 0) (b : Bool) (x y : Outcome Error (Unit {0}) × Terminal)
    → ((b ≡ true) → Keeps C x)
    → Keeps C y
    → Keeps C (if b then x else y)
Keeps-branch C true x y f g = f refl
Keeps-branch C false x y f g = g

module _ (codecs : ℕ → Codec) (C : Type 0) (p : Packet) (frame : IsFrame p) where
  pub handle_packet-Keeps :
      (t : Terminal)
      → Inv t
      → ((p.data_type ≡ rate34_data) → SlotExcess codecs C p frame t)
      → (HighColor p → C)
      → Keeps C (handle_packet codecs p t)
  unfolding handle_packet
  handle_packet-Keeps t h excess high =
      Keeps-branch C (p.data_type == csbk) _ _ (λ _. handle_control_block-Keeps C p frame t h)
        (Keeps-branch C (p.data_type == data_type_data) _ _ (λ _. handle_data-Keeps C p frame t h)
          (Keeps-branch C (p.data_type == rate34_data) _ _
            (λ e. handle_rate34_data-Keeps codecs C p frame t h (excess (ground (arith, e))))
            (Keeps-branch C (leb voice_burst_a p.data_type && leb p.data_type voice_burst_f) _ _
              (λ _. handle_voice-Keeps C p frame t h high)
              (Keeps-branch C (p.data_type == voice_lc) _ _
                (λ _. handle_voice_lc-Keeps C p frame t h)
                (Keeps-branch C (p.data_type == terminator_with_lc) _ _
                  (λ _. no_error-Keeps C _ (handle_terminator-Keeps C p frame t h))
                  (Good-ok C Kept tt t h))))))

-- ===== src/Terminal/Invariant/Voice.antt =====
-- Voice frames keep the invariant. One panics only where it has no sync pattern and its first EMB bit is set.
use go_dmr.Base.{
  ℕ, ◌≡◌, sym, ◌∙◌, ◌==◌, Bool-cases, inl, inr, Option, none, some, List, length, length-set,
  get_or, set, zeros, bit_xor, arith,
}
use go_dmr.Base.Outcome.{panic}
use go_dmr.Dmr.Bits.{bits_to_bytes}
use go_dmr.Dmr.Packet.{Packet, info_bits, sync_bits, voice_bits}
use go_dmr.Dmr.Sync.{sync_pattern}
use go_dmr.Dmr.Voice.{parse_emb, check_lc}
use go_dmr.Dmr.Voice.Total.{
  parse_emb-ne-panic, parse_emb_bits-ne-panic, parse_emb_bits-first, parse_signalling-ne-panic,
  deinterleave-ne-panic,
}
use go_dmr.Vbptc
use go_dmr.Vbptc.{Vbptc, clear, add_burst, check_and_repair, get_data}
use go_dmr.Vbptc.Shape.{
  Shape, clear-Shape, add_burst-ne-panic, add_burst-Shape, check_and_repair-Shape, get_data-eq-ok,
}
use go_dmr.Lc.Message.{parse_lc-ne-panic}
use go_dmr.Lc.Message.Full.{parse_full_lc-ne-panic}
use go_dmr.Bptc.Total.{decode-ne-panic, length-decode}
use go_dmr.Terminal.{Terminal, voice_call_active, voice_frame}
use go_dmr.Terminal.Action.{checksum_failed, of_bptc, of_vbptc, of_lc, of_full_lc, of_voice}
use go_dmr.Terminal.VoiceCall.{
  unknown_pattern, put_signalling, add_fragment, report, repair, read_signalling, handle_fragment,
  hand_on, handle_emb, handle_frame, handle_voice, unmask, read_full_lc, handle_voice_lc,
}
use go_dmr.Terminal.Invariant.{
  Inv, IsFrame, Kept, Keeps, Good-next, Good-call, Good-risky_call, Good-last_call, Good-slot_of,
  Good-read_info_bits, Good-ok, Good-err, Good-if, Good-current, Good-need, Keeps-if,
  Keeps-put_slot, Keeps-emit,
}
use go_dmr.Terminal.Invariant.Calls.{voice_call_start-Keeps}

module _ (C : Type 0) (p : Packet) (frame : IsFrame p) where
  put_signalling-Keeps :
      (v : Vbptc) (t : Terminal) → Inv t → Shape v → Keeps C (put_signalling p v t)
  unfolding put_signalling
  put_signalling-Keeps v t h shape = Good-slot_of C Kept t h p frame _ (λ s e k.
      Keeps-put_slot C p t (record s { embedded_signalling = v }) h
        (record { sized = k.sized; received = k.received; shape = shape }))

  add_fragment-Keeps : (sync : List ℕ) (t : Terminal) → Inv t → Keeps C (add_fragment p sync t)
  unfolding add_fragment
  add_fragment-Keeps sync t h =
      Good-call C Kept t h of_voice _ _ (parse_signalling-ne-panic sync) (λ frag ef.
        Good-slot_of C Kept t h p frame _ (λ s e k.
          Good-call C Kept t h of_vbptc _ _ (add_burst-ne-panic frag s.embedded_signalling k.shape)
            (λ added ea.
              put_signalling-Keeps added t h
                (add_burst-Shape frag s.embedded_signalling added k.shape ea))))

  report-Keeps : (o : Option Vbptc.Error) (t : Terminal) → Inv t → Keeps C (report o t)
  unfolding report
  report-Keeps none t h = Good-ok C Kept tt t h
  report-Keeps (some e) t h = Good-err C Kept (of_vbptc e) t h

  repair-Keeps : (t : Terminal) → Inv t → Keeps C (repair p t)
  unfolding repair
  repair-Keeps t h = Good-slot_of C Kept t h p frame _ (λ s e k.
      Good-next C Kept Kept _ _
        (put_signalling-Keeps (check_and_repair s.embedded_signalling).0 t h
          (check_and_repair-Shape s.embedded_signalling k.shape))
        (λ _ t' h'. report-Keeps (check_and_repair s.embedded_signalling).1 t' h'))

  read_signalling-Keeps : (t : Terminal) → Inv t → Keeps C (read_signalling p t)
  unfolding read_signalling
  read_signalling-Keeps t h = Good-next C Kept Kept _ _ (repair-Keeps t h) (λ _ t1 h1.
      Good-slot_of C Kept t1 h1 p frame _ (λ s e k.
        let (out, got, size) = get_data-eq-ok s.embedded_signalling k.shape in
        Good-call C Kept t1 h1 of_vbptc _ _ (λ q. ground (arith, got, q))
          (λ signalling es.
            Good-call C Kept t1 h1 of_voice _ _ (deinterleave-ne-panic signalling) (λ eslc el.
              Good-next C Kept Kept _ _
                (Good-if C Kept (check_lc eslc) _ _ t1 (λ _. Good-ok C Kept tt t1 h1)
                  (λ _. Good-err C Kept checksum_failed t1 h1))
                (λ _ t2 h2.
                  Good-last_call C Kept t2 of_lc _ h2 (parse_lc-ne-panic (bits_to_bytes eslc.bits))
                    (λ lc ec. h2))))))

  handle_fragment-Keeps :
      (sync : List ℕ) (lcss : ℕ) (t : Terminal) → Inv t → Keeps C (handle_fragment p sync lcss t)
  unfolding handle_fragment
  handle_fragment-Keeps sync lcss t h = Good-slot_of C Kept t h p frame _ (λ s e k.
      Good-next C Kept Kept _ _
        (Keeps-if C _ _ t h (λ _.
          put_signalling-Keeps (clear s.embedded_signalling) t h
            (clear-Shape s.embedded_signalling k.shape)))
        (λ _ t1 h1.
          Good-next C Kept Kept _ _ (Keeps-if C _ _ t1 h1 (λ _. add_fragment-Keeps sync t1 h1))
            (λ _ t2 h2. Keeps-if C _ _ t2 h2 (λ _.
              Good-next C Kept Kept _ _ (read_signalling-Keeps t2 h2)
                (λ lc t3 h3. Good-ok C Kept tt t3 h3)))))

  hand_on-Keeps : (t : Terminal) → Inv t → Keeps C (hand_on p t)
  unfolding hand_on
  hand_on-Keeps t h = Good-current C Kept t _ (
      Keeps-if C _ _ t h (λ _.
        Good-need C Kept 156 p t _ frame (omega arith)
          (Keeps-emit C (voice_frame (voice_bits p)) t h)))

-- The field is EMB, and the highest bit of its color code is set.
abbrev pub HighColor : Packet → Type 0
HighColor p = (sync_pattern (sync_bits p) ≡ unknown_pattern) × (get_or (sync_bits p) 0 0 ≡ 1)

parse_emb-panic : (bits : List ℕ) → parse_emb bits ≡ panic → get_or bits 0 0 ≡ 1
parse_emb-panic bits e = elim (Bool-cases (get_or bits 0 0 == 1)) [
  | inl one ↦ ground (arith, one)
  | inr other ↦ absurd (parse_emb-ne-panic bits (λ q. ground (arith, other, q)) e)
]

unmask-size : (mask : ℕ) (bytes : List ℕ) → length (unmask mask bytes) ≡ length bytes
unfolding unmask
unmask-size mask bytes =
    let flip : List ℕ → ℕ → List ℕ = λ b i. set b i (bit_xor (get_or b i 0) mask) in
    length-set (flip (flip bytes 9) 10) 11 _ ∙ length-set (flip bytes 9) 10 _ ∙ length-set bytes 9 _

module _ (C : Type 0) (p : Packet) (frame : IsFrame p) where
  handle_emb-Keeps :
      (sync : List ℕ) (t : Terminal)
      → Inv t
      → ((get_or sync 0 0 ≡ 1) → C)
      → Keeps C (handle_emb p sync t)
  unfolding handle_emb
  handle_emb-Keeps sync t h high =
      Good-call C Kept t h of_voice _ _ (parse_emb_bits-ne-panic sync) (λ bits eb.
        Good-risky_call C Kept t h of_voice _ _
          (λ q. high (sym (parse_emb_bits-first sync bits eb) ∙ parse_emb-panic bits q))
          (λ emb ee. Keeps-if C _ _ t h (λ _.
            Good-next C Kept Kept _ _ (handle_fragment-Keeps C p frame sync emb.lcss t h)
              (λ _ t' h'. hand_on-Keeps C p frame t' h'))))

  handle_frame-Keeps : (t : Terminal) → Inv t → (HighColor p → C) → Keeps C (handle_frame p t)
  unfolding handle_frame
  handle_frame-Keeps t h high = Good-need C Kept 156 p t _ frame (omega arith) (
      Good-if C Kept (sync_pattern (sync_bits p) == unknown_pattern) _ _ t
        (λ e. handle_emb-Keeps (sync_bits p) t h (λ one. high (ground (arith, e), one)))
        (λ _. hand_on-Keeps C p frame t h))

  pub handle_voice-Keeps : (t : Terminal) → Inv t → (HighColor p → C) → Keeps C (handle_voice p t)
  unfolding handle_voice
  handle_voice-Keeps t h high = Good-slot_of C Kept t h p frame _ (λ s e k.
      Good-current C Kept t _ (
        Good-if C Kept (t.state == voice_call_active) _ _ t
          (λ _. Keeps-if C _ _ t h (λ _. handle_frame-Keeps t h high))
          (λ _.
            Good-next C Kept Kept _ _ (voice_call_start-Keeps C p frame t h)
              (λ _ t' h'. handle_frame-Keeps t' h' high))))

  pub read_full_lc-Keeps : (mask : ℕ) (t : Terminal) → Inv t → Keeps C (read_full_lc mask p t)
  unfolding read_full_lc
  read_full_lc-Keeps mask t h = Good-read_info_bits C Kept t h p frame _ (
      Good-call C Kept t h of_bptc _ _ (decode-ne-panic (info_bits p) (zeros 12)) (λ bytes eb.
        Good-last_call C Kept t of_full_lc _ h
          (parse_full_lc-ne-panic (unmask mask bytes)
            (unmask-size mask bytes ∙ length-decode (info_bits p) (zeros 12) bytes eb))
          (λ lc ec. h)))

  pub handle_voice_lc-Keeps : (t : Terminal) → Inv t → Keeps C (handle_voice_lc p t)
  unfolding handle_voice_lc
  handle_voice_lc-Keeps t h =
      Good-next C Kept Kept _ _ (read_full_lc-Keeps 0x96 t h) (λ lc t' h'. Good-ok C Kept tt t' h')

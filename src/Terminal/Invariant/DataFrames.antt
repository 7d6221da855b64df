-- ===== src/Terminal/Invariant/DataFrames.antt =====
-- The handlers of data headers and of data blocks keep the invariant.
use go_dmr.Base.{
  ℕ, zero, suc, ◌≤◌, ◌≡◌, refl, Bool, true, false, Option, none, some, length, length-replicate,
  get_elem?, replicate, zeros, All,
}
use go_dmr.Dmr.Packet.{Packet, info_bits}
use go_dmr.Dmr.DataHeader.{
  DataHeader, DataHeaderData, udt_data, unconfirmed_data, confirmed_data, response_data,
  proprietary_data, short_data_raw_data, short_data_defined_data, parse_data_header-ne-panic,
}
use go_dmr.Dmr.DataBlock.{DataBlock}
use go_dmr.Dmr.DataBlock.Total.{parse_data_block-ne-panic, parse_data_block-eq-ok}
use go_dmr.Dmr.MessageData.{Codec}
use go_dmr.Bptc.Total as BptcTotal
use go_dmr.Trellis.Total as TrellisTotal
use go_dmr.Terminal.{Slot, Terminal}
use go_dmr.Terminal.Action.{header_nil, of_bptc, of_trellis, of_data_header, of_data_block, Action}
use go_dmr.Terminal.DataCall.{
  with_header, data_block, receive_block, handle_rate34_data, reset_data, expect_blocks, start_data,
  handle_data,
}
use go_dmr.Terminal.Invariant.{
  SlotOk, IsReceived, Inv, IsFrame, Kept, Keeps, Good-next, Good-call, Good-slot_of, Good-put_slot,
  Good-read_info_bits, Good-ok, Good-err, Good-current, Keeps-if, Keeps-put_slot,
}
use go_dmr.Terminal.Invariant.Calls.{voice_call_end-Keeps, data_call_start-Keeps}
use go_dmr.Terminal.Invariant.Data.{Excess, place_block-Keeps}

Keeps-with_header :
    (C : Type 0) (o : Option DataHeader) (m : Action (Unit {0}))
    (f : DataHeader → Action (Unit {0})) (t : Terminal)
    → ((o ≡ none) → Keeps C (m t))
    → ((header : DataHeader) → o ≡ some header → Keeps C (f header t))
    → Keeps C (with_header o m f t)
unfolding with_header
Keeps-with_header C none m f t g k = g refl
Keeps-with_header C (some header) m f t g k = k header refl

module _ (codecs : ℕ → Codec) (C : Type 0) (p : Packet) (frame : IsFrame p) where
  -- What makes up for a panic of the packet's slot.
  abbrev pub SlotExcess : Terminal → Type 0
  SlotExcess t =
      (s : Slot) (header : DataHeader)
      → get_elem? t.slots p.timeslot ≡ some s
      → s.header ≡ some header
      → Excess codecs C p frame s header

  data_block-Keeps :
      (db : DataBlock) (t : Terminal)
      → Inv t
      → (db.is_ok ≡ true) × (16 ≤ db.size)
      → SlotExcess t
      → Keeps C (data_block codecs p db t)
  unfolding data_block
  data_block-Keeps db t h good excess = Good-slot_of C Kept t h p frame _ (λ s e k.
      Keeps-with_header C s.header _ _ t (λ _. Good-err C Kept header_nil t h)
        (λ header eh.
          place_block-Keeps codecs C p frame s header db t h k eh good (excess s header e eh)))

  receive_block-Keeps :
      (header : DataHeader) (t : Terminal)
      → Inv t
      → SlotExcess t
      → Keeps C (receive_block codecs p header t)
  unfolding receive_block
  receive_block-Keeps header t h excess = Good-read_info_bits C Kept t h p frame _ (
      Good-call C Kept t h of_trellis _ _ (TrellisTotal.decode-ne-panic (info_bits p) (zeros 18))
        (λ bytes eb.
          let size : length bytes ≡ 18 =
            TrellisTotal.length-decode (info_bits p) (zeros 18) bytes eb in
          Good-call C Kept t h of_data_block _ _
            (parse_data_block-ne-panic bytes header.response_requested size)
            (λ db ed.
              data_block-Keeps db t h (parse_data_block-eq-ok bytes header.response_requested db ed)
                excess)))

  pub handle_rate34_data-Keeps :
      (t : Terminal) → Inv t → SlotExcess t → Keeps C (handle_rate34_data codecs p t)
  unfolding handle_rate34_data
  handle_rate34_data-Keeps t h excess = Good-slot_of C Kept t h p frame _ (λ s e k.
      Good-current C Kept t _ (
        Keeps-if C _ _ t h (λ _.
          Keeps-with_header C s.header _ _ t (λ _. Good-ok C Kept tt t h)
            (λ header eh. receive_block-Keeps header t h excess))))

blocks-IsReceived : (n : ℕ) → All IsReceived (replicate n none)
blocks-IsReceived zero = tt
blocks-IsReceived (suc n) = (tt, blocks-IsReceived n)

expect_blocks-SlotOk :
    (s : Slot) (appended : ℕ) (full_message : Bool)
    → SlotOk s
    → SlotOk (expect_blocks s appended full_message)
unfolding expect_blocks
expect_blocks-SlotOk s appended true k = record {
  sized = length-replicate appended none;
  received = blocks-IsReceived appended;
  shape = k.shape;
}
expect_blocks-SlotOk s appended false k = record {
  sized = k.sized;
  received = k.received;
  shape = k.shape;
}

reset_data-SlotOk : (s : Slot) → SlotOk s → SlotOk (reset_data s)
unfolding reset_data
reset_data-SlotOk s k = record { sized = k.sized; received = k.received; shape = k.shape }

module _ (C : Type 0) (p : Packet) (frame : IsFrame p) where
  start_data-Keeps :
      (header : DataHeader) (body : Option DataHeaderData) (t : Terminal)
      → Inv t
      → Keeps C (start_data p header body t)
  unfolding start_data
  start_data-Keeps header
        (some (short_data_defined_data appended format resync full_message padding)) t h =
      Good-slot_of C Kept t h p frame _ (λ s e k.
        Good-put_slot C Kept t h p frame (expect_blocks s appended full_message) _
          (expect_blocks-SlotOk s appended full_message k)
          (λ t1 h1 e1. Good-next C Kept Kept _ _ (data_call_start-Keeps C p frame t1 h1) (λ _ t2 h2.
            Good-slot_of C Kept t2 h2 p frame _ (λ s2 e2 k2.
              Keeps-put_slot C p t2 (record s2 { header = some header; packet_header_valid = true })
                h2 (record { sized = k2.sized; received = k2.received; shape = k2.shape })))))
  start_data-Keeps header none t h = Good-ok C Kept tt t h
  start_data-Keeps header (some (udt_data a b c d e)) t h = Good-ok C Kept tt t h
  start_data-Keeps header (some (unconfirmed_data a b c d)) t h = Good-ok C Kept tt t h
  start_data-Keeps header (some (confirmed_data a b c d e f)) t h = Good-ok C Kept tt t h
  start_data-Keeps header (some (response_data a b c)) t h = Good-ok C Kept tt t h
  start_data-Keeps header (some (proprietary_data a)) t h = Good-ok C Kept tt t h
  start_data-Keeps header (some (short_data_raw_data a b c d e f)) t h = Good-ok C Kept tt t h

  pub handle_data-Keeps : (t : Terminal) → Inv t → Keeps C (handle_data p t)
  unfolding handle_data
  handle_data-Keeps t h = Good-slot_of C Kept t h p frame _ (λ s e k.
      Good-next C Kept Kept _ _ (voice_call_end-Keeps C p frame t h) (λ _ t1 h1.
        Good-read_info_bits C Kept t1 h1 p frame _ (
          Good-call C Kept t1 h1 of_bptc _ _ (BptcTotal.decode-ne-panic (info_bits p) (zeros 12))
            (λ bytes eb.
              Good-call C Kept t1 h1 of_data_header _ _ (parse_data_header-ne-panic bytes false)
                (λ header ed. Good-slot_of C Kept t1 h1 p frame _ (λ s1 e1 k1.
                  Good-put_slot C Kept t1 h1 p frame (reset_data s1) _ (reset_data-SlotOk s1 k1)
                    (λ t2 h2 e2. start_data-Keeps header header.body t2 h2)))))))

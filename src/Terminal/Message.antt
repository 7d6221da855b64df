-- ===== src/Terminal/Message.antt =====
-- A confirmed message whose blocks arrive in any order.
pub mod Places
pub mod Delivery
use go_dmr.Base.{
  ℕ, zero, suc, ◌+◌, ◌-◌, ◌≤◌, ◌<◌, ◌≡◌, ◌≢◌, refl, sym, ap, ap₂, ◌∙◌, ltb, ◌==◌, ==_iff, ◌||◌, not,
  Bool, Bool-cases, true, false, if◌then◌else◌, inl, inr, Option, none, some, List, [], ◌∷◌, length,
  length-set, get_elem?, get_elem?-set_self, get_elem?-set_ne, lt_of_get_elem?, set, take, drop,
  zeros, All, arith,
}
use mathlib.Core.Path.{subst}
use go_dmr.Base.Outcome.{Outcome, ok, err, panic, or_panic}
use go_dmr.Dmr.Packet.{Packet, info_bits}
use go_dmr.Dmr.DataHeader.{DataHeader}
use go_dmr.Dmr.DataBlock.{
  DataBlock, DataFragment, rate34_data, parse_data_block, combine_data_blocks,
}
use go_dmr.Dmr.MessageData.{Codec, parse_message_data}
use go_dmr.Trellis
use go_dmr.Terminal.{Slot, Terminal, data_call_active, message}
use go_dmr.Terminal.Action.{
  Error, Action, next, done, when, current, call, slot_of, put_slot, emit, need, read_info_bits,
}
use go_dmr.Terminal.DataCall.{
  is_good, errors_found, all_present, combine, is_response, format_of, header_of,
  service_access_point_short_data, show_text, data_block_complete, deliver, combine_and_deliver,
  data_block_assemble, store_block, place_block, data_block, with_header, receive_block,
  handle_rate34_data,
}
use go_dmr.Terminal.Dispatch.{handle_packet, survived, handle_all}

-- The frame is one of the slot, and carries the block in the rate 3/4 code.
pub record Carries (timeslot : ℕ) (p : Packet) (b : DataBlock) : Type 0 where
  pub in_slot : p.timeslot ≡ timeslot
  pub is_block : p.data_type ≡ rate34_data
  pub size : 264 ≤ length p.bits
  pub bytes_ : List ℕ
  pub decoded : Trellis.decode (info_bits p) (zeros 18) ≡ ok bytes_
  pub parsed : parse_data_block bytes_ rate34_data true ≡ ok b

abbrev pub CarryAll : ℕ → List Packet → List DataBlock → Type 0
CarryAll timeslot [] [] = Unit {0}
CarryAll timeslot (p ∷ ps) (b ∷ bs) = Carries timeslot p b × CarryAll timeslot ps bs
CarryAll timeslot _ _ = ⊥

-- The slot with one block more, and with all of a list.
abbrev pub placed : Slot → DataBlock → Slot
placed s b = record s {
  blocks = set s.blocks b.serial (some b);
  blocks_received = s.blocks_received + 1;
}

abbrev pub fill : List DataBlock → Slot → Slot
fill [] s = s
fill (b ∷ bs) s = fill bs (placed s b)

abbrev pub stored : Terminal → ℕ → Slot → Terminal
stored t timeslot s = record t { slots = set t.slots timeslot s }

abbrev pub after_all : ℕ → List DataBlock → Terminal → Slot → Terminal
after_all timeslot [] t s = t
after_all timeslot (b ∷ bs) t s =
    after_all timeslot bs (stored t timeslot (placed s b)) (placed s b)

-- A slot in a data call with a confirmed header.
pub record Collecting (timeslot : ℕ) (header : DataHeader) (t : Terminal) (s : Slot) : Type 0 where
  pub active : t.state ≡ data_call_active
  pub found : get_elem? t.slots timeslot ≡ some s
  pub headed : s.header ≡ some header
  pub confirmed : header.response_requested ≡ true

placed-Collecting :
    (timeslot : ℕ) (header : DataHeader) (t : Terminal) (s : Slot) (b : DataBlock)
    → Collecting timeslot header t s
    → Collecting timeslot header (stored t timeslot (placed s b)) (placed s b)
placed-Collecting timeslot header t s b c = record {
  active = c.active;
  found =
      get_elem?-set_self t.slots timeslot (placed s b) (lt_of_get_elem? t.slots timeslot c.found);
  headed = c.headed;
  confirmed = c.confirmed;
}

module _ (codecs : ℕ → Codec) (timeslot : ℕ) (header : DataHeader) where
  -- What a frame with a block does.
  block_step :
      (p : Packet) (b : DataBlock) (t : Terminal) (s : Slot)
      → Collecting timeslot header t s
      → Carries timeslot p b
      → b.serial < length s.blocks
      → handle_packet codecs p t
        ≡ when
            (s.blocks_received + 1 == s.blocks_expected)
            (data_block_assemble codecs p)
            (stored t timeslot (placed s b))
  unfolding handle_packet handle_rate34_data receive_block data_block place_block store_block
      with_header slot_of put_slot current when call next need read_info_bits
  block_step p b t s c k lt =
      let kind = k.is_block in
      let slot = k.in_slot in
      let size = k.size in
      let decoded = k.decoded in
      let found : get_elem? t.slots p.timeslot ≡ some s = ap (get_elem? t.slots) slot ∙ c.found in
      let headed = c.headed in
      let active = c.active in
      let confirmed = c.confirmed in
      let parsed : parse_data_block k.bytes_ rate34_data header.response_requested ≡ ok b =
        ap (parse_data_block k.bytes_ rate34_data) confirmed ∙ k.parsed in
      ground (arith, kind, found, headed, active, confirmed, size, decoded, parsed, slot)

  -- All the blocks that are expected, the last of which completes the message.
  pub receive_all :
      (ps : List Packet) (bs : List DataBlock) (p : Packet) (b : DataBlock) (t : Terminal)
      (s : Slot) (done_t : Terminal)
      → Collecting timeslot header t s
      → Carries timeslot p b
      → CarryAll timeslot ps bs
      → b.serial < length s.blocks
      → All (λ c. c.serial < length s.blocks) bs
      → s.blocks_received + suc (length bs) ≡ s.blocks_expected
      → ((q : Packet)
          → q.timeslot ≡ timeslot
          → data_block_assemble codecs q (after_all timeslot (b ∷ bs) t s) ≡ (ok tt, done_t))
      → handle_all codecs (p ∷ ps) t ≡ some done_t
  unfolding handle_all when
  receive_all [] [] p b t s done_t c k ks lt lts e finish =
      let last : (s.blocks_received + 1 == s.blocks_expected) ≡ true = ground (arith, e) in
      let step = block_step p b t s c k lt in
      let complete = finish p k.in_slot in ground (arith, step, last, complete)
  receive_all [] (b' ∷ bs) p b t s done_t c k ks lt lts e finish = absurd ks
  receive_all (q ∷ ps) [] p b t s done_t c k ks lt lts e finish = absurd ks
  receive_all (q ∷ ps) (b' ∷ bs) p b t s done_t c k ks lt lts e finish =
      let more : (s.blocks_received + 1 == s.blocks_expected) ≡ false = ground (arith, e) in
      let step = block_step p b t s c k lt in
      let same = length-set s.blocks b.serial (some b) in
      let rest =
        receive_all ps bs q b' (stored t timeslot (placed s b)) (placed s b) done_t
          (placed-Collecting timeslot header t s b c) ks.0 ks.1 (omega (arith, lts.0, same))
          (subst (λ (n : ℕ). All (λ c'. c'.serial < n) bs) (sym same) lts.1) (omega (arith, e))
          finish in
      let handled : survived (handle_packet codecs p t) ≡ some (stored t timeslot (placed s b)) =
        ground (arith, step, more) in
      rw (handled, handle_all) rest

-- ===== src/Terminal/Safety.antt =====
-- The invariant over whole sessions, and exactly where a terminal panics.
use go_dmr.Base.{
  ℕ, ◌≤◌, ◌≡◌, refl, ap, ◌∙◌, true, false, ◌⊎◌, inl, inr, none, some, List, [], ◌∷◌, length,
  get_elem?, zeros, copy, take, All, arith,
}
use mathlib.Core.Path.{subst}
use go_dmr.Base.Outcome.{Outcome, ok, err, panic}
use go_dmr.Dmr.Packet.{Packet, info_bits}
use go_dmr.Dmr.DataHeader.{DataHeader}
use go_dmr.Dmr.DataBlock.{DataBlock, rate34_data, part, data_block_length, parse_data_block}
use go_dmr.Dmr.MessageData.{Codec}
use go_dmr.Trellis
use go_dmr.Trellis.Total.{length-decode}
use go_dmr.Terminal.{Slot, Terminal, data_call_active}
use go_dmr.Terminal.Action.{Error, next, when, current, call, slot_of, need, read_info_bits}
use go_dmr.Terminal.DataCall.{
  with_header, place_block, data_block, receive_block, handle_rate34_data,
}
use go_dmr.Terminal.Dispatch.{handle_packet, survived, handle_all}
use go_dmr.Terminal.Invariant.{Inv, IsFrame, Good, Keeps}
use go_dmr.Terminal.Invariant.Packets.{handle_packet-Keeps}
use go_dmr.Terminal.Invariant.Voice.{HighColor}

survived-Inv :
    (r : Outcome Error (Unit {0}) × Terminal) (t : Terminal)
    → Keeps (Unit {0}) r
    → survived r ≡ some t
    → Inv t
unfolding Good
survived-Inv (ok u, t') t h e = subst Inv (grind (arith, e)) h
survived-Inv (err x, t') t h e = subst Inv (grind (arith, e)) h
survived-Inv (panic, t') t h e = absurd (grind (arith, e))

-- Whatever frames a repeater hands over, a terminal that has the invariant keeps it as far as it does not
-- panic.
pub handle_all-Inv :
    (codecs : ℕ → Codec) (packets : List Packet) (t t' : Terminal)
    → All IsFrame packets
    → Inv t
    → handle_all codecs packets t ≡ some t'
    → Inv t'
unfolding handle_all
handle_all-Inv codecs [] t t' frames h e = subst Inv (grind (arith, e)) h
handle_all-Inv codecs (p ∷ packets) t t' frames h e =
    let kept =
      handle_packet-Keeps codecs (Unit {0}) p frames.0 t h (λ _ s header _ _ _. tt) (λ _. tt) in
    elim (survived (handle_packet codecs p t))
        as (λ o. survived (handle_packet codecs p t) ≡ o → Inv t') [
          | none ↦ λ q. absurd (ground (arith, e, q))
          | some next_t ↦ λ q.
              handle_all-Inv codecs packets next_t t' frames.1
                (survived-Inv (handle_packet codecs p t) next_t kept q) (ground (arith, e, q))
        ]
      refl

-- The packet is a block of rate 3/4, and its slot has an unconfirmed header and no place left.
pub record Overrun (p : Packet) (t : Terminal) : Type 0 where
  pub is_block : p.data_type ≡ rate34_data
  pub slot : Slot
  pub header : DataHeader
  pub found : get_elem? t.slots p.timeslot ≡ some slot
  pub stored : slot.header ≡ some header
  pub unconfirmed : header.response_requested ≡ false
  pub full : length slot.blocks ≤ slot.blocks_received

panicked : (C : Type 0) (r : Outcome Error (Unit {0}) × Terminal) → Keeps C r → r.0 ≡ panic → C
unfolding Good
panicked C (ok u, t) h e = absurd (grind (arith, e))
panicked C (err x, t) h e = absurd (grind (arith, e))
panicked C (panic, t) h e = h

-- Where the invariant holds, `handlePacket` panics on two kinds of frames only: a data block of rate 3/4
-- for a slot whose data header asks for no response and whose blocks have all their places taken; and a
-- voice frame without a sync pattern whose first EMB bit is 1.
pub handle_packet_panics :
    (codecs : ℕ → Codec) (p : Packet) (t : Terminal)
    → IsFrame p
    → Inv t
    → (handle_packet codecs p t).0 ≡ panic
    → Overrun p t ⊎ HighColor p
handle_packet_panics codecs p t frame h e =
    panicked (Overrun p t ⊎ HighColor p) (handle_packet codecs p t)
      (handle_packet-Keeps codecs (Overrun p t ⊎ HighColor p) p frame t h
        (λ block s header found stored (unconfirmed, full). inl (record {
          is_block = block;
          slot = s;
          header = header;
          found = found;
          stored = stored;
          unconfirmed = unconfirmed;
          full = full;
        }))
        inr)
      e

unconfirmed_block :
    (bytes : List ℕ)
    → length bytes ≡ 18
    → (db : DataBlock) × (parse_data_block bytes rate34_data false ≡ ok db)
unfolding parse_data_block part data_block_length
unconfirmed_block bytes h = (
  record { serial = 0; crc = 0; is_ok = true; bytes_ = copy (zeros 18) (take 18 bytes); size = 18 },
  ground (arith, h),
)

-- For a frame of rate 3/4 whose bits the trellis code decodes, while a data call is active and where the
-- slot has an unconfirmed header and no place left for a block: `handlePacket` panics.
pub handle_packet-Overrun :
    (codecs : ℕ → Codec) (p : Packet) (t : Terminal) (bytes : List ℕ)
    → IsFrame p
    → t.state ≡ data_call_active
    → Trellis.decode (info_bits p) (zeros 18) ≡ ok bytes
    → Overrun p t
    → handle_packet codecs p t ≡ (panic, t)
unfolding handle_packet handle_rate34_data receive_block data_block place_block with_header slot_of
    current when call next need read_info_bits
handle_packet-Overrun codecs p t bytes frame active decoded o =
    let (db, parsed) =
      unconfirmed_block bytes (length-decode (info_bits p) (zeros 18) bytes decoded) in
    let kind = o.is_block in
    let found = o.found in
    let stored = o.stored in
    let unconfirmed = o.unconfirmed in
    let full = o.full in
    let size = frame.size in
    let parsed' : parse_data_block bytes rate34_data o.header.response_requested ≡ ok db =
      ap (parse_data_block bytes rate34_data) unconfirmed ∙ parsed in
    ground (arith, kind, found, stored, unconfirmed, full, size, decoded, parsed', active)

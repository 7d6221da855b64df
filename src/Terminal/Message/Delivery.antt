-- ===== src/Terminal/Message/Delivery.antt =====
-- The message that the blocks carry is handed on.
use go_dmr.Base.{
  ℕ, ◌-◌, ◌≤◌, ◌<◌, ◌≡◌, refl, sym, ap, ◌∙◌, true, false, some, List, [], ◌∷◌, length, get_elem?,
  lt_of_get_elem?, take, drop, All, arith,
}
use go_dmr.Base.Outcome.{ok}
use go_dmr.Dmr.Packet.{Packet}
use go_dmr.Dmr.DataHeader.{DataHeader}
use go_dmr.Dmr.DataBlock.{DataBlock, DataFragment, combine_data_blocks}
use go_dmr.Dmr.MessageData.{Codec, parse_message_data}
use go_dmr.Terminal.{Slot, Terminal, Event, message}
use go_dmr.Terminal.Action.{next, when, call, slot_of, emit}
use go_dmr.Terminal.DataCall.{
  errors_found, all_present, combine, is_response, format_of, header_of,
  service_access_point_short_data, show_text, data_block_complete, deliver, combine_and_deliver,
  data_block_assemble,
}
use go_dmr.Terminal.Dispatch.{handle_all}
use go_dmr.Terminal.Message.{CarryAll, Collecting, placed, fill, stored, after_all, receive_all}
use go_dmr.Terminal.Message.Places.{
  held, arrives, IsPart, IsOk, length-held, fill-held, errors_found-held, all_present-held,
  fill-same, after_all-found,
}

-- A confirmed data call for a short message of `n` blocks, none of which was counted so far.
pub record Ready (timeslot n : ℕ) (header : DataHeader) (t : Terminal) (s : Slot) : Type 0 where
  pub collecting : Collecting timeslot header t s
  pub room : length s.blocks ≡ n
  pub full : s.full_message_blocks ≡ n
  pub expected : s.blocks_expected ≡ n
  pub none_received : s.blocks_received ≡ 0
  pub short_data : header.service_access_point ≡ service_access_point_short_data
  pub no_response : is_response header.body ≡ false

-- A fragment whose text, without its padding and its checksum, reads as `str`.
pub record Reads (codecs : ℕ → Codec) (header : DataHeader) (f : DataFragment) (str : List ℕ)
    : Type 0 where
  pub long : 6 < f.stored
  pub size : 2 ≤ length f.bytes_
  pub text :
      parse_message_data codecs (take (f.stored - 6) (drop 2 f.bytes_)) (format_of header.body) true
      ≡ ok str

module _ (codecs : ℕ → Codec) (timeslot : ℕ) (header : DataHeader) (msg : List DataBlock)
    (f : DataFragment) (str : List ℕ) (combined : combine_data_blocks msg ≡ ok f)
    (good : All IsOk msg) (reads : Reads codecs header f str) where
  assemble_step :
      (t : Terminal) (s : Slot) (q : Packet)
      → q.timeslot ≡ timeslot
      → get_elem? t.slots timeslot ≡ some s
      → s.header ≡ some header
      → s.blocks ≡ held msg
      → s.full_message_blocks ≡ length msg
      → header.response_requested ≡ true
      → header.service_access_point ≡ service_access_point_short_data
      → is_response header.body ≡ false
      → data_block_assemble codecs q t ≡ (ok tt, record t { events = message str ∷ t.events })
  unfolding data_block_assemble combine_and_deliver combine deliver data_block_complete show_text
      header_of slot_of call when emit next
  assemble_step t s q slot at headed blocks full confirmed short plain =
      let found : get_elem? t.slots q.timeslot ≡ some s = ap (get_elem? t.slots) slot ∙ at in
      let fine : errors_found s.full_message_blocks s.blocks ≡ some false =
        ap (λ (n : ℕ). errors_found n s.blocks) full
        ∙ ap (errors_found (length msg)) blocks
        ∙ errors_found-held msg good in
      let present : all_present s.blocks ≡ some msg =
        ap all_present blocks ∙ all_present-held msg in
      let long = reads.long in
      let size = reads.size in
      let text = reads.text in
      ground
        (arith, found, fine, present, headed, confirmed, short, plain, long, size, text, combined)

no_blocks :
    (msg : List DataBlock) (f : DataFragment) → length msg ≡ 0 → combine_data_blocks msg ≡ ok f → ⊥
unfolding combine_data_blocks
no_blocks [] f h e = ground (arith, e)
no_blocks (b ∷ msg) f h e = absurd (omega arith)

serials-lt :
    (msg bs : List DataBlock) (n : ℕ)
    → length msg ≡ n
    → All (IsPart msg) bs
    → All (λ b. b.serial < n) bs
serials-lt msg [] n e h = tt
serials-lt msg (b ∷ bs) n e h = (
  omega (arith, lt_of_get_elem? (held msg) b.serial h.0, length-held msg, e),
  serials-lt msg bs n e h.1,
)

after_all-events :
    (timeslot : ℕ) (bs : List DataBlock) (t : Terminal) (s : Slot)
    → (after_all timeslot bs t s).events ≡ t.events
after_all-events timeslot [] t s = refl
after_all-events timeslot (b ∷ bs) t s =
    after_all-events timeslot bs (stored t timeslot (placed s b)) (placed s b)

-- For a terminal in a confirmed data call for a short message of some blocks, none of them
-- counted so far; for the good blocks of a message that combine to a fragment with a text, and frames that carry
-- just as many blocks, each of them a block of the message and every block of it among them, in whatever
-- order: the terminal handles all the frames, and then the text of the message is what it handed on last.
pub message_delivered :
    (codecs : ℕ → Codec) (timeslot : ℕ) (header : DataHeader) (t : Terminal) (s : Slot)
    (msg arrived : List DataBlock) (packets : List Packet) (f : DataFragment) (str : List ℕ)
    → Ready timeslot (length msg) header t s
    → CarryAll timeslot packets arrived
    → length arrived ≡ length msg
    → All (IsPart msg) arrived
    → ((k : ℕ) → k < length msg → arrives k arrived ≡ true)
    → All IsOk msg
    → combine_data_blocks msg ≡ ok f
    → Reads codecs header f str
    → (t' : Terminal) × (handle_all codecs packets t ≡ some t')
      × (t'.events ≡ message str ∷ t.events)
message_delivered codecs timeslot header t s msg [] packets f str ready carry e part all good comb
      reads =
    absurd (no_blocks msg f (sym e) comb)
message_delivered codecs timeslot header t s msg (b ∷ bs) [] f str ready carry e part all good comb
      reads =
    absurd carry
message_delivered codecs timeslot header t s msg (b ∷ bs) (p ∷ ps) f str ready carry e part all good
      comb reads =
    let c = ready.collecting in
    let last = after_all timeslot (b ∷ bs) t s in
    let filled = fill (b ∷ bs) s in
    let done_t = record last { events = message str ∷ last.events } in
    let lts = serials-lt msg (b ∷ bs) (length s.blocks) (sym ready.room) part in
    let found =
      after_all-found timeslot (b ∷ bs) t s (lt_of_get_elem? t.slots timeslot c.found) c.found in
    let (headed, full) = fill-same (b ∷ bs) s in
    let blocks = fill-held msg (b ∷ bs) s part ready.room all in
    (
      done_t,
      receive_all codecs timeslot header ps bs p b t s done_t c carry.0 carry.1 lts.0 lts.1
          (omega (arith, ready.none_received, ready.expected, e))
          (λ q slot.
            assemble_step codecs timeslot header msg f str comb good reads last filled q slot found
              (headed ∙ c.headed) blocks (full ∙ ready.full) c.confirmed ready.short_data
              ready.no_response),
      ap (λ (events : List Event). message str ∷ events) (after_all-events timeslot (b ∷ bs) t s),
    )

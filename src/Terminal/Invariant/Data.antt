-- ===== src/Terminal/Invariant/Data.antt =====
-- Data blocks keep the invariant, and the messages assembled of them. A block panics only where it is unconfirmed and all
-- places are taken.
use go_dmr.Base.{
  ℕ, zero, suc, ◌+◌, ◌-◌, ◌≤◌, ◌≡◌, ◌≢◌, refl, sym, ◌∙◌, ltb, ◌==◌, true, false, ◌⊎◌, Option, none,
  some, List, [], ◌∷◌, length, length-set, get_elem?, set, take, drop, All, arith,
}
use mathlib.Core.Path.{subst}
use go_dmr.Base.Outcome.{panic}
use go_dmr.Dmr.Packet.{Packet}
use go_dmr.Dmr.DataHeader.{DataHeader}
use go_dmr.Dmr.DataBlock.{DataBlock, DataFragment}
use go_dmr.Dmr.DataBlock.Total.{IsWhole, combine_data_blocks-ne-panic, combine_data_blocks-eq-ok}
use go_dmr.Dmr.MessageData.{Codec, parse_message_data-ne-panic}
use go_dmr.Terminal.{Slot, Terminal, message}
use go_dmr.Terminal.Action.{of_data_block, of_message, Action, next}
use go_dmr.Terminal.DataCall.{
  is_good, errors_found, all_present, combine, format_of, header_of, show_text, data_block_complete,
  deliver, combine_and_deliver, data_block_assemble, store_block, place_block,
}
use go_dmr.Terminal.Invariant.{
  SlotOk, IsReceived, Inv, IsFrame, Good, Kept, Keeps, Good-next, Good-call, Good-last_call,
  Good-slot_of, Good-put_slot, Good-ok, Good-if, Keeps-if, Keeps-emit, All-set,
}
use go_dmr.Terminal.Invariant.Calls.{data_call_end-Keeps}

errors_found-ne-none :
    (n : ℕ) (blocks : List (Option DataBlock)) → length blocks ≡ n → errors_found n blocks ≢ none
unfolding errors_found
errors_found-ne-none zero blocks h e = cc
errors_found-ne-none (suc n) [] h e = absurd (omega arith)
errors_found-ne-none (suc n) (b ∷ blocks) h e =
    ground (arith, errors_found-ne-none n blocks (omega arith))

-- Where no errors are found, every block is there.
all_present-eq-some :
    (n : ℕ) (blocks : List (Option DataBlock))
    → length blocks ≡ n
    → All IsReceived blocks
    → errors_found n blocks ≡ some false
    → (present : List DataBlock) × (all_present blocks ≡ some present) × All IsWhole present
unfolding errors_found all_present is_good
all_present-eq-some n [] h k e = ([], refl, tt)
all_present-eq-some zero (b ∷ blocks) h k e = absurd (omega arith)
all_present-eq-some (suc n) (none ∷ blocks) h k e = absurd (ground (arith, e))
all_present-eq-some (suc n) (some b ∷ blocks) h k e =
    let (present, p, w) = all_present-eq-some n blocks (omega arith) k.1 (ground (arith, e)) in
    (b ∷ present, rw p refl, (k.0.1, w))

-- The slot of the packet has a header.
abbrev HasHeader : Packet → Terminal → Type 0
HasHeader p t =
    (s : Slot) → get_elem? t.slots p.timeslot ≡ some s → (h : DataHeader) × (s.header ≡ some h)

module _ (C : Type 0) {B : Type 0} (Q : B → Terminal → Type 0) where
  Good-header_of :
      (s : Slot) (header : DataHeader) (f : DataHeader → Action B) (t : Terminal)
      → s.header ≡ some header
      → Good C Q (f header t)
      → Good C Q (next (header_of s t) f)
  unfolding header_of next
  Good-header_of s header f t e h = rw e h

-- What a combined fragment is, in a state that combining did not change.
abbrev Combined : Terminal → DataFragment → Terminal → Type 0
Combined t f t' = (t' ≡ t) × (length f.bytes_ ≡ 1500) × ((f.stored ≡ 0) ⊎ (16 ≤ f.stored))

Good-crash :
    (C : Type 0) {A : Type 0} (Q : A → Terminal → Type 0) (t : Terminal) → C → Good C Q (panic, t)
unfolding Good
Good-crash C Q t c = c

module _ (codecs : ℕ → Codec) (C : Type 0) (p : Packet) (frame : IsFrame p) where
  show_text-Keeps :
      (f : DataFragment) (header : DataHeader) (t : Terminal)
      → Inv t
      → length f.bytes_ ≡ 1500
      → 16 ≤ f.stored
      → Keeps C (show_text codecs f header t)
  unfolding show_text
  show_text-Keeps f header t h size stored =
      Good-if C Kept (ltb (length f.bytes_) 2) _ _ t (λ e. absurd (ground (arith, e, size)))
        (λ _.
          Good-if C Kept (f.stored == 6) _ _ t (λ _. Good-ok C Kept tt t h)
            (λ _.
              Good-if C Kept (ltb f.stored 6) _ _ t (λ e. absurd (ground (arith, e, stored)))
                (λ _.
                  Good-call C Kept t h of_message _ _
                    (parse_message_data-ne-panic codecs (take (f.stored - 6) (drop 2 f.bytes_))
                      (format_of header.body) true)
                    (λ str _. Keeps-emit C (message str) t h))))

  data_block_complete-Keeps :
      (f : DataFragment) (t : Terminal)
      → Inv t
      → HasHeader p t
      → length f.bytes_ ≡ 1500
      → 16 ≤ f.stored
      → Keeps C (data_block_complete codecs p f t)
  unfolding data_block_complete
  data_block_complete-Keeps f t h has size stored = Good-slot_of C Kept t h p frame _ (λ s e k.
      let (header, eh) = has s e in
      Good-header_of C Kept s header _ t eh
        (Keeps-if C _ _ t h (λ _. show_text-Keeps f header t h size stored)))

  deliver-Keeps :
      (f : DataFragment) (t : Terminal)
      → Inv t
      → HasHeader p t
      → length f.bytes_ ≡ 1500
      → 16 ≤ f.stored
      → Keeps C (deliver codecs p f t)
  unfolding deliver
  deliver-Keeps f t h has size stored = Good-slot_of C Kept t h p frame _ (λ s e k.
      let (header, eh) = has s e in
      Good-header_of C Kept s header _ t eh (
        Keeps-if C _ _ t h (λ _.
          Good-next C Kept Kept _ _ (data_block_complete-Keeps f t h has size stored)
            (λ _ t' h'. Keeps-if C _ _ t' h' (λ _. data_call_end-Keeps C p frame t' h')))))

  combine-Good :
      (s : Slot) (present : List DataBlock) (t : Terminal)
      → Inv t
      → all_present s.blocks ≡ some present
      → All IsWhole present
      → Good C (Combined t) (combine s.blocks t)
  unfolding combine
  combine-Good s present t h e w =
      Good-call C (Combined t) t h of_data_block _ _ (λ q. ground (arith, e, q))
        (λ blocks eb.
          let same : present ≡ blocks = ground (arith, e, eb) in
          Good-last_call C (Combined t) t of_data_block _ h (combine_data_blocks-ne-panic blocks)
            (λ f ef.
              let (size, stored) =
                combine_data_blocks-eq-ok blocks f (subst (All IsWhole) same w) ef in
              (refl, size, stored)))

  combine_and_deliver-Keeps :
      (s : Slot) (present : List DataBlock) (t : Terminal)
      → Inv t
      → HasHeader p t
      → all_present s.blocks ≡ some present
      → All IsWhole present
      → Keeps C (combine_and_deliver codecs p s t)
  unfolding combine_and_deliver
  combine_and_deliver-Keeps s present t h has e w =
      Good-next C Kept (Combined t) _ _ (combine-Good s present t h e w)
        (λ f t' (same, size, stored).
          let h' = subst Inv (sym same) h in
          let has' = subst (HasHeader p) (sym same) has in
          Keeps-if C _ _ t' h'
            (λ some_stored. deliver-Keeps f t' h' has' size (ground (arith, some_stored, stored))))

  data_block_assemble-Keeps :
      (t : Terminal) → Inv t → HasHeader p t → Keeps C (data_block_assemble codecs p t)
  unfolding data_block_assemble
  data_block_assemble-Keeps t h has = Good-slot_of C Kept t h p frame _ (λ s e k.
      let (header, eh) = has s e in
      Good-call C Kept t h of_data_block _ _
        (λ q. ground (arith, q, errors_found-ne-none s.full_message_blocks s.blocks k.sized))
        (λ wrong ew.
          Good-if C Kept wrong _ _ t
            (λ _. Good-header_of C Kept s header _ t eh (Good-ok C Kept tt t h))
            (λ fine.
              let none_wrong : errors_found s.full_message_blocks s.blocks ≡ some false =
                ground (arith, ew, fine) in
              let (present, pe, w) =
                all_present-eq-some s.full_message_blocks s.blocks k.sized k.received none_wrong in
              combine_and_deliver-Keeps s present t h has pe w)))

  store_block-Keeps :
      (s : Slot) (header : DataHeader) (i : ℕ) (db : DataBlock) (t : Terminal)
      → Inv t
      → SlotOk s
      → s.header ≡ some header
      → (db.is_ok ≡ true) × (16 ≤ db.size)
      → Keeps C (store_block codecs p s i db t)
  unfolding store_block
  store_block-Keeps s header i db t h k eh good =
      let s' = record s {
        blocks = set s.blocks i (some db);
        blocks_received = s.blocks_received + 1;
      } in
      Good-put_slot C Kept t h p frame s' _
        (record {
          sized = length-set s.blocks i (some db) ∙ k.sized;
          received = All-set IsReceived s.blocks i (some db) k.received good;
          shape = k.shape;
        })
        (λ t' h' e'. Keeps-if C _ _ t' h' (λ _. data_block_assemble-Keeps t' h' (λ s'' e''.
          let same : s' ≡ s'' = ground (arith, e', e'') in
          (header, subst (λ (x : Slot). x.header ≡ some header) same eh))))

  -- An unconfirmed block with no place left makes up for a panic.
  abbrev pub Excess : Slot → DataHeader → Type 0
  Excess s header = (header.response_requested ≡ false) × (length s.blocks ≤ s.blocks_received) → C

  pub place_block-Keeps :
      (s : Slot) (header : DataHeader) (db : DataBlock) (t : Terminal)
      → Inv t
      → SlotOk s
      → s.header ≡ some header
      → (db.is_ok ≡ true) × (16 ≤ db.size)
      → Excess s header
      → Keeps C (place_block codecs p s header db t)
  unfolding place_block
  place_block-Keeps s header db t h k eh good excess =
      Good-if C Kept header.response_requested _ _ t
        (λ _. Keeps-if C _ _ t h (λ _. store_block-Keeps s header db.serial db t h k eh good))
        (λ unconfirmed.
          Good-if C Kept (ltb s.blocks_received (length s.blocks)) _ _ t
            (λ _. store_block-Keeps s header s.blocks_received db t h k eh good)
            (λ full. Good-crash C Kept t (excess (unconfirmed, ground (arith, full)))))

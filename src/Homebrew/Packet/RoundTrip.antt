-- ===== src/Homebrew/Packet/RoundTrip.antt =====
-- A frame survives the way through a DMRD message.
use go_dmr.Base.{
  ℕ, ◌+◌, ◌-◌, ◌*◌, ◌/◌, ◌%◌, ◌^◌, ◌<◌, ◌≡◌, refl, sym, ap, ◌∙◌, bit_and, bit_or, leb, ◌==◌, Bool,
  true, false, Option, none, some, List, [], ◌∷◌, ◌++◌, ◌&&◌, be24-split, be32-split, arith,
  all_below, all_below_sound, if◌then◌else◌, length, length-append, get_or, get_or-append, take,
  take-append, zeros, copy, copy_whole, ==_iff,
}
use go_dmr.Base.Outcome.{ok}
use go_dmr.Dmr.Packet.{Packet}
use go_dmr.Dmr.Bits.{bytes_to_bits}
use go_dmr.Homebrew.Packet.{build_data, parse_data, flags, data_type_of}

-- What the format can carry: each field in its width, and 33 bytes of payload.
pub record IsCarried (p : Packet) : Type 0 where
  pub slot : p.timeslot < 2
  pub call : p.call_type < 2
  pub types : p.data_type < 16
  pub source : p.src_id < 2 ^ 24
  pub target : p.dst_id < 2 ^ 24
  pub stream : p.stream_id < 2 ^ 32
  pub frame : length p.payload ≡ 33

-- Byte 15 at `t + 16 * call + 32 * slot`.
flags_of : ℕ → ℕ
flags_of n =
    let b = bit_or (bit_and (n / 32) 1 * 2 ^ 7 % 2 ^ 8) (bit_and (n / 16 % 2) 1 * 2 ^ 6 % 2 ^ 8) in
    let t = n % 16 in
    if leb 11 t && leb t 15
    then bit_or b (t - 10)
    else if t == 10
    then bit_or b (1 * 2 ^ 4)
    else bit_or (bit_or b (2 * 2 ^ 4)) t

is_some : Option ℕ → ℕ → Bool
is_some none n = false
is_some (some m) n = m == n

is_some→eq : (o : Option ℕ) (n : ℕ) → is_some o n ≡ true → o ≡ some n
unfolding is_some
is_some→eq none n h = cc
is_some→eq (some m) n h = ap some ((==_iff m n).0 h)

flags_table :
    all_below 64 (λ n.
      is_some (data_type_of (flags_of n)) (n % 16)
      && (bit_and (flags_of n / 2 ^ 7) 1 == n / 32)
      && (bit_and (flags_of n / 2 ^ 6) 1 == n / 16 % 2))
    ≡ true
unfolding all_below flags_of data_type_of is_some
flags_table = refl

and_left : (a b : Bool) → (a && b) ≡ true → a ≡ true
and_left a b e = ground arith

and_right : (a b : Bool) → (a && b) ≡ true → b ≡ true
and_right a b e = ground arith

module _ (p : Packet) (h : IsCarried p) where
  index : ℕ
  index = p.data_type + 16 * p.call_type + 32 * p.timeslot

  flags-index : flags p ≡ flags_of index
  unfolding flags flags_of index
  flags-index =
      let e : index / 32 ≡ p.timeslot = omega (arith, h.slot, h.call, h.types) in
      let f : index / 16 % 2 ≡ p.call_type = omega (arith, h.slot, h.call, h.types) in
      let g : index % 16 ≡ p.data_type = omega (arith, h.slot, h.call, h.types) in rw (e, f, g) refl

  index-lt : index < 64
  unfolding index
  index-lt = omega (arith, h.slot, h.call, h.types)

  flags_facts :
      (data_type_of (flags p) ≡ some p.data_type)
      × (bit_and (flags p / 2 ^ 7) 1 ≡ p.timeslot)
      × (bit_and (flags p / 2 ^ 6) 1 ≡ p.call_type)
  flags_facts =
      let t = all_below_sound 64 _ flags_table index index-lt in
      let e : index / 32 ≡ p.timeslot = unfold index in omega (arith, h.slot, h.call, h.types) in
      let f : index / 16 % 2 ≡ p.call_type =
        unfold index in omega (arith, h.slot, h.call, h.types) in
      let g : index % 16 ≡ p.data_type = unfold index in omega (arith, h.slot, h.call, h.types) in
      let k : is_some (data_type_of (flags_of index)) (index % 16) ≡ true =
        and_left _ _ (and_left _ _ t) in
      rw flags-index (
        is_some→eq _ _ (rw g at k),
        (==_iff _ _).0 (and_right _ _ (and_left _ _ t)) ∙ e,
        (==_iff _ _).0 (and_right _ _ t) ∙ f,
      )

  tail : List ℕ
  tail = copy (zeros 33) p.payload ++ (p.ber ∷ p.rssi ∷ [])

  tail-eq : tail ≡ p.payload ++ (p.ber ∷ p.rssi ∷ [])
  unfolding tail
  tail-eq =
      ap (λ (t : List ℕ). t ++ (p.ber ∷ p.rssi ∷ [])) (copy_whole (zeros 33) p.payload h.frame)

  tail_facts :
      (length tail ≡ 35)
      × (take 33 tail ≡ p.payload)
      × (get_or tail 33 0 ≡ p.ber)
      × (get_or tail 34 0 ≡ p.rssi)
  tail_facts =
      let last = p.ber ∷ p.rssi ∷ [] in
      rw tail-eq (
        length-append p.payload last ∙ omega (arith, h.frame),
        ap (λ (k : ℕ). take k (p.payload ++ last)) (sym h.frame) ∙ take-append p.payload last,
        ap (λ (k : ℕ). get_or (p.payload ++ last) k 0) (omega (arith, h.frame))
            ∙ get_or-append p.payload last 0 0,
        ap (λ (k : ℕ). get_or (p.payload ++ last) k 0) (omega (arith, h.frame))
            ∙ get_or-append p.payload last 1 0,
      )

  -- Every frame that the format can carry (timeslot and call type below 2, data type below 16,
  -- addresses in 24 bits, stream ID in 32 bits, 33 bytes of payload), written as a DMRD message
  -- of a repeater whose ID is a uint32, parses without an error to the same frame, with that
  -- repeater's ID and with the bits of the payload.
  pub parse_data-build_data :
      (repeater_id : ℕ)
      → repeater_id < 2 ^ 32
      → parse_data (build_data p repeater_id)
        ≡ ok (record p { repeater_id = repeater_id; bits = bytes_to_bits p.payload })
  unfolding parse_data build_data tail
  parse_data-build_data r hr =
      let (n, e, b, i) = tail_facts in
      ground (
        arith,
        flags_facts,
        be24-split p.src_id,
        be24-split p.dst_id,
        be32-split r,
        be32-split p.stream_id,
        n,
        b,
        i,
        h.source,
        h.target,
        h.stream,
        ap (copy (zeros 33)) e ∙ copy_whole (zeros 33) p.payload h.frame,
      )

-- ===== src/Dmr/ControlBlock/Check.antt =====
-- What the checksum of a control block protects, and where `Bytes` spoils it.
use go_dmr.Base.{
  ℕ, ◌+◌, ◌*◌, ◌%◌, ◌^◌, ◌<◌, ◌≤◌, ◌≡◌, ◌≢◌, refl, sym, bit_or, bit_xor, ap, ap₂, ◌∙◌, Option, some,
  List, [], ◌∷◌, ◌++◌, length, get_or, take, take-append, get_or-append, length-append, All, not16,
  be16, be16-split, arith,
}
use mathlib.Core.List.{append_assoc}
use go_dmr.Base.Outcome.{ok, err}
use go_dmr.Base.Bits.Fields.{bit_or_disjoint}
use go_dmr.Base.Bits.Xor.{xor_cancel_left, xor_comm}
use go_dmr.Dmr.Bits.{IsByte}
use go_dmr.Dmr.Crc.{crc16end, crc16_bytes}
use go_dmr.Dmr.Crc.Register.{xor_mod}
use go_dmr.Dmr.Crc.Detect.{
  crc16_burst_injective, crc16_start_injective, crc16_last_injective, crc16end_bytes-lt,
}
use go_dmr.Dmr.ControlBlock.{
  ControlBlock, ControlBlockData, crc_mismatch, bytes, parse_control_block, seal,
}
use go_dmr.Dmr.ControlBlock.RoundTrip.{
  image, first_byte, second_byte, third_byte, sealed, bytes-image, Fits, seal-lt, first_bits,
}

not16_injective : (x y : ℕ) → x < 2 ^ 16 → y < 2 ^ 16 → not16 x ≡ not16 y → x ≡ y
not16_injective x y hx hy e = omega arith

seal-eq :
    (x y : ℕ) (m n : List ℕ)
    → x < 2 ^ 16
    → y < 2 ^ 16
    → seal x m ≡ seal y n
    → crc16end (crc16_bytes x m) ≡ crc16end (crc16_bytes y n)
unfolding seal
seal-eq x y m n hx hy e =
    not16_injective _ _ (crc16end_bytes-lt x m hx) (crc16end_bytes-lt y n hy)
      (xor_cancel_left 0xa5a5 _ _ (xor_comm 0xa5a5 _ ∙ e ∙ xor_comm _ 0xa5a5))

-- An accepted block states the checksum of its first ten bytes.
accepted_seal :
    (b : List ℕ) (cb : ControlBlock)
    → parse_control_block b ≡ ok cb
    → seal 0 (take 10 b) ≡ be16 (get_or b 10 0) (get_or b 11 0)
unfolding parse_control_block
accepted_seal b cb e = ground arith

accepted_states :
    (m : List ℕ) (c d : ℕ) (cb : ControlBlock)
    → length m ≡ 10
    → parse_control_block (m ++ (c ∷ d ∷ [])) ≡ ok cb
    → seal 0 m ≡ be16 c d
accepted_states m c d cb n e =
    ap (seal 0) (sym (take-append m (c ∷ d ∷ [])) ∙ ap (λ (k : ℕ). take k (m ++ (c ∷ d ∷ []))) n)
    ∙ accepted_seal (m ++ (c ∷ d ∷ [])) cb e
    ∙ ap₂ be16
        (ap (λ (k : ℕ). get_or (m ++ (c ∷ d ∷ [])) k 0) (omega arith)
          ∙ get_or-append m (c ∷ d ∷ []) 0 0)
        (ap (λ (k : ℕ). get_or (m ++ (c ∷ d ∷ [])) k 0) (omega arith)
          ∙ get_or-append m (c ∷ d ∷ []) 1 0)

be16_injective :
    (a b c d : ℕ) → All IsByte (a ∷ b ∷ c ∷ d ∷ []) → be16 a b ≡ be16 c d → (a ≡ c) × (b ≡ d)
unfolding be16
be16_injective a b c d h e =
    let sum : a * 2 ^ 8 + b ≡ c * 2 ^ 8 + d =
      sym (bit_or_disjoint 8 a b h.1.0) ∙ e ∙ bit_or_disjoint 8 c d h.1.1.1.0 in
    (omega (arith, sum, h.1.0, h.1.1.1.0), omega (arith, sum, h.1.0, h.1.1.1.0))

-- Two accepted blocks with the same checksum.
accepted_burst :
    (front back : List ℕ) (x y x' y' c d : ℕ) {cb cb' : ControlBlock}
    → All IsByte (x ∷ y ∷ x' ∷ y' ∷ [])
    → length (front ++ (x ∷ y ∷ back)) ≡ 10
    → length (front ++ (x' ∷ y' ∷ back)) ≡ 10
    → parse_control_block ((front ++ (x ∷ y ∷ back)) ++ (c ∷ d ∷ [])) ≡ ok cb
    → parse_control_block ((front ++ (x' ∷ y' ∷ back)) ++ (c ∷ d ∷ [])) ≡ ok cb'
    → (x ≡ x') × (y ≡ y')
accepted_burst front back x y x' y' c d {cb} {cb'} h n n' e e' =
    crc16_burst_injective front back x y x' y' h (
      seal-eq 0 0 _ _ (omega arith) (omega arith) (
        accepted_states (front ++ (x ∷ y ∷ back)) c d cb n e
        ∙ sym (accepted_states (front ++ (x' ∷ y' ∷ back)) c d cb' n' e')))

-- A list of two bytes or more ends in two bytes.
last_two : (xs : List ℕ) → 2 ≤ length xs → (ys : List ℕ) × (c d : ℕ) × (xs ≡ ys ++ (c ∷ d ∷ []))
last_two [] h = absurd (omega arith)
last_two (x ∷ []) h = absurd (omega arith)
last_two (x ∷ c ∷ []) h = ([], x, c, refl)
last_two (x ∷ y ∷ z ∷ xs) h =
    let (ys, c, d, e) = last_two (y ∷ z ∷ xs) (omega arith) in
    (x ∷ ys, c, d, ap (λ (t : List ℕ). x ∷ t) e)

-- The checksum of a block in the middle of two bytes that may differ.
seal_low :
    (front : List ℕ) (x x' y y' d : ℕ)
    → All IsByte (x ∷ x' ∷ d ∷ [])
    → seal 0 (front ++ (x ∷ [])) ≡ be16 y d
    → seal 0 (front ++ (x' ∷ [])) ≡ be16 y' d
    → x ≡ x'
unfolding seal be16
seal_low front x x' y y' d h e e' = crc16_last_injective front x x' h.0 h.1.0 (
    not16_low _ _ (crc16end_bytes-lt 0 _ (omega arith)) (crc16end_bytes-lt 0 _ (omega arith)) (
      xor_cancel_left 0xa5 _ _ (
        low x
        ∙ ap (λ (t : ℕ). t % 2 ^ 8) e
        ∙ low_or y d h.1.1.0
        ∙ sym (low x' ∙ ap (λ (t : ℕ). t % 2 ^ 8) e' ∙ low_or y' d h.1.1.0))))
  where
    low :
        (v : ℕ)
        → bit_xor 0xa5 (not16 (crc16end (crc16_bytes 0 (front ++ (v ∷ [])))) % 2 ^ 8)
          ≡ seal 0 (front ++ (v ∷ [])) % 2 ^ 8
    low v = unfold seal in xor_comm 0xa5 _ ∙ sym (xor_mod 8 0 _ 0xa5a5)

    low_or : (a b : ℕ) → IsByte b → bit_or (a * 2 ^ 8) b % 2 ^ 8 ≡ b
    low_or a b hb = omega (arith, bit_or_disjoint 8 a b hb)

    not16_low :
        (a b : ℕ)
        → a < 2 ^ 16
        → b < 2 ^ 16
        → not16 a % 2 ^ 8 ≡ not16 b % 2 ^ 8
        → a % 2 ^ 8 ≡ b % 2 ^ 8
    not16_low a b ha hb q = omega arith

-- Two accepted blocks that differ in two neighbouring bytes at most.
accepted_same :
    (front back : List ℕ) (x y x' y' : ℕ) {cb cb' : ControlBlock}
    → All IsByte (x ∷ y ∷ x' ∷ y' ∷ back)
    → length (front ++ (x ∷ y ∷ back)) ≡ 12
    → parse_control_block (front ++ (x ∷ y ∷ back)) ≡ ok cb
    → parse_control_block (front ++ (x' ∷ y' ∷ back)) ≡ ok cb'
    → (x ≡ x') × (y ≡ y')
accepted_same front [] x y x' y' {cb} {cb'} h n e e' =
    let at : length front ≡ 10 = omega (arith, n, length-append front (x ∷ y ∷ [])) in
    be16_injective x y x' y' (h.0, (h.1.0, h.1.1))
      (sym (accepted_states front x y cb at e) ∙ accepted_states front x' y' cb' at e')
accepted_same front (d ∷ []) x y x' y' {cb} {cb'} h n e e' =
    let at : length front ≡ 9 = omega (arith, n, length-append front (x ∷ y ∷ d ∷ [])) in
    let sealed : (v w : ℕ) (b : ControlBlock)
        → parse_control_block (front ++ (v ∷ w ∷ d ∷ [])) ≡ ok b
        → seal 0 (front ++ (v ∷ [])) ≡ be16 w d =
      λ v w b q.
        accepted_states (front ++ (v ∷ [])) w d b (omega (arith, length-append front (v ∷ []), at))
          (ap parse_control_block (append_assoc front (v ∷ []) (w ∷ d ∷ [])) ∙ q) in
    let same =
      seal_low front x x' y y' d (h.0, (h.1.1.0, (h.1.1.1.1.0, tt))) (sealed x y cb e)
        (sealed x' y' cb' e') in
    (
      same,
      (be16_injective y d y' d (h.1.0, (h.1.1.1.1.0, (h.1.1.1.0, (h.1.1.1.1.0, tt))))
          (sym (sealed x y cb e)
            ∙ ap (λ (v : ℕ). seal 0 (front ++ (v ∷ []))) same
            ∙ sealed x' y' cb' e')).0,
    )
accepted_same front (b1 ∷ b2 ∷ back) x y x' y' {cb} {cb'} h n e e' =
    let (mid, c, d, split) = last_two (b1 ∷ b2 ∷ back) (omega arith) in
    let long : (v w : ℕ)
        → front ++ (v ∷ w ∷ b1 ∷ b2 ∷ back) ≡ (front ++ (v ∷ w ∷ mid)) ++ (c ∷ d ∷ []) =
      λ v w.
        ap (λ (t : List ℕ). front ++ (v ∷ w ∷ t)) split
        ∙ sym (append_assoc front (v ∷ w ∷ mid) (c ∷ d ∷ [])) in
    let size : (v w : ℕ) → length (front ++ (v ∷ w ∷ mid)) ≡ 10 = λ v w. omega (
      arith,
      n,
      length-append front (x ∷ y ∷ b1 ∷ b2 ∷ back),
      length-append front (v ∷ w ∷ mid),
      ap (λ (t : List ℕ). length t) split,
      length-append mid (c ∷ d ∷ []),
    ) in
    accepted_burst front mid x y x' y' c d (h.0, (h.1.0, (h.1.1.0, (h.1.1.1.0, tt)))) (size x y)
      (size x' y') (sym (ap parse_control_block (long x y)) ∙ e)
      (sym (ap parse_control_block (long x' y')) ∙ e')

-- An accepted block of twelve bytes that is changed in two neighbouring bytes, wherever they are, so that
-- at least one of them differs, is not accepted: no burst of errors within two neighbouring bytes goes
-- unnoticed, also where it meets the checksum.
pub parse_control_block_detects_burst :
    (front back : List ℕ) (x y x' y' : ℕ) (cb cb' : ControlBlock)
    → All IsByte (x ∷ y ∷ x' ∷ y' ∷ back)
    → length (front ++ (x ∷ y ∷ back)) ≡ 12
    → ¬ ((x ≡ x') × (y ≡ y'))
    → parse_control_block (front ++ (x ∷ y ∷ back)) ≡ ok cb
    → parse_control_block (front ++ (x' ∷ y' ∷ back)) ≢ ok cb'
parse_control_block_detects_burst front back x y x' y' cb cb' h n ne e e' =
    ne (accepted_same front back x y x' y' h n e e')

-- `Bytes` starts the register from the block's own `CRC`. So a block that has data, whose service
-- type, if any, fits five bits, and whose `CRC` is another uint16 than 0, as that of every block
-- that was parsed with another checksum than 0, is written as bytes that the parser refuses.
pub parse-bytes_stale_crc :
    (cb : ControlBlock) (d : ControlBlockData)
    → cb.body ≡ some d
    → cb.crc ≢ 0
    → cb.crc < 2 ^ 16
    → Fits d
    → (b : List ℕ) × (cb' : ControlBlock) × (bytes cb ≡ ok (b, cb'))
      × (parse_control_block b ≡ err crc_mismatch)
parse-bytes_stale_crc cb d e nz hc f =
    let m = image cb (first_byte cb.last d) (second_byte d) (third_byte d) in
    let crc = sealed cb d in
    let fits : crc < 2 ^ 16 = seal-lt cb.crc (take 10 (m 0)) hc in
    (
      m crc,
      record cb { crc = crc; body = some d },
      ap (λ (o : Option ControlBlockData). bytes (record cb { body = o })) e ∙ bytes-image cb d,
      mismatched cb d crc fits (λ same. nz (
          crc16_start_injective cb.crc 0 _ hc (omega arith)
            (seal-eq cb.crc 0 _ _ hc (omega arith) (sym same)))),
    )
  where
    mismatched :
        (cb : ControlBlock) (d : ControlBlockData) (crc : ℕ)
        → crc < 2 ^ 16
        → seal 0 (take 10 (image cb (first_byte cb.last d) (second_byte d) (third_byte d) 0)) ≢ crc
        → parse_control_block (image cb (first_byte cb.last d) (second_byte d) (third_byte d) crc)
          ≡ err crc_mismatch
    mismatched cb d crc h ne =
        unfold parse_control_block in ground (arith, be16-split crc, first_bits cb.last d)

-- ===== src/Trellis/RoundTrip.antt =====
-- The decoder undoes the encoder, on every packet.
use go_dmr.Base.{
  ℕ, zero, suc, ◌+◌, ◌*◌, ◌<◌, ◌≡◌, refl, sym, ap, ap₂, ◌∙◌, ltb, ◌==◌, ◌&&◌, Bool, true, false,
  all_below, all_below_sound, none, some, List, [], ◌∷◌, ◌++◌, length, length-append, get_elem?,
  get_or, zeros, copy, drop_all, take, take-append, All, All-append, has_bits, arith, if◌then◌else◌,
}
use go_dmr.Base.Outcome.{ok}
use mathlib.Core.List.{append_assoc, append-nil}
use go_dmr.Dmr.Bits.{IsBit, IsByte, to_bits, bytes_to_bits, bits_to_bytes}
use go_dmr.Dmr.Bits.RoundTrip.{length-bytes_to_bits, bits_to_bytes-bytes_to_bits}
use go_dmr.Trellis.{
  interleave_matrix, encoder_state_transition, match_row, tribits_from, dibits_of, place, points_of,
  binary_of, decode, extract_dibits, deinterleave, constellation_points, extract_tribits,
  extract_binary,
}
use go_dmr.Trellis.Encode.{group, encode_points, encode_dibits, gather, encode_bits, encode}
use go_dmr.Trellis.Stages.{
  Below, dibits_of-encode_bits, place-gather, gather-IsDibit, length-gather,
  points_of-encode_dibits, encode_dibits-IsDibit,
}

-- A transition, and the row that it is looked for in.
transition : ℕ → ℕ → ℕ
transition last t = get_or encoder_state_transition (last * 8 + t) 0

unfoldable finds : ℕ → ℕ → Bool
unfolding transition
finds last t =
    ltb (transition last t) 16
    && elim (match_row 8 (last * 8) (last * 8) (transition last t) none) [
      | none ↦ false
      | some u ↦ u == t
    ]

all_found : all_below 8 (λ last. all_below 8 (finds last)) ≡ true
unfolding all_below finds match_row
all_found = refl

found :
    (last t : ℕ)
    → last < 8
    → t < 8
    → (get_or encoder_state_transition (last * 8 + t) 0 < 16)
      × (match_row 8 (last * 8) (last * 8) (get_or encoder_state_transition (last * 8 + t) 0) none
          ≡ some t)
unfolding finds
found last t hl ht =
    let e : finds last t ≡ true =
      all_below_sound 8 (finds last)
        (all_below_sound 8 (λ l. all_below 8 (finds l)) all_found last hl) t ht in
    ground (arith, e)

get_middle : (pre post : List ℕ) (x i : ℕ) → i ≡ length pre → get_elem? (pre ++ x ∷ post) i ≡ some x
get_middle [] post x zero e = refl
get_middle [] post x (suc i) e = absurd (omega arith)
get_middle (y ∷ pre) post x zero e = absurd (omega arith)
get_middle (y ∷ pre) post x (suc i) e = get_middle pre post x i (omega arith)

tribits_back :
    (ts pre : List ℕ) (last i : ℕ)
    → last < 8
    → All (Below 8) ts
    → i ≡ length pre
    → tribits_from (length ts) i last (pre ++ encode_points last ts) ≡ ok ts
unfolding tribits_from
tribits_back [] pre last i hl h e = refl
tribits_back (t ∷ ts) pre last i hl h e =
    let (small, same) = found last t hl h.0 in
    let p = get_or encoder_state_transition (last * 8 + t) 0 in
    let read = get_middle pre (encode_points t ts) p i e in
    let rest =
      tribits_back ts (pre ++ p ∷ []) t (i + 1) h.0 h.1
        (omega (arith, length-append pre (p ∷ []))) in
    let rest' : tribits_from (length ts) (i + 1) t (pre ++ p ∷ encode_points t ts) ≡ ok ts =
      ap (tribits_from (length ts) (i + 1) t) (sym (append_assoc pre (p ∷ []) (encode_points t ts)))
      ∙ rest in
    ground (arith, read, same, rest')

points_small :
    (ts : List ℕ) (last : ℕ) → last < 8 → All (Below 8) ts → All (Below 16) (encode_points last ts)
points_small [] last hl h = (ground (arith, found last 0 hl (omega arith)), tt)
points_small (t ∷ ts) last hl h = ((found last t hl h.0).0, points_small ts t h.0 h.1)

length-encode_points : (ts : List ℕ) (last : ℕ) → length (encode_points last ts) ≡ length ts + 1
length-encode_points [] last = refl
length-encode_points (t ∷ ts) last = omega (arith, length-encode_points ts t)

length-encode_dibits : (ps : List ℕ) → length (encode_dibits ps) ≡ 2 * length ps
length-encode_dibits [] = refl
length-encode_dibits (p ∷ ps) = omega (arith, length-encode_dibits ps)

length-encode_bits : (ds : List ℕ) → length (encode_bits ds) ≡ 2 * length ds
length-encode_bits [] = refl
length-encode_bits (d ∷ ds) = omega (arith, length-encode_bits ds)

-- Groups of three bits.
three :
    (a b c : ℕ)
    → IsBit a
    → IsBit b
    → IsBit c
    → ((if has_bits (a * 4 + b * 2 + c) 0b100 then 1 else 0) ≡ a)
      × ((if has_bits (a * 4 + b * 2 + c) 0b010 then 1 else 0) ≡ b)
      × ((if has_bits (a * 4 + b * 2 + c) 0b001 then 1 else 0) ≡ c)
three zero zero zero ha hb hc = (refl, refl, refl)
three zero zero (suc zero) ha hb hc = (refl, refl, refl)
three zero (suc zero) zero ha hb hc = (refl, refl, refl)
three zero (suc zero) (suc zero) ha hb hc = (refl, refl, refl)
three (suc zero) zero zero ha hb hc = (refl, refl, refl)
three (suc zero) zero (suc zero) ha hb hc = (refl, refl, refl)
three (suc zero) (suc zero) zero ha hb hc = (refl, refl, refl)
three (suc zero) (suc zero) (suc zero) ha hb hc = (refl, refl, refl)
three (suc (suc a)) b c ha hb hc = absurd (omega arith)
three a (suc (suc b)) c ha hb hc = absurd (omega arith)
three a b (suc (suc c)) ha hb hc = absurd (omega arith)

binary_of-group :
    (k : ℕ) (bits : List ℕ)
    → length bits ≡ 3 * k
    → All IsBit bits
    → binary_of (group bits) ≡ bits ++ zeros 52
unfolding binary_of
binary_of-group zero [] e h = refl
binary_of-group (suc k) [] e h = absurd (omega arith)
binary_of-group k (a ∷ []) e h = absurd (omega arith)
binary_of-group k (a ∷ b ∷ []) e h = absurd (omega arith)
binary_of-group zero (a ∷ b ∷ c ∷ bits) e h = absurd (omega arith)
binary_of-group (suc k) (a ∷ b ∷ c ∷ bits) e h =
    let (ea, eb, ec) = three a b c h.0 h.1.0 h.1.1.0 in
    let rest = binary_of-group k bits (omega arith) h.1.1.1 in cc

length-group : (k : ℕ) (bits : List ℕ) → length bits ≡ 3 * k → length (group bits) ≡ k
length-group zero [] e = refl
length-group (suc k) [] e = absurd (omega arith)
length-group k (a ∷ []) e = absurd (omega arith)
length-group k (a ∷ b ∷ []) e = absurd (omega arith)
length-group zero (a ∷ b ∷ c ∷ bits) e = absurd (omega arith)
length-group (suc k) (a ∷ b ∷ c ∷ bits) e = ap suc (length-group k bits (omega arith))

group-Below : (bits : List ℕ) → All IsBit bits → All (Below 8) (group bits)
group-Below [] h = tt
group-Below (a ∷ []) h = tt
group-Below (a ∷ b ∷ []) h = tt
group-Below (a ∷ b ∷ c ∷ bits) h = (omega (arith, h.0, h.1.0, h.1.1.0), group-Below bits h.1.1.1)

choice-IsBit : (t : Bool) → IsBit (if t then 0 else 1)
choice-IsBit true = omega arith
choice-IsBit false = omega arith

to_bits-IsBit : (b : ℕ) → All IsBit (to_bits b)
unfolding to_bits
to_bits-IsBit b = (
  choice-IsBit _,
  (
    choice-IsBit _,
    (
      choice-IsBit _,
      (choice-IsBit _, (choice-IsBit _, (choice-IsBit _, (choice-IsBit _, (choice-IsBit _, tt))))),
    ),
  ),
)

bytes_to_bits-IsBit : (bytes : List ℕ) → All IsBit (bytes_to_bits bytes)
unfolding bytes_to_bits
bytes_to_bits-IsBit [] = tt
bytes_to_bits-IsBit (b ∷ bytes) =
    All-append IsBit (to_bits b) (bytes_to_bits bytes) (to_bits-IsBit b) (bytes_to_bits-IsBit bytes)

-- What `Decode` gives where every stage gives something.
stages :
    (bits buffer dibits ordered points tribits binary : List ℕ)
    → length bits ≡ 196
    → length buffer ≡ 18
    → dibits_of bits ≡ dibits
    → length dibits ≡ 98
    → place interleave_matrix dibits (zeros 98) ≡ ordered
    → length ordered ≡ 98
    → points_of ordered ≡ points
    → tribits_from 48 0 0 points ≡ ok tribits
    → length tribits ≡ 48
    → binary_of tribits ≡ binary
    → decode bits buffer ≡ ok (copy buffer (bits_to_bytes binary))
unfolding decode extract_dibits deinterleave constellation_points extract_tribits extract_binary
stages bits buffer dibits ordered points tribits binary l1 l2 e1 l3 e2 l4 e3 e4 l5 e5 =
    ground (arith, l1, l2, e1, l3, e2, l4, e3, e4, l5, e5)

copy_front :
    (bytes rest buffer : List ℕ)
    → length bytes ≡ length buffer
    → copy buffer (bytes ++ rest) ≡ bytes
unfolding copy
copy_front bytes rest buffer e =
    ap₂ (λ (a b : List ℕ). a ++ b)
      (ap (λ (n : ℕ). take n (bytes ++ rest)) (sym e) ∙ take-append bytes rest)
      (drop_all (length (bytes ++ rest)) buffer (omega (arith, e, length-append bytes rest)))
    ∙ append-nil bytes

-- For every packet of 18 bytes, `Decode` of the 196 bits that the standard's encoder makes of it fills a
-- buffer of 18 bytes with the packet, and reports no error.
pub decode-encode :
    (bytes buffer : List ℕ)
    → length bytes ≡ 18
    → All IsByte bytes
    → length buffer ≡ 18
    → decode (encode bytes) buffer ≡ ok bytes
unfolding encode
decode-encode bytes buffer size h room =
    let bits = bytes_to_bits bytes in
    let bits_size : length bits ≡ 3 * 48 = omega (arith, length-bytes_to_bits bytes) in
    let all_bits = bytes_to_bits-IsBit bytes in
    let ts = group bits in
    let ts_size : length ts ≡ 48 = length-group 48 bits bits_size in
    let ps = encode_points 0 ts in
    let small = points_small ts 0 (omega arith) (group-Below bits all_bits) in
    let ds = encode_dibits ps in
    let ds_size : length ds ≡ 98 =
      omega (arith, length-encode_dibits ps, length-encode_points ts 0, ts_size) in
    let good = encode_dibits-IsDibit ps small in
    let sent = gather interleave_matrix ds in
    let sent_size = length-gather interleave_matrix ds in
    let out_size : length (encode_bits sent) ≡ 196 =
      omega (arith, length-encode_bits sent, sent_size) in
    let e1 : dibits_of (encode_bits sent) ≡ sent =
      dibits_of-encode_bits sent (gather-IsDibit ds ds_size good) in
    let e2 = place-gather ds ds_size in
    let e3 = points_of-encode_dibits ps small in
    let e4 : tribits_from 48 0 0 ps ≡ ok ts =
      ap (λ (n : ℕ). tribits_from n 0 0 ps) (sym ts_size)
      ∙ tribits_back ts [] 0 0 (omega arith) (group-Below bits all_bits) refl in
    let e5 : binary_of ts ≡ bits ++ zeros 52 = binary_of-group 48 bits bits_size all_bits in
    let e6 : bits_to_bytes (bits ++ zeros 52) ≡ bytes ++ zeros 7 =
      bits_to_bytes-bytes_to_bits bytes 52 h in
    stages (encode_bits sent) buffer sent ds ps ts (bits ++ zeros 52) out_size room e1 sent_size e2
      ds_size e3 e4 ts_size e5
    ∙ ap (λ (t : List ℕ). ok (copy buffer t)) e6
    ∙ ap (λ (t : List ℕ). ok t) (copy_front bytes (zeros 7) buffer (omega arith))

-- ===== src/Dmr/DataBlock/Append.antt =====
-- data.go: what a block adds to the fragment that is put together, and the checksum in its last bytes.
use go_dmr.Base.{
  ℕ, ◌+◌, ◌-◌, ◌*◌, ◌/◌, ◌%◌, ◌^◌, ◌≤◌, ◌<◌, ◌≡◌, sym, ap, ◌∙◌, bit_or, ltb, Bool, Bool-cases, true,
  false, inl, inr, List, ◌++◌, length, length-append, length-take, length-drop, length-set,
  length-copy, length-zeros, get_or, get_or-append, get_or-append_left, get_or-take, get_or-drop,
  get_or-zeros, get_or-copy_src, get_or-copy_dst, get_or-set_self, get_or-set_ne, set, take, drop,
  zeros, copy, u8, arith, if◌then◌else◌,
}
use mathlib.Core.Path.{subst}
use go_dmr.Base.Bits.Fields.{bit_or_comm, bit_or-zero, bit_or_disjoint}
use go_dmr.Dmr.DataBlock.{DataBlock, DataFragment, put_crc, append_block}

-- The bytes of a fragment, with zeros behind them.
abbrev pub padded : List ℕ → ℕ → ℕ → ℕ
padded bytes stored j = if ltb j stored then get_or bytes j 0 else 0

-- A list of `size` bytes from place `start` of the fragment.
pub get_or-filled :
    (bytes : List ℕ) (stored size start taken j : ℕ)
    → stored ≤ length bytes
    → taken ≡ (if ltb stored start then stored else start)
    → j < size
    → get_or
        (copy
          (zeros size)
          (take (if ltb (stored - taken) size then stored - taken else size) (drop taken bytes)))
        j
        0
      ≡ padded bytes stored (start + j)
get_or-filled bytes stored size start taken j h e lt =
    let store = if ltb (stored - taken) size then stored - taken else size in
    let src = take store (drop taken bytes) in
    let store-le : (store ≤ size) × (store ≤ stored - taken) = (ground arith, ground arith) in
    let taken-le : taken ≤ stored = ground (arith, e) in
    let src_size : length src ≡ store =
      length-take store (drop taken bytes)
        (omega (arith, length-drop taken bytes, store-le.1, h)) in
    let room : length src ≤ length (zeros size) =
      omega (arith, src_size, store-le.0, length-zeros size) in
    elim (Bool-cases (ltb j store)) [
      | inl inside ↦
          get_or-copy_src (zeros size) src j room (ground (arith, src_size, inside))
          ∙ get_or-take store (drop taken bytes) j 0 (ground (arith, inside))
          ∙ get_or-drop taken bytes j 0
          ∙ ap (λ (k : ℕ). get_or bytes (k + j) 0)
              (let same : taken ≡ start = ground (arith, e, inside) in same)
          ∙ sym (
              ap (λ (t : Bool). if t then get_or bytes (start + j) 0 else 0)
                (let within : ltb (start + j) stored ≡ true = ground (arith, e, inside) in within))
      | inr behind ↦
          let at : length src + (j - length src) ≡ j = ground (arith, src_size, behind) in
          ap (λ (k : ℕ). get_or (copy (zeros size) src) k 0) (sym at)
          ∙ get_or-copy_dst (zeros size) src (j - length src) room
          ∙ get_or-zeros size (length src + (j - length src))
          ∙ sym (
              ap (λ (t : Bool). if t then get_or bytes (start + j) 0 else 0)
                (let beyond : ltb (start + j) stored ≡ false = ground (arith, e, behind) in beyond))
    ]

-- A fragment at work: so many bytes are stored, and the first of them are as `p` says.
pub record Filled (g : DataFragment) (stored known : ℕ) (p : ℕ → ℕ) : Type 0 where
  pub whole : length g.bytes_ ≡ 1500
  pub count : g.stored ≡ stored
  pub content : (j : ℕ) → j < known → get_or g.bytes_ j 0 ≡ p j

append-Filled :
    (g : DataFragment) (b : DataBlock) (m k : ℕ) (p : ℕ → ℕ)
    → Filled g m m p
    → length b.bytes_ ≡ b.size
    → m + b.size ≤ 1500
    → k ≤ b.size
    → ((j : ℕ) → j < k → get_or b.bytes_ j 0 ≡ p (m + j))
    → Filled (append_block g b) (m + b.size) (m + k) p
unfolding append_block
append-Filled g b m k p v e room le h =
    let first = take g.stored g.bytes_ in
    let free = drop g.stored g.bytes_ in
    let src = take b.size b.bytes_ in
    let first_size : length first ≡ m =
      length-take g.stored g.bytes_ (omega (arith, v.whole, v.count, room)) ∙ v.count in
    let free_size = length-drop g.stored g.bytes_ in
    let src_size : length src ≡ b.size = length-take b.size b.bytes_ (omega (arith, e)) in
    let fits : length src ≤ length free =
      omega (arith, src_size, free_size, v.whole, v.count, room) in
    record {
      whole =
          length-append first (copy free src)
          ∙ omega (arith, first_size, length-copy free src fits, free_size, v.whole, v.count, room);
      count = ap (λ (n : ℕ). n + b.size) v.count;
      content = λ j lt. elim (Bool-cases (ltb j m)) [
        | inl old ↦
            get_or-append_left first (copy free src) j 0 (ground (arith, first_size, old))
            ∙ get_or-take g.stored g.bytes_ j 0 (ground (arith, old, v.count))
            ∙ v.content j (ground (arith, old))
        | inr new ↦
            let at : length first + (j - m) ≡ j = ground (arith, first_size, new) in
            let inside : j - m < k = ground (arith, new, lt) in
            ap (λ (i : ℕ). get_or (first ++ copy free src) i 0) (sym at)
            ∙ get_or-append first (copy free src) (j - m) 0
            ∙ get_or-copy_src free src (j - m) fits (omega (arith, src_size, inside, le))
            ∙ get_or-take b.size b.bytes_ (j - m) 0 (omega (arith, inside, le))
            ∙ h (j - m) inside
            ∙ ap p (let back : m + (j - m) ≡ j = ground (arith, new) in back)
      ];
    }

pub append_sized :
    (g : DataFragment) (b : DataBlock) (m k size : ℕ) (p : ℕ → ℕ)
    → Filled g m m p
    → length b.bytes_ ≡ size
    → b.size ≡ size
    → m + size ≤ 1500
    → k ≤ size
    → ((j : ℕ) → j < k → get_or b.bytes_ j 0 ≡ p (m + j))
    → Filled (append_block g b) (m + size) (m + k) p
append_sized g b m k size p v e s room le h =
    subst (λ (n : ℕ). Filled (append_block g b) (m + n) (m + k) p) s
      (append-Filled g b m k p v (e ∙ sym s) (omega (arith, s, room)) (omega (arith, s, le)) h)

-- Four bytes of a number of 32 bits, lowest first.
pub four_bytes :
    (x : ℕ)
    → x < 2 ^ 32
    → bit_or
        (bit_or (bit_or (bit_or 0 (u8 x)) (u8 (x / 2 ^ 8) * 2 ^ 8)) (u8 (x / 2 ^ 16) * 2 ^ 16))
        (u8 (x / 2 ^ 24) * 2 ^ 24)
      ≡ x
four_bytes x h =
    let e0 : bit_or 0 (u8 x) ≡ x % 2 ^ 8 = bit_or_comm 0 (u8 x) ∙ bit_or-zero (u8 x) in
    let e1 =
      ap (λ (t : ℕ). bit_or t (u8 (x / 2 ^ 8) * 2 ^ 8)) e0
      ∙ bit_or_comm (x % 2 ^ 8) (u8 (x / 2 ^ 8) * 2 ^ 8)
      ∙ bit_or_disjoint 8 (u8 (x / 2 ^ 8)) (x % 2 ^ 8) (omega arith)
      ∙ (let e : u8 (x / 2 ^ 8) * 2 ^ 8 + x % 2 ^ 8 ≡ x % 2 ^ 16 = omega arith in e) in
    let e2 =
      ap (λ (t : ℕ). bit_or t (u8 (x / 2 ^ 16) * 2 ^ 16)) e1
      ∙ bit_or_comm (x % 2 ^ 16) (u8 (x / 2 ^ 16) * 2 ^ 16)
      ∙ bit_or_disjoint 16 (u8 (x / 2 ^ 16)) (x % 2 ^ 16) (omega arith)
      ∙ (let e : u8 (x / 2 ^ 16) * 2 ^ 16 + x % 2 ^ 16 ≡ x % 2 ^ 24 = omega arith in e) in
    ap (λ (t : ℕ). bit_or t (u8 (x / 2 ^ 24) * 2 ^ 24)) e2
    ∙ bit_or_comm (x % 2 ^ 24) (u8 (x / 2 ^ 24) * 2 ^ 24)
    ∙ bit_or_disjoint 24 (u8 (x / 2 ^ 24)) (x % 2 ^ 24) (omega arith)
    ∙ omega arith

-- The checksum in the last four bytes.
pub put_crc_front :
    (bytes : List ℕ) (size crc j : ℕ)
    → 4 ≤ size
    → j < size - 4
    → get_or (put_crc bytes size crc) j 0 ≡ get_or bytes j 0
unfolding put_crc
put_crc_front bytes size crc j h lt =
    get_or-set_ne _ (size - 4) j _ 0 (λ e. omega arith)
    ∙ get_or-set_ne _ (size - 3) j _ 0 (λ e. omega arith)
    ∙ get_or-set_ne _ (size - 2) j _ 0 (λ e. omega arith)
    ∙ get_or-set_ne bytes (size - 1) j _ 0 (λ e. omega arith)

pub length-put_crc :
    (bytes : List ℕ) (size crc : ℕ) → length (put_crc bytes size crc) ≡ length bytes
unfolding put_crc
length-put_crc bytes size crc =
    length-set _ (size - 4) _
    ∙ length-set _ (size - 3) _
    ∙ length-set _ (size - 2) _
    ∙ length-set bytes (size - 1) _

pub put_crc_back :
    (bytes : List ℕ) (size crc : ℕ)
    → length bytes ≡ size
    → 4 ≤ size
    → (get_or (put_crc bytes size crc) (size - 4) 0 ≡ u8 crc)
      × (get_or (put_crc bytes size crc) (size - 3) 0 ≡ u8 (crc / 2 ^ 8))
      × (get_or (put_crc bytes size crc) (size - 2) 0 ≡ u8 (crc / 2 ^ 16))
      × (get_or (put_crc bytes size crc) (size - 1) 0 ≡ u8 (crc / 2 ^ 24))
unfolding put_crc
put_crc_back bytes size crc e h =
    let s1 = set bytes (size - 1) (u8 (crc / 2 ^ 24)) in
    let s2 = set s1 (size - 2) (u8 (crc / 2 ^ 16)) in
    let s3 = set s2 (size - 3) (u8 (crc / 2 ^ 8)) in
    let l1 : length s1 ≡ size = length-set bytes (size - 1) _ ∙ e in
    let l2 : length s2 ≡ size = length-set s1 (size - 2) _ ∙ l1 in
    let l3 : length s3 ≡ size = length-set s2 (size - 3) _ ∙ l2 in
    (
      get_or-set_self s3 (size - 4) _ 0 (omega (arith, l3)),
      get_or-set_ne s3 (size - 4) (size - 3) _ 0 (λ x. omega arith)
          ∙ get_or-set_self s2 (size - 3) _ 0 (omega (arith, l2)),
      get_or-set_ne s3 (size - 4) (size - 2) _ 0 (λ x. omega arith)
          ∙ get_or-set_ne s2 (size - 3) (size - 2) _ 0 (λ x. omega arith)
          ∙ get_or-set_self s1 (size - 2) _ 0 (omega (arith, l1)),
      get_or-set_ne s3 (size - 4) (size - 1) _ 0 (λ x. omega arith)
          ∙ get_or-set_ne s2 (size - 3) (size - 1) _ 0 (λ x. omega arith)
          ∙ get_or-set_ne s1 (size - 2) (size - 1) _ 0 (λ x. omega arith)
          ∙ get_or-set_self bytes (size - 1) _ 0 (omega (arith, e)),
    )

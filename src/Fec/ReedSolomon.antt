-- ===== src/Fec/ReedSolomon.antt =====
-- fec/rs_12_9.go: the field of 256 elements by its tables, and polynomials over it. A polynomial is a
-- list of six bytes.
pub mod Correct
pub mod Table
use go_dmr.Base.{
  ℕ, zero, suc, ◌+◌, ◌-◌, ◌*◌, ◌%◌, bit_xor, ltb, leb, ◌==◌, ◌&&◌, ◌||◌, Bool, true, false,
  if◌then◌else◌, List, [], ◌∷◌, length, get_or, set, zeros, u8,
}

abbrev pub data_size : ℕ
data_size = 9

abbrev pub checksum_size : ℕ
checksum_size = 3

abbrev pub poly_max_deg : ℕ
poly_max_deg = 6

abbrev pub exp_table : List ℕ
exp_table =
    0x01 ∷ 0x02 ∷ 0x04 ∷ 0x08 ∷ 0x10 ∷ 0x20 ∷ 0x40 ∷ 0x80 ∷ 0x1d ∷ 0x3a ∷ 0x74 ∷ 0xe8 ∷ 0xcd ∷ 0x87
    ∷ 0x13 ∷ 0x26 ∷ 0x4c ∷ 0x98 ∷ 0x2d ∷ 0x5a ∷ 0xb4 ∷ 0x75 ∷ 0xea ∷ 0xc9 ∷ 0x8f ∷ 0x03 ∷ 0x06
    ∷ 0x0c ∷ 0x18 ∷ 0x30 ∷ 0x60 ∷ 0xc0 ∷ 0x9d ∷ 0x27 ∷ 0x4e ∷ 0x9c ∷ 0x25 ∷ 0x4a ∷ 0x94 ∷ 0x35
    ∷ 0x6a ∷ 0xd4 ∷ 0xb5 ∷ 0x77 ∷ 0xee ∷ 0xc1 ∷ 0x9f ∷ 0x23 ∷ 0x46 ∷ 0x8c ∷ 0x05 ∷ 0x0a ∷ 0x14
    ∷ 0x28 ∷ 0x50 ∷ 0xa0 ∷ 0x5d ∷ 0xba ∷ 0x69 ∷ 0xd2 ∷ 0xb9 ∷ 0x6f ∷ 0xde ∷ 0xa1 ∷ 0x5f ∷ 0xbe
    ∷ 0x61 ∷ 0xc2 ∷ 0x99 ∷ 0x2f ∷ 0x5e ∷ 0xbc ∷ 0x65 ∷ 0xca ∷ 0x89 ∷ 0x0f ∷ 0x1e ∷ 0x3c ∷ 0x78
    ∷ 0xf0 ∷ 0xfd ∷ 0xe7 ∷ 0xd3 ∷ 0xbb ∷ 0x6b ∷ 0xd6 ∷ 0xb1 ∷ 0x7f ∷ 0xfe ∷ 0xe1 ∷ 0xdf ∷ 0xa3
    ∷ 0x5b ∷ 0xb6 ∷ 0x71 ∷ 0xe2 ∷ 0xd9 ∷ 0xaf ∷ 0x43 ∷ 0x86 ∷ 0x11 ∷ 0x22 ∷ 0x44 ∷ 0x88 ∷ 0x0d
    ∷ 0x1a ∷ 0x34 ∷ 0x68 ∷ 0xd0 ∷ 0xbd ∷ 0x67 ∷ 0xce ∷ 0x81 ∷ 0x1f ∷ 0x3e ∷ 0x7c ∷ 0xf8 ∷ 0xed
    ∷ 0xc7 ∷ 0x93 ∷ 0x3b ∷ 0x76 ∷ 0xec ∷ 0xc5 ∷ 0x97 ∷ 0x33 ∷ 0x66 ∷ 0xcc ∷ 0x85 ∷ 0x17 ∷ 0x2e
    ∷ 0x5c ∷ 0xb8 ∷ 0x6d ∷ 0xda ∷ 0xa9 ∷ 0x4f ∷ 0x9e ∷ 0x21 ∷ 0x42 ∷ 0x84 ∷ 0x15 ∷ 0x2a ∷ 0x54
    ∷ 0xa8 ∷ 0x4d ∷ 0x9a ∷ 0x29 ∷ 0x52 ∷ 0xa4 ∷ 0x55 ∷ 0xaa ∷ 0x49 ∷ 0x92 ∷ 0x39 ∷ 0x72 ∷ 0xe4
    ∷ 0xd5 ∷ 0xb7 ∷ 0x73 ∷ 0xe6 ∷ 0xd1 ∷ 0xbf ∷ 0x63 ∷ 0xc6 ∷ 0x91 ∷ 0x3f ∷ 0x7e ∷ 0xfc ∷ 0xe5
    ∷ 0xd7 ∷ 0xb3 ∷ 0x7b ∷ 0xf6 ∷ 0xf1 ∷ 0xff ∷ 0xe3 ∷ 0xdb ∷ 0xab ∷ 0x4b ∷ 0x96 ∷ 0x31 ∷ 0x62
    ∷ 0xc4 ∷ 0x95 ∷ 0x37 ∷ 0x6e ∷ 0xdc ∷ 0xa5 ∷ 0x57 ∷ 0xae ∷ 0x41 ∷ 0x82 ∷ 0x19 ∷ 0x32 ∷ 0x64
    ∷ 0xc8 ∷ 0x8d ∷ 0x07 ∷ 0x0e ∷ 0x1c ∷ 0x38 ∷ 0x70 ∷ 0xe0 ∷ 0xdd ∷ 0xa7 ∷ 0x53 ∷ 0xa6 ∷ 0x51
    ∷ 0xa2 ∷ 0x59 ∷ 0xb2 ∷ 0x79 ∷ 0xf2 ∷ 0xf9 ∷ 0xef ∷ 0xc3 ∷ 0x9b ∷ 0x2b ∷ 0x56 ∷ 0xac ∷ 0x45
    ∷ 0x8a ∷ 0x09 ∷ 0x12 ∷ 0x24 ∷ 0x48 ∷ 0x90 ∷ 0x3d ∷ 0x7a ∷ 0xf4 ∷ 0xf5 ∷ 0xf7 ∷ 0xf3 ∷ 0xfb
    ∷ 0xeb ∷ 0xcb ∷ 0x8b ∷ 0x0b ∷ 0x16 ∷ 0x2c ∷ 0x58 ∷ 0xb0 ∷ 0x7d ∷ 0xfa ∷ 0xe9 ∷ 0xcf ∷ 0x83
    ∷ 0x1b ∷ 0x36 ∷ 0x6c ∷ 0xd8 ∷ 0xad ∷ 0x47 ∷ 0x8e ∷ 0x01 ∷ []

-- The 254 elements that the array is given.
abbrev pub log_table : List ℕ
log_table =
    0 ∷ 0 ∷ 1 ∷ 25 ∷ 2 ∷ 50 ∷ 26 ∷ 198 ∷ 3 ∷ 223 ∷ 51 ∷ 238 ∷ 27 ∷ 104 ∷ 199 ∷ 75 ∷ 4 ∷ 100 ∷ 224
    ∷ 14 ∷ 52 ∷ 141 ∷ 239 ∷ 129 ∷ 28 ∷ 193 ∷ 105 ∷ 248 ∷ 200 ∷ 8 ∷ 76 ∷ 113 ∷ 5 ∷ 138 ∷ 101 ∷ 47
    ∷ 225 ∷ 36 ∷ 15 ∷ 33 ∷ 53 ∷ 147 ∷ 142 ∷ 218 ∷ 240 ∷ 18 ∷ 130 ∷ 69 ∷ 29 ∷ 181 ∷ 194 ∷ 125 ∷ 106
    ∷ 39 ∷ 249 ∷ 185 ∷ 201 ∷ 154 ∷ 9 ∷ 120 ∷ 77 ∷ 228 ∷ 114 ∷ 166 ∷ 6 ∷ 191 ∷ 139 ∷ 98 ∷ 102 ∷ 221
    ∷ 48 ∷ 253 ∷ 226 ∷ 152 ∷ 37 ∷ 179 ∷ 16 ∷ 145 ∷ 34 ∷ 136 ∷ 54 ∷ 208 ∷ 148 ∷ 206 ∷ 143 ∷ 150 ∷ 219
    ∷ 189 ∷ 241 ∷ 210 ∷ 19 ∷ 92 ∷ 131 ∷ 56 ∷ 70 ∷ 64 ∷ 30 ∷ 66 ∷ 182 ∷ 163 ∷ 195 ∷ 72 ∷ 126 ∷ 110
    ∷ 107 ∷ 58 ∷ 40 ∷ 84 ∷ 250 ∷ 133 ∷ 186 ∷ 61 ∷ 202 ∷ 94 ∷ 155 ∷ 159 ∷ 10 ∷ 21 ∷ 121 ∷ 43 ∷ 78
    ∷ 212 ∷ 229 ∷ 172 ∷ 115 ∷ 243 ∷ 167 ∷ 87 ∷ 7 ∷ 112 ∷ 192 ∷ 247 ∷ 140 ∷ 128 ∷ 99 ∷ 13 ∷ 103 ∷ 74
    ∷ 222 ∷ 237 ∷ 49 ∷ 197 ∷ 254 ∷ 24 ∷ 227 ∷ 165 ∷ 153 ∷ 119 ∷ 38 ∷ 184 ∷ 180 ∷ 124 ∷ 17 ∷ 68 ∷ 146
    ∷ 217 ∷ 35 ∷ 32 ∷ 137 ∷ 46 ∷ 55 ∷ 63 ∷ 209 ∷ 91 ∷ 149 ∷ 188 ∷ 207 ∷ 205 ∷ 144 ∷ 135 ∷ 151 ∷ 178
    ∷ 220 ∷ 252 ∷ 190 ∷ 97 ∷ 242 ∷ 86 ∷ 211 ∷ 171 ∷ 20 ∷ 42 ∷ 93 ∷ 158 ∷ 132 ∷ 60 ∷ 57 ∷ 83 ∷ 71
    ∷ 109 ∷ 65 ∷ 162 ∷ 31 ∷ 45 ∷ 67 ∷ 216 ∷ 183 ∷ 123 ∷ 164 ∷ 118 ∷ 196 ∷ 23 ∷ 73 ∷ 236 ∷ 127 ∷ 12
    ∷ 111 ∷ 246 ∷ 108 ∷ 161 ∷ 59 ∷ 82 ∷ 41 ∷ 157 ∷ 85 ∷ 170 ∷ 251 ∷ 96 ∷ 134 ∷ 177 ∷ 187 ∷ 204 ∷ 62
    ∷ 90 ∷ 203 ∷ 89 ∷ 95 ∷ 176 ∷ 156 ∷ 169 ∷ 160 ∷ 81 ∷ 11 ∷ 245 ∷ 22 ∷ 235 ∷ 122 ∷ 117 ∷ 44 ∷ 215
    ∷ 79 ∷ 174 ∷ 213 ∷ 233 ∷ 230 ∷ 231 ∷ 173 ∷ 232 ∷ 116 ∷ 214 ∷ 244 ∷ 234 ∷ 168 ∷ 80 ∷ []

-- The array of 256: the elements that it is not given are 0.
unfoldable pub log_of : ℕ → ℕ
log_of a = get_or log_table a 0

unfoldable pub galois_inv : ℕ → ℕ
galois_inv elt = get_or exp_table (255 - log_of elt) 0

-- The sum of the logarithms is a uint8.
unfoldable pub galois_mul : ℕ → ℕ → ℕ
galois_mul a b = if a == 0 || b == 0 then 0 else get_or exp_table (u8 (log_of a + log_of b) % 255) 0

-- The loop of `MulPolyZ`, downwards from `i`.
unfoldable pub mul_poly_z_from : ℕ → List ℕ → List ℕ
mul_poly_z_from zero poly = poly
mul_poly_z_from (suc i) poly = mul_poly_z_from i (set poly (suc i) (get_or poly i 0))

unfoldable pub mul_poly_z : List ℕ → List ℕ
mul_poly_z poly = set (mul_poly_z_from (poly_max_deg - 1) poly) 0 0

-- The loop of `MulPolys` that scales: `n` rounds from `j` on.
unfoldable pub scale : ℕ → ℕ → List ℕ → ℕ → List ℕ → List ℕ
scale zero j p c tmp = tmp
scale (suc n) j p c tmp = scale n (j + 1) p c (set tmp j (galois_mul (get_or p j 0) c))

-- The loop that shifts, downwards from `j` and only while `j` is below 11; below 0 the uint8 is 255.
unfoldable pub shift_up : ℕ → ℕ → List ℕ → List ℕ
shift_up zero i tmp =
    if leb i 0 && ltb 0 (poly_max_deg * 2 - 1) then set tmp 0 (get_or tmp (0 - i) 0) else tmp
shift_up (suc j) i tmp =
    let rest = shift_up j i (set tmp (suc j) (get_or tmp (suc j - i) 0)) in
    if leb i (suc j) && ltb (suc j) (poly_max_deg * 2 - 1) then rest else tmp

-- Zeros from `j` on, `n` of them.
unfoldable pub clear : ℕ → ℕ → List ℕ → List ℕ
clear zero j tmp = tmp
clear (suc n) j tmp = clear n (j + 1) (set tmp j 0)

-- `dst[j] ^= tmp[j]`, `n` rounds from `j` on.
unfoldable pub add_into : ℕ → ℕ → List ℕ → List ℕ → List ℕ
add_into zero j tmp dst = dst
add_into (suc n) j tmp dst =
    add_into n (j + 1) tmp (set dst j (bit_xor (get_or dst j 0) (get_or tmp j 0)))

-- The outer loop of `MulPolys`: `n` rounds from `i` on.
unfoldable pub partial_products : ℕ → ℕ → List ℕ → List ℕ → List ℕ → List ℕ → List ℕ
partial_products zero i p1 p2 tmp dst = dst
partial_products (suc n) i p1 p2 tmp dst =
    let emptied = clear poly_max_deg poly_max_deg tmp in
    let scaled = scale poly_max_deg 0 p2 (get_or p1 i 0) emptied in
    let moved = clear i 0 (shift_up (poly_max_deg * 2 - 1) i scaled) in
    partial_products n (i + 1) p1 p2 moved (add_into (poly_max_deg * 2) 0 moved dst)

-- `MulPolys`, whose twelve bytes of `dst` are set to 0 first.
unfoldable pub mul_polys : List ℕ → List ℕ → List ℕ
mul_polys p1 p2 =
    partial_products poly_max_deg 0 p1 p2 (zeros (poly_max_deg * 2)) (zeros (poly_max_deg * 2))

-- The product's three lowest coefficients, then zeros.
unfoldable pub calc_error_evaluator_poly : List ℕ → List ℕ → List ℕ
calc_error_evaluator_poly locator syndrome =
    let product = mul_polys locator syndrome in
    get_or product 0 0 ∷ get_or product 1 0 ∷ get_or product 2 0 ∷ 0 ∷ 0 ∷ 0 ∷ []

-- The loop of `CalcDiscrepancy`: `rounds` from `i` on. `L` is never above `n`.
unfoldable pub discrepancy_from : ℕ → ℕ → List ℕ → List ℕ → ℕ → ℕ → ℕ
discrepancy_from zero i locator syndrome n sum = sum
discrepancy_from (suc rounds) i locator syndrome n sum =
    discrepancy_from rounds (i + 1) locator syndrome n
      (bit_xor sum (galois_mul (get_or locator i 0) (get_or syndrome (n - i) 0)))

unfoldable pub calc_discrepancy : List ℕ → List ℕ → ℕ → ℕ → ℕ
calc_discrepancy locator syndrome l n = discrepancy_from l 0 locator syndrome n 0

-- The variables of `Calc` that its loop changes. The int8 `k` starts at -1: this is `k + 1`.
pub record Search : Type 0 where
  pub locator : List ℕ
  pub correction : List ℕ
  pub degree : ℕ
  pub next_k : ℕ

-- `locator[i] ^ Galois_Mul(d, D[i])` for every `i`.
unfoldable pub minus : List ℕ → ℕ → List ℕ → List ℕ
minus [] d ds = []
minus (x ∷ xs) d ds =
    bit_xor x (galois_mul d (get_or ds 0 0)) ∷ minus xs d (elim ds [ [] ↦ [] | _ ∷ rest ↦ rest ])

-- `Galois_Mul(locator[i], c)` for every `i`.
unfoldable pub times : List ℕ → ℕ → List ℕ
times [] c = []
times (x ∷ xs) c = galois_mul x c ∷ times xs c

-- One round of `Calc`, at `n`: `n - k` is `n + 1 - next_k`.
unfoldable pub calc_round : List ℕ → ℕ → Search → Search
calc_round syndrome n s =
    let d = calc_discrepancy s.locator syndrome s.degree n in
    let psi2 = minus s.locator d s.correction in
    let turned =
      if d == 0
      then s
      else if ltb (s.degree + s.next_k) (n + 1)
      then record {
        locator = psi2;
        correction = times s.locator (galois_inv d);
        degree = n + 1 - s.next_k;
        next_k = n + 1 - s.degree;
      }
      else record s { locator = psi2 } in
    record turned { correction = mul_poly_z turned.correction }

unfoldable pub calc_rounds : ℕ → ℕ → List ℕ → Search → Search
calc_rounds zero n syndrome s = s
calc_rounds (suc rounds) n syndrome s =
    calc_rounds rounds (n + 1) syndrome (calc_round syndrome n s)

-- `Calc`: the error locator and the error evaluator.
unfoldable pub calc : List ℕ → List ℕ × List ℕ
calc syndrome =
    let start : Search = record {
      locator = 1 ∷ 0 ∷ 0 ∷ 0 ∷ 0 ∷ 0 ∷ [];
      correction = 0 ∷ 1 ∷ 0 ∷ 0 ∷ 0 ∷ 0 ∷ [];
      degree = 0;
      next_k = 0;
    } in
    let locator = (calc_rounds checksum_size 0 syndrome start).locator in
    (locator, calc_error_evaluator_poly locator syndrome)

-- The loop of `FindRoots` over `k`: `n` rounds from `k` on.
unfoldable pub value_at : ℕ → ℕ → ℕ → List ℕ → ℕ → ℕ
value_at zero k r locator sum = sum
value_at (suc n) k r locator sum =
    value_at n (k + 1) r locator
      (bit_xor sum (galois_mul (get_or exp_table (k * r % 255) 0) (get_or locator k 0)))

-- The loop over `r`: `n` rounds up to 255, the last of them for 255.
unfoldable pub roots_from : ℕ → List ℕ → List ℕ
roots_from zero locator = []
roots_from (suc n) locator =
    let r = 255 - n in
    let rest = roots_from n locator in
    if value_at (checksum_size + 1) 0 r locator 0 == 0 then u8 (255 - r) ∷ rest else rest

unfoldable pub find_roots : List ℕ → List ℕ
find_roots locator = roots_from 255 locator

-- ===== src/Trellis/Encode.antt =====
-- The encoder of the standard, which the decoder is measured by: from the initial state 0, three bits at a
-- time, with three zero bits at the end.
use go_dmr.Base.{ℕ, ◌+◌, ◌*◌, ◌==◌, if◌then◌else◌, List, [], ◌∷◌, get_or}
use go_dmr.Dmr.Bits.{bytes_to_bits}
use go_dmr.Trellis.{interleave_matrix, encoder_state_transition, minus_three}

-- Three bits as a number.
abbrev pub group : List ℕ → List ℕ
group (a ∷ b ∷ c ∷ bits) = (a * 4 + b * 2 + c) ∷ group bits
group _ = []

-- The constellation point of each, and the state that it leads to.
abbrev pub encode_points : ℕ → List ℕ → List ℕ
encode_points last [] = get_or encoder_state_transition (last * 8) 0 ∷ []
encode_points last (t ∷ tribits) =
    get_or encoder_state_transition (last * 8 + t) 0 ∷ encode_points t tribits

-- The two dibits of each of the sixteen points.
abbrev pub first_dibits : List ℕ
first_dibits = 1 ∷ 255 ∷ 3 ∷ 253 ∷ 253 ∷ 3 ∷ 255 ∷ 1 ∷ 253 ∷ 3 ∷ 255 ∷ 1 ∷ 1 ∷ 255 ∷ 3 ∷ 253 ∷ []

abbrev pub second_dibits : List ℕ
second_dibits = 255 ∷ 255 ∷ 253 ∷ 253 ∷ 255 ∷ 255 ∷ 253 ∷ 253 ∷ 3 ∷ 3 ∷ 1 ∷ 1 ∷ 3 ∷ 3 ∷ 1 ∷ 1 ∷ []

abbrev pub encode_dibits : List ℕ → List ℕ
encode_dibits [] = []
encode_dibits (p ∷ points) =
    get_or first_dibits p 0 ∷ get_or second_dibits p 0 ∷ encode_dibits points

-- The dibits in the order of the matrix.
abbrev pub gather : List ℕ → List ℕ → List ℕ
gather [] dibits = []
gather (m ∷ matrix) dibits = get_or dibits m 0 ∷ gather matrix dibits

abbrev pub encode_bits : List ℕ → List ℕ
encode_bits [] = []
encode_bits (d ∷ dibits) =
    (if d == 3 then 0 else if d == 1 then 0 else 1)
    ∷ (if d == 3 then 1 else if d == minus_three then 1 else 0)
    ∷ encode_bits dibits

-- A packet of 18 bytes as 196 bits.
unfoldable pub encode : List ℕ → List ℕ
encode bytes =
    encode_bits
      (gather interleave_matrix (encode_dibits (encode_points 0 (group (bytes_to_bits bytes)))))

-- ===== src/Trellis/Tests.antt =====
-- A run of the trellis code at a concrete input.
use go_dmr.Base.{ℕ, ◌≡◌, refl, List, [], ◌∷◌, zeros, All, arith}
use go_dmr.Base.Outcome.{ok}
use go_dmr.Dmr.Bits.{IsByte}
use go_dmr.Trellis.{decode}
use go_dmr.Trellis.Encode.{encode}
use go_dmr.Trellis.RoundTrip.{decode-encode}

abbrev packet : List ℕ
packet = 1 ∷ 2 ∷ 3 ∷ 4 ∷ 5 ∷ 6 ∷ 7 ∷ 8 ∷ 9 ∷ 250 ∷ 251 ∷ 252 ∷ 253 ∷ 254 ∷ 255 ∷ 0 ∷ 128 ∷ 64 ∷ []

packet-IsByte : All IsByte packet
packet-IsByte = (
  omega arith,
  (
    omega arith,
    (
      omega arith,
      (
        omega arith,
        (
          omega arith,
          (
            omega arith,
            (
              omega arith,
              (
                omega arith,
                (
                  omega arith,
                  (
                    omega arith,
                    (
                      omega arith,
                      (
                        omega arith,
                        (
                          omega arith,
                          (
                            omega arith,
                            (omega arith, (omega arith, (omega arith, (omega arith, tt)))),
                          ),
                        ),
                      ),
                    ),
                  ),
                ),
              ),
            ),
          ),
        ),
      ),
    ),
  ),
)

decode-encode_example : decode (encode packet) (zeros 18) ≡ ok packet
decode-encode_example = decode-encode packet (zeros 18) refl packet-IsByte refl

-- ===== src/Dmr/Voice/Signalling.antt =====
-- What `ParseEMB` makes of embedded signalling as the standard sends it.
use go_dmr.Base.{
  ℕ, ◌+◌, ◌/◌, ◌%◌, ◌<◌, ◌≡◌, refl, ap, ◌∙◌, ◌-◌, ltb, ◌==◌, ◌&&◌, Bool, true, false, if◌then◌else◌,
  all_below, all_below_sound, bytes_eq, List, [], ◌∷◌, ◌++◌, arith, Bool-cases, inl, inr,
}
use go_dmr.Base.Outcome.{Outcome, ok, err, panic}
use go_dmr.Dmr.Bits.{to_bits}
use go_dmr.Checks.QuadRes.{parity_bits, valid_data_parity, data_value, check}
use go_dmr.Dmr.Voice.{Emb, Error, parse_emb}

-- Embedded signalling of a color code below 16 and a fragment kind below 4: the privacy bit is 0.
abbrev emb_data : ℕ → ℕ → List ℕ
emb_data color lcss =
    color / 8 % 2 ∷ color / 4 % 2 ∷ color / 2 % 2 ∷ color % 2 ∷ 0 ∷ lcss / 2 % 2 ∷ lcss % 2 ∷ []

unfoldable pub emb_bits_of : ℕ → ℕ → List ℕ
emb_bits_of color lcss = emb_data color lcss ++ parity_bits (emb_data color lcss)

unfoldable reads : ℕ → ℕ → Outcome Error Emb → Bool
reads color lcss (ok e) = e.color_code == color && e.lcss == lcss
reads color lcss _ = false

reads_lem :
    (color lcss : ℕ) (r : Outcome Error Emb)
    → reads color lcss r ≡ true
    → r ≡ ok (record { color_code = color; lcss = lcss })
unfolding reads
reads_lem color lcss (ok e) h = ground (arith, h)
reads_lem color lcss (err e) h = cc
reads_lem color lcss panic h = cc

unfoldable panicked : Outcome Error Emb → Bool
panicked panic = true
panicked _ = false

panicked_lem : (r : Outcome Error Emb) → panicked r ≡ true → r ≡ panic
unfolding panicked
panicked_lem panic h = refl
panicked_lem (ok e) h = cc
panicked_lem (err e) h = cc

all_low : all_below 8 (λ c. all_below 4 (λ l. reads c l (parse_emb (emb_bits_of c l)))) ≡ true
unfolding all_below reads parse_emb emb_bits_of parity_bits valid_data_parity data_value check
    to_bits bytes_eq
all_low = refl

all_high : all_below 8 (λ c. all_below 4 (λ l. panicked (parse_emb (emb_bits_of (c + 8) l)))) ≡ true
unfolding all_below panicked parse_emb emb_bits_of parity_bits valid_data_parity data_value check
    to_bits bytes_eq
all_high = refl

-- Embedded signalling with the right parity: `ParseEMB` reads back every color code below 8 and every kind of
-- fragment, and for every color code from 8 to 15 it panics.
pub parse_emb-emb_bits_of :
    (color lcss : ℕ)
    → color < 16
    → lcss < 4
    → parse_emb (emb_bits_of color lcss)
      ≡ (if ltb color 8 then ok (record { color_code = color; lcss = lcss }) else panic)
parse_emb-emb_bits_of color lcss top h = elim (Bool-cases (ltb color 8)) [
  | inl low ↦ rw low (
      reads_lem color lcss _ (
        all_below_sound 4 (λ l. reads color l (parse_emb (emb_bits_of color l)))
          (all_below_sound 8 (λ c. all_below 4 (λ l. reads c l (parse_emb (emb_bits_of c l))))
            all_low color (ground (arith, low)))
          lcss h))
  | inr high ↦
      let shifted : color ≡ (color - 8) + 8 = ground (arith, high) in
      rw high (
        ap (λ (c : ℕ). parse_emb (emb_bits_of c lcss)) shifted
        ∙ panicked_lem _ (
            all_below_sound 4 (λ l. panicked (parse_emb (emb_bits_of (color - 8 + 8) l)))
              (all_below_sound 8
                (λ c. all_below 4 (λ l. panicked (parse_emb (emb_bits_of (c + 8) l)))) all_high
                (color - 8) (omega arith))
              lcss h))
]

-- ===== src/Lc/Message/Full.antt =====
-- lc/lc.go: `ParseFullLC`. What `ParseLC` and the codec may do to the array they are given is not seen.
use go_dmr.Base.{
  ℕ, ◌≡◌, ◌≢◌, refl, sym, ◌∙◌, ◌==◌, not, Bool-cases, inl, inr, if◌then◌else◌, List, [], ◌∷◌,
  length, take, arith,
}
use go_dmr.Base.Outcome.{Outcome, ok, err, panic, ◌>>=◌, ◌>>◌, require}
use go_dmr.Fec.ReedSolomon.Correct.{
  calc_syndrome, syndrome_of, check_syndrome, correct, correct_idle,
}
use go_dmr.Lc.Pdu.{Error}
use go_dmr.Lc.Message.{Lc, parse_lc, parse_lc-ne-panic}

-- What goes wrong in the codec, or in the message.
pub data FullError : Type 0 where
  full_size reed_solomon : FullError
  message : Error → FullError

-- An error of one kind as one of the other.
unfoldable pub as_full : {E A : Type 0} → (E → FullError) → Outcome E A → Outcome FullError A
as_full f (ok a) = ok a
as_full f (err e) = err (f e)
as_full f panic = panic

-- A nil slice is the empty one: neither has twelve bytes.
unfoldable pub parse_full_lc : List ℕ → Outcome FullError Lc
parse_full_lc buf = do
  require (length buf == 12) full_size
  syndrome ← as_full (λ e. reed_solomon) (calc_syndrome buf)
  checked ←
      if not (check_syndrome syndrome)
      then as_full (λ e. reed_solomon) (correct buf syndrome)
      else ok (buf, 0)
  as_full message (parse_lc (take 9 checked.0))

-- The three check bytes play no part: whatever they are, twelve bytes give what `ParseLC` gives for the first
-- nine.
pub parse_full_lc-parse_lc :
    (buf : List ℕ) → length buf ≡ 12 → parse_full_lc buf ≡ as_full message (parse_lc (take 9 buf))
unfolding parse_full_lc calc_syndrome as_full
parse_full_lc-parse_lc buf h =
    elim (Bool-cases (
      check_syndrome
        (syndrome_of 0 buf 0 ∷ syndrome_of 1 buf 0 ∷ syndrome_of 2 buf 0 ∷ 0 ∷ 0 ∷ 0 ∷ []))) [
          | inl wrong ↦ ground (arith, h, wrong)
          | inr right ↦ ground (
            arith,
            h,
            right,
            correct_idle buf
                (syndrome_of 0 buf 0 ∷ syndrome_of 1 buf 0 ∷ syndrome_of 2 buf 0 ∷ 0 ∷ 0 ∷ 0 ∷ [])
                h,
          )
        ]

as_full-ne-panic :
    {E A : Type 0} (f : E → FullError) (r : Outcome E A) → r ≢ panic → as_full f r ≢ panic
unfolding as_full
as_full-ne-panic f (ok a) h e = cc
as_full-ne-panic f (err x) h e = cc
as_full-ne-panic f panic h e = h refl

-- `ParseFullLC` never panics.
pub parse_full_lc-ne-panic : (buf : List ℕ) → length buf ≡ 12 → parse_full_lc buf ≢ panic
parse_full_lc-ne-panic buf h e =
    as_full-ne-panic message (parse_lc (take 9 buf)) (parse_lc-ne-panic (take 9 buf))
      (sym (parse_full_lc-parse_lc buf h) ∙ e)

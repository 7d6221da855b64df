-- ===== src/Terminal/Message/Places.antt =====
-- Blocks stored by their serial numbers, in any order.
use go_dmr.Base.{
  ℕ, suc, ◌<◌, ◌≡◌, refl, sym, ap, ap₂, ◌∙◌, ◌==◌, ==_iff, ◌||◌, Bool, Bool-cases, true, false,
  if◌then◌else◌, inl, inr, Option, some, List, [], ◌∷◌, length, length-set, get_elem?,
  get_elem?-set_self, get_elem?-set_ne, set, All, arith,
}
use go_dmr.Dmr.DataBlock.{DataBlock}
use go_dmr.Terminal.{Slot, Terminal}
use go_dmr.Terminal.DataCall.{is_good, errors_found, all_present}
use go_dmr.Terminal.Message.{placed, fill, stored, after_all}

-- The blocks of the message, as a slot holds them.
abbrev pub held : List DataBlock → List (Option DataBlock)
held [] = []
held (b ∷ bs) = some b ∷ held bs

-- A block with this serial number is in the list.
abbrev pub arrives : ℕ → List DataBlock → Bool
arrives k [] = false
arrives k (b ∷ bs) = k == b.serial || arrives k bs

-- The block is the one of the message that its serial number tells.
abbrev pub IsPart : List DataBlock → DataBlock → Type 0
IsPart msg b = get_elem? (held msg) b.serial ≡ some (some b)

pub length-held : (bs : List DataBlock) → length (held bs) ≡ length bs
length-held [] = refl
length-held (b ∷ bs) = ap suc (length-held bs)

length-fill : (bs : List DataBlock) (s : Slot) → length (fill bs s).blocks ≡ length s.blocks
length-fill [] s = refl
length-fill (b ∷ bs) s = length-fill bs (placed s b) ∙ length-set s.blocks b.serial (some b)

get_elem?-fill :
    (msg bs : List DataBlock) (s : Slot) (k : ℕ)
    → All (IsPart msg) bs
    → k < length s.blocks
    → get_elem? (fill bs s).blocks k
      ≡ (if arrives k bs then get_elem? (held msg) k else get_elem? s.blocks k)
get_elem?-fill msg [] s k h lt = refl
get_elem?-fill msg (b ∷ bs) s k h lt =
    let rest =
      get_elem?-fill msg bs (placed s b) k h.1
        (omega (arith, lt, length-set s.blocks b.serial (some b))) in
    elim (Bool-cases (k == b.serial)) [
      | inl same ↦
          let at : k ≡ b.serial = (==_iff k b.serial).0 same in
          let new : get_elem? (set s.blocks b.serial (some b)) k ≡ get_elem? (held msg) k =
            ap (get_elem? (set s.blocks b.serial (some b))) at
            ∙ get_elem?-set_self s.blocks b.serial (some b) (omega (arith, at, lt))
            ∙ sym (ap (get_elem? (held msg)) at ∙ h.0) in
          ground (arith, rest, same, new)
      | inr other ↦
          let kept =
            get_elem?-set_ne s.blocks b.serial k (some b) (λ e. ground (arith, other, e)) in
          ground (arith, rest, other, kept)
    ]

module _ {A : Type 0} where
  elements_ext :
      (xs ys : List A)
      → length xs ≡ length ys
      → ((k : ℕ) → k < length xs → get_elem? xs k ≡ get_elem? ys k)
      → xs ≡ ys
  elements_ext [] [] e h = refl
  elements_ext [] (y ∷ ys) e h = absurd (omega arith)
  elements_ext (x ∷ xs) [] e h = absurd (omega arith)
  elements_ext (x ∷ xs) (y ∷ ys) e h =
      ap₂ (λ (z : A) (t : List A). z ∷ t) (some_inj (h 0 (omega arith)))
        (elements_ext xs ys (omega arith) (λ k lt. h (suc k) (omega arith)))
    where
      some_inj : some x ≡ some y → x ≡ y
      some_inj q = grind (arith, q)

-- Whatever the order: when every block arrived, the slot holds the message.
pub fill-held :
    (msg bs : List DataBlock) (s : Slot)
    → All (IsPart msg) bs
    → length s.blocks ≡ length msg
    → ((k : ℕ) → k < length msg → arrives k bs ≡ true)
    → (fill bs s).blocks ≡ held msg
fill-held msg bs s h size all =
    elements_ext _ (held msg) (length-fill bs s ∙ size ∙ sym (length-held msg)) (λ k lt.
      let inside : k < length s.blocks = omega (arith, lt, length-fill bs s) in
      get_elem?-fill msg bs s k h inside
      ∙ ap (λ (t : Bool). if t then get_elem? (held msg) k else get_elem? s.blocks k)
          (all k (omega (arith, inside, size))))

abbrev pub IsOk : DataBlock → Type 0
IsOk b = b.is_ok ≡ true

pub errors_found-held :
    (msg : List DataBlock) → All IsOk msg → errors_found (length msg) (held msg) ≡ some false
unfolding errors_found is_good
errors_found-held [] h = refl
errors_found-held (b ∷ bs) h =
    let rest = errors_found-held bs h.1 in let good = h.0 in ground (arith, rest, good)

pub all_present-held : (msg : List DataBlock) → all_present (held msg) ≡ some msg
unfolding all_present
all_present-held [] = refl
all_present-held (b ∷ bs) = let rest = all_present-held bs in ground (arith, rest)

-- What the frames leave of the slot and of the terminal.
pub fill-same :
    (bs : List DataBlock) (s : Slot)
    → ((fill bs s).header ≡ s.header) × ((fill bs s).full_message_blocks ≡ s.full_message_blocks)
fill-same [] s = (refl, refl)
fill-same (b ∷ bs) s = fill-same bs (placed s b)

pub after_all-found :
    (timeslot : ℕ) (bs : List DataBlock) (t : Terminal) (s : Slot)
    → timeslot < length t.slots
    → get_elem? t.slots timeslot ≡ some s
    → get_elem? (after_all timeslot bs t s).slots timeslot ≡ some (fill bs s)
after_all-found timeslot [] t s lt e = e
after_all-found timeslot (b ∷ bs) t s lt e =
    after_all-found timeslot bs (stored t timeslot (placed s b)) (placed s b)
      (omega (arith, lt, length-set t.slots timeslot (placed s b)))
      (get_elem?-set_self t.slots timeslot (placed s b) lt)

-- ===== src/Providers/Prefixes.antt =====
-- The prefix that a range is written with, in `ipMatchesRange` of
-- apps/api/src/modules/providers/internal/ip-range.ts.
use gemone.Prelude.{
  ℕ, ◌+◌, ◌-◌, ◌*◌, ◌≤◌, ◌≡◌, refl, true, some, Text, List, [], ◌∷◌, arith, some-inj,
}
use gemone.Providers.Address.{is_digit, decimal}
use gemone.Providers.Range.{written_bits}

abbrev IsDigit : ℕ → Type 0
IsDigit c = (48 ≤ c) × (c ≤ 57)

-- Nothing is written, which is the whole width, or one to three digits, whose number is at most the
-- width.
pub data HasPrefix (width : ℕ) : List Text → ℕ → Type 0 where
  whole : HasPrefix width [] width
  one_digit : (a : ℕ) → IsDigit a → a - 48 ≤ width → HasPrefix width ((a ∷ []) ∷ []) (a - 48)
  two_digits :
      (a b : ℕ)
      → IsDigit a
      → IsDigit b
      → 10 * (a - 48) + (b - 48) ≤ width
      → HasPrefix width ((a ∷ b ∷ []) ∷ []) (10 * (a - 48) + (b - 48))
  three_digits :
      (a b c : ℕ)
      → IsDigit a
      → IsDigit b
      → IsDigit c
      → 100 * (a - 48) + 10 * (b - 48) + (c - 48) ≤ width
      → HasPrefix width ((a ∷ b ∷ c ∷ []) ∷ []) (100 * (a - 48) + 10 * (b - 48) + (c - 48))

digit : (c : ℕ) → is_digit c ≡ true → IsDigit c
digit c h = ground arith

digit_true : (c : ℕ) → IsDigit c → is_digit c ≡ true
digit_true c h = ground arith

pub HasPrefix-written_bits :
    (width : ℕ) (prefix : List Text) (bits : ℕ)
    → HasPrefix width prefix bits
    → written_bits width prefix ≡ some bits
unfolding written_bits decimal
HasPrefix-written_bits width _ _ whole = refl
HasPrefix-written_bits width _ _ (one_digit a da fit) = ground arith
HasPrefix-written_bits width _ _ (two_digits a b da db fit) = ground arith
HasPrefix-written_bits width _ _ (three_digits a b c da db dc fit) = ground arith

pub written_bits-HasPrefix :
    (width : ℕ) (prefix : List Text) (bits : ℕ)
    → written_bits width prefix ≡ some bits
    → HasPrefix width prefix bits
unfolding written_bits decimal
written_bits-HasPrefix width [] bits h = rw (← some-inj width bits h) whole
written_bits-HasPrefix width ([] ∷ []) bits h = cc
written_bits-HasPrefix width ((a ∷ []) ∷ []) bits h =
    let f : IsDigit a × (a - 48 ≤ width) × (a - 48 ≡ bits) =
      ((ground arith, ground arith), ground arith, ground arith) in
    rw (← f.2) (one_digit a f.0 f.1)
written_bits-HasPrefix width ((a ∷ b ∷ []) ∷ []) bits h =
    let f : IsDigit a
        × IsDigit b
        × (10 * (a - 48) + (b - 48) ≤ width)
        × (10 * (a - 48) + (b - 48) ≡ bits) =
      ((ground arith, ground arith), (ground arith, ground arith), ground arith, ground arith) in
    rw (← f.3) (two_digits a b f.0 f.1 f.2)
written_bits-HasPrefix width ((a ∷ b ∷ c ∷ []) ∷ []) bits h =
    let f : IsDigit a
        × IsDigit b
        × IsDigit c
        × (100 * (a - 48) + 10 * (b - 48) + (c - 48) ≤ width)
        × (100 * (a - 48) + 10 * (b - 48) + (c - 48) ≡ bits) =
      (
        (ground arith, ground arith),
        (ground arith, ground arith),
        (ground arith, ground arith),
        ground arith,
        ground arith,
      ) in
    rw (← f.4) (three_digits a b c f.0 f.1 f.2 f.3)
written_bits-HasPrefix width ((a ∷ b ∷ c ∷ d ∷ s) ∷ []) bits h = ground arith
written_bits-HasPrefix width (p ∷ q ∷ ps) bits h = cc

-- ===== src/Payouts/Destination.antt =====
-- apps/api/src/modules/payouts/internal/destination.ts. A string is its code units; the space that
-- `trim` removes and the class of the control characters are those of the JavaScript engine.
use gemone.Prelude.{
  ℕ, ◌-◌, ◌≤◌, ◌<◌, leb→le, ◌≡◌, refl, sym, ◌∙◌, Bool, true, false, not, ◌||◌, ◌⊎◌, [], ◌∷◌, ◌++◌,
  any, drop, length, length-append, length-replicate, length-drop, replicate, Text, ltb, leb, min,
  if◌then◌else◌, arith, Result, ok, err, payout_destination_invalid, Bool-cases, inl, inr,
}

-- What the engine provides: white space, the classes Cc and Cf of Unicode, and `toLowerCase`.
pub record TextClasses : Type 0 where
  pub to_lower_case : Text → Text
  pub is_space : ℕ → Bool
  pub is_control : ℕ → Bool

-- `•`
abbrev pub bullet : ℕ
bullet = 0x2022

unfoldable pub trim_start : (ℕ → Bool) → Text → Text
trim_start space [] = []
trim_start space (c ∷ s) = if space c then trim_start space s else c ∷ s

-- The last character that is no space ends the text.
unfoldable pub trim_end : (ℕ → Bool) → Text → Text
trim_end space [] = []
trim_end space (c ∷ s) = elim (trim_end space s) [
  | [] ↦ if space c then [] else c ∷ []
  | d ∷ t ↦ c ∷ d ∷ t
]

unfoldable pub trim : (ℕ → Bool) → Text → Text
unfolding trim_start trim_end
trim space s = trim_end space (trim_start space s)

unfoldable pub normalize_destination : TextClasses → Text → Result Text
normalize_destination u raw =
    let destination = trim u.is_space raw in
    if ltb (length destination) 4 || ltb 200 (length destination)
    then err payout_destination_invalid
    else if any u.is_control destination
    then err payout_destination_invalid
    else ok destination

unfoldable pub mask_destination : Text → Text
mask_destination d =
    if leb (length d) 4
    then replicate (length d) bullet
    else replicate (min (length d - 4) 12) bullet ++ drop (length d - 4) d

List-cases : (s : Text) → (s ≡ []) ⊎ ((c : ℕ) × (t : Text) × (s ≡ c ∷ t))
List-cases [] = inl refl
List-cases (c ∷ t) = inr (c, t, refl)

-- The text is empty or begins with no space.
abbrev begins : (ℕ → Bool) → Text → Bool
begins space [] = true
begins space (c ∷ s) = not (space c)

begins-trim_start : (space : ℕ → Bool) (s : Text) → begins space (trim_start space s) ≡ true
unfolding trim_start
begins-trim_start space [] = refl
begins-trim_start space (c ∷ s) = ground (arith, begins-trim_start space s)

trim_start-begins : (space : ℕ → Bool) (s : Text) → begins space s ≡ true → trim_start space s ≡ s
unfolding trim_start
trim_start-begins space [] h = refl
trim_start-begins space (c ∷ s) h = ground arith

begins-trim_end :
    (space : ℕ → Bool) (s : Text) → begins space s ≡ true → begins space (trim_end space s) ≡ true
unfolding trim_end
begins-trim_end space [] h = refl
begins-trim_end space (c ∷ s) h = elim (List-cases (trim_end space s)) [
  | inl e ↦ rw (e, trim_end) (ground arith)
  | inr (d, t, e) ↦ rw (e, trim_end) h
]

trim_end-trim_end :
    (space : ℕ → Bool) (s : Text) → trim_end space (trim_end space s) ≡ trim_end space s
unfolding trim_end
trim_end-trim_end space [] = refl
trim_end-trim_end space (c ∷ s) = elim (List-cases (trim_end space s)) [
  | inl e ↦ rw (e, trim_end) (ground arith)
  | inr (d, t, e) ↦
      let again : trim_end space (d ∷ t) ≡ d ∷ t = rw e at (trim_end-trim_end space s) in
      rw (e, trim_end) (rw (again, trim_end))
]

trim-trim : (space : ℕ → Bool) (s : Text) → trim space (trim space s) ≡ trim space s
unfolding trim
trim-trim space s =
    rw
      (trim_start-begins space (trim_end space (trim_start space s))
        (begins-trim_end space (trim_start space s) (begins-trim_start space s)))
      (trim_end-trim_end space (trim_start space s))

normalize_ok :
    (u : TextClasses) (raw d : Text)
    → normalize_destination u raw ≡ ok d
    → (d ≡ trim u.is_space raw) × (4 ≤ length d) × (length d ≤ 200) × (any u.is_control d ≡ false)
unfolding normalize_destination
normalize_ok u raw d h = ground arith

normalize_fixed :
    (u : TextClasses) (d : Text)
    → trim u.is_space d ≡ d
    → 4 ≤ length d
    → length d ≤ 200
    → any u.is_control d ≡ false
    → normalize_destination u d ≡ ok d
unfolding normalize_destination
normalize_fixed u d e lo hi clean = rw e (ground arith)

-- A destination that is accepted is the trimmed input, has 4 to 200 code units and no control
-- character, and is accepted again unchanged.
normalize_destination_ok :
    (u : TextClasses) (raw d : Text)
    → normalize_destination u raw ≡ ok d
    → (d ≡ trim u.is_space raw)
      × (4 ≤ length d)
      × (length d ≤ 200)
      × (any u.is_control d ≡ false)
      × (normalize_destination u d ≡ ok d)
normalize_destination_ok u raw d h =
    let (e, lo, hi, clean) = normalize_ok u raw d h in
    (e, lo, hi, clean, normalize_fixed u d (rw e (trim-trim u.is_space raw)) lo hi clean)

mask_short : (d : Text) → length d ≤ 4 → mask_destination d ≡ replicate (length d) bullet
unfolding mask_destination
mask_short d h = ground arith

mask_long :
    (d : Text)
    → 4 < length d
    → mask_destination d ≡ replicate (min (length d - 4) 12) bullet ++ drop (length d - 4) d
unfolding mask_destination
mask_long d h = ground arith

length-mask : (d : Text) → length (mask_destination d) ≤ 16
length-mask d = elim (Bool-cases (leb (length d) 4)) [
  | inl short ↦
      let le : length d ≤ 4 = leb→le _ _ short in
      rw (mask_short d le) (rw (length-replicate (length d) bullet) (omega arith))
  | inr long ↦
      let lt : 4 < length d = ground arith in
      rw (mask_long d lt) (
        rw (length-append (replicate (min (length d - 4) 12) bullet) (drop (length d - 4) d)) (
          omega
            (arith, length-replicate (min (length d - 4) 12) bullet, length-drop (length d - 4) d)))
]

-- A mask is never longer than 16, shows no more than the last four code units, and those only of a
-- longer text: two texts of 16 or more that end in the same four are masked alike.
mask_destination_hides :
    (d e : Text)
    → (length (mask_destination d) ≤ 16)
      × (length d ≤ 4 → mask_destination d ≡ replicate (length d) bullet)
      × (16 ≤ length d
          → 16 ≤ length e
          → drop (length d - 4) d ≡ drop (length e - 4) e
          → mask_destination d ≡ mask_destination e)
mask_destination_hides d e = (
  length-mask d,
  mask_short d,
  λ h k same.
      let md : min (length d - 4) 12 ≡ 12 = omega arith in
      let me : min (length e - 4) 12 ≡ 12 = omega arith in
      mask_long d (omega arith) ∙ (rw (md, same) (sym (mask_long e (omega arith) ∙ rw me))),
)

-- ===== src/Clicks/SubId.antt =====
-- `SubIdSigner` of apps/api/src/modules/clicks/internal/sub-id.ts. `sign` is the truncated HMAC of a token
-- under the secret, in base64url, and a token is 16 random bytes in base64url. What passes the pattern is
-- ASCII, so its UTF-8 bytes are its code units.
use gemone.Prelude.{
  ℕ, ◌≡◌, ◌↔◌, refl, ap, Bool, true, false, ◌&&◌, ◌||◌, Option, none, some, Text, text_eq,
  text_eq_refl, [], ◌∷◌, ◌++◌, ◌==◌, ==_refl, ==_iff, leb, Bool-cases, Option-cases, inl, inr,
  if◌then◌else◌, length, arith, some-inj,
}

abbrev pub is_url_char : ℕ → Bool
is_url_char c =
    leb 65 c && leb c 90 || leb 97 c && leb c 122 || leb 48 c && leb c 57 || c == 95 || c == 45

abbrev pub are_url_chars : Text → Bool
are_url_chars [] = true
are_url_chars (c ∷ s) = is_url_char c && are_url_chars s

-- `[A-Za-z0-9_-]{1,64}`
unfoldable pub is_part : Text → Bool
is_part s = leb 1 (length s) && leb (length s) 64 && are_url_chars s

-- What is before and after the first dot.
abbrev before : ℕ → Option (Text × Text) → Option (Text × Text)
before c none = none
before c (some (token, provided)) = some (c ∷ token, provided)

unfoldable pub cut : Text → Option (Text × Text)
cut [] = none
cut (c ∷ s) = let rest = before c (cut s) in if c == 46 then some ([], s) else rest

unfoldable pub issue : (Text → Text) → Text → Text
issue sign token = token ++ (46 ∷ sign token)

unfoldable pub verify : (Text → Text) → Text → Bool
verify sign sub_id = elim (cut sub_id) [
  | none ↦ false
  | some (token, provided) ↦
      if is_part token && is_part provided
      then if length (sign token) == length provided then text_eq (sign token) provided else false
      else false
]

and_true : (a b : Bool) → (a && b) ≡ true → (a ≡ true) × (b ≡ true)
and_true true b h = (refl, h)
and_true false b h = absurd (ground arith)

url_char_no_dot : (c : ℕ) → is_url_char c ≡ true → (c == 46) ≡ false
url_char_no_dot c h = ground arith

cut-append :
    (token provided : Text)
    → are_url_chars token ≡ true
    → cut (token ++ (46 ∷ provided)) ≡ some (token, provided)
unfolding cut
cut-append [] provided h = refl
cut-append (c ∷ s) provided h =
    let (good, rest) = and_true (is_url_char c) (are_url_chars s) h in
    rw (url_char_no_dot c good) (ap (before c) (cut-append s provided rest))

cut-ok : (s token provided : Text) → cut s ≡ some (token, provided) → s ≡ token ++ (46 ∷ provided)
unfolding cut
cut-ok [] token provided h = cc
cut-ok (c ∷ s) token provided h = elim (Bool-cases (c == 46)) [
  | inl dot ↦
      let e = some-inj ([], s) (token, provided) (rw (dot, cut) at h) in
      let t = ap (λ (y : Text × Text). y.0) e in
      let p = ap (λ (y : Text × Text). y.1) e in rw (← t, ← p, (==_iff c 46).0 dot) refl
  | inr other ↦ elim (Option-cases (cut s)) [
    | inl bad ↦ let wrong = rw bad at (rw (other, cut) at h) in cc
    | inr ((t, p), found) ↦
        let e = some-inj (c ∷ t, p) (token, provided) (rw found at (rw (other, cut) at h)) in
        let et = ap (λ (y : Text × Text). y.0) e in
        let ep = ap (λ (y : Text × Text). y.1) e in
        rw (← et, ← ep) (ap (λ r. c ∷ r) (cut-ok s t p found))
  ]
]

text_eq-eq : (s t : Text) → text_eq s t ≡ true → s ≡ t
text_eq-eq [] [] h = refl
text_eq-eq [] (d ∷ t) h = cc
text_eq-eq (c ∷ s) [] h = cc
text_eq-eq (c ∷ s) (d ∷ t) h =
    let (same, rest) = and_true (c == d) (text_eq s t) h in
    rw ((==_iff c d).0 same, text_eq-eq s t rest) refl

verified :
    (sign : Text → Text) (token : Text)
    → is_part token ≡ true
    → is_part (sign token) ≡ true
    → verify sign (issue sign token) ≡ true
unfolding verify issue is_part
verified sign token ht hs =
    let chars =
      (and_true (leb 1 (length token) && leb (length token) 64) (are_url_chars token) ht).1 in
    rw (cut-append token (sign token) chars, verify)
      (rw (ht, hs) (rw (==_refl (length (sign token))) (text_eq_refl (sign token))))

issued :
    (sign : Text → Text) (s : Text)
    → verify sign s ≡ true
    → (token : Text) × (is_part token ≡ true)
      × (is_part (sign token) ≡ true)
      × (s ≡ issue sign token)
unfolding verify issue
issued sign s h = elim (Option-cases (cut s)) [
  | inl bad ↦ let wrong = rw (bad, verify) at h in cc
  | inr ((token, provided), found) ↦
      let h1 = rw (found, verify) at h in
      elim (Bool-cases (is_part token && is_part provided)) [
        | inr bad ↦ let wrong = rw bad at h1 in cc
        | inl parts ↦
            let h2 = rw parts at h1 in
            elim (Bool-cases (length (sign token) == length provided)) [
              | inr bad ↦ let wrong = rw bad at h2 in cc
              | inl sized ↦
                  let same = text_eq-eq (sign token) provided (rw sized at h2) in
                  let (ht, hp) = and_true (is_part token) (is_part provided) parts in
                  (token, ht, rw same hp, rw same (cut-ok s token provided found))
            ]
      ]
]

-- The identifiers that verify are exactly those that are issued: a token of 1 to 64 characters of
-- base64url, a dot, and the token's own signature, when that has such a form too.
pub verify-issue :
    (sign : Text → Text) (s : Text)
    → verify sign s ≡ true ↔ (
        (token : Text) × (is_part token ≡ true)
        × (is_part (sign token) ≡ true)
        × (s ≡ issue sign token))
verify-issue sign s =
    (issued sign s, λ t. let (token, ht, hs, e) = t in rw e (verified sign token ht hs))

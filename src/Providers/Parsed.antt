-- ===== src/Providers/Parsed.antt =====
-- What `parseAddress` of apps/api/src/modules/providers/internal/ip-range.ts returns: four bytes or
-- sixteen.
use gemone.Prelude.{
  ℕ, zero, suc, ◌+◌, ◌-◌, ◌*◌, ◌/◌, ◌%◌, ◌≤◌, ◌<◌, ◌≡◌, refl, ap, ◌∙◌, ◌⊎◌, inl, inr, Bool, true,
  false, ◌&&◌, Option, none, some, Text, List, [], ◌∷◌, ◌++◌, ◌==◌, ltb, leb, Bool-cases,
  Option-cases, if◌then◌else◌, length, length-append, length-replicate, length-drop, replicate,
  drop, All, arith, some-inj,
}
use gemone.Providers.Address.{
  includes, all, is_hex, hex_digit, cons_to, is_ipv4_octet, decimal, split, octets, parse_ipv4,
  hexadecimal, parse_group, words, Groups, embedded_in, take_embedded, count_groups, fill,
  groups_of, without_zone, parse_ipv6, Version, v4, v6, ParsedAddress, is_ipv4_mapped, unwrap,
  parse_address, is_empty, last, without_last,
}
use gemone.Providers.Prefix.{IsByte}

abbrev pub AreBytes : ℕ → List ℕ → Type 0
AreBytes n bytes = (length bytes ≡ n) × All IsByte bytes

cons_to-ok :
    (x n : ℕ) (o : Option (List ℕ)) (bytes : List ℕ)
    → IsByte x
    → ((rest : List ℕ) → o ≡ some rest → AreBytes n rest)
    → cons_to x o ≡ some bytes
    → AreBytes (suc n) bytes
cons_to-ok x n none bytes hx hrest h = cc
cons_to-ok x n (some rest) bytes hx hrest h =
    let (len, small) = hrest rest refl in
    rw (← some-inj (x ∷ rest) bytes h) (ap suc len, (hx, small))

octets-ok :
    (parts : List Text) (bytes : List ℕ) → octets parts ≡ some bytes → AreBytes (length parts) bytes
unfolding octets
octets-ok [] bytes h = rw (← some-inj [] bytes h) (refl, tt)
octets-ok (part ∷ parts) bytes h = elim (Bool-cases (is_ipv4_octet part)) [
  | inr bad ↦ let wrong = rw bad at h in cc
  | inl good ↦ elim (Bool-cases (ltb 255 (decimal 0 part))) [
    | inl big ↦ let wrong = rw big at (rw good at h) in cc
    | inr small ↦
        cons_to-ok (decimal 0 part) (length parts) (octets parts) bytes (ground arith)
          (λ rest e. octets-ok parts rest e) (rw small at (rw good at h))
  ]
]

parse_ipv4-ok : (value : Text) (bytes : List ℕ) → parse_ipv4 value ≡ some bytes → AreBytes 4 bytes
unfolding parse_ipv4
parse_ipv4-ok value bytes h = elim (Bool-cases (length (split 46 value) == 4)) [
  | inr other ↦ let wrong = rw (other, parse_ipv4) at h in cc
  | inl four ↦
      let (len, small) = octets-ok (split 46 value) bytes (rw (four, parse_ipv4) at h) in
      (ground arith, small)
]

hex_digit_small : (c : ℕ) → is_hex c ≡ true → hex_digit c < 16
hex_digit_small c h = ground arith

and_true : (a b : Bool) → (a && b) ≡ true → (a ≡ true) × (b ≡ true)
and_true true b h = (refl, h)
and_true false b h = absurd (ground arith)

at_most_four : (n : ℕ) → leb n 4 ≡ true → n ≤ 4
at_most_four n h = ground arith

hexadecimal_small : (s : Text) → length s ≤ 4 → all is_hex s ≡ true → hexadecimal 0 s < 65536
unfolding hexadecimal
hexadecimal_small [] len h = omega arith
hexadecimal_small (a ∷ []) len h =
    let (is_a, h0) = and_true (is_hex a) (all is_hex ([])) h in
    let small_a = hex_digit_small a is_a in omega arith
hexadecimal_small (a ∷ b ∷ []) len h =
    let (is_a, h0) = and_true (is_hex a) (all is_hex (b ∷ [])) h in
    let small_a = hex_digit_small a is_a in
    let (is_b, h1) = and_true (is_hex b) (all is_hex ([])) h0 in
    let small_b = hex_digit_small b is_b in omega arith
hexadecimal_small (a ∷ b ∷ c ∷ []) len h =
    let (is_a, h0) = and_true (is_hex a) (all is_hex (b ∷ c ∷ [])) h in
    let small_a = hex_digit_small a is_a in
    let (is_b, h1) = and_true (is_hex b) (all is_hex (c ∷ [])) h0 in
    let small_b = hex_digit_small b is_b in
    let (is_c, h2) = and_true (is_hex c) (all is_hex ([])) h1 in
    let small_c = hex_digit_small c is_c in omega arith
hexadecimal_small (a ∷ b ∷ c ∷ d ∷ []) len h =
    let (is_a, h0) = and_true (is_hex a) (all is_hex (b ∷ c ∷ d ∷ [])) h in
    let small_a = hex_digit_small a is_a in
    let (is_b, h1) = and_true (is_hex b) (all is_hex (c ∷ d ∷ [])) h0 in
    let small_b = hex_digit_small b is_b in
    let (is_c, h2) = and_true (is_hex c) (all is_hex (d ∷ [])) h1 in
    let small_c = hex_digit_small c is_c in
    let (is_d, h3) = and_true (is_hex d) (all is_hex ([])) h2 in
    let small_d = hex_digit_small d is_d in omega arith
hexadecimal_small (a ∷ b ∷ c ∷ d ∷ e ∷ s) len h = absurd (omega arith)

parse_group-ok : (s : Text) (word : ℕ) → parse_group s ≡ some word → word < 65536
unfolding parse_group
parse_group-ok s word h = elim (Bool-cases (leb 1 (length s) && leb (length s) 4 && all is_hex s)) [
  | inr bad ↦ let wrong = rw (bad, parse_group) at h in cc
  | inl good ↦ rw (← some-inj (hexadecimal 0 s) word (rw (good, parse_group) at h)) (
      let (sized, hex) = and_true (leb 1 (length s) && leb (length s) 4) (all is_hex s) good in
      hexadecimal_small s
        (at_most_four (length s) (and_true (leb 1 (length s)) (leb (length s) 4) sized).1) hex)
]

words-ok :
    (groups : List Text) (bytes : List ℕ)
    → words groups ≡ some bytes
    → AreBytes (length groups * 2) bytes
unfolding words
words-ok [] bytes h = rw (← some-inj [] bytes h) (refl, tt)
words-ok (group ∷ groups) bytes h = elim (Option-cases (parse_group group)) [
  | inl bad ↦ let wrong = rw (bad, words) at h in cc
  | inr (word, good) ↦
      let size = parse_group-ok group word good in
      let (len, small) =
        cons_to-ok (word / 256) (suc (length groups * 2)) (cons_to (word % 256) (words groups))
          bytes (omega arith)
          (λ rest e.
            cons_to-ok (word % 256) (length groups * 2) (words groups) rest (omega arith)
              (λ r e'. words-ok groups r e') e)
          (rw (good, words) at h) in
      (omega arith, small)
]

All-append : (xs ys : List ℕ) → All IsByte xs → All IsByte ys → All IsByte (xs ++ ys)
All-append [] ys hx hy = hy
All-append (x ∷ xs) ys hx hy = (hx.0, All-append xs ys hx.1 hy)

All-zeros : (n : ℕ) → All IsByte (replicate n 0)
All-zeros zero = tt
All-zeros (suc n) = (omega arith, All-zeros n)

All-drop : (n : ℕ) (xs : List ℕ) → All IsByte xs → All IsByte (drop n xs)
All-drop zero xs h = h
All-drop (suc n) [] h = tt
All-drop (suc n) (x ∷ xs) h = All-drop n xs h.1

-- No dotted quad, or one.
abbrev IsQuad : List ℕ → Type 0
IsQuad quad = ((length quad ≡ 0) ⊎ (length quad ≡ 4)) × All IsByte quad

embedded_in-ok :
    (g g' : Groups) (text : Text) (quad : List ℕ)
    → embedded_in g text ≡ some (g', quad)
    → IsQuad quad
unfolding embedded_in
embedded_in-ok g g' text quad h = elim (Bool-cases (includes 46 text)) [
  | inr plain ↦
      let e = some-inj (g, []) (g', quad) (rw (plain, embedded_in) at h) in
      rw (← ap (λ (y : Groups × List ℕ). y.1) e) (inl refl, tt)
  | inl dotted ↦ elim (Option-cases (parse_ipv4 text)) [
    | inl bad ↦ let wrong = rw bad at (rw (dotted, embedded_in) at h) in cc
    | inr (bytes, good) ↦
        let (len, small) = parse_ipv4-ok text bytes good in
        let left =
          if is_empty g.tail
          then record g { head = without_last g.head }
          else record g { tail = without_last g.tail } in
        let e = some-inj (left, bytes) (g', quad) (rw good at (rw (dotted, embedded_in) at h)) in
        rw (← ap (λ (y : Groups × List ℕ). y.1) e) (inr len, small)
  ]
]

take_embedded-ok : (g g' : Groups) (quad : List ℕ) → take_embedded g ≡ some (g', quad) → IsQuad quad
unfolding take_embedded
take_embedded-ok g g' quad h =
    elim (Option-cases (if is_empty g.tail then last g.head else last g.tail)) [
      | inl nothing ↦
          let e = some-inj (g, []) (g', quad) (rw (nothing, take_embedded) at h) in
          rw (← ap (λ (y : Groups × List ℕ). y.1) e) (inl refl, tt)
      | inr (text, found) ↦ embedded_in-ok g g' text quad (rw (found, take_embedded) at h)
    ]

filled :
    (h t q b r a : ℕ)
    → (q ≡ 0) ⊎ (q ≡ 4)
    → h + t + q / 2 ≤ 8
    → b ≡ h * 2
    → a ≡ t * 2
    → r ≡ 16 - (h + t + q / 2) * 2
    → b + (r + (a + q)) ≡ 16
filled h t q b r a (inl none_there) room eb ea er = omega arith
filled h t q b r a (inr four) room eb ea er = omega arith

fill-ok :
    (g : Groups) (quad bytes : List ℕ)
    → IsQuad quad
    → count_groups g quad ≤ 8
    → fill g quad ≡ some bytes
    → AreBytes 16 bytes
unfolding fill
fill-ok g quad bytes hq room h = elim (Option-cases (words g.head)) [
  | inl bad ↦ let wrong = rw (bad, fill) at h in cc
  | inr (before, at_head) ↦ elim (Option-cases (words g.tail)) [
    | inl bad ↦ let wrong = rw bad at (rw (at_head, fill) at h) in cc
    | inr (after, at_tail) ↦
        let (lb, sb) = words-ok g.head before at_head in
        let (la, sa) = words-ok g.tail after at_tail in
        let gap : List ℕ = replicate (16 - count_groups g quad * 2) 0 in
        let e =
          some-inj (before ++ (gap ++ (after ++ quad))) bytes
            (rw at_tail at (rw (at_head, fill) at h)) in
        rw (← e) (
          length-append before (gap ++ (after ++ quad))
              ∙ ap (λ n. length before + n)
                  (length-append gap (after ++ quad)
                    ∙ ap (λ n. length gap + n) (length-append after quad))
              ∙ filled (length g.head) (length g.tail) (length quad) (length before) (length gap)
                  (length after) hq.0 room lb la
                  (length-replicate (16 - count_groups g quad * 2) 0),
          All-append before (gap ++ (after ++ quad)) sb (
              All-append gap (after ++ quad) (All-zeros (16 - count_groups g quad * 2))
                (All-append after quad sa hq.1)),
        )
  ]
]

enough_groups : (elided : Bool) (n : ℕ) → (if elided then leb n 7 else n == 8) ≡ true → n ≤ 8
enough_groups true n h = ground arith
enough_groups false n h = ground arith

parse_ipv6-ok : (value : Text) (bytes : List ℕ) → parse_ipv6 value ≡ some bytes → AreBytes 16 bytes
unfolding parse_ipv6
parse_ipv6-ok value bytes h = elim (Option-cases (groups_of (without_zone value))) [
  | inl bad ↦ let wrong = rw (bad, parse_ipv6) at h in cc
  | inr (parts, read) ↦ elim (Option-cases (take_embedded parts)) [
    | inl bad ↦ let wrong = rw bad at (rw (read, parse_ipv6) at h) in cc
    | inr ((g, quad), taken) ↦
        let h' = rw taken at (rw (read, parse_ipv6) at h) in
        elim (Bool-cases
          (if g.elided then leb (count_groups g quad) 7 else count_groups g quad == 8)) [
            | inr bad ↦ let wrong = rw bad at h' in cc
            | inl fits ↦
                fill-ok g quad bytes (take_embedded-ok parts g quad taken)
                  (enough_groups g.elided (count_groups g quad) fits) (rw fits at h')
          ]
  ]
]

abbrev pub size : Version → ℕ
size v4 = 4
size v6 = 16

-- An address that was read as a dotted quad, as an IPv4-mapped address, or as another IPv6 address.
abbrev pub IsRead : Text → ParsedAddress → Type 0
IsRead value a =
    AreBytes (size a.version) a.bytes
    × (((includes 58 value ≡ false) × (a.version ≡ v4) × (a.unwrapped ≡ false))
        ⊎ ((includes 58 value ≡ true) × (a.version ≡ v4) × (a.unwrapped ≡ true))
        ⊎ ((includes 58 value ≡ true) × (a.version ≡ v6) × (a.unwrapped ≡ false)))

unwrap-IsRead :
    (value : Text) (bytes : List ℕ)
    → includes 58 value ≡ true
    → AreBytes 16 bytes
    → IsRead value (unwrap bytes)
unfolding unwrap
unwrap-IsRead value bytes colon h = elim (Bool-cases (is_ipv4_mapped bytes)) [
  | inl mapped ↦
      rw (mapped, unwrap)
        (
          (length-drop 12 bytes ∙ ap (λ n. n - 12) h.0, All-drop 12 bytes h.1),
          inr (inl (colon, refl, refl)),
        )
  | inr other ↦ rw (other, unwrap) (h, inr (inr (colon, refl, refl)))
]

-- What is parsed is four bytes or sixteen.
pub parse_address-IsRead :
    (value : Text) (a : ParsedAddress) → parse_address value ≡ some a → IsRead value a
unfolding parse_address
parse_address-IsRead value a h = elim (Bool-cases (includes 58 value)) [
  | inl colon ↦ elim (Option-cases (parse_ipv6 value)) [
    | inl bad ↦ let wrong = rw bad at (rw (colon, parse_address) at h) in cc
    | inr (bytes, good) ↦
        rw (← some-inj (unwrap bytes) a (rw good at (rw (colon, parse_address) at h)))
          (unwrap-IsRead value bytes colon (parse_ipv6-ok value bytes good))
  ]
  | inr plain ↦ elim (Option-cases (parse_ipv4 value)) [
    | inl bad ↦ let wrong = rw bad at (rw (plain, parse_address) at h) in cc
    | inr (bytes, good) ↦
        rw
          (← some-inj (record { version = v4; bytes = bytes; unwrapped = false }) a
            (rw good at (rw (plain, parse_address) at h)))
          (parse_ipv4-ok value bytes good, inl (plain, refl, refl))
  ]
]

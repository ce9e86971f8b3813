-- ===== src/Providers/Address.antt =====
-- The addresses of apps/api/src/modules/providers/internal/ip-range.ts: `parseAddress`, `parseIpv4` and
-- `parseIpv6`. A byte is a number.
use gemone.Prelude.{
  ℕ, ◌+◌, ◌-◌, ◌*◌, ◌/◌, ◌%◌, Bool, true, false, ◌&&◌, ◌||◌, Option, none, some, Text, List, [],
  ◌∷◌, ◌++◌, any, ◌==◌, ltb, leb, if◌then◌else◌, length, is_some, replicate, drop,
}

-- `text.split(c)`
abbrev put : ℕ → List Text → List Text
put x [] = (x ∷ []) ∷ []
put x (p ∷ ps) = (x ∷ p) ∷ ps

unfoldable pub split : ℕ → Text → List Text
split c [] = [] ∷ []
split c (x ∷ s) = let rest = split c s in if x == c then [] ∷ rest else put x rest

abbrev pub includes : ℕ → Text → Bool
includes c = any (λ x. x == c)

abbrev pub is_empty : {A : Type 0} → List A → Bool
is_empty [] = true
is_empty (x ∷ xs) = false

abbrev pub all : (ℕ → Bool) → Text → Bool
all test [] = true
all test (c ∷ s) = test c && all test s

abbrev pub is_digit : ℕ → Bool
is_digit c = leb 48 c && leb c 57

-- `Number(text)` of decimal digits, after those already read.
unfoldable pub decimal : ℕ → Text → ℕ
decimal n [] = n
decimal n (c ∷ s) = decimal (n * 10 + (c - 48)) s

-- `IPV4_OCTET`
unfoldable pub is_ipv4_octet : Text → Bool
is_ipv4_octet [] = false
is_ipv4_octet (c ∷ s) =
    if c == 48 then is_empty s else is_digit c && all is_digit s && leb (length s) 2

abbrev pub cons_to : ℕ → Option (List ℕ) → Option (List ℕ)
cons_to x none = none
cons_to x (some xs) = some (x ∷ xs)

unfoldable pub octets : List Text → Option (List ℕ)
octets [] = some []
octets (part ∷ parts) =
    let rest = octets parts in
    if is_ipv4_octet part
    then if ltb 255 (decimal 0 part) then none else cons_to (decimal 0 part) rest
    else none

unfoldable pub parse_ipv4 : Text → Option (List ℕ)
parse_ipv4 value = let parts = split 46 value in if length parts == 4 then octets parts else none

abbrev pub is_hex : ℕ → Bool
is_hex c = is_digit c || leb 65 c && leb c 70 || leb 97 c && leb c 102

abbrev pub hex_digit : ℕ → ℕ
hex_digit c = if is_digit c then c - 48 else if leb c 70 then c - 55 else c - 87

-- `Number.parseInt(value, 16)`
unfoldable pub hexadecimal : ℕ → Text → ℕ
hexadecimal n [] = n
hexadecimal n (c ∷ s) = hexadecimal (n * 16 + hex_digit c) s

unfoldable pub parse_group : Text → Option ℕ
parse_group value =
    if leb 1 (length value) && leb (length value) 4 && all is_hex value
    then some (hexadecimal 0 value)
    else none

-- The bytes of the groups, two for each.
unfoldable pub words : List Text → Option (List ℕ)
words [] = some []
words (group ∷ groups) =
    let rest = words groups in
    elim (parse_group group) [
      | none ↦ none
      | some word ↦ cons_to (word / 256) (cons_to (word % 256) rest)
    ]

-- What is before and after the first `::`.
abbrev after_colon : Text → Option Text
after_colon [] = none
after_colon (c ∷ s) = if c == 58 then some s else none

abbrev behind : ℕ → Option (Text × Text) → Option (Text × Text)
behind c none = none
behind c (some (before, after)) = some (c ∷ before, after)

unfoldable pub find_elision : Text → Option (Text × Text)
find_elision [] = none
find_elision (c ∷ s) =
    let rest = behind c (find_elision s) in
    if c == 58 then elim (after_colon s) [ none ↦ rest | some after ↦ some ([], after) ] else rest

unfoldable pub split_groups : Text → List Text
split_groups [] = []
split_groups (c ∷ s) = split 58 (c ∷ s)

pub record Groups : Type 0 where
  pub head : List Text
  pub tail : List Text
  pub elided : Bool

-- The zone index is cut off.
unfoldable pub without_zone : Text → Text
without_zone [] = []
without_zone (c ∷ s) = let rest = without_zone s in if c == 37 then [] else c ∷ rest

-- A second `::` may overlap the first.
unfoldable pub groups_of : Text → Option Groups
groups_of text = elim (find_elision text) [
  | none ↦ some (record { head = split 58 text; tail = []; elided = false })
  | some (before, after) ↦
      if is_some (find_elision (58 ∷ after))
      then none
      else some (record { head = split_groups before; tail = split_groups after; elided = true })
]

abbrev pub last : List Text → Option Text
last [] = none
last (x ∷ []) = some x
last (x ∷ y ∷ ys) = last (y ∷ ys)

abbrev pub without_last : List Text → List Text
without_last [] = []
without_last (x ∷ []) = []
without_last (x ∷ y ∷ ys) = x ∷ without_last (y ∷ ys)

-- The groups that are left, and the bytes of a dotted quad in the last one.
unfoldable pub embedded_in : Groups → Text → Option (Groups × List ℕ)
embedded_in g text =
    if includes 46 text
    then elim (parse_ipv4 text) [
      | none ↦ none
      | some quad ↦ some (
        if is_empty g.tail
            then record g { head = without_last g.head }
            else record g { tail = without_last g.tail },
        quad,
      )
    ]
    else some (g, [])

unfoldable pub take_embedded : Groups → Option (Groups × List ℕ)
unfolding embedded_in
take_embedded g = elim (if is_empty g.tail then last g.head else last g.tail) [
  | none ↦ some (g, [])
  | some text ↦ embedded_in g text
]

-- A dotted quad counts for two groups.
abbrev pub count_groups : Groups → List ℕ → ℕ
count_groups g quad = length g.head + length g.tail + length quad / 2

unfoldable pub fill : Groups → List ℕ → Option (List ℕ)
fill g quad = elim (words g.head) [
  | none ↦ none
  | some before ↦ elim (words g.tail) [
    | none ↦ none
    | some after ↦ some (before ++ (replicate (16 - count_groups g quad * 2) 0 ++ (after ++ quad)))
  ]
]

unfoldable pub parse_ipv6 : Text → Option (List ℕ)
unfolding fill
parse_ipv6 value = elim (groups_of (without_zone value)) [
  | none ↦ none
  | some parts ↦ elim (take_embedded parts) [
    | none ↦ none
    | some (g, quad) ↦
        if if g.elided then leb (count_groups g quad) 7 else count_groups g quad == 8
        then fill g quad
        else none
  ]
]

pub data Version : Type 0 where
  v4 v6 : Version

pub record ParsedAddress : Type 0 where
  pub version : Version
  pub bytes : List ℕ
  pub unwrapped : Bool

abbrev pub is_ipv4_mapped : List ℕ → Bool
is_ipv4_mapped (a ∷ b ∷ c ∷ d ∷ e ∷ f ∷ g ∷ h ∷ i ∷ j ∷ k ∷ l ∷ rest) =
    all (λ x. x == 0) (a ∷ b ∷ c ∷ d ∷ e ∷ f ∷ g ∷ h ∷ i ∷ j ∷ []) && k == 255 && l == 255
is_ipv4_mapped _ = false

unfoldable pub unwrap : List ℕ → ParsedAddress
unwrap bytes =
    if is_ipv4_mapped bytes
    then record { version = v4; bytes = drop 12 bytes; unwrapped = true }
    else record { version = v6; bytes = bytes; unwrapped = false }

unfoldable pub parse_address : Text → Option ParsedAddress
unfolding unwrap
parse_address value =
    if includes 58 value
    then elim (parse_ipv6 value) [ none ↦ none | some bytes ↦ some (unwrap bytes) ]
    else elim (parse_ipv4 value) [
      | none ↦ none
      | some bytes ↦ some (record { version = v4; bytes = bytes; unwrapped = false })
    ]

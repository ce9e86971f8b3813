-- ===== src/Providers/Range.antt =====
-- `ipMatchesRange` and `sharesPrefix` of apps/api/src/modules/providers/internal/ip-range.ts, and
-- `isPostbackSourceAllowed` of apps/api/src/modules/providers/providers.service.ts. `is_space` is the
-- class of characters that `trim` removes.
use gemone.Prelude.{
  ℕ, zero, suc, ◌-◌, ◌*◌, ◌/◌, ◌%◌, ◌^◌, Bool, true, false, ◌&&◌, Option, none, some, Text, List,
  [], ◌∷◌, any, ◌==◌, ltb, leb, if◌then◌else◌, length,
}
use gemone.Payouts.Destination.{trim}
use gemone.Providers.Address.{
  split, includes, is_digit, decimal, all, Version, v4, v6, ParsedAddress, parse_address,
}

abbrev pub byte_at : ℕ → List ℕ → ℕ
byte_at n [] = 0
byte_at zero (x ∷ xs) = x
byte_at (suc n) (x ∷ xs) = byte_at n xs

-- The loop over the whole bytes; what is out of range is `undefined`.
unfoldable pub same_bytes : ℕ → List ℕ → List ℕ → Bool
same_bytes zero xs ys = true
same_bytes (suc n) [] [] = true
same_bytes (suc n) (x ∷ xs) [] = false
same_bytes (suc n) [] (y ∷ ys) = false
same_bytes (suc n) (x ∷ xs) (y ∷ ys) = x == y && same_bytes n xs ys

-- `x & mask`, where the mask has ones in the first `n` places of a byte.
abbrev pub masked : ℕ → ℕ → ℕ
masked n x = let low = 2 ^ (8 - n) in x / low * low

unfoldable pub shares_prefix : List ℕ → List ℕ → ℕ → Bool
shares_prefix left right bits =
    let whole = bits / 8 in
    let remainder = bits % 8 in
    same_bytes whole left right
    && (if remainder == 0
        then true
        else masked remainder (byte_at whole left) == masked remainder (byte_at whole right))

abbrev pub same_version : Version → Version → Bool
same_version v4 v4 = true
same_version v6 v6 = true
same_version v4 v6 = false
same_version v6 v4 = false

-- The prefix as it is written, which is at most the width.
unfoldable pub written_bits : ℕ → List Text → Option ℕ
written_bits width [] = some width
written_bits width (prefix ∷ []) =
    if leb 1 (length prefix) && leb (length prefix) 3 && all is_digit prefix
    then if ltb width (decimal 0 prefix) then none else some (decimal 0 prefix)
    else none
written_bits width (prefix ∷ p ∷ ps) = none

abbrev pub written_width : Text → ℕ
written_width network = if includes 58 network then 128 else 32

-- The bits that are compared: a mapped address drops the first 96.
unfoldable pub compared_bits : ParsedAddress → ℕ → Option ℕ
compared_bits network bits =
    if network.unwrapped then if ltb bits 96 then none else some (bits - 96) else some bits

unfoldable pub matches_network : ParsedAddress → Text → List Text → Bool
matches_network target written prefix = elim (parse_address written) [
  | none ↦ false
  | some network ↦
      if same_version network.version target.version
      then elim (written_bits (written_width written) prefix) [
        | none ↦ false
        | some bits ↦ elim (compared_bits network bits) [
          | none ↦ false
          | some n ↦ shares_prefix target.bytes network.bytes n
        ]
      ]
      else false
]

abbrev pub parts_match : ParsedAddress → List Text → Bool
parts_match target [] = false
parts_match target (network ∷ prefix) = matches_network target network prefix

unfoldable pub ip_matches_range : (ℕ → Bool) → Text → Text → Bool
unfolding matches_network
ip_matches_range is_space address range = elim (parse_address (trim is_space address)) [
  | none ↦ false
  | some target ↦ parts_match target (split 47 (trim is_space range))
]

unfoldable pub ip_matches_any_range : (ℕ → Bool) → Text → List Text → Bool
ip_matches_any_range is_space address ranges = any (ip_matches_range is_space address) ranges

-- No ranges means that the source is not checked.
unfoldable pub is_postback_source_allowed : (ℕ → Bool) → List Text → Option Text → Bool
is_postback_source_allowed is_space [] source_ip = true
is_postback_source_allowed is_space (r ∷ rs) none = false
is_postback_source_allowed is_space (r ∷ rs) (some ip) = ip_matches_any_range is_space ip (r ∷ rs)

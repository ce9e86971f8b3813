-- ===== src/Providers/Allowed.antt =====
-- `ipMatchesRange` of apps/api/src/modules/providers/internal/ip-range.ts: which addresses a range holds.
use gemone.Prelude.{
  ℕ, zero, suc, ◌+◌, ◌-◌, ◌*◌, ◌≤◌, ◌≡◌, ◌↔◌, refl, ap, ◌∙◌, inl, inr, Bool, true, false, some,
  Text, List, [], ◌∷◌, ◌++◌, ltb, Bool-cases, length, take, text_eq, text_eq→eq, text_eq_refl,
  arith, some-inj,
}
use gemone.Payouts.Destination.{trim}
use gemone.Providers.Address.{split, ParsedAddress, parse_address}
use gemone.Providers.Range.{written_width, compared_bits, ip_matches_range}
use gemone.Providers.Prefix.{bits_of}
use gemone.Providers.Parsed.{size, IsRead, parse_address-IsRead}
use gemone.Providers.Prefixes.{HasPrefix, HasPrefix-written_bits, written_bits-HasPrefix}
use gemone.Providers.Matched.{IsMatched, ip_matches_range-IsMatched}

-- The bytes of an address in the notation of the range: the sixteen of `::ffff:a.b.c.d` where the
-- range is written so, and otherwise its own.
abbrev pub noted : Bool → List ℕ → List ℕ
noted true bytes = 0 ∷ 0 ∷ 0 ∷ 0 ∷ 0 ∷ 0 ∷ 0 ∷ 0 ∷ 0 ∷ 0 ∷ 255 ∷ 255 ∷ bytes
noted false bytes = bytes

-- The address is one, and the range an address of the same version with a prefix of at most all of its
-- bits as it is written, and no fewer than the 96 that are fixed where it is a mapped one; and the
-- first bits of the two, as many as the prefix says, are the same in that notation.
pub record IsInRange (is_space : ℕ → Bool) (address range : Text) : Type 0 where
  pub target : ParsedAddress
  pub network : ParsedAddress
  pub written : Text
  pub prefix : List Text
  pub bits : ℕ
  pub is_address : parse_address (trim is_space address) ≡ some target
  pub is_split : split 47 (trim is_space range) ≡ written ∷ prefix
  pub is_network : parse_address written ≡ some network
  pub is_same_version : network.version ≡ target.version
  pub has_prefix : HasPrefix (8 * length (noted network.unwrapped network.bytes)) prefix bits
  pub is_enough : network.unwrapped ≡ true → 96 ≤ bits
  pub agree :
      take bits (bits_of (noted network.unwrapped target.bytes))
      ≡ take bits (bits_of (noted network.unwrapped network.bytes))

written_width-noted :
    (written : Text) (network : ParsedAddress)
    → IsRead written network
    → written_width written ≡ 8 * length (noted network.unwrapped network.bytes)
written_width-noted written network ((len, small), inl (plain, four, whole)) =
    rw (plain, whole) (rw (len ∙ ap size four) refl)
written_width-noted written network ((len, small), inr (inl (colon, four, mapped))) =
    rw (colon, mapped) (rw (len ∙ ap size four) refl)
written_width-noted written network ((len, small), inr (inr (colon, six, whole))) =
    rw (colon, whole) (rw (len ∙ ap size six) refl)

-- Equal beginnings do not matter.
take_after :
    (xs : List ℕ) (m k : ℕ) (a b : List ℕ)
    → m ≡ k + length xs
    → take k a ≡ take k b ↔ take m (xs ++ a) ≡ take m (xs ++ b)
take_after [] m k a b h = let eq : m ≡ k = omega arith in rw eq ((λ t. t), (λ t. t))
take_after (x ∷ xs) zero k a b h = absurd (omega arith)
take_after (x ∷ xs) (suc m) k a b h =
    let (to, from) = take_after xs m k a b (omega arith) in
    ((λ t. ap (λ r. x ∷ r) (to t)), (λ t. from cc))

abbrev fixed : List ℕ
fixed = bits_of (noted true [])

-- The bits that are compared agree where those of the prefix do in the notation of the range.
compared_bits-noted :
    (network : ParsedAddress) (u : Bool) (bits n : ℕ) (a b : List ℕ)
    → network.unwrapped ≡ u
    → compared_bits network bits ≡ some n
    → (text_eq (take n (bits_of a)) (take n (bits_of b)) ≡ true
        ↔ take bits (bits_of (noted u a)) ≡ take bits (bits_of (noted u b)))
      × (u ≡ true → 96 ≤ bits)
unfolding compared_bits
compared_bits-noted network false bits n a b same h =
    let eq : bits ≡ n = some-inj bits n (rw same at h) in
    rw (← eq) (
      (
        text_eq→eq (take bits (bits_of a)) (take bits (bits_of b)),
        (λ e. rw e (text_eq_refl (take bits (bits_of b)))),
      ),
      λ wrong. cc,
    )
compared_bits-noted network true bits n a b same h =
    let h' = rw (same, compared_bits) at h in
    elim (Bool-cases (ltb bits 96)) [
      | inl few ↦ let wrong = rw few at h' in cc
      | inr enough ↦
          let eq : bits - 96 ≡ n = some-inj (bits - 96) n (rw enough at h') in
          let many : 96 ≤ bits = ground arith in
          let size_of : length fixed ≡ 96 = refl in
          let whole : bits ≡ n + length fixed = omega arith in
          let (to, from) = take_after fixed bits n (bits_of a) (bits_of b) whole in
          (
            (
              λ e. to (text_eq→eq (take n (bits_of a)) (take n (bits_of b)) e),
              λ e. rw (from e) (text_eq_refl (take n (bits_of b))),
            ),
            λ t. many,
          )
    ]

enough-compared :
    (network : ParsedAddress) (bits : ℕ)
    → (network.unwrapped ≡ true → 96 ≤ bits)
    → (n : ℕ) × (compared_bits network bits ≡ some n)
unfolding compared_bits
enough-compared network bits enough = elim (Bool-cases network.unwrapped) [
  | inr whole ↦ (bits, rw (whole, compared_bits) refl)
  | inl mapped ↦
      let many : 96 ≤ bits = enough mapped in
      let few : ltb bits 96 ≡ false = ground arith in
      (bits - 96, rw (mapped, compared_bits) (rw few refl))
]

module _ (is_space : ℕ → Bool) (address range : Text) where
  IsMatched-IsInRange : IsMatched is_space address range → IsInRange is_space address range
  IsMatched-IsInRange m =
      let (agrees, enough) =
        compared_bits-noted m.network m.network.unwrapped m.bits m.compared m.target.bytes
          m.network.bytes refl m.has_compared in
      let width =
        written_width-noted m.written m.network
          (parse_address-IsRead m.written m.network m.is_network) in
      record {
        target = m.target;
        network = m.network;
        written = m.written;
        prefix = m.prefix;
        bits = m.bits;
        is_address = m.is_address;
        is_split = m.is_split;
        is_network = m.is_network;
        is_same_version = m.is_same_version;
        has_prefix = written_bits-HasPrefix _ m.prefix m.bits (rw (← width) (m.has_bits));
        is_enough = enough;
        agree = agrees.0 (m.agree);
      }

  IsInRange-IsMatched : IsInRange is_space address range → IsMatched is_space address range
  IsInRange-IsMatched r =
      let (n, compared) = enough-compared r.network r.bits r.is_enough in
      let (agrees, enough) =
        compared_bits-noted r.network r.network.unwrapped r.bits n r.target.bytes r.network.bytes
          refl compared in
      let width =
        written_width-noted r.written r.network
          (parse_address-IsRead r.written r.network r.is_network) in
      record {
        target = r.target;
        network = r.network;
        written = r.written;
        prefix = r.prefix;
        bits = r.bits;
        compared = n;
        is_address = r.is_address;
        is_split = r.is_split;
        is_network = r.is_network;
        is_same_version = r.is_same_version;
        has_bits = rw width (HasPrefix-written_bits _ r.prefix r.bits r.has_prefix);
        has_compared = compared;
        agree = agrees.1 (r.agree);
      }

-- A range holds exactly the addresses of its version that have its first bits, as many as its prefix
-- says of the notation that the range is written in: all of them where there is no prefix, and for a
-- mapped range never fewer than the 96 that its notation fixes. What is no address, or no range,
-- matches nothing.
pub ip_matches_range_lem :
    (is_space : ℕ → Bool) (address range : Text)
    → ip_matches_range is_space address range ≡ true ↔ IsInRange is_space address range
ip_matches_range_lem is_space address range =
    let (to, from) = ip_matches_range-IsMatched is_space address range in
    (
      λ h. IsMatched-IsInRange is_space address range (to h),
      λ r. from (IsInRange-IsMatched is_space address range r),
    )

-- ===== src/Providers/Matched.antt =====
-- `ipMatchesRange` of apps/api/src/modules/providers/internal/ip-range.ts, read step by step.
use gemone.Prelude.{
  ℕ, ◌-◌, ◌*◌, ◌≤◌, ◌≡◌, ◌↔◌, refl, sym, ap, ◌∙◌, inl, inr, Bool, true, false, ◌&&◌, some, Text,
  List, [], ◌∷◌, ltb, Bool-cases, Option-cases, length, take, text_eq, arith, some-inj, leb,
}
use gemone.Payouts.Destination.{trim}
use gemone.Providers.Address.{
  split, all, is_digit, decimal, Version, v4, v6, ParsedAddress, parse_address,
}
use gemone.Providers.Range.{
  same_version, written_bits, written_width, compared_bits, matches_network, parts_match,
  shares_prefix, ip_matches_range,
}
use gemone.Providers.Prefix.{bits_of, shares_prefix_lem}
use gemone.Providers.Parsed.{size, IsRead, parse_address-IsRead}

-- What `ipMatchesRange` computes on its way to a match, and the bits that it compares.
pub record IsMatched (is_space : ℕ → Bool) (address range : Text) : Type 0 where
  pub target : ParsedAddress
  pub network : ParsedAddress
  pub written : Text
  pub prefix : List Text
  pub bits : ℕ
  pub compared : ℕ
  pub is_address : parse_address (trim is_space address) ≡ some target
  pub is_split : split 47 (trim is_space range) ≡ written ∷ prefix
  pub is_network : parse_address written ≡ some network
  pub is_same_version : network.version ≡ target.version
  pub has_bits : written_bits (written_width written) prefix ≡ some bits
  pub has_compared : compared_bits network bits ≡ some compared
  pub agree :
      text_eq (take compared (bits_of target.bytes)) (take compared (bits_of network.bytes)) ≡ true

same_version-eq : (a b : Version) → same_version a b ≡ true → a ≡ b
same_version-eq v4 v4 h = refl
same_version-eq v6 v6 h = refl
same_version-eq v4 v6 h = cc
same_version-eq v6 v4 h = cc

same_version_refl : (a : Version) → same_version a a ≡ true
same_version_refl v4 = refl
same_version_refl v6 = refl

at_most : (n width : ℕ) → ltb width n ≡ false → n ≤ width
at_most n width h = ground arith

written_bits_fit :
    (width : ℕ) (prefix : List Text) (bits : ℕ)
    → written_bits width prefix ≡ some bits
    → bits ≤ width
unfolding written_bits
written_bits_fit width [] bits h = rw (some-inj width bits h) (omega arith)
written_bits_fit width (prefix ∷ []) bits h =
    elim (Bool-cases (leb 1 (length prefix) && leb (length prefix) 3 && all is_digit prefix)) [
      | inr bad ↦ let wrong = rw bad at h in cc
      | inl good ↦ elim (Bool-cases (ltb width (decimal 0 prefix))) [
        | inl big ↦ let wrong = rw big at (rw good at h) in cc
        | inr fits ↦
            rw (← some-inj (decimal 0 prefix) bits (rw fits at (rw good at h)))
              (at_most (decimal 0 prefix) width fits)
      ]
    ]
written_bits_fit width (prefix ∷ p ∷ ps) bits h = cc

compared_bits_fit :
    (written : Text) (network : ParsedAddress) (bits n : ℕ)
    → IsRead written network
    → bits ≤ written_width written
    → compared_bits network bits ≡ some n
    → n ≤ 8 * size network.version
unfolding compared_bits
compared_bits_fit written network bits n (sized, inl (plain, four, whole)) fits h =
    let fits' : bits ≤ 32 = rw plain at fits in
    let same = some-inj bits n (rw (whole, compared_bits) at h) in rw (four, ← same) fits'
compared_bits_fit written network bits n (sized, inr (inr (colon, six, whole))) fits h =
    let fits' : bits ≤ 128 = rw colon at fits in
    let same = some-inj bits n (rw (whole, compared_bits) at h) in rw (six, ← same) fits'
compared_bits_fit written network bits n (sized, inr (inl (colon, four, mapped))) fits h =
    let fits' : bits ≤ 128 = rw colon at fits in
    elim (Bool-cases (ltb bits 96)) [
      | inl few ↦ let wrong = rw few at (rw (mapped, compared_bits) at h) in cc
      | inr enough ↦
          let same = some-inj (bits - 96) n (rw enough at (rw (mapped, compared_bits) at h)) in
          rw (four, ← same) (omega arith)
    ]

-- What is compared is within both addresses, so it is their bits.
compared_lem :
    (written value : Text) (network target : ParsedAddress) (prefix : List Text) (bits n : ℕ)
    → parse_address value ≡ some target
    → parse_address written ≡ some network
    → network.version ≡ target.version
    → written_bits (written_width written) prefix ≡ some bits
    → compared_bits network bits ≡ some n
    → shares_prefix target.bytes network.bytes n
      ≡ text_eq (take n (bits_of target.bytes)) (take n (bits_of network.bytes))
compared_lem written value network target prefix bits n ta na same wb cb =
    let ((tl, ts), tv) = parse_address-IsRead value target ta in
    let ((nl, ns), nv) = parse_address-IsRead written network na in
    let fits =
      compared_bits_fit written network bits n ((nl, ns), nv)
        (written_bits_fit (written_width written) prefix bits wb) cb in
    let sizes : size network.version ≡ size target.version = ap size same in
    shares_prefix_lem target.bytes network.bytes n ts ns (omega arith) (omega arith)

matches-IsMatched :
    (is_space : ℕ → Bool) (address range written : Text) (prefix : List Text)
    (target : ParsedAddress)
    → parse_address (trim is_space address) ≡ some target
    → split 47 (trim is_space range) ≡ written ∷ prefix
    → matches_network target written prefix ≡ true
    → IsMatched is_space address range
unfolding matches_network
matches-IsMatched is_space address range written prefix target ta sp h =
    elim (Option-cases (parse_address written)) [
      | inl bad ↦ let wrong = rw (bad, matches_network) at h in cc
      | inr (network, na) ↦
          let h1 = rw (na, matches_network) at h in
          elim (Bool-cases (same_version network.version target.version)) [
            | inr other ↦ let wrong = rw other at h1 in cc
            | inl same ↦
                let h2 = rw same at h1 in
                elim (Option-cases (written_bits (written_width written) prefix)) [
                  | inl bad ↦ let wrong = rw bad at h2 in cc
                  | inr (bits, wb) ↦
                      let h3 = rw wb at h2 in
                      elim (Option-cases (compared_bits network bits)) [
                        | inl bad ↦ let wrong = rw bad at h3 in cc
                        | inr (n, cb) ↦
                            let eq = same_version-eq network.version target.version same in
                            record {
                              target = target;
                              network = network;
                              written = written;
                              prefix = prefix;
                              bits = bits;
                              compared = n;
                              is_address = ta;
                              is_split = sp;
                              is_network = na;
                              is_same_version = eq;
                              has_bits = wb;
                              has_compared = cb;
                              agree =
                                  sym (
                                    compared_lem written (trim is_space address) network target
                                      prefix bits n ta na eq wb cb)
                                  ∙ (rw cb at h3);
                            }
                      ]
                ]
          ]
    ]

parts-IsMatched :
    (is_space : ℕ → Bool) (address range : Text) (target : ParsedAddress) (parts : List Text)
    → parse_address (trim is_space address) ≡ some target
    → split 47 (trim is_space range) ≡ parts
    → parts_match target parts ≡ true
    → IsMatched is_space address range
parts-IsMatched is_space address range target [] ta sp h = cc
parts-IsMatched is_space address range target (written ∷ prefix) ta sp h =
    matches-IsMatched is_space address range written prefix target ta sp h

found-IsMatched :
    (is_space : ℕ → Bool) (address range : Text)
    → ip_matches_range is_space address range ≡ true
    → IsMatched is_space address range
unfolding ip_matches_range
found-IsMatched is_space address range h =
    elim (Option-cases (parse_address (trim is_space address))) [
      | inl bad ↦ let wrong = rw (bad, ip_matches_range) at h in cc
      | inr (target, ta) ↦
          parts-IsMatched is_space address range target (split 47 (trim is_space range)) ta refl
            (rw (ta, ip_matches_range) at h)
    ]

IsMatched-found :
    (is_space : ℕ → Bool) (address range : Text)
    → IsMatched is_space address range
    → ip_matches_range is_space address range ≡ true
unfolding ip_matches_range matches_network
IsMatched-found is_space address range r =
    let same : same_version r.network.version r.target.version ≡ true =
      rw r.is_same_version (same_version_refl r.target.version) in
    let found =
      compared_lem r.written (trim is_space address) r.network r.target r.prefix r.bits r.compared
        r.is_address r.is_network r.is_same_version r.has_bits r.has_compared
      ∙ r.agree in
    rw (r.is_address, ip_matches_range)
      (rw r.is_split
        (rw (r.is_network, matches_network) (rw same (rw r.has_bits (rw r.has_compared found)))))

-- What the steps of `ipMatchesRange` find when they match, and that it is enough.
pub ip_matches_range-IsMatched :
    (is_space : ℕ → Bool) (address range : Text)
    → ip_matches_range is_space address range ≡ true ↔ IsMatched is_space address range
ip_matches_range-IsMatched is_space address range =
    (found-IsMatched is_space address range, IsMatched-found is_space address range)

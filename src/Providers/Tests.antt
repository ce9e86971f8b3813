-- ===== src/Providers/Tests.antt =====
-- The theorems on addresses and ranges at small texts.
use gemone.Prelude.{
  ℕ, ◌==◌, ◌≡◌, ◌↔◌, refl, Bool, true, false, some, codes, [], ◌∷◌, take, text_eq, arith,
}
use gemone.Payouts.Destination.{trim, trim_start, trim_end}
use gemone.Providers.Address.{
  split, decimal, is_ipv4_octet, octets, parse_ipv4, hexadecimal, parse_group, words, find_elision,
  split_groups, without_zone, groups_of, embedded_in, take_embedded, fill, parse_ipv6, unwrap,
  parse_address, v6,
}
use gemone.Providers.Range.{
  same_bytes, shares_prefix, written_bits, compared_bits, matches_network, ip_matches_range,
}
use gemone.Providers.Prefix.{bits_of, shares_prefix_lem}
use gemone.Providers.Parsed.{IsRead, parse_address-IsRead}
use gemone.Providers.Allowed.{IsInRange, ip_matches_range_lem}

abbrev space : ℕ → Bool
space c = c == 32

-- An IPv6 address with an elision, and its bytes.
reads :
    parse_address (codes "2001:db8::1")
    ≡ some (record {
      version = v6;
      bytes = 32 ∷ 1 ∷ 13 ∷ 184 ∷ 0 ∷ 0 ∷ 0 ∷ 0 ∷ 0 ∷ 0 ∷ 0 ∷ 0 ∷ 0 ∷ 0 ∷ 0 ∷ 1 ∷ [];
      unwrapped = false;
    })
unfolding split decimal is_ipv4_octet octets parse_ipv4 hexadecimal parse_group words find_elision
    split_groups without_zone groups_of embedded_in take_embedded fill parse_ipv6 unwrap
    parse_address
reads = refl

parse_address-IsRead_example : IsRead (codes "2001:db8::1") (record {
  version = v6;
  bytes = 32 ∷ 1 ∷ 13 ∷ 184 ∷ 0 ∷ 0 ∷ 0 ∷ 0 ∷ 0 ∷ 0 ∷ 0 ∷ 0 ∷ 0 ∷ 0 ∷ 0 ∷ 1 ∷ [];
  unwrapped = false;
})
parse_address-IsRead_example =
    parse_address-IsRead (codes "2001:db8::1")
      (record {
        version = v6;
        bytes = 32 ∷ 1 ∷ 13 ∷ 184 ∷ 0 ∷ 0 ∷ 0 ∷ 0 ∷ 0 ∷ 0 ∷ 0 ∷ 0 ∷ 0 ∷ 0 ∷ 0 ∷ 1 ∷ [];
        unwrapped = false;
      })
      reads

shares_prefix_lem_example :
    shares_prefix (10 ∷ 1 ∷ []) (10 ∷ 7 ∷ []) 12
    ≡ text_eq (take 12 (bits_of (10 ∷ 1 ∷ []))) (take 12 (bits_of (10 ∷ 7 ∷ [])))
shares_prefix_lem_example =
    shares_prefix_lem (10 ∷ 1 ∷ []) (10 ∷ 7 ∷ []) 12 (omega arith, (omega arith, tt))
      (omega arith, (omega arith, tt)) refl (omega arith)

-- A mapped address is in the range of the address that it maps.
mapped_in : ip_matches_range space (codes "::ffff:10.1.2.3") (codes " 10.0.0.0/8") ≡ true
unfolding split decimal is_ipv4_octet octets parse_ipv4 hexadecimal parse_group words find_elision
    split_groups without_zone groups_of embedded_in take_embedded fill parse_ipv6 unwrap
    parse_address same_bytes shares_prefix written_bits compared_bits matches_network
    ip_matches_range trim trim_start trim_end
mapped_in = refl

ip_matches_range_lem_example :
    ip_matches_range space (codes "::ffff:10.1.2.3") (codes " 10.0.0.0/8") ≡ true
    ↔ IsInRange space (codes "::ffff:10.1.2.3") (codes " 10.0.0.0/8")
ip_matches_range_lem_example =
    ip_matches_range_lem space (codes "::ffff:10.1.2.3") (codes " 10.0.0.0/8")

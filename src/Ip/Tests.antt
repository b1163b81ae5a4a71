-- ===== src/Ip/Tests.antt =====
-- The address parsers at concrete inputs.
use corosig.Prelude.{replicate, ◌++◌, ℕ, ◌≡◌, refl, ◌↔◌, List, [], ◌∷◌, some}
use corosig.Ip.{Ipv4Addr, Ipv6Addr}
use corosig.Ip.V4.{parse}
use corosig.Ip.V6.Mapped.{IsMapped, parse_mapped_ipv4_iff}
use corosig.Ip.V6.{
  parse_mapped_ipv4, parse_any, v6, need, accepted, parse_regular, parse_ipv6_group,
  hex_char_to_num,
}
use corosig.Ip.V6.Regular.{regular_of, groups_of, parse_regular_lem}
use corosig.Ip.V4.Groups.{IsDotted}
use corosig.Ip.V4.Dotted.{parse_iff}

-- "10.0.0.001"
abbrev text_ten : List ℕ
text_ten = 49 ∷ 48 ∷ 46 ∷ 48 ∷ 46 ∷ 48 ∷ 46 ∷ 48 ∷ 48 ∷ 49 ∷ []

abbrev addr_ten : Ipv4Addr
addr_ten = record { octets = 10 ∷ 0 ∷ 0 ∷ 1 ∷ [] }

parses_ten : parse text_ten ≡ some addr_ten
unfolding parse
parses_ten = refl

parse_iff_example : (parse text_ten ≡ some addr_ten) ↔ IsDotted text_ten addr_ten
parse_iff_example = parse_iff text_ten addr_ten

-- The buffer before it is written.
abbrev junk : List ℕ
junk = 9 ∷ 9 ∷ 9 ∷ 9 ∷ 9 ∷ 9 ∷ 9 ∷ 9 ∷ []

-- "fe80::1"
abbrev text_local : List ℕ
text_local = 102 ∷ 101 ∷ 56 ∷ 48 ∷ 58 ∷ 58 ∷ 49 ∷ []

parses_local :
    parse_regular junk text_local
    ≡ accepted (record { octets = 0xFE ∷ 0x80 ∷ (replicate 13 0 ++ 1 ∷ []) })
unfolding parse_regular parse_ipv6_group hex_char_to_num
parses_local = refl

-- "1::2:" and "1x2x3x4x5x6x7x8" are accepted too.
accepts_last_colon :
    parse_regular junk (49 ∷ 58 ∷ 58 ∷ 50 ∷ 58 ∷ [])
    ≡ accepted (record { octets = 0 ∷ 1 ∷ (replicate 12 0 ++ 0 ∷ 2 ∷ []) })
unfolding parse_regular parse_ipv6_group hex_char_to_num
accepts_last_colon = refl

accepts_other_separator :
    parse_regular junk
      (49 ∷ 120 ∷ 50 ∷ 120 ∷ 51 ∷ 120 ∷ 52 ∷ 120 ∷ 53 ∷ 120 ∷ 54 ∷ 120 ∷ 55 ∷ 120 ∷ 56 ∷ [])
    ≡ accepted
        (record { octets = 0 ∷ 1 ∷ 0 ∷ 2 ∷ 0 ∷ 3 ∷ 0 ∷ 4 ∷ 0 ∷ 5 ∷ 0 ∷ 6 ∷ 0 ∷ 7 ∷ 0 ∷ 8 ∷ [] })
unfolding parse_regular parse_ipv6_group hex_char_to_num
accepts_other_separator = refl

parse_regular_lem_example : parse_regular junk text_local ≡ regular_of (groups_of text_local)
parse_regular_lem_example = parse_regular_lem junk text_local refl

-- "::ffff:10.0.0.001"
abbrev text_mapped : List ℕ
text_mapped = 58 ∷ 58 ∷ 102 ∷ 102 ∷ 70 ∷ 102 ∷ 58 ∷ text_ten

abbrev addr_mapped : Ipv6Addr
addr_mapped = record { octets = replicate 10 0 ++ 0xFF ∷ 0xFF ∷ 10 ∷ 0 ∷ 0 ∷ 1 ∷ [] }

parse_mapped_ipv4_iff_example :
    (parse_mapped_ipv4 text_mapped ≡ some addr_mapped) ↔ IsMapped text_mapped addr_mapped
parse_mapped_ipv4_iff_example = parse_mapped_ipv4_iff text_mapped addr_mapped

any_mapped : parse_any junk text_mapped ≡ need (some (v6 addr_mapped))
unfolding parse parse_any corosig.Ip.V6.parse parse_regular parse_ipv6_group hex_char_to_num
any_mapped = refl

-- ===== src/Ip/V6.antt =====
-- `Ipv6Addr::parse` of Sockaddr.cpp with its helpers. The expansion buffer is a list of eight
-- numbers, and a write outside of it is a fault.
pub mod Expanded
pub mod Regular
pub mod Mapped
use Prim.Native.Nat.{bit_and, min}
use corosig.Prelude.{
  ℕ, zero, suc, ◌+◌, ◌-◌, ◌*◌, ◌/◌, ◌%◌, ◌^◌, Bool, true, false, not, ◌&&◌, ◌||◌, List, [], ◌∷◌,
  ◌++◌, Option, none, some, length, take, drop, replicate, ltb, leb, ◌==◌, if◌then◌else◌,
}
use corosig.Ip.{Ipv4Addr, Ipv6Addr}
use corosig.Ip.V4

-- `fault` is a write out of bounds, `diverge` a loop whose fuel ran out.
pub data Parse {ℓ} (A : Type ℓ) : Type ℓ where
  accepted : A → Parse A
  rejected fault diverge : Parse A

infixl 5 ◌>>=◌
abbrev pub ◌>>=◌ {ℓ κ} : {A : Type ℓ} {B : Type κ} → Parse A → (A → Parse B) → Parse B
parse >>= rest = elim parse [
  | accepted a ↦ rest a
  | rejected ↦ rejected
  | fault ↦ fault
  | diverge ↦ diverge
]

-- `if (!res) return std::nullopt;`
abbrev pub need {ℓ} : {A : Type ℓ} → Option A → Parse A
need (some a) = accepted a
need none = rejected

abbrev pub colon : ℕ
colon = 58

unfoldable pub hex_char_to_num : ℕ → Option ℕ
hex_char_to_num c =
    if leb 48 c && leb c 57
    then some (c - 48)
    else if leb 97 c && leb c 102
    then some (c - 97 + 10)
    else if leb 65 c && leb c 70
    then some (c - 65 + 10)
    else none

-- The loop of `parse_ipv6_group`: `left` rounds of four are left after `i`, and `group` is an
-- uint16_t.
group_loop : ℕ → ℕ → ℕ → List ℕ → Option (ℕ × List ℕ)
unfolding hex_char_to_num
group_loop zero i group str = some (group, str)
group_loop (suc left) i group [] = some (group, [])
group_loop (suc left) i group (c ∷ cs) = elim (hex_char_to_num c) [
  | none ↦ if i == 0 then none else some (group, c ∷ cs)
  | some add_value ↦ group_loop left (i + 1) ((group * 16 % 65536 + add_value) % 65536) cs
]

unfoldable pub parse_ipv6_group : List ℕ → Option (ℕ × List ℕ)
unfolding group_loop
parse_ipv6_group group_str = group_loop 4 0 0 group_str

pub starts_with_compressor : List ℕ → Bool
starts_with_compressor (a ∷ b ∷ rest) = a == colon && b == colon
starts_with_compressor (a ∷ []) = false
starts_with_compressor [] = false

-- `expansion_buf[i] = group`
pub set_at : ℕ → ℕ → List ℕ → List ℕ
set_at i v [] = []
set_at zero v (x ∷ xs) = v ∷ xs
set_at (suc i) v (x ∷ xs) = x ∷ set_at i v xs

pub store : ℕ → ℕ → List ℕ → Parse (List ℕ)
unfolding set_at
store i v buf = if ltb i (length buf) then accepted (set_at i v buf) else fault

pub record FrontGroups : Type 0 where
  pub has_met_compressor : Bool
  pub groups : ℕ
  pub addr : List ℕ
  pub expansion_buf : List ℕ

abbrev front_groups : Bool → ℕ → List ℕ → List ℕ → FrontGroups
front_groups met groups addr buf = record {
  has_met_compressor = met;
  groups = groups;
  addr = addr;
  expansion_buf = buf;
}

-- A round behind its group: stop at the compressor, or drop a character, whichever it is, if there
-- is one, and go on.
pub front_next : ℕ → List ℕ → List ℕ → Parse FrontGroups → Parse FrontGroups
unfolding starts_with_compressor
front_next groups addr buf next =
    if starts_with_compressor addr
    then accepted (front_groups true groups (drop 1 addr) buf)
    else next

-- The loop of `ipv6_parse_front_groups`, where `left` of the eight groups are left.
pub front_loop : ℕ → ℕ → List ℕ → List ℕ → Parse FrontGroups
unfolding store front_next
front_loop left groups buf [] = accepted (front_groups false groups [] buf)
front_loop zero groups buf (c ∷ cs) = accepted (front_groups false groups (c ∷ cs) buf)
front_loop (suc left) groups buf (c ∷ cs) = do
  (group, addr) ← need (parse_ipv6_group (c ∷ cs))
  buf' ← store groups group buf
  front_next (groups + 1) addr buf' (front_loop left (groups + 1) buf' (drop 1 addr))

pub ipv6_parse_front_groups : List ℕ → List ℕ → Parse FrontGroups
unfolding front_loop starts_with_compressor
ipv6_parse_front_groups buf addr =
    if starts_with_compressor addr
    then accepted (front_groups true 0 (drop 1 addr) buf)
    else front_loop 8 0 buf addr

-- A round of the loop of `parse_regular` behind the colon; `again` is the next round.
pub back_group :
    ℕ → ℕ → List ℕ → List ℕ → (List ℕ → List ℕ → Parse (ℕ × List ℕ)) → Parse (ℕ × List ℕ)
unfolding store
back_group groups back_groups buf [] again = accepted (back_groups, buf)
back_group groups back_groups buf (c ∷ cs) again = do
  (group, addr) ← need (parse_ipv6_group (c ∷ cs))
  buf' ← store (groups + back_groups) group buf
  again buf' addr

-- `while (!addr.empty())` of `parse_regular`, with `groups` of the front.
pub back_loop : ℕ → ℕ → ℕ → List ℕ → List ℕ → Parse (ℕ × List ℕ)
unfolding back_group starts_with_compressor
back_loop rounds groups back_groups buf [] = accepted (back_groups, buf)
back_loop zero groups back_groups buf (c ∷ cs) = diverge
back_loop (suc rounds) groups back_groups buf (c ∷ cs) =
    if ltb 8 (back_groups + groups + 1) || (not (c == colon) || starts_with_compressor (c ∷ cs))
    then rejected
    else back_group groups back_groups buf cs
        (λ buf' addr. back_loop rounds groups (back_groups + 1) buf' addr)

-- `std::shift_right` of the buffer from `groups` on, and `std::fill_n` of what is before it.
pub expand : ℕ → ℕ → List ℕ → List ℕ
expand groups zeros buf =
    let tail = drop groups buf in
    let shifted =
      if zeros == 0 || leb (length tail) zeros
      then tail
      else take zeros tail ++ take (length tail - zeros) tail in
    take groups buf ++ (replicate zeros 0 ++ drop zeros shifted)

pub from_groups : List ℕ → List ℕ
from_groups [] = []
from_groups (g ∷ gs) = bit_and (g / 2 ^ 8) 0xFF ∷ bit_and g 0xFF ∷ from_groups gs

-- Behind the compressor. `groups + back_groups` is at most 8, as the loop has written that many.
-- Nine rounds are enough, as each adds a group.
pub back_part : FrontGroups → Parse (List ℕ)
unfolding back_loop expand
back_part front = do
  (back_groups, buf) ← back_loop 9 front.groups 0 front.expansion_buf front.addr
  if leb 8 (front.groups + back_groups)
      then rejected
      else accepted (expand front.groups (8 - front.groups - back_groups) buf)

-- `junk` is what the uninitialized buffer holds.
unfoldable pub parse_regular : List ℕ → List ℕ → Parse Ipv6Addr
unfolding ipv6_parse_front_groups back_part from_groups
parse_regular junk addr = do
  front ← ipv6_parse_front_groups junk addr
  buf ←
      (if front.has_met_compressor
        then back_part front
        else if not (front.groups == 8) || ltb 0 (length front.addr)
        then rejected
        else accepted front.expansion_buf)
  accepted (record { octets = from_groups buf })

-- `substr` has the first four characters.
all_f : List ℕ → Bool
all_f [] = true
all_f (c ∷ cs) = (c == 102 || c == 70) && all_f cs

-- Behind the compressor and four characters, the address of IPv4 stands behind a colon.
mapped_ipv4 : List ℕ → Option Ipv6Addr
mapped_ipv4 [] = none
mapped_ipv4 (c ∷ addr) =
    if c == colon
    then (elim (V4.parse addr) [
      | none ↦ none
      | some ipv4 ↦ some (record { octets = replicate 10 0 ++ 0xFF ∷ 0xFF ∷ ipv4.octets })
    ])
    else none

pub parse_mapped_ipv4 : List ℕ → Option Ipv6Addr
unfolding all_f mapped_ipv4 starts_with_compressor
parse_mapped_ipv4 addr =
    if ltb (length addr) 7 || not (starts_with_compressor addr)
    then none
    else if all_f (take 4 (drop 2 addr))
    then mapped_ipv4 (drop 6 addr)
    else none

-- The parser that is tried first, and what is tried behind it.
or_mapped : Parse Ipv6Addr → Option Ipv6Addr → Parse Ipv6Addr
or_mapped (accepted a) mapped = accepted a
or_mapped rejected mapped = need mapped
or_mapped fault mapped = fault
or_mapped diverge mapped = diverge

unfoldable pub parse : List ℕ → List ℕ → Parse Ipv6Addr
unfolding parse_regular parse_mapped_ipv4 or_mapped
parse junk addr = or_mapped (parse_regular junk addr) (parse_mapped_ipv4 addr)

-- `IpvNAddr` of Sockaddr.hpp and its parser.
pub data IpvNAddr : Type 0 where
  v4 : Ipv4Addr → IpvNAddr
  v6 : Ipv6Addr → IpvNAddr

or_v6 : Option Ipv4Addr → Parse Ipv6Addr → Parse IpvNAddr
or_v6 (some a) result = accepted (v4 a)
or_v6 none result = do a ← result; accepted (v6 a)

unfoldable pub parse_any : List ℕ → List ℕ → Parse IpvNAddr
unfolding parse or_v6
parse_any junk addr = or_v6 (V4.parse addr) (parse junk addr)

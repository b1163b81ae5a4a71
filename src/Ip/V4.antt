-- ===== src/Ip/V4.antt =====
-- `Ipv4Addr::parse` of Sockaddr.cpp. A character is its octet.
pub mod Groups
pub mod Dotted
use corosig.Prelude.{
  ℕ, zero, suc, ◌+◌, ◌-◌, ◌*◌, ◌%◌, Bool, true, false, ◌||◌, List, [], ◌∷◌, ◌++◌, Option, none,
  some, length, ltb, ◌==◌, if◌then◌else◌, ◌>>=◌,
}
use corosig.Text.{Part, split_view}
use corosig.Ip.{Ipv4Addr}

-- The loop over the characters of one group; `group_result` is an uint16_t.
pub group_value : ℕ → List ℕ → Option ℕ
group_value group_result [] = some group_result
group_value group_result (c ∷ cs) =
    let rest = group_value ((group_result * 10 % 65536 + (c - 48)) % 65536) cs in
    if ltb c 48 || ltb 57 c then none else rest

-- The checks on one group. The result is an uint8_t.
pub parse_group : List ℕ → Option ℕ
unfolding group_value
parse_group [] = none
parse_group (c ∷ cs) = if ltb 3 (length (c ∷ cs)) then none else (do
  group_result ← group_value 0 (c ∷ cs)
  if ltb 255 group_result then none else some group_result)

-- The loop over the groups; `result` has the groups that are stored before, which are `i`.
pub parse_groups : ℕ → List ℕ → List Part → Option (List ℕ)
unfolding parse_group
parse_groups i result [] = if i == 4 then some result else none
parse_groups i result (group ∷ groups) =
    if i == 4
    then none
    else (do value ← parse_group group.text; parse_groups (i + 1) (result ++ value ∷ []) groups)

unfoldable pub parse : List ℕ → Option Ipv4Addr
unfolding parse_groups split_view
parse addr = do result ← parse_groups 0 [] (split_view addr); some (record { octets = result })

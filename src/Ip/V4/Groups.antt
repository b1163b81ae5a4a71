-- ===== src/Ip/V4/Groups.antt =====
-- The dotted notation and its groups, and what `parse_group` makes of a group.
use corosig.Prelude.{ℕ, ◌+◌, ◌-◌, ◌*◌, ◌≤◌, ◌≡◌, List, [], ◌∷◌, ◌++◌, some, length, All, arith}
use corosig.Text.{dot}
use corosig.Ip.{Ipv4Addr}
use corosig.Ip.V4.{group_value, parse_group}

-- The number that decimal digits behind a number make.
abbrev pub number : ℕ → List ℕ → ℕ
number n [] = n
number n (c ∷ cs) = number (n * 10 + (c - 48)) cs

abbrev pub IsDigit : ℕ → Type 0
IsDigit c = (48 ≤ c) × (c ≤ 57)

-- One to three digits of a number of 8 bits, with leading zeros or not.
pub record IsGroup (text : List ℕ) (v : ℕ) : Type 0 where
  pub some_digit : 1 ≤ length text
  pub short : length text ≤ 3
  pub digits : All IsDigit text
  pub value : number 0 text ≡ v
  pub octet : v ≤ 255

-- Four groups with dots between them.
pub record IsDotted (addr : List ℕ) (a : Ipv4Addr) : Type 0 where
  pub g0 : List ℕ
  pub g1 : List ℕ
  pub g2 : List ℕ
  pub g3 : List ℕ
  pub v0 : ℕ
  pub v1 : ℕ
  pub v2 : ℕ
  pub v3 : ℕ
  pub joined : addr ≡ g0 ++ dot ∷ (g1 ++ dot ∷ (g2 ++ dot ∷ g3))
  pub is0 : IsGroup g0 v0
  pub is1 : IsGroup g1 v1
  pub is2 : IsGroup g2 v2
  pub is3 : IsGroup g3 v3
  pub octets : a ≡ record { octets = v0 ∷ v1 ∷ v2 ∷ v3 ∷ [] }

pub parse_group_complete : (text : List ℕ) (v : ℕ) → IsGroup text v → parse_group text ≡ some v
unfolding parse_group group_value
parse_group_complete [] v g = absurd (omega (arith, g.some_digit))
parse_group_complete (a ∷ []) v g = ground (arith, g.value, g.digits, g.octet)
parse_group_complete (a ∷ b ∷ []) v g = ground (arith, g.value, g.digits, g.octet)
parse_group_complete (a ∷ b ∷ c ∷ []) v g = ground (arith, g.value, g.digits, g.octet)
parse_group_complete (a ∷ b ∷ c ∷ d ∷ xs) v g = absurd (omega (arith, g.short))

pub parse_group_sound : (text : List ℕ) (v : ℕ) → parse_group text ≡ some v → IsGroup text v
unfolding parse_group group_value
parse_group_sound [] v h = cc
parse_group_sound (a ∷ []) v h = ground arith
parse_group_sound (a ∷ b ∷ []) v h = ground arith
parse_group_sound (a ∷ b ∷ c ∷ []) v h = ground arith
parse_group_sound (a ∷ b ∷ c ∷ d ∷ xs) v h = ground arith

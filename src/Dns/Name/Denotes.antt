-- ===== src/Dns/Name/Denotes.antt =====
-- The domain names of RFC 1035 sections 3.1 and 4.1.4, as a relation between octets and labels. A
-- pointer may lead to any place of the message here; the RFC has a prior occurrence of a name.
use corosig.Prelude.{
  ℕ, suc, ◌+◌, ◌-◌, ◌*◌, ◌^◌, ◌≤◌, ◌<◌, ◌≡◌, ap, List, [], ◌∷◌, ◌++◌, length, length-append,
  length-drop, arith,
}
use mathlib.Core.Path.{ap₂}
use corosig.Dns.Span.{Span, whole, subspan, IsBytes}

-- A message that a std::span can hold.
pub record IsMessage (m : List ℕ) : Type 0 where
  pub bytes : IsBytes m
  pub nonempty : 0 < length m
  pub fits : length m < 2 ^ 64

-- `Denotes m h s ls n`: the octets at `s` begin with a name of the labels `ls`, which takes `n`
-- octets there, and is read in `h` steps from label to label or through a pointer.
pub data Denotes (m : List ℕ) : ℕ → Span → List (List ℕ) → ℕ → Type 0 where
  root :
      {h : ℕ} {s : Span} {n : ℕ} (rest : List ℕ)
      → s.octets ≡ 0 ∷ rest
      → h ≡ 0
      → n ≡ 1
      → Denotes m h s [] n
  label :
      {h : ℕ} {s : Span} {l : List ℕ} {ls : List (List ℕ)} {n k : ℕ} (rest : List ℕ)
      → s.octets ≡ length l ∷ (l ++ rest)
      → 1 ≤ length l
      → length l ≤ 63
      → Denotes m h (subspan (suc (length l)) s) ls n
      → k ≡ length l + 1 + n
      → Denotes m (suc h) s (l ∷ ls) k
  pointer :
      {h : ℕ} {s : Span} {ls : List (List ℕ)} {n k : ℕ} (ptr hi lo : ℕ) (rest : List ℕ)
      → s.octets ≡ hi ∷ lo ∷ rest
      → 192 ≤ hi
      → ptr ≡ (hi - 192) * 256 + lo
      → ptr < length m
      → Denotes m h (subspan ptr (whole m)) ls n
      → k ≡ 2
      → Denotes m (suc h) s ls k

-- The octets that the labels and the root take when no part is a pointer.
abbrev pub name_len : List (List ℕ) → ℕ
name_len [] = 1
name_len (l ∷ ls) = length l + 1 + name_len ls

name_len_pos : (ls : List (List ℕ)) → 1 ≤ name_len ls
name_len_pos [] = omega arith
name_len_pos (l ∷ ls) = omega arith

module _ {m : List ℕ} where
  -- A place in a message is read in one way only.
  pub hops_unique :
      {h : ℕ} {s : Span} {ls : List (List ℕ)} {n h' : ℕ} {s' : Span} {ls' : List (List ℕ)} {n' : ℕ}
      → Denotes m h s ls n
      → Denotes m h' s' ls' n'
      → s ≡ s'
      → h ≡ h'
  hops_unique (root r e z _) (root r' e' z' _) q = omega arith
  hops_unique (root r e _ _) (label r' e' lo _ _ _) q = absurd (ground arith)
  hops_unique (root r e _ _) (pointer p' a' b' r' e' lo _ _ _ _) q = absurd (ground arith)
  hops_unique (label r e lo _ _ _) (root r' e' _ _) q = absurd (ground arith)
  hops_unique (label {s} {l} r e lo hi d _) (label {s = s'} {l = l'} r' e' lo' hi' d' _) q =
      let le : length l ≡ length l' = ground arith in
      ap suc (hops_unique d d' (ap₂ (λ (k : ℕ) (t : Span). subspan (suc k) t) le q))
  hops_unique (label r e _ hi _ _) (pointer p' a' b' r' e' lo _ _ _ _) q = absurd (ground arith)
  hops_unique (pointer p a b r e lo _ _ _ _) (root r' e' _ _) q = absurd (ground arith)
  hops_unique (pointer p a b r e lo _ _ _ _) (label r' e' _ hi _ _) q = absurd (ground arith)
  hops_unique (pointer ptr a b r e lo o _ d _) (pointer ptr' a' b' r' e' lo' o' _ d' _) q =
      let pe : ptr ≡ ptr' = ground arith in
      ap suc (hops_unique d d' (ap (λ (p : ℕ). subspan p (whole m)) pe))

  pub Denotes-occupies :
      {h : ℕ} {s : Span} {ls : List (List ℕ)} {n : ℕ}
      → Denotes m h s ls n
      → (1 ≤ n) × (n ≤ name_len ls + 1)
  Denotes-occupies (root _ _ _ e) = omega arith
  Denotes-occupies (label _ _ _ _ d e) = omega (arith, Denotes-occupies d)
  Denotes-occupies (pointer {ls} _ _ _ _ _ _ _ _ d e) = omega (arith, name_len_pos ls)

  -- A name's octets are there.
  pub Denotes-fits :
      {h : ℕ} {s : Span} {ls : List (List ℕ)} {n : ℕ} → Denotes m h s ls n → n ≤ length s.octets
  Denotes-fits (root r e _ o) = omega (arith, ap length e)
  Denotes-fits (label {s} {l} {n} r e _ _ d k) =
      omega (
        arith,
        ap length e,
        length-append l r,
        length-drop (suc (length l)) s.octets,
        Denotes-fits d,
      )
  Denotes-fits (pointer _ _ _ r e _ _ _ _ two) = omega (arith, ap length e)

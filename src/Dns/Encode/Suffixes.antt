-- ===== src/Dns/Encode/Suffixes.antt =====
-- The rests of a name that `write_label` of Protocol.hpp looks up in its `CompressionMap`.
use corosig.Text.{Part, dot, split_dots, split_view}
use corosig.Prelude.{
  ℕ, suc, ◌+◌, ◌≤◌, ◌<◌, ◌≡◌, refl, ap, Bool, true, false, List, [], ◌∷◌, none, length, All, ◌==◌,
  Bool-cases, inl, inr, arith,
}
use corosig.Dns.Encode.{
  Node, strip_dot, split_into_labels, str_same, node_same, node_before, lower_bound, found, find,
  insert_sorted, insert,
}

-- Every label begins at `i` or later, behind the one before it, and not behind `last`.
abbrev pub Ascending : ℕ → ℕ → List Part → Type 0
Ascending i last [] = Unit
Ascending i last (l ∷ ls) = (i ≤ l.begin) × (l.begin ≤ last) × Ascending (suc l.begin) last ls

Ascending-weaken :
    (i j last : ℕ) (ls : List Part) → i ≤ j → Ascending j last ls → Ascending i last ls
Ascending-weaken i j last [] h a = tt
Ascending-weaken i j last (l ∷ ls) h (x, y, z) = (omega arith, y, z)

split_dots-Ascending :
    (at last : ℕ) (xs : List ℕ)
    → at + length xs ≤ last
    → Ascending (suc at) last (split_dots at xs).1
unfolding split_dots
split_dots-Ascending at last [] h = tt
split_dots-Ascending at last (c ∷ cs) h =
    let rest : Ascending (suc (at + 1)) last (split_dots (at + 1) cs).1 =
      split_dots-Ascending (at + 1) last cs (omega arith) in
    elim (Bool-cases (c == dot)) [
      | inl e ↦ rw e (omega arith, omega arith, rest)
      | inr e ↦ rw e (Ascending-weaken (suc at) (suc (at + 1)) last _ (omega arith) rest)
    ]

split_view-Ascending :
    (last : ℕ) (xs : List ℕ) → length xs ≤ last → Ascending 0 last (split_view xs)
unfolding split_view
split_view-Ascending last [] h = tt
split_view-Ascending last (c ∷ cs) h =
    (omega arith, omega arith, split_dots-Ascending 0 last (c ∷ cs) (omega arith))

pub length-strip_dot : (xs : List ℕ) → length (strip_dot xs) ≤ length xs
unfolding strip_dot
length-strip_dot [] = omega arith
length-strip_dot (c ∷ []) = ground arith
length-strip_dot (c ∷ d ∷ cs) = omega (arith, length-strip_dot (d ∷ cs))

pub split_into_labels-Ascending :
    (name : List ℕ) → Ascending 0 (length name) (split_into_labels name)
unfolding split_into_labels
split_into_labels-Ascending name =
    split_view-Ascending (length name) (strip_dot name) (length-strip_dot name)

-- Two strings that compare the same have one length.
length-str_same : (xs ys : List ℕ) → str_same xs ys ≡ true → length xs ≡ length ys
unfolding str_same
length-str_same [] [] h = refl
length-str_same [] (y ∷ ys) h = cc
length-str_same (x ∷ xs) [] h = cc
length-str_same (x ∷ xs) (y ∷ ys) h = elim (Bool-cases (x == y)) [
  | inl e ↦ ap suc (length-str_same xs ys (rw e at h))
  | inr e ↦ let h' = rw e at h in cc
]

-- A property of every node of the map stays one of what is looked at and of what an insertion makes.
module _ (P : Node → Type 0) where
  lower_bound-All : (node : Node) (bs : List Node) → All P bs → All P (lower_bound node bs)
  unfolding lower_bound
  lower_bound-All node [] l = tt
  lower_bound-All node (b ∷ bs) (x, l) = elim (Bool-cases (node_before b node)) [
    | inl e ↦ rw e (lower_bound-All node bs l)
    | inr e ↦ rw e (x, l)
  ]

  insert_sorted-All :
      (node : Node) (bs : List Node) → P node → All P bs → All P (insert_sorted node bs)
  unfolding insert_sorted
  insert_sorted-All node [] h l = (h, tt)
  insert_sorted-All node (b ∷ bs) h (x, l) = elim (Bool-cases (node_before node b)) [
    | inl e ↦ rw e (h, (x, l))
    | inr e ↦ rw e (x, insert_sorted-All node bs h l)
  ]

  pub insert-All :
      (hash : List ℕ → ℕ) (room : ℕ → Bool) (node : Node) (bs : List Node)
      → P node
      → All P bs
      → All P (insert hash room node bs)
  unfolding insert
  insert-All hash room node bs h l = elim (Bool-cases (room (length bs))) [
    | inl e ↦ rw e (insert_sorted-All node bs h l)
    | inr e ↦ rw e l
  ]

-- A longer string is another one.
differs : (b node : Node) → length node.str < length b.str → node_same b node ≡ false
unfolding node_same
differs b node h = elim (Bool-cases (b.hash == node.hash)) [
  | inl e ↦ rw e (elim (Bool-cases (str_same b.str node.str)) [
    | inl s ↦ absurd (omega (arith, length-str_same b.str node.str s))
    | inr s ↦ s
  ])
  | inr e ↦ rw e refl
]

-- Every string of the map has more than `n` characters.
abbrev pub Longer : ℕ → List Node → Type 0
Longer n = All (λ b. n < length b.str)

found-Longer : (node : Node) (bs : List Node) → Longer (length node.str) bs → found node bs ≡ none
unfolding found
found-Longer node [] l = refl
found-Longer node (b ∷ bs) (x, l) = rw (differs b node x) refl

pub find-Longer : (node : Node) (bs : List Node) → Longer (length node.str) bs → find node bs ≡ none
unfolding find
find-Longer node bs l =
    found-Longer node (lower_bound node bs)
      (lower_bound-All (λ b. length node.str < length b.str) node bs l)

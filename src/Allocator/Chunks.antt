-- ===== src/Allocator/Chunks.antt =====
-- The chunks of blocks that the headers of `Allocator` divide its memory into.
use mathlib.Core.Path.{subst}
use corosig.Prelude.{
  ℕ, ◌+◌, ◌≤◌, ◌<◌, ◌≡◌, sym, ap, ◌∙◌, ◌≢◌, ◌⊎◌, List, [], ◌∷◌, ◌++◌, true, false, Bool, All,
  All-weaken, arith,
}
use corosig.Allocator.{BlockMetadata, Memory, at_block}
use corosig.Allocator.Chain.{at_block-other}
use corosig.Allocator.FreeList.{IsUnlinked}
use corosig.Allocator.Frames.{SameShape}

-- How many blocks, and whether they are used.
abbrev pub Chunk : Type 0
Chunk = ℕ × Bool

abbrev pub total : List Chunk → ℕ
total [] = 0
total ((k, u) ∷ cs) = k + total cs

-- The size of the last chunk, or that of the one in front of them all.
abbrev pub last_size : ℕ → List Chunk → ℕ
last_size b [] = b
last_size b ((k, u) ∷ cs) = last_size k cs

-- The first blocks of the free chunks, when the first chunk starts at `s`.
abbrev pub frees : ℕ → List Chunk → List ℕ
frees s [] = []
frees s ((k, true) ∷ cs) = frees (s + k) cs
frees s ((k, false) ∷ cs) = s ∷ frees (s + k) cs

-- A used chunk has no links.
abbrev pub Rests : Bool → BlockMetadata → Type 0
Rests true b = IsUnlinked b
Rests false b = Unit {0}

abbrev pub IsHead : BlockMetadata → ℕ → ℕ → Bool → Type 0
IsHead m b k u =
    (m.blocks_before ≡ b) × (m.is_used ≡ u) × (m.blocks_owned ≡ k) × (0 < k) × Rests u m

-- From block `s` on, the headers describe the chunks. In front of them lies a chunk of `b` blocks.
abbrev pub Tiles : Memory → ℕ → ℕ → List Chunk → Type 0
Tiles mem s b [] = Unit {0}
Tiles mem s b ((k, u) ∷ cs) = IsHead (mem s) b k u × Tiles mem (s + k) k cs

pub total-append : (xs ys : List Chunk) → total (xs ++ ys) ≡ total xs + total ys
total-append [] ys = omega arith
total-append ((k, u) ∷ xs) ys = omega (arith, total-append xs ys)

pub frees-append :
    (s : ℕ) (xs ys : List Chunk) → frees s (xs ++ ys) ≡ frees s xs ++ frees (s + total xs) ys
frees-append s [] ys = let e : s ≡ s + 0 = omega arith in ap (λ (t : ℕ). frees t ys) e
frees-append s ((k, true) ∷ xs) ys =
    let e : s + k + total xs ≡ s + (k + total xs) = omega arith in
    frees-append (s + k) xs ys ∙ ap (λ (t : ℕ). frees (s + k) xs ++ frees t ys) e
frees-append s ((k, false) ∷ xs) ys =
    let e : s + k + total xs ≡ s + (k + total xs) = omega arith in
    ap (◌∷◌ s) (frees-append (s + k) xs ys ∙ ap (λ (t : ℕ). frees (s + k) xs ++ frees t ys) e)

pub Tiles-append :
    (mem : Memory) (s b : ℕ) (xs ys : List Chunk)
    → Tiles mem s b xs
    → Tiles mem (s + total xs) (last_size b xs) ys
    → Tiles mem s b (xs ++ ys)
Tiles-append mem s b [] ys t u =
    let e : s + 0 ≡ s = omega arith in subst (λ (r : ℕ). Tiles mem r b ys) e u
Tiles-append mem s b ((k, v) ∷ xs) ys (h, t) u =
    let e : s + (k + total xs) ≡ s + k + total xs = omega arith in
    (h, Tiles-append mem (s + k) k xs ys t (subst (λ (r : ℕ). Tiles mem r (last_size k xs) ys) e u))

pub Tiles-split :
    (mem : Memory) (s b : ℕ) (xs ys : List Chunk)
    → Tiles mem s b (xs ++ ys)
    → Tiles mem s b xs × Tiles mem (s + total xs) (last_size b xs) ys
Tiles-split mem s b [] ys t =
    let e : s ≡ s + 0 = omega arith in (tt, subst (λ (r : ℕ). Tiles mem r b ys) e t)
Tiles-split mem s b ((k, v) ∷ xs) ys (h, t) =
    let e : s + k + total xs ≡ s + (k + total xs) = omega arith in
    let (l, r) = Tiles-split mem (s + k) k xs ys t in
    ((h, l), subst (λ (q : ℕ). Tiles mem q (last_size k xs) ys) e r)

-- A header outside of the chunks may change.
pub Tiles-frame :
    (i : ℕ) (change : BlockMetadata → BlockMetadata) (mem : Memory) (s b : ℕ) (cs : List Chunk)
    → ((i < s) ⊎ (s + total cs ≤ i))
    → Tiles mem s b cs
    → Tiles (at_block i change mem) s b cs
Tiles-frame i change mem s b [] h t = tt
Tiles-frame i change mem s b ((k, u) ∷ cs) h (hd, t) =
    let positive = hd.3 in
    let ne : i ≢ s = λ e. ground arith in
    let h' : (i < s + k) ⊎ (s + k + total cs ≤ i) = ground arith in
    (
      subst (λ m. IsHead m b k u) (sym (at_block-other i s change mem ne)) hd,
      Tiles-frame i change mem (s + k) k cs h' t,
    )

pub Rests-same :
    (u : Bool) (m m' : BlockMetadata)
    → m.is_used ≡ u
    → (m.is_used ≡ true → m' ≡ m)
    → Rests u m
    → Rests u m'
Rests-same true m m' e h r = subst IsUnlinked (sym (h e)) r
Rests-same false m m' e h r = tt

pub IsHead-same :
    (m m' : BlockMetadata) (b k : ℕ) (u : Bool)
    → SameShape m' m
    → (m.is_used ≡ true → m' ≡ m)
    → IsHead m b k u
    → IsHead m' b k u
IsHead-same m m' b k u s h (p, q, r, l, t) =
    (s.before ∙ p, s.is_used ∙ q, s.owned ∙ r, l, Rests-same u m m' q h t)

-- The free list may change.
pub Tiles-same :
    (mem mem' : Memory) (s b : ℕ) (cs : List Chunk)
    → ((j : ℕ) → SameShape (mem' j) (mem j))
    → ((j : ℕ) → (mem j).is_used ≡ true → mem' j ≡ mem j)
    → Tiles mem s b cs
    → Tiles mem' s b cs
Tiles-same mem mem' s b [] p q t = tt
Tiles-same mem mem' s b ((k, u) ∷ cs) p q (h, t) =
    (IsHead-same (mem s) (mem' s) b k u (p s) (q s) h, Tiles-same mem mem' (s + k) k cs p q t)

pub frees-unused :
    (mem : Memory) (s b : ℕ) (cs : List Chunk)
    → Tiles mem s b cs
    → All (λ j. (mem j).is_used ≡ false) (frees s cs)
frees-unused mem s b [] t = tt
frees-unused mem s b ((k, true) ∷ cs) (h, t) = frees-unused mem (s + k) k cs t
frees-unused mem s b ((k, false) ∷ cs) (h, t) = (h.1, frees-unused mem (s + k) k cs t)

abbrev pub Within : ℕ → ℕ → ℕ → Type 0
Within s e j = (s ≤ j) × (j < e)

pub frees-Within :
    (mem : Memory) (s b : ℕ) (cs : List Chunk)
    → Tiles mem s b cs
    → All (Within s (s + total cs)) (frees s cs)
frees-Within mem s b [] t = tt
frees-Within mem s b ((k, true) ∷ cs) (h, t) =
    All-weaken (Within (s + k) (s + k + total cs)) (Within s (s + (k + total cs)))
      (λ j (p, q). ((omega arith), (omega arith))) (frees (s + k) cs)
      (frees-Within mem (s + k) k cs t)
frees-Within mem s b ((k, false) ∷ cs) (h, t) =
    let positive = h.3 in
    (
      ((omega arith), (omega arith)),
      All-weaken (Within (s + k) (s + k + total cs)) (Within s (s + (k + total cs)))
          (λ j (p, q). ((omega arith), (omega arith))) (frees (s + k) cs)
          (frees-Within mem (s + k) k cs t),
    )

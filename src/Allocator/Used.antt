-- ===== src/Allocator/Used.antt =====
-- Where the used chunks of `Allocator` start.
use mathlib.Core.Path.{subst}
use corosig.Prelude.{
  ℕ, zero, suc, ◌+◌, ◌≤◌, ◌<◌, ◌≡◌, refl, sym, ap, ◌∙◌, ◌≢◌, ◌⊎◌, inl, inr, List, [], ◌∷◌, ◌++◌,
  true, false, Bool, arith,
}
use corosig.Allocator.{Memory}
use corosig.Allocator.Chunks.{Chunk, Tiles, total}
use corosig.Allocator.Take.{left_over}
use corosig.Allocator.Join.{join, join_back}
use corosig.Allocator.Granted.{split_chunks}

-- A used chunk of `k` blocks starts at block `x`, when the first chunk starts at `s`.
abbrev pub UsedAt : ℕ → ℕ → ℕ → List Chunk → Type 0
UsedAt x k s [] = ⊥
UsedAt x k s ((j, true) ∷ cs) = ((x ≡ s) × (k ≡ j)) ⊎ UsedAt x k (s + j) cs
UsedAt x k s ((j, false) ∷ cs) = UsedAt x k (s + j) cs

pub UsedAt-bounds :
    (x k s : ℕ) (cs : List Chunk) → UsedAt x k s cs → (s ≤ x) × (x + k ≤ s + total cs)
UsedAt-bounds x k s [] h = absurd h
UsedAt-bounds x k s ((j, true) ∷ cs) (inl (e, f)) = (omega arith, omega arith)
UsedAt-bounds x k s ((j, true) ∷ cs) (inr h) =
    let (l, r) = UsedAt-bounds x k (s + j) cs h in (omega arith, omega arith)
UsedAt-bounds x k s ((j, false) ∷ cs) h =
    let (l, r) = UsedAt-bounds x k (s + j) cs h in (omega arith, omega arith)

pub UsedAt-left : (x k s : ℕ) (xs ys : List Chunk) → UsedAt x k s xs → UsedAt x k s (xs ++ ys)
UsedAt-left x k s [] ys h = absurd h
UsedAt-left x k s ((j, true) ∷ xs) ys (inl e) = inl e
UsedAt-left x k s ((j, true) ∷ xs) ys (inr h) = inr (UsedAt-left x k (s + j) xs ys h)
UsedAt-left x k s ((j, false) ∷ xs) ys h = UsedAt-left x k (s + j) xs ys h

pub UsedAt-right :
    (x k s : ℕ) (xs ys : List Chunk) → UsedAt x k (s + total xs) ys → UsedAt x k s (xs ++ ys)
UsedAt-right x k s [] ys h =
    let e : s + 0 ≡ s = omega arith in subst (λ (t : ℕ). UsedAt x k t ys) e h
UsedAt-right x k s ((j, true) ∷ xs) ys h =
    let e : s + (j + total xs) ≡ s + j + total xs = omega arith in
    inr (UsedAt-right x k (s + j) xs ys (subst (λ (t : ℕ). UsedAt x k t ys) e h))
UsedAt-right x k s ((j, false) ∷ xs) ys h =
    let e : s + (j + total xs) ≡ s + j + total xs = omega arith in
    UsedAt-right x k (s + j) xs ys (subst (λ (t : ℕ). UsedAt x k t ys) e h)

pub UsedAt-append :
    (x k s : ℕ) (xs ys : List Chunk)
    → UsedAt x k s (xs ++ ys)
    → UsedAt x k s xs ⊎ UsedAt x k (s + total xs) ys
UsedAt-append x k s [] ys h =
    let e : s ≡ s + 0 = omega arith in inr (subst (λ (t : ℕ). UsedAt x k t ys) e h)
UsedAt-append x k s ((j, true) ∷ xs) ys (inl e) = inl (inl e)
UsedAt-append x k s ((j, true) ∷ xs) ys (inr h) =
    let e : s + j + total xs ≡ s + (j + total xs) = omega arith in
    elim (UsedAt-append x k (s + j) xs ys h) [
      | inl l ↦ inl (inr l)
      | inr r ↦ inr (subst (λ (t : ℕ). UsedAt x k t ys) e r)
    ]
UsedAt-append x k s ((j, false) ∷ xs) ys h =
    let e : s + j + total xs ≡ s + (j + total xs) = omega arith in
    elim (UsedAt-append x k (s + j) xs ys h) [
      | inl l ↦ inl l
      | inr r ↦ inr (subst (λ (t : ℕ). UsedAt x k t ys) e r)
    ]

-- The chunk itself, with those in front and behind.
pub record Around (x k s : ℕ) (cs : List Chunk) : Type 0 where
  pub front : List Chunk
  pub back : List Chunk
  pub eq : cs ≡ front ++ (k, true) ∷ back
  pub start : x ≡ s + total front

further :
    {x k s j : ℕ} {cs : List Chunk} (u : Bool) → Around x k (s + j) cs → Around x k s ((j, u) ∷ cs)
further {j = j} u h =
    let start = h.start in
    record {
      front = (j, u) ∷ h.front;
      back = h.back;
      eq = ap (◌∷◌ (j, u)) h.eq;
      start = omega arith;
    }

pub UsedAt-Around : (x k s : ℕ) (cs : List Chunk) → UsedAt x k s cs → Around x k s cs
UsedAt-Around x k s [] h = absurd h
UsedAt-Around x k s ((j, true) ∷ cs) (inl (e, f)) = record {
  front = [];
  back = cs;
  eq = ap (λ (n : ℕ). (n, true) ∷ cs) (sym f);
  start = omega arith;
}
UsedAt-Around x k s ((j, true) ∷ cs) (inr h) = further true (UsedAt-Around x k (s + j) cs h)
UsedAt-Around x k s ((j, false) ∷ cs) h = further false (UsedAt-Around x k (s + j) cs h)

-- Two used chunks do not meet.
pub UsedAt-apart :
    (x k y j s : ℕ) (cs : List Chunk)
    → UsedAt x k s cs
    → UsedAt y j s cs
    → x ≢ y
    → (x + k ≤ y) ⊎ (y + j ≤ x)
UsedAt-apart x k y j s [] h g ne = absurd h
UsedAt-apart x k y j s ((i, true) ∷ cs) (inl (e, f)) (inl (e', f')) ne = absurd (ne (e ∙ sym e'))
UsedAt-apart x k y j s ((i, true) ∷ cs) (inl (e, f)) (inr g) ne =
    let (l, r) = UsedAt-bounds y j (s + i) cs g in inl (omega arith)
UsedAt-apart x k y j s ((i, true) ∷ cs) (inr h) (inl (e, f)) ne =
    let (l, r) = UsedAt-bounds x k (s + i) cs h in inr (omega arith)
UsedAt-apart x k y j s ((i, true) ∷ cs) (inr h) (inr g) ne = UsedAt-apart x k y j (s + i) cs h g ne
UsedAt-apart x k y j s ((i, false) ∷ cs) h g ne = UsedAt-apart x k y j (s + i) cs h g ne

UsedAt-shift : (x k s t : ℕ) (cs : List Chunk) → s ≡ t → UsedAt x k s cs → UsedAt x k t cs
UsedAt-shift x k s t cs e = subst (λ (n : ℕ). UsedAt x k n cs) e

UsedAt-join_back :
    (x k s n : ℕ) (back : List Chunk) → UsedAt x k (s + n) back → UsedAt x k s (join_back n back)
unfolding join_back
UsedAt-join_back x k s n [] h = absurd h
UsedAt-join_back x k s n ((j, true) ∷ cs) h = h
UsedAt-join_back x k s n ((j, false) ∷ cs) h =
    UsedAt-shift x k (s + n + j) (s + (n + j)) cs (omega arith) h

-- `join` leaves all other used chunks where they are.
pub UsedAt-join :
    (x k s : ℕ) (front : List Chunk) (n : ℕ) (back : List Chunk)
    → UsedAt x k s front ⊎ UsedAt x k (s + total front + n) back
    → UsedAt x k s (join front n back)
unfolding join
UsedAt-join x k s [] n back (inl h) = absurd h
UsedAt-join x k s [] n back (inr h) =
    UsedAt-join_back x k s n back (UsedAt-shift x k (s + 0 + n) (s + n) back (omega arith) h)
UsedAt-join x k s ((j, false) ∷ []) n back (inl h) = absurd h
UsedAt-join x k s ((j, false) ∷ []) n back (inr h) =
    UsedAt-join_back x k s (j + n) back
      (UsedAt-shift x k (s + (j + 0) + n) (s + (j + n)) back (omega arith) h)
UsedAt-join x k s ((j, true) ∷ []) n back (inl (inl e)) = inl e
UsedAt-join x k s ((j, true) ∷ []) n back (inl (inr h)) = absurd h
UsedAt-join x k s ((j, true) ∷ []) n back (inr h) = inr (
    UsedAt-join_back x k (s + j) n back
      (UsedAt-shift x k (s + (j + 0) + n) (s + j + n) back (omega arith) h))
UsedAt-join x k s ((j, false) ∷ c ∷ cs) n back (inl h) =
    UsedAt-join x k (s + j) (c ∷ cs) n back (inl h)
UsedAt-join x k s ((j, false) ∷ c ∷ cs) n back (inr h) = UsedAt-join x k (s + j) (c ∷ cs) n back (
    inr (
      UsedAt-shift x k (s + (j + total (c ∷ cs)) + n) (s + j + total (c ∷ cs) + n) back
        (omega arith) h))
UsedAt-join x k s ((j, true) ∷ c ∷ cs) n back (inl (inl e)) = inl e
UsedAt-join x k s ((j, true) ∷ c ∷ cs) n back (inl (inr h)) =
    inr (UsedAt-join x k (s + j) (c ∷ cs) n back (inl h))
UsedAt-join x k s ((j, true) ∷ c ∷ cs) n back (inr h) = inr (
    UsedAt-join x k (s + j) (c ∷ cs) n back (
      inr (
        UsedAt-shift x k (s + (j + total (c ∷ cs)) + n) (s + j + total (c ∷ cs) + n) back
          (omega arith) h)))

UsedAt-left_over :
    (x k s r : ℕ) (cs : List Chunk) → UsedAt x k (s + r) cs → UsedAt x k s (left_over r ++ cs)
UsedAt-left_over x k s zero cs h = UsedAt-shift x k (s + 0) s cs (omega arith) h
UsedAt-left_over x k s (suc r) cs h = h

-- Cutting a free chunk leaves all used chunks where they are.
pub UsedAt-split :
    (x k : ℕ) (front : List Chunk) (skip n r : ℕ) (back : List Chunk)
    → UsedAt x k 0 (front ++ (skip + (n + r), false) ∷ back)
    → UsedAt x k 0 (split_chunks front skip n r back)
UsedAt-split x k front skip n r back h =
    let middle = left_over skip ++ ((n, true) ∷ left_over r ++ back) in
    elim (UsedAt-append x k 0 front ((skip + (n + r), false) ∷ back) h) [
      | inl l ↦ UsedAt-left x k 0 front middle l
      | inr g ↦
          let start = 0 + total front in
          let behind = UsedAt-left_over x k (start + skip + n) r back (
            UsedAt-shift x k (start + (skip + (n + r))) (start + skip + n + r) back (omega arith)
              g) in
          UsedAt-right x k 0 front middle
            (UsedAt-left_over x k start skip ((n, true) ∷ left_over r ++ back) (inr behind))
    ]

-- The chunk that is new starts where the others are not.
pub split-UsedAt :
    (front : List Chunk) (skip n r : ℕ) (back : List Chunk)
    → UsedAt (total front + skip) n 0 (split_chunks front skip n r back)
split-UsedAt front skip n r back =
    let rest = (n, true) ∷ left_over r ++ back in
    UsedAt-right (total front + skip) n 0 front (left_over skip ++ rest) (
      UsedAt-left_over (total front + skip) n (0 + total front) skip rest
        (inl ((omega arith), refl)))

pub split-differ :
    (x k : ℕ) (front : List Chunk) (skip n r : ℕ) (back : List Chunk)
    → UsedAt x k 0 (front ++ (skip + (n + r), false) ∷ back)
    → 0 < k
    → 0 < n
    → x ≢ total front + skip
split-differ x k front skip n r back h p q e =
    elim (UsedAt-append x k 0 front ((skip + (n + r), false) ∷ back) h) [
      | inl l ↦ let (a, b) = UsedAt-bounds x k 0 front l in omega arith
      | inr g ↦
          let (a, b) = UsedAt-bounds x k (0 + total front + (skip + (n + r))) back g in omega arith
    ]

-- A used chunk has at least one block.
pub UsedAt-positive :
    (mem : Memory) (x k s b : ℕ) (cs : List Chunk) → Tiles mem s b cs → UsedAt x k s cs → 0 < k
UsedAt-positive mem x k s b [] t h = absurd h
UsedAt-positive mem x k s b ((j, true) ∷ cs) (hd, t) (inl (e, f)) = let l = hd.3 in omega arith
UsedAt-positive mem x k s b ((j, true) ∷ cs) (hd, t) (inr h) =
    UsedAt-positive mem x k (s + j) j cs t h
UsedAt-positive mem x k s b ((j, false) ∷ cs) (hd, t) h = UsedAt-positive mem x k (s + j) j cs t h

-- ===== src/Allocator/Chain.antt =====
-- Chains of headers in the memory of `Allocator`: each refers to the next and to the previous one.
use corosig.Prelude.{ℕ, ◌≡◌, sym, ap, ◌∙◌, ◌≢◌, List, [], ◌∷◌, ◌++◌, All, All-weaken, arith}
use corosig.Allocator.Distinct.{hd, lst, lst-All, Distinct}
use corosig.Allocator.{BlockMetadata, Memory, at_block, set_next, set_prev}

-- The headers of the list, one after another, between `start` and `end`.
abbrev pub Chain : Memory → ℕ → List ℕ → ℕ → Type 0
Chain mem start [] end = Unit {0}
Chain mem start (x ∷ xs) end =
    ((mem x).prev_free_block_idx ≡ start)
    × ((mem x).next_free_block_idx ≡ hd xs end)
    × Chain mem x xs end

pub at_block-other :
    (i j : ℕ) (change : BlockMetadata → BlockMetadata) (mem : Memory)
    → i ≢ j
    → at_block i change mem j ≡ mem j
unfolding at_block
at_block-other i j change mem h = ground arith

pub at_block-same :
    (i : ℕ) (change : BlockMetadata → BlockMetadata) (mem : Memory)
    → at_block i change mem i ≡ change (mem i)
unfolding at_block
at_block-same i change mem = ground arith

-- A header outside of the chain may change.
pub Chain-frame :
    (i : ℕ) (change : BlockMetadata → BlockMetadata) (mem : Memory) (start : ℕ) (xs : List ℕ)
    (end : ℕ)
    → All (λ x. i ≢ x) xs
    → Chain mem start xs end
    → Chain (at_block i change mem) start xs end
Chain-frame i change mem start [] end h c = tt
Chain-frame i change mem start (x ∷ xs) end (ne, h) (p, n, c) =
    let e = at_block-other i x change mem ne in
    (
      ap (λ b. b.prev_free_block_idx) e ∙ p,
      ap (λ b. b.next_free_block_idx) e ∙ n,
      Chain-frame i change mem x xs end h c,
    )

pub Chain-append :
    (mem : Memory) (start : ℕ) (xs ys : List ℕ) (end : ℕ)
    → Chain mem start xs (hd ys end)
    → Chain mem (lst start xs) ys end
    → Chain mem start (xs ++ ys) end
Chain-append mem start [] ys end c d = d
Chain-append mem start (x ∷ []) ys end (p, n, c) d = (p, n, d)
Chain-append mem start (x ∷ x' ∷ xs) ys end (p, n, c) d =
    (p, n, Chain-append mem x (x' ∷ xs) ys end c d)

pub Chain-split :
    (mem : Memory) (start : ℕ) (xs ys : List ℕ) (end : ℕ)
    → Chain mem start (xs ++ ys) end
    → Chain mem start xs (hd ys end) × Chain mem (lst start xs) ys end
Chain-split mem start [] ys end c = (tt, c)
Chain-split mem start (x ∷ []) ys end (p, n, c) = ((p, n, tt), c)
Chain-split mem start (x ∷ x' ∷ xs) ys end (p, n, c) =
    let (d, e) = Chain-split mem x (x' ∷ xs) ys end c in ((p, n, d), e)

pub set_prev-hd :
    (v : ℕ) (mem : Memory) (start y : ℕ) (ys : List ℕ) (end : ℕ)
    → All (λ x. y ≢ x) ys
    → Chain mem start (y ∷ ys) end
    → Chain (set_prev y v mem) v (y ∷ ys) end
set_prev-hd v mem start y ys end h (p, n, c) =
    let e = at_block-same y (λ b. record b { prev_free_block_idx = v }) mem in
    (
      ap (λ b. b.prev_free_block_idx) e,
      ap (λ b. b.next_free_block_idx) e ∙ n,
      Chain-frame y (λ b. record b { prev_free_block_idx = v }) mem y ys end h c,
    )

pub set_next-lst :
    (v : ℕ) (mem : Memory) (start x : ℕ) (xs : List ℕ) (end : ℕ)
    → Distinct (x ∷ xs)
    → Chain mem start (x ∷ xs) end
    → Chain (set_next (lst x xs) v mem) start (x ∷ xs) v
set_next-lst v mem start x [] end h (p, n, c) =
    let e = at_block-same x (λ b. record b { next_free_block_idx = v }) mem in
    (ap (λ b. b.prev_free_block_idx) e ∙ p, ap (λ b. b.next_free_block_idx) e, tt)
set_next-lst v mem start x (x' ∷ xs) end (ne, h) (p, n, c) =
    let e =
      at_block-other (lst x' xs) x (λ b. record b { next_free_block_idx = v }) mem
        (lst-All (λ y. y ≢ x) x' xs (λ q. ne.0 (sym q))
          (All-weaken (λ y. x ≢ y) (λ y. y ≢ x) (λ y k q. k (sym q)) xs ne.1)) in
    (
      ap (λ b. b.prev_free_block_idx) e ∙ p,
      ap (λ b. b.next_free_block_idx) e ∙ n,
      set_next-lst v mem x x' xs end h c,
    )

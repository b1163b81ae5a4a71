-- ===== src/Allocator/Allocate.antt =====
-- `Allocator::allocate` in the free chunk that it has found.
use Prim.Native.Nat.{max}
use mathlib.Core.Path.{subst}
use mathlib.Core.List.{append_assoc}
use corosig.Prelude.{
  ℕ, zero, suc, ◌+◌, ◌*◌, ◌/◌, ◌%◌, ◌^◌, ◌≤◌, ◌<◌, ◌≡◌, refl, sym, ap, ◌∙◌, List, [], ◌∷◌, ◌++◌,
  true, false, arith,
}
use corosig.Allocator.{
  Allocator, sub, on_block, blocks_amount, set_blocks_owned, unlink_free_node, block_size,
}
use corosig.Allocator.Allocating.{
  split_front, split_back, split_aligned, take_block, allocate_in, align_diff, blocks_needed,
}
use corosig.Allocator.Chunks.{Chunk, total}
use corosig.Allocator.Heap.{IsTiled, IsHole, unlink-IsHole}
use corosig.Allocator.Shift.{tiled-IsListed, tiles-owned}
use corosig.Allocator.Hole.{marked}
use corosig.Allocator.Take.{take-IsTiled, left_over}
use corosig.Allocator.Front.{split_front-IsHole, unlink-hole}
use corosig.Allocator.Kept.{
  SameRest, SameRest-trans, on_block-SameRest, unlink-SameRest, owned-SameRest,
  split_front-SameRest, split_back-SameRest,
}

-- The counters are not read by the chunks and the free list.
pub counters-IsTiled :
    (a : Allocator) (used peak : ℕ) (cs : List Chunk) (list : List ℕ)
    → IsTiled a cs list
    → IsTiled (record a { used = used; peak = peak }) cs list
unfolding blocks_amount
counters-IsTiled a used peak cs list h = record {
  tiles = h.tiles;
  all = h.all;
  small = h.small;
  listed = record {
    first = h.listed.first;
    last = h.listed.last;
    chain = h.listed.chain;
    distinct = h.listed.distinct;
    valid = h.listed.valid;
  };
  members = h.members;
}

take_block-IsTiled :
    (a : Allocator) (front : List Chunk) (i n r gap e : ℕ) (back : List Chunk) (list : List ℕ)
    → 0 < n
    → i + (n + r) ≡ e
    → gap ≡ n + r
    → (a.mem i).blocks_owned ≡ n + r
    → IsHole (unlink_free_node i a) front i false e gap back list
    → (list' : List ℕ) × IsTiled
        (take_block i n a)
        (front ++ ((n, true) ∷ left_over r ++ back))
        list'
unfolding take_block
take_block-IsTiled a front i n r gap e back list l p g q h =
    let (list', t) = take-IsTiled (unlink_free_node i a) front i n r gap e back list l p g h in
    let taken = set_blocks_owned i n (on_block i (marked true) (unlink_free_node i a)) in
    let t' =
      subst
        (λ (k : ℕ).
          IsTiled (split_back i n k taken) (front ++ ((n, true) ∷ left_over r ++ back)) list')
        (sym q) t in
    let s = split_back i n (a.mem i).blocks_owned taken in
    (
      list',
      counters-IsTiled s ((s.used + n * block_size) % 2 ^ 64)
          (max s.peak ((s.used + n * block_size) % 2 ^ 64))
          (front ++ ((n, true) ∷ left_over r ++ back)) list' t',
    )

max_right : (x y : ℕ) → y ≤ max x y
max_right x y = omega arith

take_block_rest :
    (a : Allocator) (i n : ℕ)
    → SameRest
        (split_back i n
          (a.mem i).blocks_owned
          (set_blocks_owned i n (on_block i (marked true) (unlink_free_node i a))))
        a
take_block_rest a i n =
    let b = unlink_free_node i a in
    let c = on_block i (marked true) b in
    SameRest-trans (split_back-SameRest i n (a.mem i).blocks_owned (set_blocks_owned i n c)) (
      SameRest-trans (owned-SameRest i n c)
        (SameRest-trans (on_block-SameRest i (marked true) b) (unlink-SameRest i a)))

take_block-used :
    (a : Allocator) (i n : ℕ) → (take_block i n a).used ≡ (a.used + n * block_size) % 2 ^ 64
unfolding take_block
take_block-used a i n = ap (λ (u : ℕ). (u + n * block_size) % 2 ^ 64) (take_block_rest a i n).used

take_block-peak : (a : Allocator) (i n : ℕ) → (take_block i n a).used ≤ (take_block i n a).peak
unfolding take_block
take_block-peak a i n =
    let s =
      split_back i n (a.mem i).blocks_owned
        (set_blocks_owned i n (on_block i (marked true) (unlink_free_node i a))) in
    max_right s.peak ((s.used + n * block_size) % 2 ^ 64)

take_block-address : (a : Allocator) (i n : ℕ) → (take_block i n a).address ≡ a.address
unfolding take_block
take_block-address a i n = (take_block_rest a i n).address

aligned-IsTiled :
    (a : Allocator) (front : List Chunk) (skip n r : ℕ) (back : List Chunk) (list : List ℕ)
    → 0 < n
    → IsTiled a (front ++ (skip + (n + r), false) ∷ back) list
    → (list' : List ℕ) × IsTiled
        (take_block (total front + skip) n (split_aligned (total front) skip a))
        (front ++ (left_over skip ++ ((n, true) ∷ left_over r ++ back)))
        list'
unfolding split_aligned
aligned-IsTiled a front zero n r back list l h =
    let i = total front in
    let k : 0 + (n + r) ≡ n + r = omega arith in
    let z : i ≡ i + 0 = omega arith in
    let h' = subst (λ (m : ℕ). IsTiled a (front ++ (m, false) ∷ back) list) k h in
    let (list', hole) =
      unlink-IsHole a front i (i + (n + r)) (n + r) back list
        (tiled-IsListed a front (n + r) back list h') in
    let owned = (tiles-owned a front (n + r) false back h'.tiles).2 in
    subst
      (λ (j : ℕ).
        (list'' : List ℕ) × IsTiled (take_block j n a) (front ++ ((n, true) ∷ left_over r ++ back))
          list'')
      z (take_block-IsTiled a front i n r (n + r) (i + (n + r)) back list' l refl refl owned hole)
aligned-IsTiled a front (suc skip) n r back list l h =
    let i = total front in
    let s = suc skip in
    let front' = front ++ (s, false) ∷ [] in
    let (list', hole, owned) =
      split_front-IsHole a front s (n + r) back list (omega arith) (omega arith) h in
    let b = split_front i s a in
    let reach : i + s + (n + r) ≡ i + (s + (n + r)) = omega arith in
    let idle = unlink-hole b front' (i + s) false (i + (s + (n + r))) (n + r) back list' hole in
    let hole' =
      subst (λ c. IsHole c front' (i + s) false (i + (s + (n + r))) (n + r) back list') (sym idle)
        hole in
    let (list'', t) =
      take_block-IsTiled b front' (i + s) n r (n + r) (i + (s + (n + r))) back list' l reach refl
        owned hole' in
    (
      list'',
      subst (λ cs. IsTiled (take_block (i + s) n b) cs list'')
          (append_assoc front ((s, false) ∷ []) ((n, true) ∷ left_over r ++ back)) t,
    )

split_aligned-SameRest : (i skip : ℕ) (a : Allocator) → SameRest (split_aligned i skip a) a
unfolding split_aligned
split_aligned-SameRest i zero a = record { address = refl; size = refl; used = refl; peak = refl }
split_aligned-SameRest i (suc skip) a = split_front-SameRest i (suc skip) a

pub allocate_in-peak :
    (a : Allocator) (i size alignment : ℕ)
    → (allocate_in i size alignment a).1.used ≤ (allocate_in i size alignment a).1.peak
unfolding allocate_in
allocate_in-peak a i size alignment =
    let skip = align_diff i alignment a / block_size in
    take_block-peak (split_aligned i skip a) (i + skip)
      (sub (blocks_needed i size alignment a) skip)

pub allocate_in-address :
    (a : Allocator) (i size alignment : ℕ) → (allocate_in i size alignment a).1.address ≡ a.address
unfolding allocate_in
allocate_in-address a i size alignment =
    let skip = align_diff i alignment a / block_size in
    take_block-address (split_aligned i skip a) (i + skip)
      (sub (blocks_needed i size alignment a) skip)
    ∙ (split_aligned-SameRest i skip a).address

pub allocate_in-used :
    (a : Allocator) (i size alignment skip n : ℕ)
    → align_diff i alignment a / block_size ≡ skip
    → sub (blocks_needed i size alignment a) skip ≡ n
    → (allocate_in i size alignment a).1.used ≡ (a.used + n * block_size) % 2 ^ 64
unfolding allocate_in
allocate_in-used a i size alignment skip n s m =
    let skip' = align_diff i alignment a / block_size in
    let n' = sub (blocks_needed i size alignment a) skip' in
    let e : n' ≡ n = ap (λ (j : ℕ). sub (blocks_needed i size alignment a) j) s ∙ m in
    take_block-used (split_aligned i skip' a) (i + skip') n'
    ∙ ap (λ (u : ℕ). (u + n' * block_size) % 2 ^ 64) (split_aligned-SameRest i skip' a).used
    ∙ ap (λ (j : ℕ). (a.used + j * block_size) % 2 ^ 64) e

module _ (a : Allocator) (front : List Chunk) (k : ℕ) (back : List Chunk) (list : List ℕ)
    (size alignment skip n r : ℕ) where
  pub allocate_in-IsTiled :
      IsTiled a (front ++ (k, false) ∷ back) list
      → align_diff (total front) alignment a / block_size ≡ skip
      → sub (blocks_needed (total front) size alignment a) skip ≡ n
      → 0 < n
      → skip + (n + r) ≡ k
      → (list' : List ℕ) × IsTiled
          (allocate_in (total front) size alignment a).1
          (front ++ (left_over skip ++ ((n, true) ∷ left_over r ++ back)))
          list'
  unfolding allocate_in
  allocate_in-IsTiled h s m l p =
      let i = total front in
      let result : ℕ → ℕ → Type 0 = λ skip' n'.
        (list' : List ℕ) × IsTiled (take_block (i + skip') n' (split_aligned i skip' a))
          (front ++ (left_over skip ++ ((n, true) ∷ left_over r ++ back))) list' in
      let h' = subst (λ (j : ℕ). IsTiled a (front ++ (j, false) ∷ back) list) (sym p) h in
      subst (λ (j : ℕ). result j (sub (blocks_needed i size alignment a) j)) (sym s)
        (subst (result skip) (sym m) (aligned-IsTiled a front skip n r back list l h'))

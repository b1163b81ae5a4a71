-- ===== src/Allocator/Cut.antt =====
-- A chunk of `Allocator` is cut in two.
use mathlib.Core.Path.{subst}
use corosig.Prelude.{
  ℕ, ◌+◌, ◌^◌, ◌<◌, ◌≡◌, sym, ap, ◌∙◌, ◌≢◌, List, [], ◌∷◌, ◌++◌, false, Bool, All, arith,
}
use corosig.Allocator.{
  BlockMetadata, Allocator, on_block, invalid_idx, blocks_amount, default_initialize, new_chunk,
}
use corosig.Allocator.Chain.{Chain-frame, at_block-other, at_block-same}
use corosig.Allocator.FreeList.{IsFreeList, IsUnlinked}
use corosig.Allocator.Chunks.{Chunk, Rests}
use corosig.Allocator.Open.{IsOpen, Open-middle, owned-reach}
use corosig.Allocator.Owned.{owned_self, with_owned}
use corosig.Allocator.Kept.{owned-IsFreeList, SameRest-blocks, owned-SameRest, on_block-SameRest}
use corosig.Allocator.Shift.{shift-IsOpen}

-- A header that is not in the list may change.
pub frame-IsFreeList :
    (j : ℕ) (change : BlockMetadata → BlockMetadata) (a : Allocator) (list : List ℕ)
    → All (λ y. j ≢ y) list
    → IsFreeList a list
    → IsFreeList (on_block j change a) list
unfolding on_block
frame-IsFreeList j change a list n f = record {
  first = f.first;
  last = f.last;
  chain = Chain-frame j change a.mem invalid_idx list invalid_idx n f.chain;
  distinct = f.distinct;
  valid = f.valid;
}

pub on_block-same :
    (j : ℕ) (change : BlockMetadata → BlockMetadata) (a : Allocator)
    → (on_block j change a).mem j ≡ change (a.mem j)
unfolding on_block
on_block-same j change a = at_block-same j change a.mem

pub on_block-other :
    (i j : ℕ) (change : BlockMetadata → BlockMetadata) (a : Allocator)
    → i ≢ j
    → (on_block i change a).mem j ≡ a.mem j
unfolding on_block
on_block-other i j change a h = at_block-other i j change a.mem h

module _ (a : Allocator) (j r : ℕ) (small : r < 2 ^ 31) (positive : 0 < r) where
  new_chunk_self : (new_chunk j r a).mem j ≡ with_owned r (default_initialize (a.mem j))
  unfolding new_chunk
  new_chunk_self =
      owned_self j r (on_block j default_initialize a) small positive
      ∙ ap (with_owned r) (on_block-same j default_initialize a)

  pub new_chunk-owned : ((new_chunk j r a).mem j).blocks_owned ≡ r
  new_chunk-owned = ap (λ b. b.blocks_owned) new_chunk_self

  pub new_chunk-IsUnlinked : IsUnlinked ((new_chunk j r a).mem j)
  unfolding default_initialize
  new_chunk-IsUnlinked = (
    ap (λ b. b.prev_free_block_idx) new_chunk_self,
    ap (λ b. b.next_free_block_idx) new_chunk_self,
  )

  pub new_chunk-blocks : blocks_amount (new_chunk j r a) ≡ blocks_amount a
  unfolding new_chunk
  new_chunk-blocks =
      SameRest-blocks (owned-SameRest j r (on_block j default_initialize a))
      ∙ SameRest-blocks (on_block-SameRest j default_initialize a)

  pub new_chunk-IsFreeList :
      (list : List ℕ)
      → All (λ y. j ≢ y) list
      → IsFreeList a list
      → IsFreeList (new_chunk j r a) list
  unfolding new_chunk
  new_chunk-IsFreeList list n f =
      owned-IsFreeList j r (on_block j default_initialize a) small list
        (frame-IsFreeList j default_initialize a list n f)

module _ (a : Allocator) (front : List Chunk) (i n : ℕ) (u : Bool) (e gap : ℕ) (back : List Chunk)
    (r : ℕ) (small : r < 2 ^ 31) where
  pub new_chunk-IsOpen :
      IsOpen a front i u e gap back
      → (a.mem i).blocks_owned ≡ n
      → Rests u (a.mem i)
      → 0 < n
      → 0 < r
      → i + n + r ≡ e
      → (a.mem (i + n)).blocks_before ≡ n
      → IsOpen (new_chunk (i + n) r a) (front ++ (n, u) ∷ []) (i + n) false e r back
  unfolding new_chunk on_block default_initialize
  new_chunk-IsOpen o q t l p s b =
      let inside : i + n < e = omega arith in
      let ne : i + n ≢ i = λ z. omega arith in
      let same = at_block-same (i + n) default_initialize a.mem in
      let kept = at_block-other (i + n) i default_initialize a.mem ne in
      let a' = on_block (i + n) default_initialize a in
      let o' =
        Open-middle a front i u e gap back (i + n) default_initialize (omega arith) inside o in
      let shifted =
        shift-IsOpen a' front i u e gap back n false o' (ap (λ m. m.blocks_owned) kept ∙ q)
          (subst (Rests u) (sym kept) t) l inside (ap (λ m. m.blocks_before) same ∙ b)
          (ap (λ m. m.is_used) same) in
      owned-reach a' (front ++ (n, u) ∷ []) (i + n) r false e gap small p back s shifted

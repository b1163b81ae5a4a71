-- ===== src/Allocator/Hole.antt =====
-- Operations of `Allocator` on the header of blocks that are in no free list.
use mathlib.Core.Path.{subst}
use mathlib.Core.List.{Perm, append-nil}
use corosig.Prelude.{
  ℕ, ◌+◌, ◌^◌, ◌<◌, ◌≡◌, refl, sym, ◌∙◌, List, [], ◌∷◌, ◌++◌, true, false, Bool, arith,
}
use corosig.Allocator.{
  BlockMetadata, Allocator, at_block, on_block, set_blocks_owned, new_chunk, push_free_node,
  is_large,
}
use corosig.Allocator.FreeList.{pushed}
use corosig.Allocator.Chunks.{Chunk, frees}
use corosig.Allocator.Frames.{push-SameShape}
use corosig.Allocator.Members.{Perm-differ}
use corosig.Allocator.Open.{Open-first, owned-cut, owned-reach}
use corosig.Allocator.Kept.{
  SameLinks, IsUnlinked-same, owned-SameLinks, owned-IsFreeList, SameRest-blocks, owned-SameRest,
  on_block-SameRest, mem-IsFreeList, at_block-SameLinks,
}
use corosig.Allocator.Heap.{IsTiled, IsHole, open-differ, push-IsListed}
use corosig.Allocator.Cut.{
  new_chunk-IsOpen, new_chunk-IsFreeList, new_chunk-IsUnlinked, new_chunk-blocks,
}
use corosig.Allocator.Shift.{listed-IsTiled, frees-used}

abbrev pub marked : Bool → BlockMetadata → BlockMetadata
marked w b = record b { is_used = w }

module _ (a : Allocator) (front : List Chunk) (i : ℕ) (u : Bool) (e gap : ℕ) (back : List Chunk)
    (list : List ℕ) where
  pub mark-IsHole :
      (w : Bool)
      → IsHole a front i u e gap back list
      → IsHole (on_block i (marked w) a) front i w e gap back list
  unfolding on_block
  mark-IsHole w h =
      let links : (j : ℕ) → SameLinks (at_block i (marked w) a.mem j) (a.mem j) =
        λ j. at_block-SameLinks i (marked w) a.mem j (record { prev = refl; next = refl }) in
      record {
        layout = Open-first a front i u e gap back (marked w) w h.layout refl refl;
        small =
            subst (λ (n : ℕ). n < 2 ^ 31) (sym (SameRest-blocks (on_block-SameRest i (marked w) a)))
              h.small;
        listed = mem-IsFreeList a (at_block i (marked w) a.mem) list links h.listed;
        members = h.members;
        rest = IsUnlinked-same (links i) h.rest;
      }

  pub reach-IsHole :
      (v : ℕ)
      → v < 2 ^ 31
      → 0 < v
      → i + v ≡ e
      → IsHole a front i u e gap back list
      → IsHole (set_blocks_owned i v a) front i u e v back list
  reach-IsHole v s p r h = record {
    layout = owned-reach a front i v u e gap s p back r h.layout;
    small = subst (λ (n : ℕ). n < 2 ^ 31) (sym (SameRest-blocks (owned-SameRest i v a))) h.small;
    listed = owned-IsFreeList i v a s list h.listed;
    members = h.members;
    rest = IsUnlinked-same (owned-SameLinks i v a s i) h.rest;
  }

  pub cut-IsHole :
      (v : ℕ)
      → v < 2 ^ 31
      → 0 < v
      → i + v < e
      → IsHole a front i u e gap back list
      → IsHole (set_blocks_owned i v a) front i u e gap back list
  cut-IsHole v s p r h = record {
    layout = owned-cut a front i v u e gap back s p r h.layout;
    small = subst (λ (n : ℕ). n < 2 ^ 31) (sym (SameRest-blocks (owned-SameRest i v a))) h.small;
    listed = owned-IsFreeList i v a s list h.listed;
    members = h.members;
    rest = IsUnlinked-same (owned-SameLinks i v a s i) h.rest;
  }

-- What is left behind a used chunk becomes a hole of its own.
pub next-IsHole :
    (a : Allocator) (front : List Chunk) (i n e gap : ℕ) (back : List Chunk) (list : List ℕ) (r : ℕ)
    → r < 2 ^ 31
    → 0 < n
    → 0 < r
    → i + n + r ≡ e
    → IsHole a front i true e gap back list
    → (a.mem i).blocks_owned ≡ n
    → (a.mem (i + n)).blocks_before ≡ n
    → IsHole (new_chunk (i + n) r a) (front ++ (n, true) ∷ []) (i + n) false e r back list
next-IsHole a front i n e gap back list r small l p s h q b =
    let o = h.layout in
    let differ =
      Perm-differ (i + n) h.members
        (open-differ a front i true e gap back (i + n) o (omega arith) (omega arith)) in
    record {
      layout = new_chunk-IsOpen a front i n true e gap back r small o q h.rest l p s b;
      small = subst (λ (m : ℕ). m < 2 ^ 31) (sym (new_chunk-blocks a (i + n) r small p)) h.small;
      listed = new_chunk-IsFreeList a (i + n) r small p list differ h.listed;
      members =
          subst (λ f. Perm list (f ++ frees e back))
            (sym (frees-used front n [] ∙ append-nil (frees 0 front))) h.members;
      rest = new_chunk-IsUnlinked a (i + n) r small p;
    }

-- A whole chunk that is not used is put into the free list.
pub push-IsTiled :
    (a : Allocator) (front : List Chunk) (i e gap : ℕ) (back : List Chunk) (list : List ℕ) (k : ℕ)
    → IsHole a front i false e gap back list
    → (a.mem i).blocks_owned ≡ k
    → i + k ≡ e
    → gap ≡ k
    → IsTiled (push_free_node i a) (front ++ (k, false) ∷ back) (pushed (is_large i a) i list)
push-IsTiled a front i e gap back list k h q p g =
    listed-IsTiled (push_free_node i a) front i e gap back (pushed (is_large i a) i list) k
      (push-IsListed a front i e gap back list h) ((push-SameShape i a i).owned ∙ q) p g
